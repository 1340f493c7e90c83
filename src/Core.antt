-- ===== src/Core.antt =====
-- `EspressoCore` of src/cpu/espresso/interpreter.hpp: the parts that the modelled components
-- share, and the guest heap.
pub mod Heap
pub mod Step
pub mod Run
use affogato.Base.{ℕ}
use affogato.Cpu.State.{CpuState}
use affogato.Memory.State.{GuestMemory}
use affogato.Hle.State.{HleDispatcher}

pub record EspressoCore : Type 0 where
  pub state : CpuState
  pub memory : GuestMemory
  pub hle : HleDispatcher
  pub current_thread_address : ℕ
  pub guest_heap_cursor : ℕ
  pub guest_heap_limit : ℕ
