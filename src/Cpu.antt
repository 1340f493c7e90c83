-- ===== src/Cpu.antt =====
-- src/cpu/espresso/cpu_state.hpp and the integer part of src/cpu/espresso/interpreter.cpp.
pub mod State
pub mod Flags
pub mod Arithmetic
pub mod Logic
pub mod Decoder
pub mod Branch
pub mod Condition
pub mod Multiply
pub mod Access
pub mod Execute
