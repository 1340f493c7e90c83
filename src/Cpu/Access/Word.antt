-- ===== src/Cpu/Access/Word.antt =====
-- A word stored and loaded again (src/cpu/espresso/interpreter.cpp), in the flat memory of
-- guest_memory.hpp.
use affogato.Base.{◌^◌, ◌<◌, ◌≡◌, refl, ok}
use affogato.Cpu.State.{CpuState}
use affogato.Cpu.Flags.{write_gpr}
use affogato.Cpu.Decoder.Instruction.{DecodedInstruction}
use affogato.Cpu.Access.{effective_address, load_word_zero, store_word}
use affogato.Memory.State.{GuestMemory}
use affogato.Memory.Bytes.{IsWellFormed}
use affogato.Memory.Words.{IsFlatWord, write32_be-ShowsWord}

-- In a well-formed memory, `stw` of a 32-bit register to a word of flat memory succeeds and changes no
-- register, and a later `lwz` whose effective address is that of the store, in whatever state of the
-- registers, gives the stored value to its destination.
pub load_word_zero-store_word :
    (s t : CpuState) (m : GuestMemory) (put get : DecodedInstruction)
    → IsWellFormed m
    → IsFlatWord m (effective_address s put.base put.immediate)
    → s.gpr put.destination < 2 ^ 32
    → effective_address t get.base get.immediate ≡ effective_address s put.base put.immediate
    → (m' : GuestMemory) × (store_word s m put ≡ ok (s, m'))
      × (load_word_zero t m' get ≡ ok (write_gpr t get.destination (s.gpr put.destination), m'))
unfolding store_word load_word_zero
load_word_zero-store_word s t m put get w fits small same =
    let (m', done, shows) =
      write32_be-ShowsWord m (effective_address s put.base put.immediate) (s.gpr put.destination) w
        fits small in
    (m', rw done refl, rw (same, shows.reads_back) refl)
