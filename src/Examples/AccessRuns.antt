-- ===== src/Examples/AccessRuns.antt =====
-- The theorems on the loads and stores of interpreter.cpp at a memory of 64 flat bytes.
use affogato.Base.{false, ℕ, ◌^◌, ◌<◌, ◌≡◌, refl, true, ok, arith, leb, if◌then◌else◌}
use affogato.Cpu.State.{CpuState, zeroed, put}
use affogato.Cpu.Flags.{write_gpr}
use affogato.Cpu.Decoder.Instruction.{Opcode, DecodedInstruction, blank}
use affogato.Cpu.Access.{
  effective_address, indexed_address, load_word_reserve_indexed, store_word_conditional_indexed,
  load_multiple_word, store_multiple_word,
}
use affogato.Cpu.Access.Multiple.{load_multiple_word-store_multiple_word}
use affogato.Cpu.Access.Reserve.{Reports, store_word_conditional_indexed-load_word_reserve_indexed}
use affogato.Memory.State.{GuestMemory, new}
use affogato.Memory.Map.{reservation_address, resolve_alias}
use affogato.Memory.Read.{read32_be}
use affogato.Memory.Access.{is_flat_range}
use affogato.Memory.Bytes.{IsWellFormed}
use affogato.Memory.Layout.Kept.{new-IsLaidOut}

abbrev memory : GuestMemory
memory = new 64

memory-IsWellFormed : IsWellFormed memory
unfolding new
memory-IsWellFormed = record { laid_out = new-IsLaidOut 64; watch_fits = tt }

-- r1 points to the words, r30 and r31 hold numbers.
abbrev registers : CpuState
registers = record zeroed { gpr = put (put (put (λ r. 0) 1 16) 30 0x12345678) 31 0xFFFFFFFF }

registers_fit : (register : ℕ) → registers.gpr register < 2 ^ 32
registers_fit register = ground arith

abbrev save : DecodedInstruction
save = record (blank 0xBFC10008) {
  opcode = Opcode.store_multiple_word;
  source = 30;
  base = 1;
  immediate = 8;
}

abbrev restore : DecodedInstruction
restore = record (blank 0xBBC10008) {
  opcode = Opcode.load_multiple_word;
  destination = 30;
  base = 1;
  immediate = 8;
}

abbrev lost : CpuState
lost = record zeroed { gpr = put (λ r. 0) 1 16 }

load_multiple_word-store_multiple_word_example :
    (m' : GuestMemory) × (store_multiple_word registers memory save ≡ ok (registers, m'))
    × (t' : CpuState) × (load_multiple_word lost m' restore ≡ ok (t', m'))
    × ((r : ℕ) → r < 32 → t'.gpr r ≡ (if leb 30 r then registers.gpr r else lost.gpr r))
load_multiple_word-store_multiple_word_example =
    load_multiple_word-store_multiple_word registers lost memory save restore registers_fit
      memory-IsWellFormed (omega arith) (unfold effective_address new in (omega arith))
      (unfold new in (omega arith)) refl (unfold effective_address in refl)

-- `lwarx r3, 0, r1` and `stwcx. r30, 0, r1`.
abbrev reserve : DecodedInstruction
reserve = record (blank 0x7C600828) {
  opcode = Opcode.load_word_reserve_indexed;
  destination = 3;
  source = 1;
}

abbrev conditional : DecodedInstruction
conditional = record (blank 0x7FC0092D) {
  opcode = Opcode.store_word_conditional_indexed;
  destination = 30;
  source = 1;
}

abbrev reserving : CpuState
reserving = record (write_gpr registers 3 0) { reservation_address = 16; reservation_valid = true }

reserved : load_word_reserve_indexed registers memory reserve ≡ ok (reserving, memory)
unfolding load_word_reserve_indexed indexed_address read32_be is_flat_range new reservation_address
    resolve_alias
reserved = refl

store_word_conditional_indexed-load_word_reserve_indexed_example :
    (u : CpuState) × (stored : GuestMemory) × (store_word_conditional_indexed reserving memory
        conditional
      ≡ ok (u, stored))
    × Reports reserving true u
    × (read32_be stored (indexed_address registers reserve) ≡ ok (reserving.gpr 30))
    × (v : CpuState) × (store_word_conditional_indexed u stored conditional ≡ ok (v, stored))
    × Reports u false v
store_word_conditional_indexed-load_word_reserve_indexed_example =
    store_word_conditional_indexed-load_word_reserve_indexed registers reserving reserving memory
      memory memory reserve conditional reserved refl refl refl
      (unfold indexed_address write_gpr in refl) memory-IsWellFormed
      (unfold indexed_address new in (omega arith)) (unfold write_gpr in (omega arith))
