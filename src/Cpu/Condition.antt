-- ===== src/Cpu/Condition.antt =====
-- The instructions of `EspressoCore::step` (src/cpu/espresso/interpreter.cpp) on the bits and fields of
-- the condition register.
pub mod Bits
pub mod Fields
use affogato.Base.{
  ℕ, zero, suc, ◌+◌, ◌-◌, ◌*◌, Bool, true, not, ◌&&◌, ◌||◌, bit_and, bit_or, u32, not32, ◌<<<◌,
  ◌>>>◌, ◌==◌, if◌then◌else◌,
}
use affogato.Cpu.State.{CpuState}
use affogato.Cpu.Flags.{put_cr_field, read_cr_bit, write_gpr}
use affogato.Cpu.Decoder.Instruction.{Opcode, DecodedInstruction}
use affogato.Cpu.Branch.{same}

-- The chain of tests on the opcode; its last branch is that of `creqv`.
unfoldable pub condition_result : Opcode → Bool → Bool → Bool
condition_result Opcode.condition_bit_and a b = a && b
condition_result Opcode.condition_bit_and_complement a b = a && not b
condition_result Opcode.condition_bit_or a b = a || b
condition_result Opcode.condition_bit_or_complement a b = a || not b
condition_result Opcode.condition_bit_nor a b = not (a || b)
condition_result Opcode.condition_bit_xor a b = not (same a b)
condition_result Opcode.condition_bit_nand a b = not (a && b)
condition_result _ a b = same a b

unfoldable pub put_cr_bit : CpuState → ℕ → Bool → CpuState
put_cr_bit s bit_number result =
    let destination_mask = 1 <<< (31 - bit_number) in
    record s {
      cr = if result then bit_or s.cr destination_mask else bit_and s.cr (not32 destination_mask);
    }

unfoldable pub execute_condition_bit : CpuState → DecodedInstruction → CpuState
execute_condition_bit s i =
    put_cr_bit s i.cr_destination_bit (
      condition_result i.opcode (read_cr_bit s i.cr_source_a_bit) (read_cr_bit s i.cr_source_b_bit))

unfoldable pub move_condition_register_field : CpuState → DecodedInstruction → CpuState
move_condition_register_field s i =
    put_cr_field s i.cr_field (bit_and (s.cr >>> (28 - 4 * i.cr_field_source)) 0xF)

unfoldable pub move_from_condition_register : CpuState → DecodedInstruction → CpuState
move_from_condition_register s i = write_gpr s i.destination s.cr

-- The loop over the fields, from `field_index` on, on the register's value.
unfoldable pub move_fields : ℕ → ℕ → ℕ → ℕ → ℕ → ℕ
move_fields mask source field_index zero cr = cr
move_fields mask source field_index (suc left) cr =
    let mask_bit = 1 <<< (7 - field_index) in
    let field_mask = u32 (0xF <<< (28 - 4 * field_index)) in
    let moved = bit_or (bit_and cr (not32 field_mask)) (bit_and source field_mask) in
    move_fields mask source (field_index + 1) left
      (if bit_and mask mask_bit == 0 then cr else moved)

unfoldable pub move_to_condition_register_fields : CpuState → DecodedInstruction → CpuState
move_to_condition_register_fields s i = record s {
  cr = move_fields i.cr_field_mask (s.gpr i.destination) 0 8 s.cr;
}

unfoldable pub move_condition_register_from_xer : CpuState → DecodedInstruction → CpuState
move_condition_register_from_xer s i =
    let value = s.xer >>> 28 in
    let moved = put_cr_field s i.cr_field (bit_and value 0xF) in
    record moved { xer = bit_and s.xer 0x0FFFFFFF }
