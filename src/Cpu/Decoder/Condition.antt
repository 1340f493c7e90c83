-- ===== src/Cpu/Decoder/Condition.antt =====
-- Opcode 19 of `decode` (src/cpu/espresso/decoder.cpp), the branches to registers and the logic of the
-- condition register.
use affogato.Base.{ℕ, ◌&&◌, ◌||◌, bit_and, ◌==◌, if◌then◌else◌}
use affogato.Cpu.Decoder.Instruction.{Opcode, DecodedInstruction, blank}
use affogato.Cpu.Decoder.Fields.{field}
use affogato.Cpu.Decoder.Forms.{plain_form, cr_bits_form, cr_move_form, branch_form}

unfoldable pub decode_condition : ℕ → ℕ → DecodedInstruction
decode_condition raw extended_opcode =
    if raw == 0x4C00012C
    then plain_form raw Opcode.instruction_sync
    else if extended_opcode == 257 && bit_and raw 1 == 0
    then cr_bits_form raw Opcode.condition_bit_and
    else if extended_opcode == 129 && bit_and raw 1 == 0
    then cr_bits_form raw Opcode.condition_bit_and_complement
    else if extended_opcode == 449 && bit_and raw 1 == 0
    then cr_bits_form raw Opcode.condition_bit_or
    else if extended_opcode == 417 && bit_and raw 1 == 0
    then cr_bits_form raw Opcode.condition_bit_or_complement
    else if extended_opcode == 33 && bit_and raw 1 == 0
    then cr_bits_form raw Opcode.condition_bit_nor
    else if extended_opcode == 193 && bit_and raw 1 == 0
    then cr_bits_form raw Opcode.condition_bit_xor
    else if extended_opcode == 225 && bit_and raw 1 == 0
    then cr_bits_form raw Opcode.condition_bit_nand
    else if extended_opcode == 289 && bit_and raw 1 == 0
    then cr_bits_form raw Opcode.condition_bit_equivalence
    else if extended_opcode == 0
        && field raw 21 0x3 == 0
        && field raw 16 0x3 == 0
        && bit_and raw 1 == 0
    then cr_move_form raw Opcode.move_condition_register_field
    else if extended_opcode == 16 || extended_opcode == 528
    then branch_form raw (
        if extended_opcode == 16
        then Opcode.conditional_branch_to_link_register
        else Opcode.conditional_branch_to_count_register)
    else blank raw
