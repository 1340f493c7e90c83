-- ===== src/Cpu/Decoder/Single.antt =====
-- Opcode 59 of `decode` (src/cpu/espresso/decoder.cpp), the single-precision instructions.
use affogato.Base.{ℕ, ◌&&◌, ◌||◌, bit_and, ◌==◌, if◌then◌else◌}
use affogato.Cpu.Decoder.Instruction.{Opcode, DecodedInstruction, blank}
use affogato.Cpu.Decoder.Fields.{field}
use affogato.Cpu.Decoder.FloatForms.{fp_add_form, fp_multiply_form, fp_multiply_add_form}

unfoldable pub decode_floating_single : ℕ → ℕ → DecodedInstruction
decode_floating_single raw extended_opcode =
    if extended_opcode == 18 || extended_opcode == 20 || extended_opcode == 21
    then (if field raw 6 0x1F == 0 && bit_and raw 1 == 0
        then fp_add_form raw (
            if extended_opcode == 18
            then Opcode.floating_divide_single
            else if extended_opcode == 20
            then Opcode.floating_subtract_single
            else Opcode.floating_add_single)
        else blank raw)
    else if extended_opcode == 25 && field raw 11 0x1F == 0 && bit_and raw 1 == 0
    then fp_multiply_form raw Opcode.floating_multiply_single
    else if extended_opcode == 29 && bit_and raw 1 == 0
    then fp_multiply_add_form raw Opcode.floating_multiply_add_single
    else if extended_opcode == 28 && bit_and raw 1 == 0
    then fp_multiply_add_form raw Opcode.floating_multiply_subtract_single
    else if extended_opcode == 30 && bit_and raw 1 == 0
    then fp_multiply_add_form raw Opcode.floating_negative_multiply_subtract_single
    else if extended_opcode == 31 && bit_and raw 1 == 0
    then fp_multiply_add_form raw Opcode.floating_negative_multiply_add_single
    else blank raw
