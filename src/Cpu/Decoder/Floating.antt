-- ===== src/Cpu/Decoder/Floating.antt =====
-- Opcode 63 of `decode` (src/cpu/espresso/decoder.cpp), the double-precision and status instructions, in
-- two parts.
use affogato.Base.{ℕ, ◌&&◌, bit_and, bit_or, ◌<<<◌, ◌==◌, if◌then◌else◌}
use affogato.Cpu.Decoder.Instruction.{Opcode, DecodedInstruction, blank}
use affogato.Cpu.Decoder.Fields.{field}
use affogato.Cpu.Decoder.FloatForms.{
  fp_move_form, fp_round_form, fp_add_form, fp_multiply_form, fp_multiply_add_form, fp_compare_form,
  fp_register_form, fpscr_bit_form, fpscr_immediate_form, fpscr_fields_form, fpscr_move_form,
}

unfoldable pub decode_floating_double : ℕ → DecodedInstruction
decode_floating_double raw =
    if field raw 1 0x1F == 21 && field raw 6 0x1F == 0 && bit_and raw 1 == 0
    then fp_add_form raw Opcode.floating_add_double
    else if field raw 1 0x1F == 23 && bit_and raw 1 == 0
    then fp_multiply_add_form raw Opcode.floating_select
    else if field raw 1 0x1F == 25 && field raw 11 0x1F == 0 && bit_and raw 1 == 0
    then fp_multiply_form raw Opcode.floating_multiply_double
    else if field raw 1 0x1F == 28 && bit_and raw 1 == 0
    then fp_multiply_add_form raw Opcode.floating_multiply_subtract_double
    else if field raw 1 0x1F == 30 && bit_and raw 1 == 0
    then fp_multiply_add_form raw Opcode.floating_negative_multiply_subtract_double
    else if field raw 1 0x1F == 31 && bit_and raw 1 == 0
    then fp_multiply_add_form raw Opcode.floating_negative_multiply_add_double
    else if field raw 1 0x1F == 29 && bit_and raw 1 == 0
    then fp_multiply_add_form raw Opcode.floating_multiply_add_double
    else if field raw 1 0x3FF == 0 && bit_and raw (bit_or (0x3 <<< 21) 1) == 0
    then fp_compare_form raw Opcode.floating_compare_unordered
    else if field raw 1 0x3FF == 32 && bit_and raw (bit_or (0x3 <<< 21) 1) == 0
    then fp_compare_form raw Opcode.floating_compare_ordered
    else blank raw

unfoldable pub decode_floating_move : ℕ → DecodedInstruction
decode_floating_move raw =
    if field raw 1 0x3FF == 64
      && field raw 21 0x3 == 0
      && field raw 16 0x3 == 0
      && field raw 11 0x1F == 0
      && bit_and raw 1 == 0
    then fpscr_move_form raw Opcode.move_condition_register_from_fpscr
    else if field raw 1 0x3FF == 72 && field raw 16 0x1F == 0 && bit_and raw 1 == 0
    then fp_move_form raw Opcode.floating_move_register
    else if field raw 1 0x3FF == 40 && field raw 16 0x1F == 0 && bit_and raw 1 == 0
    then fp_move_form raw Opcode.floating_negate
    else if field raw 1 0x3FF == 264 && field raw 16 0x1F == 0 && bit_and raw 1 == 0
    then fp_move_form raw Opcode.floating_absolute_value
    else if field raw 1 0x3FF == 24
        && field raw 16 0x1F == 0
        && field raw 6 0x1F == 0
        && bit_and raw 1 == 0
    then fp_move_form raw Opcode.floating_reciprocal_estimate_single
    else if field raw 1 0x3FF == 26
        && field raw 16 0x1F == 0
        && field raw 6 0x1F == 0
        && bit_and raw 1 == 0
    then fp_move_form raw Opcode.floating_reciprocal_square_root_estimate
    else if field raw 1 0x3FF == 136 && field raw 16 0x1F == 0 && bit_and raw 1 == 0
    then fp_move_form raw Opcode.floating_negative_absolute_value
    else if field raw 1 0x3FF == 583 && field raw 11 0x3FF == 0 && bit_and raw 1 == 0
    then fp_register_form raw Opcode.floating_move_from_fpscr
    else if field raw 1 0x3FF == 70 && field raw 11 0x3FF == 0 && bit_and raw 1 == 0
    then fpscr_bit_form raw Opcode.floating_move_to_fpscr_bit_zero
    else if field raw 1 0x3FF == 38 && field raw 11 0x3FF == 0 && bit_and raw 1 == 0
    then fpscr_bit_form raw Opcode.floating_move_to_fpscr_bit_one
    else if field raw 1 0x3FF == 134
        && field raw 21 0x3 == 0
        && field raw 16 0x1F == 0
        && field raw 11 0x1 == 0
        && bit_and raw 1 == 0
    then fpscr_immediate_form raw Opcode.floating_move_to_fpscr_field_immediate
    else if field raw 1 0x3FF == 711
        && field raw 25 0x1 == 0
        && field raw 16 0x1 == 0
        && bit_and raw 1 == 0
    then fpscr_fields_form raw Opcode.floating_move_to_fpscr_fields
    else if field raw 1 0x3FF == 15 && field raw 16 0x1F == 0 && bit_and raw 1 == 0
    then fp_move_form raw Opcode.floating_convert_to_integer_word_zero
    else if field raw 1 0x3FF == 14 && field raw 16 0x1F == 0 && bit_and raw 1 == 0
    then fp_move_form raw Opcode.floating_convert_to_integer_word
    else if field raw 1 0x3FF == 12 && field raw 16 0x1F == 0 && bit_and raw 1 == 0
    then fp_round_form raw Opcode.floating_round_to_single
    else if field raw 1 0x1F == 18 && field raw 6 0x1F == 0 && bit_and raw 1 == 0
    then fp_add_form raw Opcode.floating_divide_double
    else if field raw 1 0x1F == 20 && field raw 6 0x1F == 0 && bit_and raw 1 == 0
    then fp_add_form raw Opcode.floating_subtract_double
    else decode_floating_double raw
