-- ===== src/Cpu/Decoder/Paired.antt =====
-- Opcode 4 of `decode` (src/cpu/espresso/decoder.cpp), the paired-single instructions, in three parts.
use affogato.Base.{ℕ, not, ◌&&◌, ◌||◌, bit_and, bit_or, ◌<<<◌, ◌==◌, if◌then◌else◌}
use affogato.Cpu.Decoder.Instruction.{Opcode, DecodedInstruction, blank}
use affogato.Cpu.Decoder.Fields.{field}
use affogato.Cpu.Decoder.Forms.{base_form}
use affogato.Cpu.Decoder.FloatForms.{
  fp_move_form, fp_add_form, fp_multiply_form, fp_multiply_add_form, fp_compare_form,
  fp_compare_ps1_form, quantized_indexed_form,
}

unfoldable pub decode_paired_compare : ℕ → DecodedInstruction
decode_paired_compare raw =
    if field raw 1 0x3FF == 32 && bit_and raw (bit_or (0x3 <<< 21) 1) == 0
    then fp_compare_form raw Opcode.paired_single_compare_ordered0
    else if field raw 1 0x3FF == 96 && bit_and raw (bit_or (0x3 <<< 21) 1) == 0
    then fp_compare_ps1_form raw Opcode.paired_single_compare_ordered1
    else if field raw 1 0x1F == 24
        && field raw 16 0x1F == 0
        && field raw 6 0x1F == 0
        && bit_and raw 1 == 0
    then fp_move_form raw Opcode.paired_single_reciprocal_estimate
    else if field raw 1 0x1F == 26
        && field raw 16 0x1F == 0
        && field raw 6 0x1F == 0
        && bit_and raw 1 == 0
    then fp_move_form raw Opcode.paired_single_reciprocal_square_root_estimate
    else if field raw 1 0x1F == 21 && field raw 6 0x1F == 0 && bit_and raw 1 == 0
    then fp_add_form raw Opcode.paired_single_add
    else if field raw 1 0x1F == 20 && field raw 6 0x1F == 0 && bit_and raw 1 == 0
    then fp_add_form raw Opcode.paired_single_subtract
    else blank raw

unfoldable pub decode_paired_multiply : ℕ → DecodedInstruction
decode_paired_multiply raw =
    if field raw 1 0x1F == 12 && field raw 11 0x1F == 0 && bit_and raw 1 == 0
    then fp_multiply_form raw Opcode.paired_single_multiply_scalar0
    else if field raw 1 0x1F == 13 && field raw 11 0x1F == 0 && bit_and raw 1 == 0
    then fp_multiply_form raw Opcode.paired_single_multiply_scalar1
    else if field raw 1 0x1F == 14 && bit_and raw 1 == 0
    then fp_multiply_add_form raw Opcode.paired_single_multiply_add_scalar0
    else if field raw 1 0x1F == 15 && bit_and raw 1 == 0
    then fp_multiply_add_form raw Opcode.paired_single_multiply_add_scalar1
    else if field raw 1 0x1F == 30 && bit_and raw 1 == 0
    then fp_multiply_add_form raw Opcode.paired_single_negative_multiply_add
    else if field raw 1 0x1F == 31 && bit_and raw 1 == 0
    then fp_multiply_add_form raw Opcode.paired_single_negative_multiply_subtract
    else if field raw 1 0x1F == 25 && field raw 11 0x1F == 0 && bit_and raw 1 == 0
    then fp_multiply_form raw Opcode.paired_single_multiply
    else if field raw 1 0x1F == 29 && bit_and raw 1 == 0
    then fp_multiply_add_form raw Opcode.paired_single_multiply_add
    else if field raw 1 0x1F == 28 && bit_and raw 1 == 0
    then fp_multiply_add_form raw Opcode.paired_single_multiply_subtract
    else if field raw 1 0x1F == 10 && bit_and raw 1 == 0
    then fp_multiply_add_form raw Opcode.paired_single_sum0
    else if field raw 1 0x1F == 11 && bit_and raw 1 == 0
    then fp_multiply_add_form raw Opcode.paired_single_sum1
    else if field raw 1 0x1F == 18 && field raw 6 0x1F == 0 && bit_and raw 1 == 0
    then fp_add_form raw Opcode.paired_single_divide
    else if field raw 1 0x3FF == 0 && bit_and raw (bit_or (0x3 <<< 21) 1) == 0
    then fp_compare_form raw Opcode.paired_single_compare_unordered0
    else if field raw 1 0x3FF == 64 && bit_and raw (bit_or (0x3 <<< 21) 1) == 0
    then fp_compare_ps1_form raw Opcode.paired_single_compare_unordered1
    else decode_paired_compare raw

unfoldable pub decode_paired_quantized : ℕ → DecodedInstruction
decode_paired_quantized raw =
    if (field raw 1 0x3F == 6 || field raw 1 0x3F == 38) && bit_and raw 1 == 0
    then (let update = field raw 1 0x3F == 38 in
        if not update || not (field raw 16 0x1F == 0)
        then quantized_indexed_form raw (
            if update
            then Opcode.paired_single_quantized_load_indexed_update
            else Opcode.paired_single_quantized_load_indexed)
        else base_form raw Opcode.unsupported)
    else if field raw 1 0x3F == 7 && bit_and raw 1 == 0
    then quantized_indexed_form raw Opcode.paired_single_quantized_store_indexed
    else if field raw 1 0x3F == 39 && bit_and raw 1 == 0
    then (if not (field raw 16 0x1F == 0)
        then quantized_indexed_form raw Opcode.paired_single_quantized_store_indexed_update
        else base_form raw Opcode.unsupported)
    else if (field raw 1 0x3FF == 40 || field raw 1 0x3FF == 136 || field raw 1 0x3FF == 264)
        && field raw 16 0x1F == 0
        && bit_and raw 1 == 0
    then fp_move_form raw (
        if field raw 1 0x3FF == 40
        then Opcode.paired_single_negate
        else if field raw 1 0x3FF == 136
        then Opcode.paired_single_negative_absolute_value
        else Opcode.paired_single_absolute_value)
    else if field raw 1 0x3FF == 72 && field raw 16 0x1F == 0 && bit_and raw 1 == 0
    then fp_move_form raw Opcode.paired_single_move_register
    else if (field raw 1 0x3FF == 528
          || field raw 1 0x3FF == 560
          || field raw 1 0x3FF == 592
          || field raw 1 0x3FF == 624)
        && bit_and raw 1 == 0
    then fp_add_form raw (
        if field raw 1 0x3FF == 528
        then Opcode.paired_single_merge00
        else if field raw 1 0x3FF == 560
        then Opcode.paired_single_merge01
        else if field raw 1 0x3FF == 592
        then Opcode.paired_single_merge10
        else Opcode.paired_single_merge11)
    else if field raw 1 0x1F == 23 && bit_and raw 1 == 0
    then fp_multiply_add_form raw Opcode.paired_single_select
    else decode_paired_multiply raw
