-- ===== src/Cpu/Decoder/Integer.antt =====
-- Opcode 31 of `decode` (src/cpu/espresso/decoder.cpp): the chain of tests on the extended opcode, in
-- the order of the source, up to the multiplications and divisions. The chain goes on in Indexed.
use affogato.Base.{ℕ, ◌-◌, ◌&&◌, ◌||◌, bit_and, bit_or, ◌<<<◌, leb, ◌==◌, if◌then◌else◌}
use affogato.Cpu.Decoder.Instruction.{Opcode, DecodedInstruction, blank}
use affogato.Cpu.Decoder.Fields.{field}
use affogato.Cpu.Decoder.Indexed.{decode_indexed_word}
use affogato.Cpu.Decoder.Forms.{
  indexed_form, arithmetic_form, unary_form, negate_form, extend_form, compare_form, plain_form,
  destination_form, cr_fields_form, cr_field_form, load_string_form, store_string_form,
  store_string_indexed_form,
}

-- The time base registers, whose number is split over two fields in reverse order.
unfoldable pub decode_time_base : ℕ → DecodedInstruction
decode_time_base raw =
    let tbr = bit_or (field raw 11 0x1F <<< 5) (field raw 16 0x1F) in
    if bit_and raw 1 == 0 && (tbr == 268 || tbr == 269)
    then destination_form raw
        (if tbr == 268 then Opcode.move_from_time_base_lower else Opcode.move_from_time_base_upper)
    else blank raw

abbrev pub special_purpose_number : ℕ → ℕ
special_purpose_number raw = bit_or (field raw 11 0x1F <<< 5) (field raw 16 0x1F)

abbrev pub quantization_form : ℕ → Opcode → ℕ → DecodedInstruction
quantization_form raw op spr = record (blank raw) {
  opcode = op;
  destination = field raw 21 0x1F;
  quantized_register = spr - 912;
}

-- `mfspr` and `mtspr`.
unfoldable pub decode_special_purpose : ℕ → ℕ → DecodedInstruction
decode_special_purpose raw extended_opcode =
    let spr = special_purpose_number raw in
    if spr == 1 && extended_opcode == 339 && bit_and raw 1 == 0
    then destination_form raw Opcode.move_from_xer
    else if spr == 1 && extended_opcode == 467 && bit_and raw 1 == 0
    then destination_form raw Opcode.move_to_xer
    else if leb 912 spr && leb spr 919 && bit_and raw 1 == 0
    then quantization_form raw
        (if extended_opcode == 339 then Opcode.move_from_gqr else Opcode.move_to_gqr) spr
    else if (spr == 8 || spr == 9) && bit_and raw 1 == 0
    then (if spr == 8
        then destination_form raw (
            if extended_opcode == 339
            then Opcode.move_from_link_register
            else Opcode.move_to_link_register)
        else destination_form raw (
            if extended_opcode == 339
            then Opcode.move_from_count_register
            else Opcode.move_to_count_register))
    else blank raw

unfoldable pub decode_multiply_divide : ℕ → ℕ → DecodedInstruction
decode_multiply_divide raw extended_opcode =
    if extended_opcode == 747
    then arithmetic_form raw Opcode.multiply_low_word_overflow
    else if extended_opcode == 235
    then arithmetic_form raw Opcode.multiply_low_word
    else if extended_opcode == 11
    then arithmetic_form raw Opcode.multiply_high_word_unsigned
    else if extended_opcode == 75
    then arithmetic_form raw Opcode.multiply_high_word_signed
    else if extended_opcode == 459
    then arithmetic_form raw Opcode.divide_word_unsigned
    else if extended_opcode == 971
    then arithmetic_form raw Opcode.divide_word_unsigned_overflow
    else if extended_opcode == 491
    then arithmetic_form raw Opcode.divide_word_signed
    else if extended_opcode == 1003
    then arithmetic_form raw Opcode.divide_word_signed_overflow
    else decode_indexed_word raw extended_opcode

unfoldable pub decode_add_subtract : ℕ → ℕ → DecodedInstruction
decode_add_subtract raw extended_opcode =
    if extended_opcode == 0 && bit_and raw (1 <<< 22) == 0
    then compare_form raw Opcode.compare_signed_register
    else if extended_opcode == 32 && bit_and raw (1 <<< 22) == 0
    then compare_form raw Opcode.compare_unsigned_register
    else if extended_opcode == 266 || extended_opcode == 40
    then arithmetic_form raw (if extended_opcode == 266 then Opcode.add else Opcode.subtract_from)
    else if extended_opcode == 778
    then arithmetic_form raw Opcode.add_overflow
    else if extended_opcode == 552
    then arithmetic_form raw Opcode.subtract_from_overflow
    else if extended_opcode == 522
    then arithmetic_form raw Opcode.add_carrying_overflow
    else if extended_opcode == 10
    then arithmetic_form raw Opcode.add_carrying
    else if (extended_opcode == 202 || extended_opcode == 714) && field raw 11 0x1F == 0
    then unary_form raw (
        if extended_opcode == 714
        then Opcode.add_to_zero_extended_overflow
        else Opcode.add_to_zero_extended)
    else if extended_opcode == 520
    then arithmetic_form raw Opcode.subtract_from_carrying_overflow
    else if extended_opcode == 8
    then arithmetic_form raw Opcode.subtract_from_carrying
    else if extended_opcode == 648
    then arithmetic_form raw Opcode.subtract_from_extended_overflow
    else if extended_opcode == 136
    then arithmetic_form raw Opcode.subtract_from_extended
    else if extended_opcode == 650
    then arithmetic_form raw Opcode.add_extended_overflow
    else if extended_opcode == 138
    then arithmetic_form raw Opcode.add_extended
    else if (extended_opcode == 232
          || extended_opcode == 234
          || extended_opcode == 744
          || extended_opcode == 746)
        && field raw 11 0x1F == 0
    then unary_form raw (
        if extended_opcode == 232
        then Opcode.subtract_from_minus_one_extended
        else if extended_opcode == 744
        then Opcode.subtract_from_minus_one_extended_overflow
        else if extended_opcode == 746
        then Opcode.add_to_minus_one_extended_overflow
        else Opcode.add_to_minus_one_extended)
    else if (extended_opcode == 200 || extended_opcode == 712) && field raw 11 0x1F == 0
    then unary_form raw (
        if extended_opcode == 712
        then Opcode.subtract_from_zero_extended_overflow
        else Opcode.subtract_from_zero_extended)
    else if extended_opcode == 616 && field raw 11 0x1F == 0
    then negate_form raw Opcode.negate_overflow
    else if extended_opcode == 104 && field raw 11 0x1F == 0
    then negate_form raw Opcode.negate
    else decode_multiply_divide raw extended_opcode

unfoldable pub decode_special : ℕ → ℕ → DecodedInstruction
decode_special raw extended_opcode =
    if extended_opcode == 922 && field raw 11 0x1F == 0
    then extend_form raw Opcode.extend_sign_halfword
    else if extended_opcode == 954 && field raw 11 0x1F == 0
    then extend_form raw Opcode.extend_sign_byte
    else if extended_opcode == 26
    then extend_form raw Opcode.count_leading_zeros
    else if extended_opcode == 371
    then decode_time_base raw
    else if extended_opcode == 339 || extended_opcode == 467
    then decode_special_purpose raw extended_opcode
    else decode_add_subtract raw extended_opcode

unfoldable pub decode_system : ℕ → ℕ → DecodedInstruction
decode_system raw extended_opcode =
    if extended_opcode == 598
      && field raw 22 0xF == 0
      && field raw 11 0x3FF == 0
      && bit_and raw 1 == 0
    then plain_form raw (
        if field raw 21 0x1 == 0
        then Opcode.memory_synchronize
        else Opcode.memory_synchronize_lightweight)
    else if extended_opcode == 19 && field raw 11 0x3FF == 0 && bit_and raw 1 == 0
    then destination_form raw Opcode.move_from_condition_register
    else if extended_opcode == 144
        && field raw 11 1 == 0
        && field raw 20 1 == 0
        && bit_and raw 1 == 0
    then cr_fields_form raw Opcode.move_to_condition_register_fields
    else if extended_opcode == 512 && field raw 11 0x3FF == 0 && bit_and raw 1 == 0
    then cr_field_form raw Opcode.move_condition_register_from_xer
    else if (extended_opcode == 597 || extended_opcode == 725) && bit_and raw 1 == 0
    then (if extended_opcode == 597
        then load_string_form raw Opcode.load_string_word_immediate
        else store_string_form raw Opcode.store_string_word_immediate)
    else if (extended_opcode == 533 || extended_opcode == 661) && bit_and raw 1 == 0
    then (if extended_opcode == 533
        then indexed_form raw Opcode.load_string_word_indexed
        else store_string_indexed_form raw Opcode.store_string_word_indexed)
    else decode_special raw extended_opcode
