-- ===== src/Cpu/Decoder/Valid/Integer.antt =====
-- Validity of what `decode` makes of opcode 31, up to the multiplications and divisions.
use affogato.Base.{
  ℕ, ◌-◌, ◌<◌, ◌≡◌, refl, true, ◌&&◌, ◌||◌, bit_and, bit_or, ◌<<<◌, leb, ◌==◌, if◌then◌else◌, arith,
}
use affogato.Cpu.Decoder.Instruction.{Opcode}
use affogato.Cpu.Decoder.Fields.{field}
use affogato.Cpu.Decoder.Valid.{IsValid, IsInRange}
use affogato.Cpu.Decoder.Integer.{
  decode_system, decode_special, decode_add_subtract, decode_multiply_divide,
}
use affogato.Cpu.Decoder.Integer.{
  decode_time_base, special_purpose_number, quantization_form, decode_special_purpose,
}
use affogato.Cpu.Decoder.Valid.Indexed.{decode_indexed_word-IsValid}
use affogato.Cpu.Decoder.Valid.Forms.{
  z, r5, ◌▹◌, indexed_form-IsInRange, arithmetic_form-IsInRange, unary_form-IsInRange,
  negate_form-IsInRange, extend_form-IsInRange, compare_form-IsInRange, plain_form-IsInRange,
  destination_form-IsInRange, cr_fields_form-IsInRange, cr_field_form-IsInRange,
  load_string_form-IsInRange, store_string_form-IsInRange, store_string_indexed_form-IsInRange,
}
use affogato.Cpu.Decoder.Valid.Chain.{calm, when◌valid◌else◌, and_left, and_right, blank-IsValid}

decode_time_base-IsValid : (raw : ℕ) → IsValid (decode_time_base raw)
unfolding decode_time_base
decode_time_base-IsValid raw =
    let tbr = bit_or (field raw 11 0x1F <<< 5) (field raw 16 0x1F) in
    when bit_and raw 1 == 0 && (tbr == 268 || tbr == 269)
    valid (λ g. calm (destination_form-IsInRange raw _) (ground arith))
    else blank-IsValid raw

quantization_form-IsInRange :
    (raw : ℕ) (op : Opcode) (spr : ℕ)
    → leb spr 919 ≡ true
    → IsInRange (quantization_form raw op spr)
unfolding IsInRange
quantization_form-IsInRange raw op spr h = (
  r5 _ ▹ z ▹ z ▹ z ▹ z ▹ z ▹ z ▹ z ▹ z ▹ z ▹ z ▹ z ▹ z ▹ z ▹ z ▹ z ▹ z ▹ z ▹ z ▹ tt,
  z ▹ z ▹ z ▹ number spr h ▹ tt,
  z,
  z,
  z,
  z,
)
  where
    number : (spr : ℕ) → leb spr 919 ≡ true → spr - 912 < 8
    number spr h = ground arith

decode_special_purpose-IsValid :
    (raw extended_opcode : ℕ) → IsValid (decode_special_purpose raw extended_opcode)
unfolding decode_special_purpose
decode_special_purpose-IsValid raw extended_opcode =
    let spr = special_purpose_number raw in
    when spr == 1 && extended_opcode == 339 && bit_and raw 1 == 0
    valid (λ g. calm (destination_form-IsInRange raw _) refl)
    else when spr == 1 && extended_opcode == 467 && bit_and raw 1 == 0
    valid (λ g. calm (destination_form-IsInRange raw _) refl)
    else when leb 912 spr && leb spr 919 && bit_and raw 1 == 0
    valid (λ g.
        calm (quantization_form-IsInRange raw _ _ (and_right _ _ (and_left _ _ g))) (ground arith))
    else when (spr == 8 || spr == 9) && bit_and raw 1 == 0
    valid (λ g.
        when spr == 8
        valid (λ e. calm (destination_form-IsInRange raw _) (ground arith))
        else calm (destination_form-IsInRange raw _) (ground arith))
    else blank-IsValid raw

decode_multiply_divide-IsValid :
    (raw extended_opcode : ℕ) → IsValid (decode_multiply_divide raw extended_opcode)
unfolding decode_multiply_divide
decode_multiply_divide-IsValid raw extended_opcode =
    when extended_opcode == 747
    valid (λ g. calm (arithmetic_form-IsInRange raw _) refl)
    else when extended_opcode == 235
    valid (λ g. calm (arithmetic_form-IsInRange raw _) refl)
    else when extended_opcode == 11
    valid (λ g. calm (arithmetic_form-IsInRange raw _) refl)
    else when extended_opcode == 75
    valid (λ g. calm (arithmetic_form-IsInRange raw _) refl)
    else when extended_opcode == 459
    valid (λ g. calm (arithmetic_form-IsInRange raw _) refl)
    else when extended_opcode == 971
    valid (λ g. calm (arithmetic_form-IsInRange raw _) refl)
    else when extended_opcode == 491
    valid (λ g. calm (arithmetic_form-IsInRange raw _) refl)
    else when extended_opcode == 1003
    valid (λ g. calm (arithmetic_form-IsInRange raw _) refl)
    else decode_indexed_word-IsValid raw extended_opcode

decode_add_subtract-IsValid :
    (raw extended_opcode : ℕ) → IsValid (decode_add_subtract raw extended_opcode)
unfolding decode_add_subtract
decode_add_subtract-IsValid raw extended_opcode =
    when extended_opcode == 0 && bit_and raw (1 <<< 22) == 0
    valid (λ g. calm (compare_form-IsInRange raw _) refl)
    else when extended_opcode == 32 && bit_and raw (1 <<< 22) == 0
    valid (λ g. calm (compare_form-IsInRange raw _) refl)
    else when extended_opcode == 266 || extended_opcode == 40
    valid (λ g. calm (arithmetic_form-IsInRange raw _) (ground arith))
    else when extended_opcode == 778
    valid (λ g. calm (arithmetic_form-IsInRange raw _) refl)
    else when extended_opcode == 552
    valid (λ g. calm (arithmetic_form-IsInRange raw _) refl)
    else when extended_opcode == 522
    valid (λ g. calm (arithmetic_form-IsInRange raw _) refl)
    else when extended_opcode == 10
    valid (λ g. calm (arithmetic_form-IsInRange raw _) refl)
    else when (extended_opcode == 202 || extended_opcode == 714) && field raw 11 0x1F == 0
    valid (λ g. calm (unary_form-IsInRange raw _) (ground arith))
    else when extended_opcode == 520
    valid (λ g. calm (arithmetic_form-IsInRange raw _) refl)
    else when extended_opcode == 8
    valid (λ g. calm (arithmetic_form-IsInRange raw _) refl)
    else when extended_opcode == 648
    valid (λ g. calm (arithmetic_form-IsInRange raw _) refl)
    else when extended_opcode == 136
    valid (λ g. calm (arithmetic_form-IsInRange raw _) refl)
    else when extended_opcode == 650
    valid (λ g. calm (arithmetic_form-IsInRange raw _) refl)
    else when extended_opcode == 138
    valid (λ g. calm (arithmetic_form-IsInRange raw _) refl)
    else when (extended_opcode == 232
          || extended_opcode == 234
          || extended_opcode == 744
          || extended_opcode == 746)
        && field raw 11 0x1F == 0
    valid (λ g. calm (unary_form-IsInRange raw _) (ground arith))
    else when (extended_opcode == 200 || extended_opcode == 712) && field raw 11 0x1F == 0
    valid (λ g. calm (unary_form-IsInRange raw _) (ground arith))
    else when extended_opcode == 616 && field raw 11 0x1F == 0
    valid (λ g. calm (negate_form-IsInRange raw _) refl)
    else when extended_opcode == 104 && field raw 11 0x1F == 0
    valid (λ g. calm (negate_form-IsInRange raw _) refl)
    else decode_multiply_divide-IsValid raw extended_opcode

decode_special-IsValid : (raw extended_opcode : ℕ) → IsValid (decode_special raw extended_opcode)
unfolding decode_special
decode_special-IsValid raw extended_opcode =
    when extended_opcode == 922 && field raw 11 0x1F == 0
    valid (λ g. calm (extend_form-IsInRange raw _) refl)
    else when extended_opcode == 954 && field raw 11 0x1F == 0
    valid (λ g. calm (extend_form-IsInRange raw _) refl)
    else when extended_opcode == 26
    valid (λ g. calm (extend_form-IsInRange raw _) refl)
    else when extended_opcode == 371
    valid (λ g. decode_time_base-IsValid raw)
    else when extended_opcode == 339 || extended_opcode == 467
    valid (λ g. decode_special_purpose-IsValid raw extended_opcode)
    else decode_add_subtract-IsValid raw extended_opcode

pub decode_system-IsValid : (raw extended_opcode : ℕ) → IsValid (decode_system raw extended_opcode)
unfolding decode_system
decode_system-IsValid raw extended_opcode =
    when extended_opcode == 598
      && field raw 22 0xF == 0
      && field raw 11 0x3FF == 0
      && bit_and raw 1 == 0
    valid (λ g. calm (plain_form-IsInRange raw _) (ground arith))
    else when extended_opcode == 19 && field raw 11 0x3FF == 0 && bit_and raw 1 == 0
    valid (λ g. calm (destination_form-IsInRange raw _) refl)
    else when extended_opcode == 144
        && field raw 11 1 == 0
        && field raw 20 1 == 0
        && bit_and raw 1 == 0
    valid (λ g. calm (cr_fields_form-IsInRange raw _) refl)
    else when extended_opcode == 512 && field raw 11 0x3FF == 0 && bit_and raw 1 == 0
    valid (λ g. calm (cr_field_form-IsInRange raw _) refl)
    else when (extended_opcode == 597 || extended_opcode == 725) && bit_and raw 1 == 0
    valid (λ g.
        (when extended_opcode == 597
          valid (λ h. calm (load_string_form-IsInRange raw _) refl)
          else calm (store_string_form-IsInRange raw _) refl))
    else when (extended_opcode == 533 || extended_opcode == 661) && bit_and raw 1 == 0
    valid (λ g.
        (when extended_opcode == 533
          valid (λ h. calm (indexed_form-IsInRange raw _) refl)
          else calm (store_string_indexed_form-IsInRange raw _) refl))
    else decode_special-IsValid raw extended_opcode
