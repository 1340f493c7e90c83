-- ===== src/Cpu/Decoder/Valid/Paired.antt =====
-- Validity of what `decode` makes of opcode 4.
use affogato.Base.{ℕ, refl, not, ◌&&◌, ◌||◌, bit_and, bit_or, ◌<<<◌, ◌==◌, if◌then◌else◌, arith}
use affogato.Cpu.Decoder.Fields.{field}
use affogato.Cpu.Decoder.Valid.{IsValid}
use affogato.Cpu.Decoder.Paired.{
  decode_paired_quantized, decode_paired_multiply, decode_paired_compare,
}
use affogato.Cpu.Decoder.Valid.Forms.{base_form-IsInRange}
use affogato.Cpu.Decoder.Valid.FloatForms.{
  fp_move_form-IsInRange, fp_add_form-IsInRange, fp_multiply_form-IsInRange,
  fp_multiply_add_form-IsInRange, fp_compare_form-IsInRange, fp_compare_ps1_form-IsInRange,
  quantized_indexed_form-IsInRange,
}
use affogato.Cpu.Decoder.Valid.Chain.{
  calm, based, when◌valid◌else◌, nonzero, quantized_update, blank-IsValid,
}

decode_paired_compare-IsValid : (raw : ℕ) → IsValid (decode_paired_compare raw)
unfolding decode_paired_compare
decode_paired_compare-IsValid raw =
    when field raw 1 0x3FF == 32 && bit_and raw (bit_or (0x3 <<< 21) 1) == 0
    valid (λ g. calm (fp_compare_form-IsInRange raw _) refl)
    else when field raw 1 0x3FF == 96 && bit_and raw (bit_or (0x3 <<< 21) 1) == 0
    valid (λ g. calm (fp_compare_ps1_form-IsInRange raw _) refl)
    else when field raw 1 0x1F == 24
        && field raw 16 0x1F == 0
        && field raw 6 0x1F == 0
        && bit_and raw 1 == 0
    valid (λ g. calm (fp_move_form-IsInRange raw _) refl)
    else when field raw 1 0x1F == 26
        && field raw 16 0x1F == 0
        && field raw 6 0x1F == 0
        && bit_and raw 1 == 0
    valid (λ g. calm (fp_move_form-IsInRange raw _) refl)
    else when field raw 1 0x1F == 21 && field raw 6 0x1F == 0 && bit_and raw 1 == 0
    valid (λ g. calm (fp_add_form-IsInRange raw _) refl)
    else when field raw 1 0x1F == 20 && field raw 6 0x1F == 0 && bit_and raw 1 == 0
    valid (λ g. calm (fp_add_form-IsInRange raw _) refl)
    else blank-IsValid raw

decode_paired_multiply-IsValid : (raw : ℕ) → IsValid (decode_paired_multiply raw)
unfolding decode_paired_multiply
decode_paired_multiply-IsValid raw =
    when field raw 1 0x1F == 12 && field raw 11 0x1F == 0 && bit_and raw 1 == 0
    valid (λ g. calm (fp_multiply_form-IsInRange raw _) refl)
    else when field raw 1 0x1F == 13 && field raw 11 0x1F == 0 && bit_and raw 1 == 0
    valid (λ g. calm (fp_multiply_form-IsInRange raw _) refl)
    else when field raw 1 0x1F == 14 && bit_and raw 1 == 0
    valid (λ g. calm (fp_multiply_add_form-IsInRange raw _) refl)
    else when field raw 1 0x1F == 15 && bit_and raw 1 == 0
    valid (λ g. calm (fp_multiply_add_form-IsInRange raw _) refl)
    else when field raw 1 0x1F == 30 && bit_and raw 1 == 0
    valid (λ g. calm (fp_multiply_add_form-IsInRange raw _) refl)
    else when field raw 1 0x1F == 31 && bit_and raw 1 == 0
    valid (λ g. calm (fp_multiply_add_form-IsInRange raw _) refl)
    else when field raw 1 0x1F == 25 && field raw 11 0x1F == 0 && bit_and raw 1 == 0
    valid (λ g. calm (fp_multiply_form-IsInRange raw _) refl)
    else when field raw 1 0x1F == 29 && bit_and raw 1 == 0
    valid (λ g. calm (fp_multiply_add_form-IsInRange raw _) refl)
    else when field raw 1 0x1F == 28 && bit_and raw 1 == 0
    valid (λ g. calm (fp_multiply_add_form-IsInRange raw _) refl)
    else when field raw 1 0x1F == 10 && bit_and raw 1 == 0
    valid (λ g. calm (fp_multiply_add_form-IsInRange raw _) refl)
    else when field raw 1 0x1F == 11 && bit_and raw 1 == 0
    valid (λ g. calm (fp_multiply_add_form-IsInRange raw _) refl)
    else when field raw 1 0x1F == 18 && field raw 6 0x1F == 0 && bit_and raw 1 == 0
    valid (λ g. calm (fp_add_form-IsInRange raw _) refl)
    else when field raw 1 0x3FF == 0 && bit_and raw (bit_or (0x3 <<< 21) 1) == 0
    valid (λ g. calm (fp_compare_form-IsInRange raw _) refl)
    else when field raw 1 0x3FF == 64 && bit_and raw (bit_or (0x3 <<< 21) 1) == 0
    valid (λ g. calm (fp_compare_ps1_form-IsInRange raw _) refl)
    else decode_paired_compare-IsValid raw

pub decode_paired_quantized-IsValid : (raw : ℕ) → IsValid (decode_paired_quantized raw)
unfolding decode_paired_quantized
decode_paired_quantized-IsValid raw =
    when (field raw 1 0x3F == 6 || field raw 1 0x3F == 38) && bit_and raw 1 == 0
    valid (λ g.
        (let update = field raw 1 0x3F == 38 in
          when not update || not (field raw 16 0x1F == 0)
          valid (λ g.
              based (quantized_indexed_form-IsInRange raw _)
                (quantized_update update (field raw 16 0x1F) g))
          else calm (base_form-IsInRange raw _) refl))
    else when field raw 1 0x3F == 7 && bit_and raw 1 == 0
    valid (λ g. calm (quantized_indexed_form-IsInRange raw _) refl)
    else when field raw 1 0x3F == 39 && bit_and raw 1 == 0
    valid (λ g.
        (when not (field raw 16 0x1F == 0)
          valid (λ g. based (quantized_indexed_form-IsInRange raw _) (λ h. nonzero _ g))
          else calm (base_form-IsInRange raw _) refl))
    else when (field raw 1 0x3FF == 40 || field raw 1 0x3FF == 136 || field raw 1 0x3FF == 264)
        && field raw 16 0x1F == 0
        && bit_and raw 1 == 0
    valid (λ g. calm (fp_move_form-IsInRange raw _) (ground arith))
    else when field raw 1 0x3FF == 72 && field raw 16 0x1F == 0 && bit_and raw 1 == 0
    valid (λ g. calm (fp_move_form-IsInRange raw _) refl)
    else when (field raw 1 0x3FF == 528
          || field raw 1 0x3FF == 560
          || field raw 1 0x3FF == 592
          || field raw 1 0x3FF == 624)
        && bit_and raw 1 == 0
    valid (λ g. calm (fp_add_form-IsInRange raw _) (ground arith))
    else when field raw 1 0x1F == 23 && bit_and raw 1 == 0
    valid (λ g. calm (fp_multiply_add_form-IsInRange raw _) refl)
    else decode_paired_multiply-IsValid raw
