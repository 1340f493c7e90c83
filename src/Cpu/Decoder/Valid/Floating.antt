-- ===== src/Cpu/Decoder/Valid/Floating.antt =====
-- Validity of what `decode` makes of opcodes 59 and 63.
use affogato.Base.{ℕ, refl, ◌&&◌, ◌||◌, bit_and, bit_or, ◌<<<◌, ◌==◌, if◌then◌else◌, arith}
use affogato.Cpu.Decoder.Fields.{field}
use affogato.Cpu.Decoder.Valid.{IsValid}
use affogato.Cpu.Decoder.Floating.{decode_floating_move, decode_floating_double}
use affogato.Cpu.Decoder.Single.{decode_floating_single}
use affogato.Cpu.Decoder.Valid.FloatForms.{
  fp_move_form-IsInRange, fp_round_form-IsInRange, fp_add_form-IsInRange,
  fp_multiply_form-IsInRange, fp_multiply_add_form-IsInRange, fp_compare_form-IsInRange,
  fp_register_form-IsInRange, fpscr_bit_form-IsInRange, fpscr_immediate_form-IsInRange,
  fpscr_fields_form-IsInRange, fpscr_move_form-IsInRange,
}
use affogato.Cpu.Decoder.Valid.Chain.{calm, when◌valid◌else◌, blank-IsValid}

decode_floating_double-IsValid : (raw : ℕ) → IsValid (decode_floating_double raw)
unfolding decode_floating_double
decode_floating_double-IsValid raw =
    when field raw 1 0x1F == 21 && field raw 6 0x1F == 0 && bit_and raw 1 == 0
    valid (λ g. calm (fp_add_form-IsInRange raw _) refl)
    else when field raw 1 0x1F == 23 && bit_and raw 1 == 0
    valid (λ g. calm (fp_multiply_add_form-IsInRange raw _) refl)
    else when field raw 1 0x1F == 25 && field raw 11 0x1F == 0 && bit_and raw 1 == 0
    valid (λ g. calm (fp_multiply_form-IsInRange raw _) refl)
    else when field raw 1 0x1F == 28 && bit_and raw 1 == 0
    valid (λ g. calm (fp_multiply_add_form-IsInRange raw _) refl)
    else when field raw 1 0x1F == 30 && bit_and raw 1 == 0
    valid (λ g. calm (fp_multiply_add_form-IsInRange raw _) refl)
    else when field raw 1 0x1F == 31 && bit_and raw 1 == 0
    valid (λ g. calm (fp_multiply_add_form-IsInRange raw _) refl)
    else when field raw 1 0x1F == 29 && bit_and raw 1 == 0
    valid (λ g. calm (fp_multiply_add_form-IsInRange raw _) refl)
    else when field raw 1 0x3FF == 0 && bit_and raw (bit_or (0x3 <<< 21) 1) == 0
    valid (λ g. calm (fp_compare_form-IsInRange raw _) refl)
    else when field raw 1 0x3FF == 32 && bit_and raw (bit_or (0x3 <<< 21) 1) == 0
    valid (λ g. calm (fp_compare_form-IsInRange raw _) refl)
    else blank-IsValid raw

pub decode_floating_move-IsValid : (raw : ℕ) → IsValid (decode_floating_move raw)
unfolding decode_floating_move
decode_floating_move-IsValid raw =
    when field raw 1 0x3FF == 64
      && field raw 21 0x3 == 0
      && field raw 16 0x3 == 0
      && field raw 11 0x1F == 0
      && bit_and raw 1 == 0
    valid (λ g. calm (fpscr_move_form-IsInRange raw _) refl)
    else when field raw 1 0x3FF == 72 && field raw 16 0x1F == 0 && bit_and raw 1 == 0
    valid (λ g. calm (fp_move_form-IsInRange raw _) refl)
    else when field raw 1 0x3FF == 40 && field raw 16 0x1F == 0 && bit_and raw 1 == 0
    valid (λ g. calm (fp_move_form-IsInRange raw _) refl)
    else when field raw 1 0x3FF == 264 && field raw 16 0x1F == 0 && bit_and raw 1 == 0
    valid (λ g. calm (fp_move_form-IsInRange raw _) refl)
    else when field raw 1 0x3FF == 24
        && field raw 16 0x1F == 0
        && field raw 6 0x1F == 0
        && bit_and raw 1 == 0
    valid (λ g. calm (fp_move_form-IsInRange raw _) refl)
    else when field raw 1 0x3FF == 26
        && field raw 16 0x1F == 0
        && field raw 6 0x1F == 0
        && bit_and raw 1 == 0
    valid (λ g. calm (fp_move_form-IsInRange raw _) refl)
    else when field raw 1 0x3FF == 136 && field raw 16 0x1F == 0 && bit_and raw 1 == 0
    valid (λ g. calm (fp_move_form-IsInRange raw _) refl)
    else when field raw 1 0x3FF == 583 && field raw 11 0x3FF == 0 && bit_and raw 1 == 0
    valid (λ g. calm (fp_register_form-IsInRange raw _) refl)
    else when field raw 1 0x3FF == 70 && field raw 11 0x3FF == 0 && bit_and raw 1 == 0
    valid (λ g. calm (fpscr_bit_form-IsInRange raw _) refl)
    else when field raw 1 0x3FF == 38 && field raw 11 0x3FF == 0 && bit_and raw 1 == 0
    valid (λ g. calm (fpscr_bit_form-IsInRange raw _) refl)
    else when field raw 1 0x3FF == 134
        && field raw 21 0x3 == 0
        && field raw 16 0x1F == 0
        && field raw 11 0x1 == 0
        && bit_and raw 1 == 0
    valid (λ g. calm (fpscr_immediate_form-IsInRange raw _) refl)
    else when field raw 1 0x3FF == 711
        && field raw 25 0x1 == 0
        && field raw 16 0x1 == 0
        && bit_and raw 1 == 0
    valid (λ g. calm (fpscr_fields_form-IsInRange raw _) refl)
    else when field raw 1 0x3FF == 15 && field raw 16 0x1F == 0 && bit_and raw 1 == 0
    valid (λ g. calm (fp_move_form-IsInRange raw _) refl)
    else when field raw 1 0x3FF == 14 && field raw 16 0x1F == 0 && bit_and raw 1 == 0
    valid (λ g. calm (fp_move_form-IsInRange raw _) refl)
    else when field raw 1 0x3FF == 12 && field raw 16 0x1F == 0 && bit_and raw 1 == 0
    valid (λ g. calm (fp_round_form-IsInRange raw _) refl)
    else when field raw 1 0x1F == 18 && field raw 6 0x1F == 0 && bit_and raw 1 == 0
    valid (λ g. calm (fp_add_form-IsInRange raw _) refl)
    else when field raw 1 0x1F == 20 && field raw 6 0x1F == 0 && bit_and raw 1 == 0
    valid (λ g. calm (fp_add_form-IsInRange raw _) refl)
    else decode_floating_double-IsValid raw

pub decode_floating_single-IsValid :
    (raw extended_opcode : ℕ) → IsValid (decode_floating_single raw extended_opcode)
unfolding decode_floating_single
decode_floating_single-IsValid raw extended_opcode =
    when extended_opcode == 18 || extended_opcode == 20 || extended_opcode == 21
    valid (λ g.
        (when field raw 6 0x1F == 0 && bit_and raw 1 == 0
          valid (λ h. calm (fp_add_form-IsInRange raw _) (ground arith))
          else blank-IsValid raw))
    else when extended_opcode == 25 && field raw 11 0x1F == 0 && bit_and raw 1 == 0
    valid (λ g. calm (fp_multiply_form-IsInRange raw _) refl)
    else when extended_opcode == 29 && bit_and raw 1 == 0
    valid (λ g. calm (fp_multiply_add_form-IsInRange raw _) refl)
    else when extended_opcode == 28 && bit_and raw 1 == 0
    valid (λ g. calm (fp_multiply_add_form-IsInRange raw _) refl)
    else when extended_opcode == 30 && bit_and raw 1 == 0
    valid (λ g. calm (fp_multiply_add_form-IsInRange raw _) refl)
    else when extended_opcode == 31 && bit_and raw 1 == 0
    valid (λ g. calm (fp_multiply_add_form-IsInRange raw _) refl)
    else blank-IsValid raw
