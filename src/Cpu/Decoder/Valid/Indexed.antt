-- ===== src/Cpu/Decoder/Valid/Indexed.antt =====
-- Validity of what `decode` makes of opcode 31, from `stwcx.` on.
use affogato.Base.{ℕ, refl, not, ◌&&◌, ◌||◌, bit_and, ◌==◌, if◌then◌else◌, arith}
use affogato.Cpu.Decoder.Fields.{field, flag}
use affogato.Cpu.Decoder.Valid.{IsValid}
use affogato.Cpu.Decoder.Indexed.{
  decode_indexed_word, decode_indexed_float, decode_indexed_halfword, decode_cache, decode_shift,
}
use affogato.Cpu.Decoder.Valid.Forms.{
  indexed_form-IsInRange, logical_form-IsInRange, shift_form-IsInRange, cache_form-IsInRange,
  plain_form-IsInRange,
}
use affogato.Cpu.Decoder.Valid.FloatForms.{fp_indexed_form-IsInRange}
use affogato.Cpu.Decoder.Valid.Chain.{
  calm, based, when◌valid◌else◌, and_left, and_right, nonzero, blank-IsValid,
}

decode_shift-IsValid : (raw extended_opcode : ℕ) → IsValid (decode_shift raw extended_opcode)
unfolding decode_shift
decode_shift-IsValid raw extended_opcode =
    when extended_opcode == 824
    valid (λ g. calm (shift_form-IsInRange raw _) refl)
    else when extended_opcode == 792
    valid (λ g. calm (logical_form-IsInRange raw _) refl)
    else when extended_opcode == 24
    valid (λ g. calm (logical_form-IsInRange raw _) refl)
    else when extended_opcode == 536
    valid (λ g. calm (logical_form-IsInRange raw _) refl)
    else when extended_opcode == 444
        || extended_opcode == 28
        || extended_opcode == 60
        || extended_opcode == 316
        || extended_opcode == 284
        || extended_opcode == 476
        || extended_opcode == 124
        || extended_opcode == 412
    valid (λ g. calm (logical_form-IsInRange raw _) (ground arith))
    else blank-IsValid raw

decode_cache-IsValid : (raw extended_opcode : ℕ) → IsValid (decode_cache raw extended_opcode)
unfolding decode_cache
decode_cache-IsValid raw extended_opcode =
    when extended_opcode == 854 && bit_and raw 1 == 0 && field raw 11 0x7FFF == 0
    valid (λ g. calm (plain_form-IsInRange raw _) refl)
    else when extended_opcode == 1014 && bit_and raw 1 == 0
    valid (λ g. calm (cache_form-IsInRange raw _) refl)
    else when extended_opcode == 278 && bit_and raw 1 == 0
    valid (λ g. calm (cache_form-IsInRange raw _) refl)
    else when extended_opcode == 246 && bit_and raw 1 == 0
    valid (λ g. calm (cache_form-IsInRange raw _) refl)
    else when extended_opcode == 54 && bit_and raw 1 == 0 && field raw 21 0x1F == 0
    valid (λ g. calm (cache_form-IsInRange raw _) refl)
    else when extended_opcode == 86 && bit_and raw 1 == 0 && field raw 21 0x1F == 0
    valid (λ g. calm (cache_form-IsInRange raw _) refl)
    else when extended_opcode == 982 && bit_and raw 1 == 0
    valid (λ g. calm (cache_form-IsInRange raw _) refl)
    else decode_shift-IsValid raw extended_opcode

decode_indexed_halfword-IsValid :
    (raw extended_opcode : ℕ) → IsValid (decode_indexed_halfword raw extended_opcode)
unfolding decode_indexed_halfword
decode_indexed_halfword-IsValid raw extended_opcode =
    when extended_opcode == 279 && bit_and raw 1 == 0
    valid (λ g. calm (indexed_form-IsInRange raw _) refl)
    else when extended_opcode == 311
        && bit_and raw 1 == 0
        && not (field raw 16 0x1F == 0)
        && not (field raw 21 0x1F == field raw 16 0x1F)
    valid (λ g.
        based (indexed_form-IsInRange raw _) (λ h. nonzero _ (and_right _ _ (and_left _ _ g))))
    else when extended_opcode == 790 && bit_and raw 1 == 0
    valid (λ g. calm (indexed_form-IsInRange raw _) refl)
    else when extended_opcode == 343 && bit_and raw 1 == 0
    valid (λ g. calm (indexed_form-IsInRange raw _) refl)
    else when extended_opcode == 375
        && bit_and raw 1 == 0
        && not (field raw 16 0x1F == 0)
        && not (field raw 21 0x1F == field raw 16 0x1F)
    valid (λ g.
        based (indexed_form-IsInRange raw _) (λ h. nonzero _ (and_right _ _ (and_left _ _ g))))
    else when extended_opcode == 215
    valid (λ g. calm (indexed_form-IsInRange raw _) refl)
    else when extended_opcode == 247 && bit_and raw 1 == 0 && not (field raw 16 0x1F == 0)
    valid (λ g. based (indexed_form-IsInRange raw _) (λ h. nonzero _ (and_right _ _ g)))
    else when extended_opcode == 407 && bit_and raw 1 == 0
    valid (λ g. calm (indexed_form-IsInRange raw _) refl)
    else when extended_opcode == 439 && bit_and raw 1 == 0 && not (field raw 16 0x1F == 0)
    valid (λ g. based (indexed_form-IsInRange raw _) (λ h. nonzero _ (and_right _ _ g)))
    else when extended_opcode == 918 && bit_and raw 1 == 0
    valid (λ g. calm (indexed_form-IsInRange raw _) refl)
    else when extended_opcode == 983 && bit_and raw 1 == 0
    valid (λ g. calm (fp_indexed_form-IsInRange raw _) refl)
    else decode_cache-IsValid raw extended_opcode

decode_indexed_float-IsValid :
    (raw extended_opcode : ℕ) → IsValid (decode_indexed_float raw extended_opcode)
unfolding decode_indexed_float
decode_indexed_float-IsValid raw extended_opcode =
    when extended_opcode == 631 && bit_and raw 1 == 0 && not (field raw 16 0x1F == 0)
    valid (λ g. based (fp_indexed_form-IsInRange raw _) (λ h. nonzero _ (and_right _ _ g)))
    else when extended_opcode == 663 && bit_and raw 1 == 0
    valid (λ g. calm (fp_indexed_form-IsInRange raw _) refl)
    else when extended_opcode == 695 && bit_and raw 1 == 0 && not (field raw 16 0x1F == 0)
    valid (λ g. based (fp_indexed_form-IsInRange raw _) (λ h. nonzero _ (and_right _ _ g)))
    else when extended_opcode == 727 && bit_and raw 1 == 0
    valid (λ g. calm (fp_indexed_form-IsInRange raw _) refl)
    else when extended_opcode == 759 && bit_and raw 1 == 0 && not (field raw 16 0x1F == 0)
    valid (λ g. based (fp_indexed_form-IsInRange raw _) (λ h. nonzero _ (and_right _ _ g)))
    else when extended_opcode == 87 && bit_and raw 1 == 0
    valid (λ g. calm (indexed_form-IsInRange raw _) refl)
    else when extended_opcode == 119
        && bit_and raw 1 == 0
        && not (field raw 16 0x1F == 0)
        && not (field raw 21 0x1F == field raw 16 0x1F)
    valid (λ g.
        based (indexed_form-IsInRange raw _) (λ h. nonzero _ (and_right _ _ (and_left _ _ g))))
    else decode_indexed_halfword-IsValid raw extended_opcode

pub decode_indexed_word-IsValid :
    (raw extended_opcode : ℕ) → IsValid (decode_indexed_word raw extended_opcode)
unfolding decode_indexed_word
decode_indexed_word-IsValid raw extended_opcode =
    when extended_opcode == 150 && flag raw 1
    valid (λ g. calm (indexed_form-IsInRange raw _) refl)
    else when extended_opcode == 151
    valid (λ g. calm (indexed_form-IsInRange raw _) refl)
    else when extended_opcode == 183 && bit_and raw 1 == 0 && not (field raw 16 0x1F == 0)
    valid (λ g. based (indexed_form-IsInRange raw _) (λ h. nonzero _ (and_right _ _ g)))
    else when extended_opcode == 662 && bit_and raw 1 == 0
    valid (λ g. calm (indexed_form-IsInRange raw _) refl)
    else when extended_opcode == 20 && bit_and raw 1 == 0
    valid (λ g. calm (indexed_form-IsInRange raw _) refl)
    else when extended_opcode == 23
    valid (λ g. calm (indexed_form-IsInRange raw _) refl)
    else when extended_opcode == 55
        && bit_and raw 1 == 0
        && not (field raw 16 0x1F == 0)
        && not (field raw 21 0x1F == field raw 16 0x1F)
    valid (λ g.
        based (indexed_form-IsInRange raw _) (λ h. nonzero _ (and_right _ _ (and_left _ _ g))))
    else when extended_opcode == 534 && bit_and raw 1 == 0
    valid (λ g. calm (indexed_form-IsInRange raw _) refl)
    else when extended_opcode == 535 && bit_and raw 1 == 0
    valid (λ g. calm (fp_indexed_form-IsInRange raw _) refl)
    else when extended_opcode == 567 && bit_and raw 1 == 0 && not (field raw 16 0x1F == 0)
    valid (λ g. based (fp_indexed_form-IsInRange raw _) (λ h. nonzero _ (and_right _ _ g)))
    else when extended_opcode == 599 && bit_and raw 1 == 0
    valid (λ g. calm (fp_indexed_form-IsInRange raw _) refl)
    else decode_indexed_float-IsValid raw extended_opcode
