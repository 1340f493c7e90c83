-- ===== src/Cpu/Decoder/Valid/Immediate.antt =====
-- Validity of what `decode` makes of the opcodes with an immediate, and of opcode 19.
use affogato.Base.{ℕ, refl, not, ◌&&◌, ◌||◌, bit_and, ◌<<<◌, ◌==◌, if◌then◌else◌, arith}
use affogato.Cpu.Decoder.Fields.{field}
use affogato.Cpu.Decoder.Valid.{IsValid}
use affogato.Cpu.Decoder.Immediate.{
  decode_immediate, decode_compare_immediate, decode_load_store, decode_float_load_store,
}
use affogato.Cpu.Decoder.Condition.{decode_condition}
use affogato.Cpu.Decoder.Valid.Forms.{
  rotate_form-IsInRange, rotate_register_form-IsInRange, plain_form-IsInRange, base_form-IsInRange,
  destination_base_form-IsInRange, cr_bits_form-IsInRange, cr_move_form-IsInRange,
  branch_form-IsInRange,
}
use affogato.Cpu.Decoder.Valid.FloatForms.{quantized_form-IsInRange, fp_immediate_form-IsInRange}
use affogato.Cpu.Decoder.Valid.ImmediateForms.{
  immediate_form-IsInRange, immediate_record_form-IsInRange, store_multiple_form-IsInRange,
  logical_immediate_form-IsInRange, logical_immediate_record_form-IsInRange,
  compare_immediate_form-IsInRange, compare_logical_immediate_form-IsInRange, jump_form-IsInRange,
  conditional_form-IsInRange,
}
use affogato.Cpu.Decoder.Valid.Chain.{
  calm, based, when◌valid◌else◌, and_left, nonzero, blank-IsValid,
}

decode_float_load_store-IsValid : (raw primary : ℕ) → IsValid (decode_float_load_store raw primary)
unfolding decode_float_load_store
decode_float_load_store-IsValid raw primary =
    when primary == 48
    valid (λ g. calm (fp_immediate_form-IsInRange raw _) refl)
    else when primary == 49
    valid (λ g.
        (when not (field raw 16 0x1F == 0)
          valid (λ g. based (fp_immediate_form-IsInRange raw _) (λ h. nonzero _ g))
          else calm (base_form-IsInRange raw _) refl))
    else when primary == 50
    valid (λ g. calm (fp_immediate_form-IsInRange raw _) refl)
    else when primary == 51
    valid (λ g.
        (when not (field raw 16 0x1F == 0)
          valid (λ g. based (fp_immediate_form-IsInRange raw _) (λ h. nonzero _ g))
          else calm (base_form-IsInRange raw _) refl))
    else when primary == 52
    valid (λ g. calm (fp_immediate_form-IsInRange raw _) refl)
    else when primary == 53
    valid (λ g.
        (when not (field raw 16 0x1F == 0)
          valid (λ g. based (fp_immediate_form-IsInRange raw _) (λ h. nonzero _ g))
          else calm (base_form-IsInRange raw _) refl))
    else when primary == 54
    valid (λ g. calm (fp_immediate_form-IsInRange raw _) refl)
    else when primary == 55
    valid (λ g.
        (when not (field raw 16 0x1F == 0)
          valid (λ g. based (fp_immediate_form-IsInRange raw _) (λ h. nonzero _ g))
          else calm (base_form-IsInRange raw _) refl))
    else when primary == 56
    valid (λ g. calm (quantized_form-IsInRange raw _) refl)
    else when primary == 57
    valid (λ g.
        (when not (field raw 16 0x1F == 0)
          valid (λ g. based (quantized_form-IsInRange raw _) (λ h. nonzero _ g))
          else calm (base_form-IsInRange raw _) refl))
    else when primary == 60
    valid (λ g. calm (quantized_form-IsInRange raw _) refl)
    else when primary == 61
    valid (λ g.
        (when not (field raw 16 0x1F == 0)
          valid (λ g. based (quantized_form-IsInRange raw _) (λ h. nonzero _ g))
          else calm (base_form-IsInRange raw _) refl))
    else blank-IsValid raw

decode_load_store-IsValid : (raw primary : ℕ) → IsValid (decode_load_store raw primary)
unfolding decode_load_store
decode_load_store-IsValid raw primary =
    when primary == 32
    valid (λ g. calm (immediate_form-IsInRange raw _) refl)
    else when primary == 33
    valid (λ g.
        (when not (field raw 16 0x1F == 0)
          valid (λ g. based (immediate_form-IsInRange raw _) (λ h. nonzero _ g))
          else calm (base_form-IsInRange raw _) refl))
    else when primary == 34
    valid (λ g. calm (immediate_form-IsInRange raw _) refl)
    else when primary == 35
    valid (λ g.
        (when not (field raw 16 0x1F == 0)
          valid (λ g. based (immediate_form-IsInRange raw _) (λ h. nonzero _ g))
          else calm (base_form-IsInRange raw _) refl))
    else when primary == 36
    valid (λ g. calm (immediate_form-IsInRange raw _) refl)
    else when primary == 37
    valid (λ g.
        (when not (field raw 16 0x1F == 0)
          valid (λ g. based (immediate_form-IsInRange raw _) (λ h. nonzero _ g))
          else calm (base_form-IsInRange raw _) refl))
    else when primary == 38
    valid (λ g. calm (immediate_form-IsInRange raw _) refl)
    else when primary == 39
    valid (λ g.
        (when not (field raw 16 0x1F == 0)
          valid (λ g. based (immediate_form-IsInRange raw _) (λ h. nonzero _ g))
          else calm (base_form-IsInRange raw _) refl))
    else when primary == 40
    valid (λ g. calm (immediate_form-IsInRange raw _) refl)
    else when primary == 41
    valid (λ g.
        (when not (field raw 16 0x1F == 0) && not (field raw 16 0x1F == field raw 21 0x1F)
          valid (λ g. based (immediate_form-IsInRange raw _) (λ h. nonzero _ (and_left _ _ g)))
          else calm (destination_base_form-IsInRange raw _) refl))
    else when primary == 42
    valid (λ g. calm (immediate_form-IsInRange raw _) refl)
    else when primary == 44
    valid (λ g. calm (immediate_form-IsInRange raw _) refl)
    else when primary == 45
    valid (λ g.
        (when not (field raw 16 0x1F == 0)
          valid (λ g. based (immediate_form-IsInRange raw _) (λ h. nonzero _ g))
          else calm (base_form-IsInRange raw _) refl))
    else when primary == 46
    valid (λ g. calm (immediate_form-IsInRange raw _) refl)
    else when primary == 47
    valid (λ g. calm (store_multiple_form-IsInRange raw _) refl)
    else decode_float_load_store-IsValid raw primary

decode_compare_immediate-IsValid :
    (raw primary : ℕ) → IsValid (decode_compare_immediate raw primary)
unfolding decode_compare_immediate
decode_compare_immediate-IsValid raw primary =
    when primary == 11
    valid (λ g.
        (when bit_and raw (1 <<< 22) == 0
          valid (λ h. calm (compare_immediate_form-IsInRange raw _) refl)
          else blank-IsValid raw))
    else when primary == 12 || primary == 13
    valid (λ g. calm (immediate_record_form-IsInRange raw _) refl)
    else when primary == 10
    valid (λ g. calm (compare_logical_immediate_form-IsInRange raw _) refl)
    else when primary == 16
    valid (λ g. calm (conditional_form-IsInRange raw _) refl)
    else decode_load_store-IsValid raw primary

pub decode_immediate-IsValid : (raw primary : ℕ) → IsValid (decode_immediate raw primary)
unfolding decode_immediate
decode_immediate-IsValid raw primary =
    when primary == 7
    valid (λ g. calm (immediate_form-IsInRange raw _) refl)
    else when primary == 8
    valid (λ g. calm (immediate_form-IsInRange raw _) refl)
    else when primary == 14
    valid (λ g. calm (immediate_form-IsInRange raw _) refl)
    else when primary == 15
    valid (λ g. calm (immediate_form-IsInRange raw _) refl)
    else when primary == 20 || primary == 21
    valid (λ g. calm (rotate_form-IsInRange raw _) (ground arith))
    else when primary == 23
    valid (λ g. calm (rotate_register_form-IsInRange raw _) refl)
    else when primary == 24 || primary == 25
    valid (λ g. calm (logical_immediate_form-IsInRange raw _) (ground arith))
    else when primary == 26 || primary == 27
    valid (λ g. calm (logical_immediate_form-IsInRange raw _) (ground arith))
    else when primary == 18
    valid (λ g. calm (jump_form-IsInRange raw _) refl)
    else when primary == 28
    valid (λ g. calm (logical_immediate_record_form-IsInRange raw _) refl)
    else when primary == 29
    valid (λ g. calm (logical_immediate_record_form-IsInRange raw _) refl)
    else decode_compare_immediate-IsValid raw primary

pub decode_condition-IsValid :
    (raw extended_opcode : ℕ) → IsValid (decode_condition raw extended_opcode)
unfolding decode_condition
decode_condition-IsValid raw extended_opcode =
    when raw == 0x4C00012C
    valid (λ g. calm (plain_form-IsInRange raw _) refl)
    else when extended_opcode == 257 && bit_and raw 1 == 0
    valid (λ g. calm (cr_bits_form-IsInRange raw _) refl)
    else when extended_opcode == 129 && bit_and raw 1 == 0
    valid (λ g. calm (cr_bits_form-IsInRange raw _) refl)
    else when extended_opcode == 449 && bit_and raw 1 == 0
    valid (λ g. calm (cr_bits_form-IsInRange raw _) refl)
    else when extended_opcode == 417 && bit_and raw 1 == 0
    valid (λ g. calm (cr_bits_form-IsInRange raw _) refl)
    else when extended_opcode == 33 && bit_and raw 1 == 0
    valid (λ g. calm (cr_bits_form-IsInRange raw _) refl)
    else when extended_opcode == 193 && bit_and raw 1 == 0
    valid (λ g. calm (cr_bits_form-IsInRange raw _) refl)
    else when extended_opcode == 225 && bit_and raw 1 == 0
    valid (λ g. calm (cr_bits_form-IsInRange raw _) refl)
    else when extended_opcode == 289 && bit_and raw 1 == 0
    valid (λ g. calm (cr_bits_form-IsInRange raw _) refl)
    else when extended_opcode == 0
        && field raw 21 0x3 == 0
        && field raw 16 0x3 == 0
        && bit_and raw 1 == 0
    valid (λ g. calm (cr_move_form-IsInRange raw _) refl)
    else when extended_opcode == 16 || extended_opcode == 528
    valid (λ g. calm (branch_form-IsInRange raw _) (ground arith))
    else blank-IsValid raw
