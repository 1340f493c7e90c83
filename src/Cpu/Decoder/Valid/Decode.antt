-- ===== src/Cpu/Decoder/Valid/Decode.antt =====
-- Every instruction that `decode` (src/cpu/espresso/decoder.cpp) gives is valid.
use affogato.Base.{ℕ, ◌≡◌, ◌≢◌, true, ◌==◌}
use affogato.Cpu.Decoder.Fields.{field}
use affogato.Cpu.Decoder.{decode_primary, decode}
use affogato.Cpu.Decoder.Valid.{IsValid, IsInRange, is_update}
use affogato.Cpu.Decoder.Valid.Chain.{when◌valid◌else◌}
use affogato.Cpu.Decoder.Valid.Integer.{decode_system-IsValid}
use affogato.Cpu.Decoder.Valid.Floating.{
  decode_floating_move-IsValid, decode_floating_single-IsValid,
}
use affogato.Cpu.Decoder.Valid.Paired.{decode_paired_quantized-IsValid}
use affogato.Cpu.Decoder.Valid.Immediate.{decode_immediate-IsValid, decode_condition-IsValid}

decode_primary-IsValid : (raw primary : ℕ) → IsValid (decode_primary raw primary)
unfolding decode_primary
decode_primary-IsValid raw primary =
    when primary == 4
    valid (λ g. decode_paired_quantized-IsValid raw)
    else when primary == 19
    valid (λ g. decode_condition-IsValid raw (field raw 1 0x3FF))
    else when primary == 31
    valid (λ g. decode_system-IsValid raw (field raw 1 0x3FF))
    else when primary == 63
    valid (λ g. decode_floating_move-IsValid raw)
    else when primary == 59
    valid (λ g. decode_floating_single-IsValid raw (field raw 1 0x1F))
    else decode_immediate-IsValid raw primary

-- Whatever the instruction word, the registers and bit numbers of the decoded instruction are below
-- 32, its fields of status registers and its quantization register below 8, and its masks and
-- immediates within their widths.
pub decode-IsInRange : (raw : ℕ) → IsInRange (decode raw)
unfolding decode
decode-IsInRange raw = (decode_primary-IsValid raw (field raw 26 0x3F)).range

-- An instruction that is decoded as one that writes its address back to the base register does not
-- have register 0 as its base.
pub decode-update-base : (raw : ℕ) → is_update (decode raw).opcode ≡ true → (decode raw).base ≢ 0
unfolding decode
decode-update-base raw = (decode_primary-IsValid raw (field raw 26 0x3F)).has_base
