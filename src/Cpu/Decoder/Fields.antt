-- ===== src/Cpu/Decoder/Fields.antt =====
-- The bit fields of an instruction word (the helpers at the top of src/cpu/espresso/decoder.cpp).
use affogato.Base.{ℕ, ◌+◌, ◌-◌, ◌^◌, Bool, not, bit_and, bit_xor, u32, ◌<<<◌, ◌>>>◌, ◌==◌}

abbrev pub field : ℕ → ℕ → ℕ → ℕ
field value shift mask = bit_and (value >>> shift) mask

-- `(raw & mask) != 0`.
abbrev pub flag : ℕ → ℕ → Bool
flag raw mask = not (bit_and raw mask == 0)

-- The bit pattern of the signed result.
unfoldable pub sign_extend : ℕ → ℕ → ℕ
sign_extend value bits =
    let mask = (1 <<< bits) - 1 in
    let sign_bit = 1 <<< (bits - 1) in
    u32 (bit_xor (bit_and value mask) sign_bit + 2 ^ 32 - sign_bit)
