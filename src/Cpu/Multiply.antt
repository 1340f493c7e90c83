-- ===== src/Cpu/Multiply.antt =====
-- The multiply and divide cases of `EspressoCore::step` (src/cpu/espresso/interpreter.cpp).
pub mod Product
pub mod Quotient
use affogato.Base.{
  ℕ, ◌-◌, ◌*◌, ◌/◌, ◌%◌, ◌^◌, Bool, true, false, ◌&&◌, ◌||◌, u32, ◌>>>◌, ◌==◌, if◌then◌else◌, ℤ,
  pos, negsuc, ◌*ℤ◌, ◌/ℤ◌, wrap, ltb_ℤ, int32, exceeds_int32,
}
use affogato.Cpu.State.{CpuState}
use affogato.Cpu.Flags.{write_gpr}
use affogato.Cpu.Arithmetic.{Operands, deliver, deliver_overflow}

-- `std::int64_t` product of the two patterns; it is exact.
abbrev pub signed_product : ℕ → ℕ → ℤ
signed_product a b = int32 a *ℤ int32 b

unfoldable pub multiply_low_immediate : CpuState → Operands → CpuState
multiply_low_immediate s o =
    write_gpr s o.destination (wrap 32 (signed_product (s.gpr o.base) o.immediate))

unfoldable pub multiply_low_word : CpuState → Operands → CpuState
multiply_low_word s o = deliver s o (wrap 32 (signed_product (s.gpr o.base) (s.gpr o.source)))

unfoldable pub multiply_low_word_overflow : CpuState → Operands → CpuState
multiply_low_word_overflow s o =
    let product = signed_product (s.gpr o.base) (s.gpr o.source) in
    deliver_overflow s o (wrap 32 product) (exceeds_int32 product)

unfoldable pub multiply_high_word_unsigned : CpuState → Operands → CpuState
multiply_high_word_unsigned s o = deliver s o (u32 ((s.gpr o.base * s.gpr o.source) >>> 32))

unfoldable pub multiply_high_word_signed : CpuState → Operands → CpuState
multiply_high_word_signed s o =
    let product = signed_product (s.gpr o.base) (s.gpr o.source) in
    deliver s o (u32 (wrap 64 product >>> 32))

abbrev pub unsigned_quotient : ℕ → ℕ → ℕ
unsigned_quotient dividend divisor = if divisor == 0 then 0 else dividend / divisor

unfoldable pub divide_word_unsigned : CpuState → Operands → CpuState
divide_word_unsigned s o = deliver s o (unsigned_quotient (s.gpr o.base) (s.gpr o.source))

unfoldable pub divide_word_unsigned_overflow : CpuState → Operands → CpuState
divide_word_unsigned_overflow s o =
    deliver_overflow s o (unsigned_quotient (s.gpr o.base) (s.gpr o.source)) (s.gpr o.source == 0)

-- `dividend == INT32_MIN && divisor == -1`, on the patterns.
abbrev pub quotient_too_large : ℕ → ℕ → Bool
quotient_too_large dividend divisor = dividend == 0x80000000 && divisor == 0xFFFFFFFF

unfoldable pub signed_quotient : ℕ → ℕ → ℕ
signed_quotient dividend divisor =
    if divisor == 0
    then (if ltb_ℤ (int32 dividend) (pos 0) then 0xFFFFFFFF else 0)
    else if quotient_too_large dividend divisor
    then 0xFFFFFFFF
    else wrap 32 (int32 dividend /ℤ int32 divisor)

unfoldable pub divide_word_signed : CpuState → Operands → CpuState
divide_word_signed s o = deliver s o (signed_quotient (s.gpr o.base) (s.gpr o.source))

unfoldable pub divide_word_signed_overflow : CpuState → Operands → CpuState
divide_word_signed_overflow s o =
    deliver_overflow s o (signed_quotient (s.gpr o.base) (s.gpr o.source))
      (s.gpr o.source == 0 || quotient_too_large (s.gpr o.base) (s.gpr o.source))
