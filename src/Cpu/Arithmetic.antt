-- ===== src/Cpu/Arithmetic.antt =====
-- The add, subtract, negate and sign-extension instructions of `EspressoCore::step`
-- (src/cpu/espresso/interpreter.cpp). Each function is one case of the switch on the opcode, up to
-- its `break`; the suffix `_overflow` is that of the opcode.

pub mod Step
pub mod Carry
pub mod Overflow
use affogato.Base.{
  ℕ, ◌+◌, ◌-◌, ◌*◌, ◌/◌, ◌%◌, ◌^◌, bit_and, bit_or, bit_xor, Bool, true, false, not, u32, u64,
  not32, ◌<<<◌, ◌>>>◌, leb, ◌==◌, if◌then◌else◌, ℤ, pos, negsuc, ◌+ℤ◌, ◌-ℤ◌, ltb_ℤ, int32,
  exceeds_int32,
}
use affogato.Cpu.State.{CpuState}
use affogato.Cpu.Flags.{
  has_bits, set_xer_carry, set_xer_overflow, carry_of, from_bool, write_gpr, when_record,
}

-- The operands of the integer instructions that the decoder gives (`DecodedInstruction`). The
-- signed immediate is its bit pattern.
pub record Operands : Type 0 where
  pub destination : ℕ
  pub source : ℕ
  pub base : ℕ
  pub immediate : ℕ
  pub shift : ℕ
  pub mask_begin : ℕ
  pub mask_end : ℕ
  pub cr_field : ℕ
  pub record_result : Bool

abbrev pub sub32 : ℕ → ℕ → ℕ
sub32 x y = u32 (x + 2 ^ 32 - y)

-- `(sum >> 32) != 0`.
abbrev pub carries : ℕ → Bool
carries sum = not (sum >>> 32 == 0)

abbrev pub sign_bit : ℕ
sign_bit = 0x80000000

-- The result, and the record form.
abbrev pub deliver : CpuState → Operands → ℕ → CpuState
deliver s o result = when_record o.record_result result (write_gpr s o.destination result)

-- The result, the carry, and the record form.
abbrev pub deliver_carry : CpuState → Operands → ℕ → Bool → CpuState
deliver_carry s o result carry =
    when_record o.record_result result (set_xer_carry (write_gpr s o.destination result) carry)

abbrev pub deliver_overflow : CpuState → Operands → ℕ → Bool → CpuState
deliver_overflow s o result overflow =
    when_record o.record_result result
      (set_xer_overflow (write_gpr s o.destination result) overflow)

abbrev pub deliver_both : CpuState → Operands → ℕ → Bool → Bool → CpuState
deliver_both s o result carry overflow =
    when_record o.record_result result
      (set_xer_overflow (set_xer_carry (write_gpr s o.destination result) carry) overflow)

unfoldable pub negate : CpuState → Operands → CpuState
negate s o = deliver s o (sub32 0 (s.gpr o.source))

unfoldable pub negate_overflow : CpuState → Operands → CpuState
negate_overflow s o = deliver_overflow s o (sub32 0 (s.gpr o.source)) (s.gpr o.source == 0x80000000)

unfoldable pub extend_sign_byte : CpuState → Operands → CpuState
extend_sign_byte s o =
    let low_byte = bit_and (s.gpr o.source) 0xFF in
    deliver s o (bit_or low_byte (if has_bits low_byte 0x80 then 0xFFFFFF00 else 0))

unfoldable pub extend_sign_halfword : CpuState → Operands → CpuState
extend_sign_halfword s o =
    let low_halfword = bit_and (s.gpr o.source) 0xFFFF in
    deliver s o (bit_or low_halfword (if has_bits low_halfword 0x8000 then 0xFFFF0000 else 0))

-- Register 0 as a base stands for the number 0.
abbrev pub base_or_zero : CpuState → ℕ → ℕ
base_or_zero s register = if register == 0 then 0 else s.gpr register

unfoldable pub addi : CpuState → Operands → CpuState
addi s o = write_gpr s o.destination (u32 (base_or_zero s o.base + o.immediate))

unfoldable pub addis : CpuState → Operands → CpuState
addis s o = write_gpr s o.destination (u32 (base_or_zero s o.base + u32 (o.immediate <<< 16)))

unfoldable pub add_immediate_carry : CpuState → Operands → CpuState
add_immediate_carry s o =
    let sum = s.gpr o.base + o.immediate in deliver_carry s o (u32 sum) (carries sum)

-- This one has no record form.
unfoldable pub subtract_from_immediate_carry : CpuState → Operands → CpuState
subtract_from_immediate_carry s o =
    let source = s.gpr o.base in
    set_xer_carry (write_gpr s o.destination (sub32 o.immediate source)) (leb source o.immediate)

unfoldable pub add : CpuState → Operands → CpuState
add s o = deliver s o (u32 (s.gpr o.base + s.gpr o.source))

-- `((~(a ^ b) & (a ^ result)) & 0x80000000U) != 0U`.
abbrev pub add_overflows : ℕ → ℕ → ℕ → Bool
add_overflows a b result = has_bits (bit_and (not32 (bit_xor a b)) (bit_xor a result)) sign_bit

-- `(((b ^ a) & (b ^ result)) & 0x80000000U) != 0U`.
abbrev pub subtract_overflows : ℕ → ℕ → ℕ → Bool
subtract_overflows minuend subtrahend result =
    has_bits (bit_and (bit_xor minuend subtrahend) (bit_xor minuend result)) sign_bit

unfoldable pub add_overflow : CpuState → Operands → CpuState
add_overflow s o =
    let a = s.gpr o.base in
    let b = s.gpr o.source in
    let result = u32 (a + b) in deliver_overflow s o result (add_overflows a b result)

unfoldable pub subtract_from_overflow : CpuState → Operands → CpuState
subtract_from_overflow s o =
    let a = s.gpr o.base in
    let b = s.gpr o.source in
    let result = sub32 b a in deliver_overflow s o result (subtract_overflows b a result)

unfoldable pub add_carrying : CpuState → Operands → CpuState
add_carrying s o =
    let sum = s.gpr o.base + s.gpr o.source in deliver_carry s o (u32 sum) (carries sum)

unfoldable pub add_carrying_overflow : CpuState → Operands → CpuState
add_carrying_overflow s o =
    let a = s.gpr o.base in
    let b = s.gpr o.source in
    let sum = a + b in deliver_both s o (u32 sum) (carries sum) (add_overflows a b (u32 sum))

unfoldable pub add_to_zero_extended : CpuState → Operands → CpuState
add_to_zero_extended s o =
    let sum = s.gpr o.base + from_bool (carry_of s) in deliver_carry s o (u32 sum) (carries sum)

unfoldable pub add_to_zero_extended_overflow : CpuState → Operands → CpuState
add_to_zero_extended_overflow s o =
    let a = s.gpr o.base in
    let sum = a + from_bool (carry_of s) in
    let exact_signed = int32 a +ℤ pos (from_bool (carry_of s)) in
    deliver_both s o (u32 sum) (carries sum) (ltb_ℤ (pos (2 ^ 31 - 1)) exact_signed)

unfoldable pub add_extended : CpuState → Operands → CpuState
add_extended s o =
    let sum = s.gpr o.base + s.gpr o.source + from_bool (carry_of s) in
    deliver_carry s o (u32 sum) (carries sum)

unfoldable pub add_extended_overflow : CpuState → Operands → CpuState
add_extended_overflow s o =
    let a = s.gpr o.base in
    let b = s.gpr o.source in
    let carry_in = from_bool (carry_of s) in
    let sum = a + b + carry_in in
    let exact_signed = int32 a +ℤ int32 b +ℤ pos carry_in in
    deliver_both s o (u32 sum) (carries sum) (exceeds_int32 exact_signed)

unfoldable pub add_to_minus_one_extended : CpuState → Operands → CpuState
add_to_minus_one_extended s o =
    let sum = s.gpr o.base + 0xFFFFFFFF + from_bool (carry_of s) in
    deliver_carry s o (u32 sum) (carries sum)

unfoldable pub add_to_minus_one_extended_overflow : CpuState → Operands → CpuState
add_to_minus_one_extended_overflow s o =
    let a = s.gpr o.base in
    let carry_in = from_bool (carry_of s) in
    let sum = a + 0xFFFFFFFF + carry_in in
    let exact_signed = int32 a -ℤ pos 1 +ℤ pos carry_in in
    deliver_both s o (u32 sum) (carries sum) (exceeds_int32 exact_signed)

unfoldable pub subtract_from : CpuState → Operands → CpuState
subtract_from s o = deliver s o (sub32 (s.gpr o.source) (s.gpr o.base))

unfoldable pub subtract_from_carrying : CpuState → Operands → CpuState
subtract_from_carrying s o =
    let minuend = s.gpr o.source in
    let subtrahend = s.gpr o.base in
    deliver_carry s o (sub32 minuend subtrahend) (leb subtrahend minuend)

unfoldable pub subtract_from_carrying_overflow : CpuState → Operands → CpuState
subtract_from_carrying_overflow s o =
    let minuend = s.gpr o.source in
    let subtrahend = s.gpr o.base in
    let result = sub32 minuend subtrahend in
    deliver_both s o result (leb subtrahend minuend) (subtract_overflows minuend subtrahend result)

unfoldable pub subtract_from_extended : CpuState → Operands → CpuState
subtract_from_extended s o =
    let sum = not32 (s.gpr o.base) + s.gpr o.source + from_bool (carry_of s) in
    deliver_carry s o (u32 sum) (carries sum)

unfoldable pub subtract_from_extended_overflow : CpuState → Operands → CpuState
subtract_from_extended_overflow s o =
    let a = s.gpr o.base in
    let b = s.gpr o.source in
    let extended_sum = not32 a + b + from_bool (carry_of s) in
    let signed_result = int32 b -ℤ int32 a -ℤ pos (from_bool (not (carry_of s))) in
    deliver_both s o (u32 extended_sum) (carries extended_sum) (exceeds_int32 signed_result)

unfoldable pub subtract_from_zero_extended : CpuState → Operands → CpuState
subtract_from_zero_extended s o =
    let sum = not32 (s.gpr o.base) + from_bool (carry_of s) in
    deliver_carry s o (u32 sum) (carries sum)

unfoldable pub subtract_from_zero_extended_overflow : CpuState → Operands → CpuState
subtract_from_zero_extended_overflow s o =
    let a = s.gpr o.base in
    let carry_in = from_bool (carry_of s) in
    let sum = not32 a + carry_in in
    let exact_signed = pos 0 -ℤ int32 a -ℤ pos 1 +ℤ pos carry_in in
    deliver_both s o (u32 sum) (carries sum) (exceeds_int32 exact_signed)

unfoldable pub subtract_from_minus_one_extended : CpuState → Operands → CpuState
subtract_from_minus_one_extended s o =
    let sum = not32 (s.gpr o.base) + 0xFFFFFFFF + from_bool (carry_of s) in
    deliver_carry s o (u32 sum) (carries sum)

unfoldable pub subtract_from_minus_one_extended_overflow : CpuState → Operands → CpuState
subtract_from_minus_one_extended_overflow s o =
    let a = s.gpr o.base in
    let carry_in = from_bool (carry_of s) in
    let sum = not32 a + 0xFFFFFFFF + carry_in in
    let exact_signed = pos 0 -ℤ int32 a -ℤ pos 2 +ℤ pos carry_in in
    deliver_both s o (u32 sum) (carries sum) (exceeds_int32 exact_signed)
