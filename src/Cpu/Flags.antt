-- ===== src/Cpu/Flags.antt =====
-- The helpers of src/cpu/espresso/interpreter.cpp that set the condition register and XER.
pub mod Digits
pub mod Field
use affogato.Base.{
  ℕ, ◌+◌, ◌-◌, ◌*◌, ◌/◌, ◌%◌, ◌^◌, bit_and, bit_or, Bool, true, false, not, u32, not32, ◌<<<◌,
  ◌>>>◌, ltb, ◌==◌, if◌then◌else◌, ℤ, ltb_ℤ, int32,
}
use affogato.Cpu.State.{CpuState, put}

abbrev pub xer_summary_overflow_mask : ℕ
xer_summary_overflow_mask = 0x80000000

abbrev pub xer_overflow_mask : ℕ
xer_overflow_mask = 0x40000000

abbrev pub xer_carry_mask : ℕ
xer_carry_mask = 0x20000000

abbrev pub cr_less_than : ℕ
cr_less_than = 8

abbrev pub cr_greater_than : ℕ
cr_greater_than = 4

abbrev pub cr_equal : ℕ
cr_equal = 2

-- `(value & mask) != 0`.
abbrev pub has_bits : ℕ → ℕ → Bool
has_bits value mask = not (bit_and value mask == 0)

-- The four bits of a field of the condition register; `less` and `greater` are the outcome.
unfoldable pub compare_bits : CpuState → Bool → Bool → ℕ
compare_bits s less greater =
    bit_or (if less then cr_less_than else if greater then cr_greater_than else cr_equal)
      (if has_bits s.xer xer_summary_overflow_mask then 1 else 0)

-- `cr = (cr & ~mask) | (result << shift)`.
unfoldable pub put_cr_field : CpuState → ℕ → ℕ → CpuState
put_cr_field s field result =
    let shift = (7 - field) * 4 in
    record s { cr = bit_or (bit_and s.cr (not32 (u32 (0xF <<< shift)))) (u32 (result <<< shift)) }

-- The operands are bit patterns, compared as signed integers.
unfoldable pub set_compare_result : CpuState → ℕ → ℕ → ℕ → CpuState
set_compare_result s field lhs rhs =
    put_cr_field s field
      (compare_bits s (ltb_ℤ (int32 lhs) (int32 rhs)) (ltb_ℤ (int32 rhs) (int32 lhs)))

unfoldable pub set_compare_result_unsigned : CpuState → ℕ → ℕ → ℕ → CpuState
set_compare_result_unsigned s field lhs rhs =
    put_cr_field s field (compare_bits s (ltb lhs rhs) (ltb rhs lhs))

unfoldable pub set_record_result : CpuState → ℕ → CpuState
set_record_result s value = set_compare_result s 0 value 0

unfoldable pub set_xer_carry : CpuState → Bool → CpuState
set_xer_carry s true = record s { xer = bit_or s.xer xer_carry_mask }
set_xer_carry s false = record s { xer = bit_and s.xer (not32 xer_carry_mask) }

-- The two branches on `overflow` of every instruction that records it.
unfoldable pub set_xer_overflow : CpuState → Bool → CpuState
set_xer_overflow s true = record s {
  xer = bit_or s.xer (bit_or xer_overflow_mask xer_summary_overflow_mask);
}
set_xer_overflow s false = record s { xer = bit_and s.xer (not32 xer_overflow_mask) }

-- `(state.xer & xer_carry_mask) != 0U`.
unfoldable pub carry_of : CpuState → Bool
carry_of s = has_bits s.xer xer_carry_mask

abbrev pub from_bool : Bool → ℕ
from_bool true = 1
from_bool false = 0

unfoldable pub read_cr_bit : CpuState → ℕ → Bool
read_cr_bit s bit_number = not (bit_and (s.cr >>> (31 - bit_number)) 1 == 0)

-- `state.gpr[register] = value`.
unfoldable pub write_gpr : CpuState → ℕ → ℕ → CpuState
write_gpr s register value = record s { gpr = put s.gpr register value }

-- `if (instruction.record) set_record_result(state, result)`.
unfoldable pub when_record : Bool → ℕ → CpuState → CpuState
when_record true result s = set_record_result s result
when_record false result s = s
