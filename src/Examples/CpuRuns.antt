-- ===== src/Examples/CpuRuns.antt =====
-- The theorems on the integer instructions of interpreter.cpp at concrete registers.
use affogato.Base.{
  leb, bit, ltb_ℤ, if◌then◌else◌, ◌-◌, ℕ, ◌+◌, ◌-◌, ◌^◌, ◌%◌, ◌<◌, ◌≡◌, refl, true, false, not, leb,
  arith, int32, ◌+ℤ◌, exceeds_int32,
}
use affogato.Cpu.Logic.{rotate_mask, arithmetic_shift_right_immediate}
use affogato.Cpu.Logic.Mask.{distance, rotate_mask-distance}
use affogato.Cpu.Logic.Divide.{
  divide_toward_zero, add_to_zero_extended-arithmetic_shift_right_immediate,
}
use affogato.Cpu.Flags.Field.{ShowsOrder, set_compare_result-ShowsOrder}
use affogato.Cpu.State.{CpuState, zeroed, put}
use affogato.Cpu.Flags.{carry_of, set_compare_result}
use affogato.Cpu.Flags.Digits.{summary_of, overflow_of}
use affogato.Cpu.Arithmetic.{
  add_to_zero_extended, Operands, add_carrying, add_extended, subtract_from_carrying,
  subtract_from_extended, add_overflow,
}
use affogato.Cpu.Arithmetic.Step.{ArithmeticOpcode, execute_arithmetic, execute_arithmetic-sticky}
use affogato.Cpu.Arithmetic.Carry.{
  double_word, add_extended-add_carrying, subtract_from_extended-subtract_from_carrying,
}
use affogato.Cpu.Arithmetic.Overflow.{add_overflow-exceeds}

-- r4 and r5 hold one 64-bit number, r6 and r7 another; the summary overflow bit is set.
abbrev registers : CpuState
registers = record zeroed {
  gpr = put (put (put (put (λ r. 0) 4 0x7FFFFFFF) 5 0xFFFFFFFF) 6 0) 7 1;
  xer = 0x80000000;
}

abbrev low_words : Operands
low_words = record {
  destination = 9;
  source = 7;
  base = 5;
  immediate = 0;
  shift = 0;
  mask_begin = 0;
  mask_end = 0;
  cr_field = 0;
  record_result = false;
}

abbrev high_words : Operands
high_words = record {
  destination = 8;
  source = 6;
  base = 4;
  immediate = 0;
  shift = 0;
  mask_begin = 0;
  mask_end = 0;
  cr_field = 0;
  record_result = true;
}

registers_words : (register : ℕ) → registers.gpr register < 2 ^ 32
registers_words register = ground arith

add_extended-add_carrying_example :
    let t = add_extended (add_carrying registers low_words) high_words in
    (double_word (t.gpr 8) (t.gpr 9) ≡ (0x7FFFFFFFFFFFFFFF + 1) % 2 ^ 64)
    × (carry_of t ≡ not (leb (0x7FFFFFFFFFFFFFFF + 1) (2 ^ 64 - 1)))
add_extended-add_carrying_example =
    add_extended-add_carrying registers low_words high_words registers_words (omega arith)
      (omega arith) (omega arith)

subtract_from_extended-subtract_from_carrying_example :
    let t = subtract_from_extended (subtract_from_carrying registers low_words) high_words in
    (double_word (t.gpr 8) (t.gpr 9) ≡ (1 + 2 ^ 64 - 0x7FFFFFFFFFFFFFFF) % 2 ^ 64)
    × (carry_of t ≡ leb 0x7FFFFFFFFFFFFFFF 1)
subtract_from_extended-subtract_from_carrying_example =
    subtract_from_extended-subtract_from_carrying registers low_words high_words registers_words
      (omega arith) (omega arith) (omega arith)

summary_set : summary_of registers ≡ true
unfolding summary_of
summary_set = refl

execute_arithmetic-sticky_example :
    summary_of (execute_arithmetic ArithmeticOpcode.add_overflow registers high_words) ≡ true
execute_arithmetic-sticky_example =
    execute_arithmetic-sticky ArithmeticOpcode.add_overflow registers high_words summary_set

abbrev overflowing : Operands
overflowing = record {
  destination = 3;
  source = 7;
  base = 4;
  immediate = 0;
  shift = 0;
  mask_begin = 0;
  mask_end = 0;
  cr_field = 0;
  record_result = true;
}

add_overflow-exceeds_example :
    overflow_of (add_overflow registers overflowing) ≡ exceeds_int32 (int32 0x7FFFFFFF +ℤ int32 1)
add_overflow-exceeds_example =
    add_overflow-exceeds registers overflowing (omega arith) (omega arith)

-- A mask that wraps around.
rotate_mask-distance_example :
    bit (rotate_mask 30 1) (31 - 31) ≡ (if leb (distance 30 31) (distance 30 1) then 1 else 0)
rotate_mask-distance_example =
    rotate_mask-distance 30 1 31 (omega arith) (omega arith) (omega arith)

set_compare_result-ShowsOrder_example :
    ShowsOrder registers 7
      (ltb_ℤ (int32 0xFFFFFFFF) (int32 1))
      (ltb_ℤ (int32 1) (int32 0xFFFFFFFF))
      (set_compare_result registers 7 0xFFFFFFFF 1)
set_compare_result-ShowsOrder_example =
    set_compare_result-ShowsOrder registers 7 0xFFFFFFFF 1 (omega arith)

-- r5 holds -1.
abbrev halving : Operands
halving = record {
  destination = 3;
  source = 5;
  base = 3;
  immediate = 0;
  shift = 1;
  mask_begin = 0;
  mask_end = 0;
  cr_field = 0;
  record_result = false;
}

add_to_zero_extended-arithmetic_shift_right_immediate_example :
    int32
      ((add_to_zero_extended (arithmetic_shift_right_immediate registers halving) halving).gpr 3)
    ≡ divide_toward_zero (int32 0xFFFFFFFF) (2 ^ 1)
add_to_zero_extended-arithmetic_shift_right_immediate_example =
    add_to_zero_extended-arithmetic_shift_right_immediate registers halving halving (omega arith)
      (omega arith) refl
