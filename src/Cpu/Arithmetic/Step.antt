-- ===== src/Cpu/Arithmetic/Step.antt =====
-- The arithmetic part of the switch of `EspressoCore::step` (src/cpu/espresso/interpreter.cpp) on the
-- opcodes of decoder.hpp, and the flag that no case of it clears.
use affogato.Base.{ℕ, ◌≡◌, ◌∙◌, Bool, true, arith}
use affogato.Cpu.State.{CpuState}
use affogato.Cpu.Flags.{set_xer_carry, set_xer_overflow, write_gpr}
use affogato.Cpu.Flags.Digits.{
  summary_of, summary_of-write_gpr, summary_of-when_record, summary_of-set_xer_carry,
  summary_of-set_xer_overflow,
}
use affogato.Cpu.Arithmetic
use affogato.Cpu.Arithmetic.{Operands, deliver, deliver_carry, deliver_overflow, deliver_both}

pub data ArithmeticOpcode : Type 0 where
  negate : ArithmeticOpcode
  negate_overflow : ArithmeticOpcode
  extend_sign_byte : ArithmeticOpcode
  extend_sign_halfword : ArithmeticOpcode
  addi : ArithmeticOpcode
  addis : ArithmeticOpcode
  add_immediate_carry : ArithmeticOpcode
  subtract_from_immediate_carry : ArithmeticOpcode
  add : ArithmeticOpcode
  add_overflow : ArithmeticOpcode
  subtract_from_overflow : ArithmeticOpcode
  add_carrying : ArithmeticOpcode
  add_carrying_overflow : ArithmeticOpcode
  add_to_zero_extended : ArithmeticOpcode
  add_to_zero_extended_overflow : ArithmeticOpcode
  add_extended : ArithmeticOpcode
  add_extended_overflow : ArithmeticOpcode
  add_to_minus_one_extended : ArithmeticOpcode
  add_to_minus_one_extended_overflow : ArithmeticOpcode
  subtract_from : ArithmeticOpcode
  subtract_from_carrying : ArithmeticOpcode
  subtract_from_carrying_overflow : ArithmeticOpcode
  subtract_from_extended : ArithmeticOpcode
  subtract_from_extended_overflow : ArithmeticOpcode
  subtract_from_zero_extended : ArithmeticOpcode
  subtract_from_zero_extended_overflow : ArithmeticOpcode
  subtract_from_minus_one_extended : ArithmeticOpcode
  subtract_from_minus_one_extended_overflow : ArithmeticOpcode

unfoldable pub execute_arithmetic : ArithmeticOpcode → CpuState → Operands → CpuState
execute_arithmetic negate = Arithmetic.negate
execute_arithmetic negate_overflow = Arithmetic.negate_overflow
execute_arithmetic extend_sign_byte = Arithmetic.extend_sign_byte
execute_arithmetic extend_sign_halfword = Arithmetic.extend_sign_halfword
execute_arithmetic addi = Arithmetic.addi
execute_arithmetic addis = Arithmetic.addis
execute_arithmetic add_immediate_carry = Arithmetic.add_immediate_carry
execute_arithmetic subtract_from_immediate_carry = Arithmetic.subtract_from_immediate_carry
execute_arithmetic add = Arithmetic.add
execute_arithmetic add_overflow = Arithmetic.add_overflow
execute_arithmetic subtract_from_overflow = Arithmetic.subtract_from_overflow
execute_arithmetic add_carrying = Arithmetic.add_carrying
execute_arithmetic add_carrying_overflow = Arithmetic.add_carrying_overflow
execute_arithmetic add_to_zero_extended = Arithmetic.add_to_zero_extended
execute_arithmetic add_to_zero_extended_overflow = Arithmetic.add_to_zero_extended_overflow
execute_arithmetic add_extended = Arithmetic.add_extended
execute_arithmetic add_extended_overflow = Arithmetic.add_extended_overflow
execute_arithmetic add_to_minus_one_extended = Arithmetic.add_to_minus_one_extended
execute_arithmetic add_to_minus_one_extended_overflow =
    Arithmetic.add_to_minus_one_extended_overflow
execute_arithmetic subtract_from = Arithmetic.subtract_from
execute_arithmetic subtract_from_carrying = Arithmetic.subtract_from_carrying
execute_arithmetic subtract_from_carrying_overflow = Arithmetic.subtract_from_carrying_overflow
execute_arithmetic subtract_from_extended = Arithmetic.subtract_from_extended
execute_arithmetic subtract_from_extended_overflow = Arithmetic.subtract_from_extended_overflow
execute_arithmetic subtract_from_zero_extended = Arithmetic.subtract_from_zero_extended
execute_arithmetic subtract_from_zero_extended_overflow =
    Arithmetic.subtract_from_zero_extended_overflow
execute_arithmetic subtract_from_minus_one_extended = Arithmetic.subtract_from_minus_one_extended
execute_arithmetic subtract_from_minus_one_extended_overflow =
    Arithmetic.subtract_from_minus_one_extended_overflow

deliver-summary :
    (s : CpuState) (o : Operands) (r : ℕ) → summary_of s ≡ true → summary_of (deliver s o r) ≡ true
deliver-summary s o r h =
    summary_of-when_record o.record_result r (write_gpr s o.destination r)
    ∙ (summary_of-write_gpr s o.destination r ∙ h)

carry-summary :
    (s : CpuState) (o : Operands) (r : ℕ) (c : Bool)
    → summary_of s ≡ true
    → summary_of (set_xer_carry (write_gpr s o.destination r) c) ≡ true
carry-summary s o r c h =
    summary_of-set_xer_carry (write_gpr s o.destination r) c
    ∙ (summary_of-write_gpr s o.destination r ∙ h)

deliver_carry-summary :
    (s : CpuState) (o : Operands) (r : ℕ) (c : Bool)
    → summary_of s ≡ true
    → summary_of (deliver_carry s o r c) ≡ true
deliver_carry-summary s o r c h =
    summary_of-when_record o.record_result r (set_xer_carry (write_gpr s o.destination r) c)
    ∙ carry-summary s o r c h

overflow-summary :
    (s : CpuState) (v : Bool) → summary_of s ≡ true → summary_of (set_xer_overflow s v) ≡ true
overflow-summary s v h = ground (arith, summary_of-set_xer_overflow s v)

deliver_overflow-summary :
    (s : CpuState) (o : Operands) (r : ℕ) (v : Bool)
    → summary_of s ≡ true
    → summary_of (deliver_overflow s o r v) ≡ true
deliver_overflow-summary s o r v h =
    summary_of-when_record o.record_result r (set_xer_overflow (write_gpr s o.destination r) v)
    ∙ overflow-summary (write_gpr s o.destination r) v (summary_of-write_gpr s o.destination r ∙ h)

deliver_both-summary :
    (s : CpuState) (o : Operands) (r : ℕ) (c v : Bool)
    → summary_of s ≡ true
    → summary_of (deliver_both s o r c v) ≡ true
deliver_both-summary s o r c v h =
    summary_of-when_record o.record_result r
      (set_xer_overflow (set_xer_carry (write_gpr s o.destination r) c) v)
    ∙ overflow-summary (set_xer_carry (write_gpr s o.destination r) c) v (carry-summary s o r c h)

-- If the summary overflow bit of XER is set, it is set after every add, subtract, negate and
-- sign-extension instruction.
pub execute_arithmetic-sticky :
    (op : ArithmeticOpcode) (s : CpuState) (o : Operands)
    → summary_of s ≡ true
    → summary_of (execute_arithmetic op s o) ≡ true
unfolding execute_arithmetic
execute_arithmetic-sticky negate s o h = unfold Arithmetic.negate in (deliver-summary s o _ h)
execute_arithmetic-sticky negate_overflow s o h =
    unfold Arithmetic.negate_overflow in (deliver_overflow-summary s o _ _ h)
execute_arithmetic-sticky extend_sign_byte s o h =
    unfold Arithmetic.extend_sign_byte in (deliver-summary s o _ h)
execute_arithmetic-sticky extend_sign_halfword s o h =
    unfold Arithmetic.extend_sign_halfword in (deliver-summary s o _ h)
execute_arithmetic-sticky addi s o h =
    unfold Arithmetic.addi in (summary_of-write_gpr s o.destination _ ∙ h)
execute_arithmetic-sticky addis s o h =
    unfold Arithmetic.addis in (summary_of-write_gpr s o.destination _ ∙ h)
execute_arithmetic-sticky add_immediate_carry s o h =
    unfold Arithmetic.add_immediate_carry in (deliver_carry-summary s o _ _ h)
execute_arithmetic-sticky subtract_from_immediate_carry s o h =
    unfold Arithmetic.subtract_from_immediate_carry in (carry-summary s o _ _ h)
execute_arithmetic-sticky add s o h = unfold Arithmetic.add in (deliver-summary s o _ h)
execute_arithmetic-sticky add_overflow s o h =
    unfold Arithmetic.add_overflow in (deliver_overflow-summary s o _ _ h)
execute_arithmetic-sticky subtract_from_overflow s o h =
    unfold Arithmetic.subtract_from_overflow in (deliver_overflow-summary s o _ _ h)
execute_arithmetic-sticky add_carrying s o h =
    unfold Arithmetic.add_carrying in (deliver_carry-summary s o _ _ h)
execute_arithmetic-sticky add_carrying_overflow s o h =
    unfold Arithmetic.add_carrying_overflow in (deliver_both-summary s o _ _ _ h)
execute_arithmetic-sticky add_to_zero_extended s o h =
    unfold Arithmetic.add_to_zero_extended in (deliver_carry-summary s o _ _ h)
execute_arithmetic-sticky add_to_zero_extended_overflow s o h =
    unfold Arithmetic.add_to_zero_extended_overflow in (deliver_both-summary s o _ _ _ h)
execute_arithmetic-sticky add_extended s o h =
    unfold Arithmetic.add_extended in (deliver_carry-summary s o _ _ h)
execute_arithmetic-sticky add_extended_overflow s o h =
    unfold Arithmetic.add_extended_overflow in (deliver_both-summary s o _ _ _ h)
execute_arithmetic-sticky add_to_minus_one_extended s o h =
    unfold Arithmetic.add_to_minus_one_extended in (deliver_carry-summary s o _ _ h)
execute_arithmetic-sticky add_to_minus_one_extended_overflow s o h =
    unfold Arithmetic.add_to_minus_one_extended_overflow in (deliver_both-summary s o _ _ _ h)
execute_arithmetic-sticky subtract_from s o h =
    unfold Arithmetic.subtract_from in (deliver-summary s o _ h)
execute_arithmetic-sticky subtract_from_carrying s o h =
    unfold Arithmetic.subtract_from_carrying in (deliver_carry-summary s o _ _ h)
execute_arithmetic-sticky subtract_from_carrying_overflow s o h =
    unfold Arithmetic.subtract_from_carrying_overflow in (deliver_both-summary s o _ _ _ h)
execute_arithmetic-sticky subtract_from_extended s o h =
    unfold Arithmetic.subtract_from_extended in (deliver_carry-summary s o _ _ h)
execute_arithmetic-sticky subtract_from_extended_overflow s o h =
    unfold Arithmetic.subtract_from_extended_overflow in (deliver_both-summary s o _ _ _ h)
execute_arithmetic-sticky subtract_from_zero_extended s o h =
    unfold Arithmetic.subtract_from_zero_extended in (deliver_carry-summary s o _ _ h)
execute_arithmetic-sticky subtract_from_zero_extended_overflow s o h =
    unfold Arithmetic.subtract_from_zero_extended_overflow in (deliver_both-summary s o _ _ _ h)
execute_arithmetic-sticky subtract_from_minus_one_extended s o h =
    unfold Arithmetic.subtract_from_minus_one_extended in (deliver_carry-summary s o _ _ h)
execute_arithmetic-sticky subtract_from_minus_one_extended_overflow s o h =
    unfold Arithmetic.subtract_from_minus_one_extended_overflow in
    (deliver_both-summary s o _ _ _ h)
