-- ===== src/Cpu/Arithmetic/Overflow.antt =====
-- The overflow tests of interpreter.cpp by `^`, `&` and `~`, against the exact signed result.
use affogato.Base.{
  inl, inr, ℕ, ◌+◌, ◌-◌, ◌^◌, ◌<◌, ◌≡◌, ap, ◌∙◌, Bool, true, false, arith, u32, not32, bit, bit-and,
  bit-xor, bit-complement, bit-div, bit_xor-lt, bit_and, bit_xor, ltb, ◌==◌, if◌then◌else◌, int32,
  ◌+ℤ◌, ◌-ℤ◌, exceeds_int32, min, Bool-cases,
}
use Prim.Native.Nat.{differ}
use affogato.Cpu.State.{CpuState}
use affogato.Cpu.Flags.{set_xer_overflow, write_gpr}
use affogato.Cpu.Flags.Digits.{
  has_bits-power, overflow_of, overflow_of-set_xer_overflow, overflow_of-when_record,
}
use affogato.Cpu.Arithmetic.{
  Operands, add_overflows, subtract_overflows, sub32, deliver_overflow, add_overflow,
  subtract_from_overflow,
}

-- The sign bit of a word.
top_bit : (x : ℕ) → x < 2 ^ 32 → bit x 31 ≡ (if ltb x (2 ^ 31) then 0 else 1)
top_bit x h = ground (arith, bit-div x 31)

-- `(~(a ^ b) & (a ^ result)) & 0x80000000` looks at three sign bits.
add_overflows-signs :
    (a b r : ℕ)
    → a < 2 ^ 32
    → b < 2 ^ 32
    → r < 2 ^ 32
    → add_overflows a b r
      ≡ (min (1 - differ (bit a 31) (bit b 31)) (differ (bit a 31) (bit r 31)) == 1)
add_overflows-signs a b r ha hb hr =
    has_bits-power (bit_and (not32 (bit_xor a b)) (bit_xor a r)) 31
    ∙ ap (λ (t : ℕ). t == 1)
        (bit-and (not32 (bit_xor a b)) (bit_xor a r) 31
          ∙ signs (bit (not32 (bit_xor a b)) 31) (bit (bit_xor a b) 31)
              (bit-complement 32 (bit_xor a b) 31 (bit_xor-lt 32 a b ha hb) (omega arith))
              (bit-xor a b 31) (bit-xor a r 31))
  where
    signs : (c x : ℕ) → {d e f : ℕ} → c ≡ 1 - x → x ≡ d → f ≡ e → min c f ≡ min (1 - d) e
    signs c x p q r = omega arith

-- `((b ^ a) & (b ^ result)) & 0x80000000`.
subtract_overflows-signs :
    (a b r : ℕ)
    → subtract_overflows a b r
      ≡ (min (differ (bit a 31) (bit b 31)) (differ (bit a 31) (bit r 31)) == 1)
subtract_overflows-signs a b r =
    has_bits-power (bit_and (bit_xor a b) (bit_xor a r)) 31
    ∙ ap (λ (t : ℕ). t == 1)
        (bit-and (bit_xor a b) (bit_xor a r) 31 ∙ both (bit-xor a b 31) (bit-xor a r 31))
  where
    both : {c d e f : ℕ} → c ≡ d → e ≡ f → min c e ≡ min d f
    both p q = omega arith

-- The tests are exact: they hold where the signed result has no place in 32 bits.
module _ (a b : ℕ) (ha : a < 2 ^ 32) (hb : b < 2 ^ 32) where
  by_sign :
      {P : Type 0}
      → (ltb a (2 ^ 31) ≡ true → ltb b (2 ^ 31) ≡ true → P)
      → (ltb a (2 ^ 31) ≡ true → ltb b (2 ^ 31) ≡ false → P)
      → (ltb a (2 ^ 31) ≡ false → ltb b (2 ^ 31) ≡ true → P)
      → (ltb a (2 ^ 31) ≡ false → ltb b (2 ^ 31) ≡ false → P)
      → P
  by_sign f g h k = elim (Bool-cases (ltb a (2 ^ 31))) [
    | inl p ↦ elim (Bool-cases (ltb b (2 ^ 31))) [ inl q ↦ f p q | inr q ↦ g p q ]
    | inr p ↦ elim (Bool-cases (ltb b (2 ^ 31))) [ inl q ↦ h p q | inr q ↦ k p q ]
  ]

  sum_signs :
      (min (1 - differ (bit a 31) (bit b 31)) (differ (bit a 31) (bit (u32 (a + b)) 31)) == 1)
      ≡ exceeds_int32 (int32 a +ℤ int32 b)
  sum_signs =
      let top = top_bit (u32 (a + b)) (omega arith) in
      by_sign (λ p q. ground (arith, top_bit a ha, top_bit b hb, top))
        (λ p q. ground (arith, top_bit a ha, top_bit b hb, top))
        (λ p q. ground (arith, top_bit a ha, top_bit b hb, top))
        (λ p q. ground (arith, top_bit a ha, top_bit b hb, top))

  difference_signs :
      (min (differ (bit a 31) (bit b 31)) (differ (bit a 31) (bit (sub32 a b) 31)) == 1)
      ≡ exceeds_int32 (int32 a -ℤ int32 b)
  difference_signs =
      let top = top_bit (sub32 a b) (omega arith) in
      by_sign (λ p q. ground (arith, top_bit a ha, top_bit b hb, top))
        (λ p q. ground (arith, top_bit a ha, top_bit b hb, top))
        (λ p q. ground (arith, top_bit a ha, top_bit b hb, top))
        (λ p q. ground (arith, top_bit a ha, top_bit b hb, top))

  add_overflows-exceeds : add_overflows a b (u32 (a + b)) ≡ exceeds_int32 (int32 a +ℤ int32 b)
  add_overflows-exceeds = add_overflows-signs a b (u32 (a + b)) ha hb (omega arith) ∙ sum_signs

  subtract_overflows-exceeds :
      subtract_overflows a b (sub32 a b) ≡ exceeds_int32 (int32 a -ℤ int32 b)
  subtract_overflows-exceeds = subtract_overflows-signs a b (sub32 a b) ∙ difference_signs

overflow_of-deliver_overflow :
    (s : CpuState) (o : Operands) (r : ℕ) (v : Bool) → overflow_of (deliver_overflow s o r v) ≡ v
overflow_of-deliver_overflow s o r v =
    overflow_of-when_record o.record_result r (set_xer_overflow (write_gpr s o.destination r) v)
    ∙ overflow_of-set_xer_overflow (write_gpr s o.destination r) v

-- With words in its operand registers, `addo` leaves in the overflow bit of XER whether the exact
-- signed sum is outside the range of a 32-bit integer.
pub add_overflow-exceeds :
    (s : CpuState) (o : Operands)
    → s.gpr o.base < 2 ^ 32
    → s.gpr o.source < 2 ^ 32
    → overflow_of (add_overflow s o)
      ≡ exceeds_int32 (int32 (s.gpr o.base) +ℤ int32 (s.gpr o.source))
unfolding add_overflow
add_overflow-exceeds s o ha hb =
    overflow_of-deliver_overflow s o _ _
    ∙ add_overflows-exceeds (s.gpr o.base) (s.gpr o.source) ha hb

-- With words in its operand registers, `subfo` leaves in the overflow bit of XER whether the exact
-- signed difference is outside the range of a 32-bit integer.
subtract_from_overflow-exceeds :
    (s : CpuState) (o : Operands)
    → s.gpr o.base < 2 ^ 32
    → s.gpr o.source < 2 ^ 32
    → overflow_of (subtract_from_overflow s o)
      ≡ exceeds_int32 (int32 (s.gpr o.source) -ℤ int32 (s.gpr o.base))
unfolding subtract_from_overflow
subtract_from_overflow-exceeds s o ha hb =
    overflow_of-deliver_overflow s o _ _
    ∙ subtract_overflows-exceeds (s.gpr o.source) (s.gpr o.base) hb ha
