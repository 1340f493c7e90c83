-- ===== src/Cpu/Multiply/Quotient.antt =====
-- What the divide instructions (src/cpu/espresso/interpreter.cpp) leave in their destination.
use affogato.Base.{
  ℕ, zero, suc, ◌-◌, ◌/◌, ◌^◌, ◌<◌, ◌≤◌, ◌≡◌, ◌≢◌, ap, ◌∙◌, false, arith, ltb, ◌==◌, pos, ◌/ℤ◌,
  neg_ℕ, wrap, int32, Bool-cases, inl, inr,
}
use native.Mathlib.Nat.{div-le_self, div-lt_self}
use affogato.Cpu.State.{CpuState}
use affogato.Cpu.Arithmetic.{Operands}
use affogato.Cpu.Multiply.{signed_quotient, quotient_too_large, divide_word_signed}
use affogato.Cpu.Multiply.Product.{gpr-deliver, int32-pos, int32-neg}

-- The integer of a pattern that fits.
int32-wrap-pos : (n : ℕ) → n < 2 ^ 31 → int32 (wrap 32 (pos n)) ≡ pos n
int32-wrap-pos n h = ground arith

int32-wrap-neg : (n : ℕ) → n ≤ 2 ^ 31 → int32 (wrap 32 (neg_ℕ n)) ≡ neg_ℕ n
int32-wrap-neg n h = ground arith

-- Two negative numbers whose quotient fits: only -2^31 by -1 does not.
quotient-lt : (k l : ℕ) → 0 < l → k ≤ 2 ^ 31 → (k ≡ 2 ^ 31 → l ≢ 1) → k / l < 2 ^ 31
quotient-lt zero l positive h fits = omega (arith, div-le_self 0 l)
quotient-lt (suc k) l positive h fits = elim (Bool-cases (l == 1)) [
  | inl one ↦
      let small : suc k ≢ 2 ^ 31 = λ e. fits e (ground arith) in
      omega (arith, div-le_self (suc k) l)
  | inr more ↦
      let above : 1 < l = ground arith in
      let below : suc k / l < suc k = div-lt_self (omega arith) above in omega arith
]

signed_quotient-int32 :
    (a b : ℕ)
    → a < 2 ^ 32
    → b < 2 ^ 32
    → (b == 0) ≡ false
    → quotient_too_large a b ≡ false
    → int32 (signed_quotient a b) ≡ int32 a /ℤ int32 b
unfolding signed_quotient
signed_quotient-int32 a b ha hb nonzero fits =
    rw (nonzero, fits)
      (elim (Bool-cases (ltb a (2 ^ 31))) [
        | inl pa ↦ elim (Bool-cases (ltb b (2 ^ 31))) [
          | inl pb ↦
              rw (int32-pos a pa, int32-pos b pb)
                (int32-wrap-pos (a / b) (ground (arith, div-le_self a b)))
          | inr nb ↦
              rw (int32-pos a pa, int32-neg b nb)
                (int32-wrap-neg (a / suc (2 ^ 32 - b - 1))
                  (ground (arith, div-le_self a (suc (2 ^ 32 - b - 1)))))
        ]
        | inr na ↦ elim (Bool-cases (ltb b (2 ^ 31))) [
          | inl pb ↦
              rw (int32-neg a na, int32-pos b pb)
                (int32-wrap-neg (suc (2 ^ 32 - a - 1) / b)
                  (ground (arith, div-le_self (suc (2 ^ 32 - a - 1)) b)))
          | inr nb ↦
              rw (int32-neg a na, int32-neg b nb)
                (int32-wrap-pos (suc (2 ^ 32 - a - 1) / suc (2 ^ 32 - b - 1)) (
                  quotient-lt (suc (2 ^ 32 - a - 1)) (suc (2 ^ 32 - b - 1)) (omega arith)
                    (ground arith) (λ e one. ground arith)))
        ]
      ])

quotient_fits : (a b : ℕ) → (a ≡ 2 ^ 31 → b ≢ 2 ^ 32 - 1) → quotient_too_large a b ≡ false
quotient_fits a b h = elim (Bool-cases (quotient_too_large a b)) [
  | inl large ↦ absurd (h (ground arith) (ground arith))
  | inr fits ↦ fits
]

-- For registers of 32 bits, when the divisor is not zero, and is not the pattern of -1 for a dividend
-- that is that of -2^31, `divw` leaves the quotient of the two signed integers rounded towards zero.
pub divide_word_signed-quotient :
    (s : CpuState) (o : Operands)
    → s.gpr o.base < 2 ^ 32
    → s.gpr o.source < 2 ^ 32
    → s.gpr o.source ≢ 0
    → (s.gpr o.base ≡ 2 ^ 31 → s.gpr o.source ≢ 2 ^ 32 - 1)
    → int32 ((divide_word_signed s o).gpr o.destination)
      ≡ int32 (s.gpr o.base) /ℤ int32 (s.gpr o.source)
unfolding divide_word_signed
divide_word_signed-quotient s o ha hb nonzero fits =
    ap int32 (gpr-deliver s o (signed_quotient (s.gpr o.base) (s.gpr o.source)))
    ∙ signed_quotient-int32 (s.gpr o.base) (s.gpr o.source) ha hb (ground arith)
        (quotient_fits (s.gpr o.base) (s.gpr o.source) fits)
