-- ===== src/Cpu/Multiply/Product.antt =====
-- The two halves of a product (src/cpu/espresso/interpreter.cpp).
use affogato.Base.{
  ℕ, ◌+◌, ◌-◌, ◌*◌, ◌%◌, ◌^◌, ◌<◌, ◌≤◌, ◌≡◌, refl, ap, ◌∙◌, true, false, arith, u32, ◌>>>◌, ltb, ℤ,
  pos, negsuc, ◌*ℤ◌, neg_ℕ, wrap, int32, Bool-cases, inl, inr,
}
use native.Mathlib.Nat.{mul-add, add-mul, mul-le-mul}
use affogato.Cpu.State.{CpuState}
use affogato.Cpu.Flags.{write_gpr}
use affogato.Cpu.Flags.Digits.{gpr-when_record}
use affogato.Cpu.Arithmetic.{Operands, deliver}
use affogato.Cpu.Multiply.{
  signed_product, multiply_low_word, multiply_high_word_unsigned, multiply_high_word_signed,
}

-- An instruction without a carry puts its result into its destination.
pub gpr-deliver : (s : CpuState) (o : Operands) (r : ℕ) → (deliver s o r).gpr o.destination ≡ r
unfolding write_gpr
gpr-deliver s o r =
    ap (λ (f : ℕ → ℕ). f o.destination)
      (gpr-when_record o.record_result r (write_gpr s o.destination r))
    ∙ ground arith

product_pos_neg : (a b c : ℕ) → c + b ≡ 2 ^ 32 → wrap 32 (neg_ℕ (a * c)) ≡ a * b % 2 ^ 32
product_pos_neg a b c e = ground (arith, mul-add a c b, ap (λ (t : ℕ). a * t) e)

product_neg_pos : (a b c : ℕ) → c + a ≡ 2 ^ 32 → wrap 32 (neg_ℕ (c * b)) ≡ a * b % 2 ^ 32
product_neg_pos a b c e = ground (arith, add-mul c a b, ap (λ (t : ℕ). t * b) e)

product_neg_neg :
    (a b c d : ℕ) → c + a ≡ 2 ^ 32 → d + b ≡ 2 ^ 32 → wrap 32 (pos (c * d)) ≡ a * b % 2 ^ 32
product_neg_neg a b c d e h =
    omega (arith, add-mul c a d, ap (λ (t : ℕ). t * d) e, mul-add a d b, ap (λ (t : ℕ). a * t) h)

pub int32-pos : (a : ℕ) → ltb a (2 ^ 31) ≡ true → int32 a ≡ pos a
int32-pos a h = rw h refl

pub int32-neg : (a : ℕ) → ltb a (2 ^ 31) ≡ false → int32 a ≡ negsuc (2 ^ 32 - a - 1)
int32-neg a h = rw h refl

-- The low half of the signed product is that of the unsigned product.
wrap-signed_product :
    (a b : ℕ) → a < 2 ^ 32 → b < 2 ^ 32 → wrap 32 (signed_product a b) ≡ a * b % 2 ^ 32
wrap-signed_product a b ha hb = elim (Bool-cases (ltb a (2 ^ 31))) [
  | inl pa ↦ elim (Bool-cases (ltb b (2 ^ 31))) [
    | inl pb ↦ rw (int32-pos a pa, int32-pos b pb) refl
    | inr nb ↦ rw (int32-pos a pa, int32-neg b nb) (product_pos_neg a b _ (omega arith))
  ]
  | inr na ↦ elim (Bool-cases (ltb b (2 ^ 31))) [
    | inl pb ↦ rw (int32-neg a na, int32-pos b pb) (product_neg_pos a b _ (omega arith))
    | inr nb ↦
        rw (int32-neg a na, int32-neg b nb) (product_neg_neg a b _ _ (omega arith) (omega arith))
  ]
]

wrap-low : (p : ℤ) → wrap 64 p % 2 ^ 32 ≡ wrap 32 p
wrap-low (pos n) = omega arith
wrap-low (negsuc n) = omega arith

product-lt : (a b : ℕ) → a < 2 ^ 32 → b < 2 ^ 32 → a * b < 2 ^ 64
product-lt a b ha hb =
    let below : a * b ≤ (2 ^ 32 - 1) * (2 ^ 32 - 1) =
      mul-le-mul {n₂ = 2 ^ 32 - 1} {m₂ = 2 ^ 32 - 1} (omega arith) (omega arith) in
    omega arith

wrap-lt : (p : ℤ) → wrap 64 p < 2 ^ 64
wrap-lt (pos n) = omega arith
wrap-lt (negsuc n) = omega arith

-- `mulhwu` and `mullw` of the same 32-bit operands leave the two halves of their exact product.
pub multiply_high_word_unsigned-multiply_low_word :
    (s : CpuState) (o : Operands)
    → s.gpr o.base < 2 ^ 32
    → s.gpr o.source < 2 ^ 32
    → (multiply_high_word_unsigned s o).gpr o.destination * 2 ^ 32
        + (multiply_low_word s o).gpr o.destination
      ≡ s.gpr o.base * s.gpr o.source
unfolding multiply_high_word_unsigned multiply_low_word
multiply_high_word_unsigned-multiply_low_word s o ha hb =
    let a = s.gpr o.base in
    let b = s.gpr o.source in
    omega (
      arith,
      gpr-deliver s o (u32 ((a * b) >>> 32)),
      gpr-deliver s o (wrap 32 (signed_product a b)),
      wrap-signed_product a b ha hb,
      product-lt a b ha hb,
    )

-- `mulhw` and `mullw` of the same operands leave the two halves of the 64-bit pattern of the product
-- of the two signed integers.
pub multiply_high_word_signed-multiply_low_word :
    (s : CpuState) (o : Operands)
    → (multiply_high_word_signed s o).gpr o.destination * 2 ^ 32
        + (multiply_low_word s o).gpr o.destination
      ≡ wrap 64 (int32 (s.gpr o.base) *ℤ int32 (s.gpr o.source))
unfolding multiply_high_word_signed multiply_low_word
multiply_high_word_signed-multiply_low_word s o =
    let product = signed_product (s.gpr o.base) (s.gpr o.source) in
    omega (
      arith,
      gpr-deliver s o (u32 (wrap 64 product >>> 32)),
      gpr-deliver s o (wrap 32 product),
      wrap-low product,
      wrap-lt product,
    )
