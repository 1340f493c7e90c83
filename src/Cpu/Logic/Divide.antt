-- ===== src/Cpu/Logic/Divide.antt =====
-- `srawi` followed by `addze` (interpreter.cpp) divides a signed word by a power of two.
use affogato.Base.{
  ℕ, zero, suc, ◌+◌, ◌-◌, ◌*◌, ◌/◌, ◌%◌, ◌^◌, ◌≤◌, ◌<◌, ◌≡◌, refl, sym, ap, ◌∙◌, not, ◌&&◌, arith,
  u32, not32, ◌<<<◌, bit_and, and_mask, pow-lt-pow, ltb, leb, ◌==◌, if◌then◌else◌, ℤ, pos, negsuc,
  int32, sub_ℕ, Bool-cases, inl, inr,
}
use affogato.Cpu.Logic.{shift_right_signed, arithmetic_shift_right_immediate}
use affogato.Cpu.State.{CpuState}
use affogato.Cpu.Flags.{carry_of, from_bool}
use affogato.Cpu.Arithmetic.{Operands, deliver_carry, carries, add_to_zero_extended}
use affogato.Cpu.Arithmetic.Carry.{carry_of-deliver_carry, gpr-deliver_carry}
use native.Mathlib.Nat.{
  div-add-mod, mul-add-div, pow-suc, mul-add, mul_comm, div-le_self, mul-add-mod_self_left,
  div_self, div-eq_of_lt, mod-lt, one-le-pow, div-lt_iff_lt-mul, mod-eq_of_lt,
}

-- The quotient of the successor.
suc-div : (z d : ℕ) → 0 < d → suc z / d ≡ (if z % d + 1 == d then z / d + 1 else z / d)
suc-div z d positive =
    let split : d * (z / d) + (z % d + 1) ≡ suc z = omega (arith, div-add-mod z d) in
    ap (λ (t : ℕ). t / d) (sym split)
    ∙ (mul-add-div positive (z / d) (z % d + 1) ∙ elim (Bool-cases (z % d + 1 == d)) [
      | inl whole ↦
          let e : z % d + 1 ≡ d = ground arith in
          ground (arith, ap (λ (t : ℕ). t / d) e, div_self positive)
      | inr part ↦
          let lt : z % d + 1 < d = ground (arith, mod-lt z positive) in
          ground (arith, div-eq_of_lt lt)
    ])

-- The remainder of the complement, in a range of whole multiples.
mod-complement : (x z d m : ℕ) → 0 < d → x + suc z ≡ d * m → x % d ≡ d - 1 - z % d
mod-complement x z d m positive whole =
    let q = z / d in
    let below : q < m = (div-lt_iff_lt-mul positive).1 (omega (arith, whole, mul_comm d m)) in
    let t = m - q - 1 in
    let parts : d * m ≡ d * (q + 1) + d * t =
      ap (λ (k : ℕ). d * k) (omega arith) ∙ mul-add d (q + 1) t in
    let more : d * (q + 1) ≡ d * q + d = omega arith in
    let e : x ≡ d * t + (d - 1 - z % d) =
      omega (arith, div-add-mod z d, mod-lt z positive, parts, more, whole) in
    ap (λ (k : ℕ). k % d) e
    ∙ (mul-add-mod_self_left d t (d - 1 - z % d) ∙ mod-eq_of_lt (omega arith))

-- Rounding down and adding the carry rounds towards zero: the size of a negative word.
carry_rounds :
    (x d m : ℕ)
    → 0 < d
    → x < 2 ^ 32
    → 2 ^ 31 ≤ x
    → d * m ≡ 2 ^ 32
    → u32 (not32 (not32 x / d) + (if x % d == 0 then 0 else 1)) ≡ u32 (2 ^ 32 - (2 ^ 32 - x) / d)
carry_rounds x d m positive small negative whole =
    let z = not32 x in
    let size : suc z ≡ 2 ^ 32 - x = omega arith in
    ground (
      arith,
      ap (λ (t : ℕ). t / d) size,
      suc-div z d positive,
      mod-complement x z d m positive (omega (arith, whole)),
      mod-lt z positive,
      div-le_self z d,
    )

-- The quotient rounded towards zero.
abbrev pub divide_toward_zero : ℤ → ℕ → ℤ
divide_toward_zero (pos a) d = pos (a / d)
divide_toward_zero (negsuc a) d = sub_ℕ 0 (suc a / d)

pow_split : (k j : ℕ) → 2 ^ k * 2 ^ j ≡ 2 ^ (k + j)
pow_split k zero = omega (arith, ap (λ (t : ℕ). 2 ^ t) (let e : k + 0 ≡ k = omega arith in e))
pow_split k (suc j) =
    let e : k + suc j ≡ suc (k + j) = omega arith in
    omega (
      arith,
      ap (λ (t : ℕ). 2 ^ k * t) (pow-suc 2 j),
      pow_split k j,
      pow-suc 2 (k + j),
      ap (λ (t : ℕ). 2 ^ t) e,
    )

-- The word that the two instructions leave.
quotient_word :
    (x n : ℕ)
    → x < 2 ^ 32
    → n < 32
    → int32
        (u32 (shift_right_signed x n + (if leb (2 ^ 31) x && not (x % 2 ^ n == 0) then 1 else 0)))
      ≡ divide_toward_zero (int32 x) (2 ^ n)
quotient_word x n small lt =
    let d = 2 ^ n in
    let positive : 0 < d = omega (arith, one-le-pow n 2) in
    let e : n + (32 - n) ≡ 32 = omega arith in
    let whole : d * 2 ^ (32 - n) ≡ 2 ^ 32 = pow_split n (32 - n) ∙ ap (λ (t : ℕ). 2 ^ t) e in
    elim (Bool-cases (ltb x (2 ^ 31))) [
      | inl up ↦ ground (arith, div-le_self x d)
      | inr down ↦
          let size : suc (2 ^ 32 - x - 1) ≡ 2 ^ 32 - x = omega (arith, small) in
          ground (
            arith,
            carry_rounds x d (2 ^ (32 - n)) positive small (ground arith) whole,
            ap (λ (t : ℕ). t / d) size,
            div-le_self (2 ^ 32 - x) d,
          )
    ]

-- The mask of the dropped bits.
dropped_mask : (n x : ℕ) → n < 32 → bit_and x (if n == 0 then 0 else u32 (1 <<< n) - 1) ≡ x % 2 ^ n
dropped_mask n x lt =
    let small = pow-lt-pow n 32 lt in
    let e : (if n == 0 then 0 else u32 (1 <<< n) - 1) ≡ 2 ^ n - 1 = mask_value n small in
    ap (bit_and x) e ∙ and_mask n x
  where
    mask_value : (n : ℕ) → 2 ^ n < 2 ^ 32 → (if n == 0 then 0 else u32 (1 <<< n) - 1) ≡ 2 ^ n - 1
    mask_value zero h = refl
    mask_value (suc n) h = ground arith

-- For a word in the source register and a shift below 32, `srawi` followed by `addze` of its
-- result leaves the signed quotient of the source by the power of two, rounded towards zero.
pub add_to_zero_extended-arithmetic_shift_right_immediate :
    (s : CpuState) (o p : Operands)
    → s.gpr o.source < 2 ^ 32
    → o.shift < 32
    → p.base ≡ o.destination
    → int32 ((add_to_zero_extended (arithmetic_shift_right_immediate s o) p).gpr p.destination)
      ≡ divide_toward_zero (int32 (s.gpr o.source)) (2 ^ o.shift)
unfolding arithmetic_shift_right_immediate add_to_zero_extended
add_to_zero_extended-arithmetic_shift_right_immediate s o p small lt same =
    let x = s.gpr o.source in
    let mask = if o.shift == 0 then 0 else u32 (1 <<< o.shift) - 1 in
    let shifted = shift_right_signed x o.shift in
    let carry = leb (2 ^ 31) x && not (bit_and x mask == 0) in
    let s' = deliver_carry s o shifted carry in
    let sum = s'.gpr p.base + from_bool (carry_of s') in
    let read : s'.gpr p.base ≡ shifted =
      gpr-deliver_carry s o shifted carry p.base ∙ ground arith in
    let added : from_bool (carry_of s')
        ≡ (if leb (2 ^ 31) x && not (x % 2 ^ o.shift == 0) then 1 else 0) =
      ap from_bool (carry_of-deliver_carry s o shifted carry)
      ∙ ground (arith, dropped_mask o.shift x lt) in
    let word : u32 sum
        ≡ u32 (shifted + (if leb (2 ^ 31) x && not (x % 2 ^ o.shift == 0) then 1 else 0)) =
      rw (read, added) refl in
    ap int32 (gpr-deliver_carry s' p (u32 sum) (carries sum) p.destination ∙ (ground arith ∙ word))
    ∙ quotient_word x o.shift small lt
