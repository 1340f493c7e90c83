-- ===== src/Cpu/Flags/Field.antt =====
-- The fields of the condition register that the helpers of interpreter.cpp write.
use affogato.Base.{
  ℕ, zero, suc, ◌+◌, ◌-◌, ◌*◌, ◌/◌, ◌^◌, ◌≤◌, ◌<◌, ◌≡◌, ◌≢◌, refl, sym, ap, ◌∙◌, Bool, true, false,
  not, ◌&&◌, ◌||◌, arith, bit, bit-or, bit-and, bit-lt, bit-zero, bit-complement, bit-div,
  pow-le-pow, and_power, bit_and, bit_or, u32, not32, ◌<<<◌, ltb, leb, ◌==◌, if◌then◌else◌, ltb_ℤ,
  int32, ℤ,
}
use native.Mathlib.Nat.{pow-suc, mul-le-mul_right}
use affogato.Cpu.State.{CpuState}
use affogato.Cpu.Flags.{
  put_cr_field, compare_bits, read_cr_bit, set_compare_result, set_compare_result_unsigned,
  has_bits, xer_summary_overflow_mask,
}
use affogato.Cpu.Flags.Digits.{summary_of}

pub read_cr_bit-bit : (s : CpuState) (n : ℕ) → read_cr_bit s n ≡ (bit s.cr (31 - n) == 1)
unfolding read_cr_bit
read_cr_bit-bit s n = ground (arith, and_power (s.cr / 2 ^ (31 - n)) 0, bit-div s.cr (31 - n))

pub bit-shifted : (r s k : ℕ) → bit (r * 2 ^ s) k ≡ (if ltb k s then 0 else bit r (k - s))
bit-shifted r zero k =
    let e : r * 2 ^ 0 ≡ r = omega arith in
    let same : k - 0 ≡ k = omega arith in ground (arith, ap (λ (t : ℕ). bit t k) e, ap (bit r) same)
bit-shifted r (suc s) zero = ground (arith, ap (λ (t : ℕ). r * t) (pow-suc 2 s))
bit-shifted r (suc s) (suc k) =
    let halves : r * 2 ^ suc s / 2 ≡ r * 2 ^ s =
      omega (arith, ap (λ (t : ℕ). r * t) (pow-suc 2 s)) in
    ap (λ (t : ℕ). bit t k) halves ∙ (bit-shifted r s k ∙ ground arith)

nibble-high : (r j : ℕ) → r < 16 → bit r (suc (suc (suc (suc j)))) ≡ 0
nibble-high r j h =
    ap (λ (t : ℕ). bit t j) (let e : r / 2 / 2 / 2 / 2 ≡ 0 = omega arith in e) ∙ bit-zero j

pub nibble_full : (j : ℕ) → bit 15 j ≡ (if ltb j 4 then 1 else 0)
nibble_full zero = refl
nibble_full (suc zero) = refl
nibble_full (suc (suc zero)) = refl
nibble_full (suc (suc (suc zero))) = refl
nibble_full (suc (suc (suc (suc j)))) = bit-zero j ∙ ground arith

nibble-outside : (r j : ℕ) → r < 16 → 4 ≤ j → bit r j ≡ 0
nibble-outside r j small h =
    let e : suc (suc (suc (suc (j - 4)))) ≡ j = omega arith in
    ap (bit r) (sym e) ∙ nibble-high r (j - 4) small

-- The lowest bit of the field, from the least significant end.
abbrev pub field_shift : ℕ → ℕ
field_shift field = (7 - field) * 4

pub put_cr_field-bit :
    (s : CpuState) (field r k : ℕ)
    → r < 16
    → k < 32
    → bit (put_cr_field s field r).cr k ≡ (
        if leb (field_shift field) k && ltb k (field_shift field + 4)
        then bit r (k - field_shift field)
        else bit s.cr k)
unfolding put_cr_field
put_cr_field-bit s field r k small lt =
    let sh = field_shift field in
    let room = pow-le-pow sh 28 (omega arith) in
    let mask : u32 (0xF <<< sh) ≡ 15 * 2 ^ sh = omega (arith, room) in
    let bound : r * 2 ^ sh ≤ 15 * 2 ^ sh = mul-le-mul_right (2 ^ sh) (omega arith) in
    let value : u32 (r <<< sh) ≡ r * 2 ^ sh = omega (arith, room, bound) in
    let kept = bit_and s.cr (not32 (u32 (0xF <<< sh))) in
    ground (
      arith,
      bit-or kept (u32 (r <<< sh)) k,
      bit-and s.cr (not32 (u32 (0xF <<< sh))) k,
      bit-complement 32 (u32 (0xF <<< sh)) k (omega arith) lt,
      ap (λ (t : ℕ). bit t k) mask,
      ap (λ (t : ℕ). bit t k) value,
      bit-shifted 15 sh k,
      bit-shifted r sh k,
      nibble_full (k - sh),
      nibble-outside r (k - sh) small,
      bit-lt s.cr k,
      bit-lt r (k - sh),
    )

-- What a comparison leaves in the condition register: three bits for the outcome, a copy of the
-- summary overflow bit, and the other fields as they were.
pub record ShowsOrder (s : CpuState) (field : ℕ) (less greater : Bool) (t : CpuState) : Type 0 where
  pub less_bit : read_cr_bit t (4 * field) ≡ less
  pub greater_bit : read_cr_bit t (4 * field + 1) ≡ greater
  pub equal_bit : read_cr_bit t (4 * field + 2) ≡ not (less || greater)
  pub summary_bit : read_cr_bit t (4 * field + 3) ≡ summary_of s
  pub others_kept : (n : ℕ) → n < 32 → n / 4 ≢ field → read_cr_bit t n ≡ read_cr_bit s n

compare_bits-lt : (s : CpuState) (less greater : Bool) → compare_bits s less greater < 16
unfolding compare_bits
compare_bits-lt s less greater = ground arith

-- The four bits of a comparison's result, the most significant first.
outcome_bits :
    (less greater over : Bool)
    → (less && greater) ≡ false
    → let r = bit_or (if less then 8 else if greater then 4 else 2) (if over then 1 else 0) in
      ((bit r 3 == 1) ≡ less)
      × ((bit r 2 == 1) ≡ greater)
      × ((bit r 1 == 1) ≡ not (less || greater))
      × ((bit r 0 == 1) ≡ over)
outcome_bits true true over apart = absurd (cc)
outcome_bits true false true apart = (refl, refl, refl, refl)
outcome_bits true false false apart = (refl, refl, refl, refl)
outcome_bits false true true apart = (refl, refl, refl, refl)
outcome_bits false true false apart = (refl, refl, refl, refl)
outcome_bits false false true apart = (refl, refl, refl, refl)
outcome_bits false false false apart = (refl, refl, refl, refl)

module _ (s : CpuState) (field : ℕ) (less greater : Bool) (below : field < 8)
    (apart : (less && greater) ≡ false) where
  abbrev result : ℕ
  result = compare_bits s less greater

  bit_within :
      (j : ℕ)
      → j < 4
      → read_cr_bit (put_cr_field s field result) (4 * field + j) ≡ (bit result (3 - j) == 1)
  bit_within j lt =
      let e : 31 - (4 * field + j) - field_shift field ≡ 3 - j = omega arith in
      read_cr_bit-bit (put_cr_field s field result) (4 * field + j)
      ∙ ground (
        arith,
        put_cr_field-bit s field result (31 - (4 * field + j)) (compare_bits-lt s less greater)
            (omega arith),
        ap (bit result) e,
      )

  result_bits :
      ((bit result 3 == 1) ≡ less)
      × ((bit result 2 == 1) ≡ greater)
      × ((bit result 1 == 1) ≡ not (less || greater))
      × ((bit result 0 == 1) ≡ summary_of s)
  unfolding compare_bits summary_of
  result_bits = outcome_bits less greater (has_bits s.xer xer_summary_overflow_mask) apart

  put_cr_field-ShowsOrder : ShowsOrder s field less greater (put_cr_field s field result)
  put_cr_field-ShowsOrder = record {
    less_bit =
        ap (read_cr_bit (put_cr_field s field result)) (omega arith)
        ∙ (bit_within 0 (omega arith) ∙ result_bits.0);
    greater_bit = bit_within 1 (omega arith) ∙ result_bits.1;
    equal_bit = bit_within 2 (omega arith) ∙ result_bits.2;
    summary_bit = bit_within 3 (omega arith) ∙ result_bits.3;
    others_kept = λ n lt other.
        read_cr_bit-bit (put_cr_field s field result) n
        ∙ ground (
          arith,
          put_cr_field-bit s field result (31 - n) (compare_bits-lt s less greater) (omega arith),
          read_cr_bit-bit s n,
        );
  }

-- For a field below 8, `set_compare_result` leaves in the four bits of the field whether the
-- first operand, as a signed integer, is less, greater or neither, and the summary overflow bit;
-- the bits of the other fields read as before.
pub set_compare_result-ShowsOrder :
    (s : CpuState) (field lhs rhs : ℕ)
    → field < 8
    → ShowsOrder s field
        (ltb_ℤ (int32 lhs) (int32 rhs))
        (ltb_ℤ (int32 rhs) (int32 lhs))
        (set_compare_result s field lhs rhs)
unfolding set_compare_result
set_compare_result-ShowsOrder s field lhs rhs below =
    put_cr_field-ShowsOrder s field (ltb_ℤ (int32 lhs) (int32 rhs)) (ltb_ℤ (int32 rhs) (int32 lhs))
      below (apart_ℤ (int32 lhs) (int32 rhs))
  where
    apart_ℤ : (a b : ℤ) → (ltb_ℤ a b && ltb_ℤ b a) ≡ false
    apart_ℤ a b = ground arith

-- For a field below 8, `set_compare_result_unsigned` leaves in the four bits of the field whether
-- the first operand is less, greater or neither, and the summary overflow bit; the bits of the
-- other fields read as before.
set_compare_result_unsigned-ShowsOrder :
    (s : CpuState) (field lhs rhs : ℕ)
    → field < 8
    → ShowsOrder s field (ltb lhs rhs) (ltb rhs lhs) (set_compare_result_unsigned s field lhs rhs)
unfolding set_compare_result_unsigned
set_compare_result_unsigned-ShowsOrder s field lhs rhs below =
    put_cr_field-ShowsOrder s field (ltb lhs rhs) (ltb rhs lhs) below (ground arith)
