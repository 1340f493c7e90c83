-- ===== src/Cpu/Logic/Mask.antt =====
-- The bits that `rotate_mask` of interpreter.cpp sets.
use affogato.Base.{
  ◌%◌, ℕ, zero, suc, ◌+◌, ◌-◌, ◌*◌, ◌^◌, ◌<◌, ◌≡◌, refl, ap, ◌∙◌, Bool, true, false, ◌&&◌, arith,
  bit, bit-or, bit-lt, bit-zero, bit-power, bit_or, ◌<<<◌, leb, ◌==◌, if◌then◌else◌,
}
use affogato.Cpu.Logic.{selected, rotate_mask_from, rotate_mask}

-- The bit of a mask after one round of the loop.
round_bit :
    (mask bit_number k : ℕ) (b : Bool)
    → bit_number < 32
    → k < 32
    → bit (if b then bit_or mask (1 <<< (31 - bit_number)) else mask) k
      ≡ (if b && (31 - bit_number == k) then 1 else bit mask k)
round_bit mask bit_number k true h lt = ground (
  arith,
  bit-or mask (1 * 2 ^ (31 - bit_number)) k,
  ap (λ (t : ℕ). bit t k)
      (let e : 1 * 2 ^ (31 - bit_number) ≡ 2 ^ (31 - bit_number) = omega arith in e),
  bit-power (31 - bit_number) k,
  bit-lt mask k,
)
round_bit mask bit_number k false h lt = refl

rotate_mask_from-bit :
    (begin end bit_number left mask n : ℕ)
    → bit_number + left ≡ 32
    → n < 32
    → bit (rotate_mask_from begin end bit_number left mask) (31 - n)
      ≡ (if leb bit_number n && selected begin end n then 1 else bit mask (31 - n))
unfolding rotate_mask_from
rotate_mask_from-bit begin end bit_number zero mask n e lt = ground arith
rotate_mask_from-bit begin end bit_number (suc left) mask n e lt = ground (
  arith,
  rotate_mask_from-bit begin end (bit_number + 1) left
      (if selected begin end bit_number then bit_or mask (1 <<< (31 - bit_number)) else mask) n
      (omega arith) lt,
  round_bit mask bit_number (31 - n) (selected begin end bit_number) (omega arith) (omega arith),
)

-- How far a bit lies behind another, going down from the most significant bit and around the end
-- of the word.
abbrev pub distance : ℕ → ℕ → ℕ
distance start n = (n + 32 - start) % 32

selected-distance :
    (begin end n : ℕ)
    → begin < 32
    → end < 32
    → n < 32
    → selected begin end n ≡ leb (distance begin n) (distance begin end)
selected-distance begin end n hb he hn = ground arith

-- For `begin` and `end` below 32, bit `n` below 32 of `rotate_mask`, numbered from the most
-- significant end, is 1 if `n` is no further from `begin` than `end` is, going around the word, and
-- 0 otherwise.
pub rotate_mask-distance :
    (begin end n : ℕ)
    → begin < 32
    → end < 32
    → n < 32
    → bit (rotate_mask begin end) (31 - n)
      ≡ (if leb (distance begin n) (distance begin end) then 1 else 0)
unfolding rotate_mask
rotate_mask-distance begin end n hb he hn =
    rotate_mask_from-bit begin end 0 32 0 n refl hn
    ∙ ground (arith, bit-zero (31 - n), selected-distance begin end n hb he hn)
