-- ===== src/Base/Bits.antt =====
-- Binary digits of native numbers: `&`, `|`, `^` and `~` digit by digit, and the two forms in which
-- the source uses them most, a low mask and a union of disjoint fields.
use Prim.Native.Nat.{
  ℕ, zero, suc, ◌+◌, ◌-◌, ◌*◌, ◌/◌, ◌%◌, ◌^◌, ◌≤◌, ◌<◌, min, max, bit_and, bit_or, bit_xor, differ,
  digits, bitwise, bit_and-bitwise, bit_or-bitwise, bit_xor-bitwise,
}
use mathlib.Core.Path.{◌≡◌, refl, ap, ◌∙◌}
use mathlib.Core.Logic.{◌≢◌, inl, inr}
use native.Mathlib.Nat.{pow-suc, one-le-pow, div-div-eq-div-mul}
use native.Mathlib.Omega.{arith}
use affogato.Base.Tests.{Bool-cases, ◌==◌, if◌then◌else◌}

-- The digit of weight 2 ^ k.
abbrev pub bit : ℕ → ℕ → ℕ
bit x zero = x % 2
bit x (suc k) = bit (x / 2) k

-- One round of the library's recursion on digits, for an operation that keeps its rule when the
-- first number has run out.
module _ (z : ℕ → ℕ) (f : ℕ → ℕ → ℕ) (runs_out : (b : ℕ) → z b ≡ z (b / 2) * 2 + f 0 (b % 2)) where
  enough : (n m a b : ℕ) → a ≤ n → a ≤ m → digits z f n a b ≡ digits z f m a b
  enough zero zero a b p q = refl
  enough zero (suc m) zero b p q = refl
  enough zero (suc m) (suc a) b p q = absurd (omega arith)
  enough (suc n) zero zero b p q = refl
  enough (suc n) zero (suc a) b p q = absurd (omega arith)
  enough (suc n) (suc m) zero b p q = refl
  enough (suc n) (suc m) (suc a) b p q =
      ap (λ (t : ℕ). t * 2 + f (suc a % 2) (b % 2))
        (enough n m (suc a / 2) (b / 2) (omega arith) (omega arith))

  round : (a b : ℕ) → bitwise z f a b ≡ bitwise z f (a / 2) (b / 2) * 2 + f (a % 2) (b % 2)
  round zero b = runs_out b
  round (suc a) b =
      ap (λ (t : ℕ). t * 2 + f (suc a % 2) (b % 2))
        (enough a (suc a / 2) (suc a / 2) (b / 2) (omega arith) (omega arith))

pub and_round : (a b : ℕ) → bit_and a b ≡ bit_and (a / 2) (b / 2) * 2 + min (a % 2) (b % 2)
and_round a b = simp bit_and-bitwise (round (λ b. 0) min (λ b. omega arith) a b)

pub or_round : (a b : ℕ) → bit_or a b ≡ bit_or (a / 2) (b / 2) * 2 + max (a % 2) (b % 2)
or_round a b = simp bit_or-bitwise (round (λ b. b) max (λ b. omega arith) a b)

pub xor_round : (a b : ℕ) → bit_xor a b ≡ bit_xor (a / 2) (b / 2) * 2 + differ (a % 2) (b % 2)
xor_round a b = simp bit_xor-bitwise (round (λ b. b) differ (λ b. omega arith) a b)

digit-lt : (x : ℕ) → x % 2 < 2
digit-lt x = omega arith

pub bit-lt : (x k : ℕ) → bit x k < 2
bit-lt x zero = digit-lt x
bit-lt x (suc k) = bit-lt (x / 2) k

differ-lt : (a b : ℕ) → a < 2 → b < 2 → differ a b < 2
differ-lt zero b h k = k
differ-lt (suc zero) zero h k = omega arith
differ-lt (suc zero) (suc zero) h k = omega arith
differ-lt (suc zero) (suc (suc b)) h k = absurd (omega arith)
differ-lt (suc (suc a)) b h k = absurd (omega arith)

-- `&`, `|` and `^` act on each digit.
pub bit-and : (a b k : ℕ) → bit (bit_and a b) k ≡ min (bit a k) (bit b k)
bit-and a b zero = omega (arith, and_round a b)
bit-and a b (suc k) =
    ap (λ (t : ℕ). bit t k) (omega (arith, and_round a b)) ∙ bit-and (a / 2) (b / 2) k

pub bit-or : (a b k : ℕ) → bit (bit_or a b) k ≡ max (bit a k) (bit b k)
bit-or a b zero = omega (arith, or_round a b)
bit-or a b (suc k) =
    ap (λ (t : ℕ). bit t k) (omega (arith, or_round a b)) ∙ bit-or (a / 2) (b / 2) k

pub bit-xor : (a b k : ℕ) → bit (bit_xor a b) k ≡ differ (bit a k) (bit b k)
bit-xor a b zero = omega (arith, xor_round a b, differ-lt (a % 2) (b % 2) (digit-lt a) (digit-lt b))
bit-xor a b (suc k) =
    ap (λ (t : ℕ). bit t k)
      (omega (arith, xor_round a b, differ-lt (a % 2) (b % 2) (digit-lt a) (digit-lt b)))
    ∙ bit-xor (a / 2) (b / 2) k

pub bit_xor-lt : (w a b : ℕ) → a < 2 ^ w → b < 2 ^ w → bit_xor a b < 2 ^ w
bit_xor-lt zero zero zero ha hb = omega (arith, bit_xor-bitwise 0 0)
bit_xor-lt zero (suc a) b ha hb = absurd (omega arith)
bit_xor-lt zero zero (suc b) ha hb = absurd (omega arith)
bit_xor-lt (suc w) a b ha hb = omega (
  arith,
  pow-suc 2 w,
  xor_round a b,
  differ-lt (a % 2) (b % 2) (digit-lt a) (digit-lt b),
  bit_xor-lt w (a / 2) (b / 2) (omega (arith, pow-suc 2 w)) (omega (arith, pow-suc 2 w)),
)

pub bit-zero : (k : ℕ) → bit 0 k ≡ 0
bit-zero zero = refl
bit-zero (suc k) = bit-zero k

-- `~` in an integer of `w` bits.
pub bit-complement : (w x k : ℕ) → x < 2 ^ w → k < w → bit (2 ^ w - 1 - x) k ≡ 1 - bit x k
bit-complement zero x k h lt = absurd (omega arith)
bit-complement (suc w) x zero h lt = omega (arith, pow-suc 2 w, one-le-pow w 2)
bit-complement (suc w) x (suc k) h lt =
    ap (λ (t : ℕ). bit t k) (omega (arith, pow-suc 2 w, one-le-pow w 2))
    ∙ bit-complement w (x / 2) k (omega (arith, pow-suc 2 w)) (omega arith)

-- Numbers with the same digits are the same.
bits_ext_fuel : (n a b : ℕ) → a ≤ n → b ≤ n → ((k : ℕ) → bit a k ≡ bit b k) → a ≡ b
bits_ext_fuel zero a b p q h = omega arith
bits_ext_fuel (suc n) a b p q h =
    omega (arith, h 0, bits_ext_fuel n (a / 2) (b / 2) (omega arith) (omega arith) (λ k. h (suc k)))

pub bits_ext : (a b : ℕ) → ((k : ℕ) → bit a k ≡ bit b k) → a ≡ b
bits_ext a b h = bits_ext_fuel (a + b) a b (omega arith) (omega arith) h

pub or_zero : (a : ℕ) → bit_or a 0 ≡ a
or_zero a = bits_ext (bit_or a 0) a λ k. omega (arith, bit-or a 0 k, bit-zero k)

pub and_zero : (a : ℕ) → bit_and a 0 ≡ 0
and_zero a = bits_ext (bit_and a 0) 0 λ k. omega (arith, bit-and a 0 k, bit-zero k)

double_pow : (q k : ℕ) → q * 2 ^ suc k ≡ q * 2 ^ k * 2
double_pow q k = omega (arith, ap (λ (t : ℕ). q * t) (pow-suc 2 k))

half_mask : (k : ℕ) → (2 ^ suc k - 1) / 2 ≡ 2 ^ k - 1
half_mask k = omega (arith, pow-suc 2 k, one-le-pow k 2)

and_mask_fields : (k q r : ℕ) → r < 2 ^ k → bit_and (q * 2 ^ k + r) (2 ^ k - 1) ≡ r
and_mask_fields zero q r h = omega (arith, and_zero (q * 1 + r))
and_mask_fields (suc k) q r h =
    let half : (q * 2 ^ suc k + r) / 2 ≡ q * 2 ^ k + r / 2 = omega (arith, double_pow q k) in
    let ih = and_mask_fields k q (r / 2) (omega (arith, pow-suc 2 k)) in
    let rounds : bit_and ((q * 2 ^ suc k + r) / 2) ((2 ^ suc k - 1) / 2) ≡ r / 2 =
      rw (half, half_mask k) ih in
    omega (
      arith,
      and_round (q * 2 ^ suc k + r) (2 ^ suc k - 1),
      rounds,
      double_pow q k,
      pow-suc 2 k,
      one-le-pow k 2,
    )

-- `x & (2^k - 1)`.
pub and_mask : (k x : ℕ) → bit_and x (2 ^ k - 1) ≡ x % 2 ^ k
and_mask k x = ground (arith, and_mask_fields k (x / 2 ^ k) (x % 2 ^ k), one-le-pow k 2)

-- `(q << k) | r` where `r` fits the freed digits.
pub or_fields : (k q r : ℕ) → r < 2 ^ k → bit_or (q * 2 ^ k) r ≡ q * 2 ^ k + r
or_fields zero q r h =
    omega (arith, ap (bit_or (q * 1)) (let e : r ≡ 0 = omega arith in e), or_zero (q * 1))
or_fields (suc k) q r h =
    let half : q * 2 ^ suc k / 2 ≡ q * 2 ^ k = omega (arith, double_pow q k) in
    let ih = or_fields k q (r / 2) (omega (arith, pow-suc 2 k)) in
    let rounds : bit_or (q * 2 ^ suc k / 2) (r / 2) ≡ q * 2 ^ k + r / 2 = rw half ih in
    omega (arith, or_round (q * 2 ^ suc k) r, rounds, double_pow q k)

-- A number splits into what a mask keeps and what its complement keeps.
pub and_complement :
    (w x m : ℕ) → x < 2 ^ w → m < 2 ^ w → bit_and x (2 ^ w - 1 - m) + bit_and x m ≡ x
and_complement zero x m h k = omega (
  arith,
  ap (λ (t : ℕ). bit_and t m) (let e : x ≡ 0 = omega arith in e),
  and_runs_out x m h,
  and_runs_out x (1 - 1 - m) h,
)
  where
    and_runs_out : (x m : ℕ) → x < 1 → bit_and x m ≡ 0
    and_runs_out zero m h = bit_and-bitwise 0 m
    and_runs_out (suc x) m h = absurd (omega arith)
and_complement (suc w) x m h k =
    let half : (2 ^ suc w - 1 - m) / 2 ≡ 2 ^ w - 1 - m / 2 = omega (arith, pow-suc 2 w) in
    let ih =
      and_complement w (x / 2) (m / 2) (omega (arith, pow-suc 2 w)) (omega (arith, pow-suc 2 w)) in
    let rounds : bit_and (x / 2) ((2 ^ suc w - 1 - m) / 2) + bit_and (x / 2) (m / 2) ≡ x / 2 =
      rw half ih in
    omega
      (arith, and_round x (2 ^ suc w - 1 - m), and_round x m, rounds, pow-suc 2 w, one-le-pow w 2)

pub pow-le-pow : (k w : ℕ) → k ≤ w → 2 ^ k ≤ 2 ^ w
pow-le-pow zero w h = omega (arith, one-le-pow w 2)
pow-le-pow (suc k) zero h = absurd (omega arith)
pow-le-pow (suc k) (suc w) h = omega (arith, pow-suc 2 k, pow-suc 2 w, pow-le-pow k w (omega arith))

-- `x & ~(2^k - 1)` rounds down to a multiple of 2^k.
pub and_not_mask :
    (w k x : ℕ) → x < 2 ^ w → k ≤ w → bit_and x (2 ^ w - 1 - (2 ^ k - 1)) ≡ x - x % 2 ^ k
and_not_mask w k x h le = omega (
  arith,
  and_complement w x (2 ^ k - 1) h (omega (arith, pow-le-pow k w le, one-le-pow k 2)),
  and_mask k x,
)

and_self : (x : ℕ) → bit_and x x ≡ x
and_self x = bits_ext (bit_and x x) x λ k. omega (arith, bit-and x x k)

-- `x != 0 && (x & (x - 1)) == 0` holds of the powers of two alone.
power_fuel : (n x : ℕ) → x ≤ n → x ≢ 0 → bit_and x (x - 1) ≡ 0 → (k : ℕ) × (x ≡ 2 ^ k)
power_fuel zero x le pos e = absurd (pos (omega arith))
power_fuel (suc n) x le pos e = elim (Bool-cases (x % 2 == 0)) [
  | inl even ↦
      let half : (x - 1) / 2 ≡ x / 2 - 1 = ground arith in
      let again : bit_and (x / 2) (x / 2 - 1) ≡ 0 =
        rw (← half) (omega (arith, and_round x (x - 1))) in
      let (k, p) = power_fuel n (x / 2) (ground arith) (ground arith) again in
      (suc k, ground (arith, pow-suc 2 k))
  | inr odd ↦
      let half : (x - 1) / 2 ≡ x / 2 = ground arith in
      let again : bit_and (x / 2) (x / 2) ≡ 0 =
        rw half at
          (let r : bit_and (x / 2) ((x - 1) / 2) ≡ 0 = omega (arith, and_round x (x - 1)) in r) in
      (0, ground (arith, and_self (x / 2)))
]

pub power_of_two : (x : ℕ) → x ≢ 0 → bit_and x (x - 1) ≡ 0 → (k : ℕ) × (x ≡ 2 ^ k)
power_of_two x = power_fuel x x (omega arith)

and_one : (x : ℕ) → bit_and x 1 ≡ x % 2
and_one x = and_mask 1 x

pub and_power : (x k : ℕ) → bit_and x (2 ^ k) ≡ bit x k * 2 ^ k
and_power x zero = omega (arith, and_one x)
and_power x (suc k) =
    let half : 2 ^ suc k / 2 ≡ 2 ^ k = omega (arith, pow-suc 2 k) in
    let rounds : bit_and (x / 2) (2 ^ suc k / 2) ≡ bit (x / 2) k * 2 ^ k =
      rw half (and_power (x / 2) k) in
    omega (arith, and_round x (2 ^ suc k), rounds, pow-suc 2 k, double_pow (bit (x / 2) k) k)

pub bit-power : (k j : ℕ) → bit (2 ^ k) j ≡ (if k == j then 1 else 0)
bit-power zero zero = refl
bit-power zero (suc j) = ground (arith, bit-zero j)
bit-power (suc k) zero = ground (arith, pow-suc 2 k)
bit-power (suc k) (suc j) =
    ap (λ (t : ℕ). bit t j) (omega (arith, pow-suc 2 k)) ∙ (bit-power k j ∙ ground arith)

pub pow-lt-pow : (k w : ℕ) → k < w → 2 ^ k < 2 ^ w
pow-lt-pow k w h = omega (arith, pow-suc 2 k, pow-le-pow (suc k) w h, one-le-pow k 2)

pub bit-div : (x k : ℕ) → bit x k ≡ x / 2 ^ k % 2
bit-div x zero = omega arith
bit-div x (suc k) =
    let e : x / 2 / 2 ^ k ≡ x / 2 ^ suc k =
      div-div-eq-div-mul x 2 (2 ^ k) ∙ ap (λ (t : ℕ). x / t) (omega (arith, pow-suc 2 k)) in
    bit-div (x / 2) k ∙ ap (λ (t : ℕ). t % 2) e
