-- ===== src/Base/Int.antt =====
-- Integers over the native numbers, for exact signed results, and the integer of a 32-bit pattern.
use Prim.Native.Nat.{ℕ, suc, ◌+◌, ◌-◌, ◌*◌, ◌/◌, ◌%◌, ◌^◌}
use mathlib.Core.Bool.{Bool, ◌||◌}
use affogato.Base.Tests.{ltb, leb, if◌then◌else◌}

-- `negsuc n` is -(n + 1).
pub data ℤ : Type 0 where
  pos : ℕ → ℤ
  negsuc : ℕ → ℤ

abbrev pub pos_part : ℤ → ℕ
pos_part (pos n) = n
pos_part (negsuc n) = 0

abbrev pub neg_part : ℤ → ℕ
neg_part (pos n) = 0
neg_part (negsuc n) = suc n

-- a - b, as an integer.
abbrev pub sub_ℕ : ℕ → ℕ → ℤ
sub_ℕ a b = if leb b a then pos (a - b) else negsuc (b - a - 1)

infixl 65 ◌+ℤ◌ ◌-ℤ◌
abbrev pub ◌+ℤ◌ : ℤ → ℤ → ℤ
a +ℤ b = sub_ℕ (pos_part a + pos_part b) (neg_part a + neg_part b)

abbrev pub ◌-ℤ◌ : ℤ → ℤ → ℤ
a -ℤ b = sub_ℕ (pos_part a + neg_part b) (neg_part a + pos_part b)

abbrev pub ltb_ℤ : ℤ → ℤ → Bool
ltb_ℤ a b = ltb (pos_part a + neg_part b) (pos_part b + neg_part a)

-- `std::bit_cast<std::int32_t>`.
abbrev pub int32 : ℕ → ℤ
int32 w = if ltb w (2 ^ 31) then pos w else negsuc (2 ^ 32 - w - 1)

-- `x < std::numeric_limits<std::int32_t>::min() || x > std::numeric_limits<std::int32_t>::max()`.
abbrev pub exceeds_int32 : ℤ → Bool
exceeds_int32 x = ltb_ℤ x (negsuc (2 ^ 31 - 1)) || ltb_ℤ (pos (2 ^ 31 - 1)) x

abbrev pub neg_ℕ : ℕ → ℤ
neg_ℕ n = sub_ℕ 0 n

infixl 70 ◌*ℤ◌
abbrev pub ◌*ℤ◌ : ℤ → ℤ → ℤ
pos a *ℤ pos b = pos (a * b)
pos a *ℤ negsuc b = neg_ℕ (a * suc b)
negsuc a *ℤ pos b = neg_ℕ (suc a * b)
negsuc a *ℤ negsuc b = pos (suc a * suc b)

-- Division that rounds towards zero.
infixl 70 ◌/ℤ◌
abbrev pub ◌/ℤ◌ : ℤ → ℤ → ℤ
pos a /ℤ pos b = pos (a / b)
pos a /ℤ negsuc b = neg_ℕ (a / suc b)
negsuc a /ℤ pos b = neg_ℕ (suc a / b)
negsuc a /ℤ negsuc b = pos (suc a / suc b)

-- The pattern of `w` bits of an integer.
abbrev pub wrap : ℕ → ℤ → ℕ
wrap w (pos n) = n % 2 ^ w
wrap w (negsuc n) = 2 ^ w - 1 - n % 2 ^ w
