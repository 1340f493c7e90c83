-- ===== src/Cpu/Flags/Digits.antt =====
-- What the operations on XER of interpreter.cpp do to its flags, and that they leave the registers
-- alone.
use affogato.Base.{
  ℕ, ◌*◌, ◌^◌, ◌<◌, ◌≡◌, refl, ap, bit_and, bit_or, Bool, true, false, ◌||◌, arith, bit, bit-and,
  bit-or, bit-lt, bit-power, bit-complement, and_power, pow-lt-pow, not32, ◌==◌, if◌then◌else◌,
  Bool-cases,
}
use mathlib.Core.Logic.{inl, inr}
use native.Mathlib.Nat.{one-le-pow}
use affogato.Cpu.State.{CpuState}
use affogato.Cpu.Flags.{
  xer_summary_overflow_mask, xer_overflow_mask, xer_carry_mask, has_bits, put_cr_field,
  set_compare_result, set_record_result, set_xer_carry, set_xer_overflow, carry_of, write_gpr,
  when_record,
}

-- A test of one bit reads one digit.
pub has_bits-power : (x k : ℕ) → has_bits x (2 ^ k) ≡ (bit x k == 1)
has_bits-power x k = elim (Bool-cases (bit x k == 1)) [
  | inl one ↦ ground (arith, and_power x k, one-le-pow k 2)
  | inr other ↦
      let zero_bit : bit x k ≡ 0 = ground (arith, bit-lt x k) in
      ground (arith, and_power x k, ap (λ (t : ℕ). t * 2 ^ k) zero_bit)
]

pub set_bit : (x k j : ℕ) → bit (bit_or x (2 ^ k)) j ≡ (if k == j then 1 else bit x j)
set_bit x k j = ground (arith, bit-or x (2 ^ k) j, bit-power k j, bit-lt x j)

pub clear_bit :
    (x k j : ℕ)
    → k < 32
    → j < 32
    → bit (bit_and x (not32 (2 ^ k))) j ≡ (if k == j then 0 else bit x j)
clear_bit x k j hk hj = ground (
  arith,
  bit-and x (not32 (2 ^ k)) j,
  bit-complement 32 (2 ^ k) j (pow-lt-pow k 32 hk) hj,
  bit-power k j,
  bit-lt x j,
)

unfoldable pub summary_of : CpuState → Bool
summary_of s = has_bits s.xer xer_summary_overflow_mask

-- Reading the carry gives what was set last.
pub carry_of-set_xer_carry : (s : CpuState) (c : Bool) → carry_of (set_xer_carry s c) ≡ c
unfolding carry_of set_xer_carry
carry_of-set_xer_carry s true =
    ground (arith, has_bits-power (bit_or s.xer xer_carry_mask) 29, set_bit s.xer 29 29)
carry_of-set_xer_carry s false =
    ground (arith, has_bits-power (bit_and s.xer (not32 xer_carry_mask)) 29, clear_bit s.xer 29 29)

pub carry_of-set_xer_overflow :
    (s : CpuState) (v : Bool) → carry_of (set_xer_overflow s v) ≡ carry_of s
unfolding carry_of set_xer_overflow
carry_of-set_xer_overflow s true = ground (
  arith,
  has_bits-power (bit_or s.xer (bit_or xer_overflow_mask xer_summary_overflow_mask)) 29,
  has_bits-power s.xer 29,
  bit-or s.xer (bit_or xer_overflow_mask xer_summary_overflow_mask) 29,
)
carry_of-set_xer_overflow s false = ground (
  arith,
  has_bits-power (bit_and s.xer (not32 xer_overflow_mask)) 29,
  has_bits-power s.xer 29,
  clear_bit s.xer 30 29,
)

xer-when_record : (b : Bool) (r : ℕ) (s : CpuState) → (when_record b r s).xer ≡ s.xer
unfolding when_record set_record_result set_compare_result put_cr_field
xer-when_record true r s = refl
xer-when_record false r s = refl

pub gpr-when_record : (b : Bool) (r : ℕ) (s : CpuState) → (when_record b r s).gpr ≡ s.gpr
unfolding when_record set_record_result set_compare_result put_cr_field
gpr-when_record true r s = refl
gpr-when_record false r s = refl

pub gpr-set_xer_carry : (s : CpuState) (c : Bool) → (set_xer_carry s c).gpr ≡ s.gpr
unfolding set_xer_carry
gpr-set_xer_carry s true = refl
gpr-set_xer_carry s false = refl

pub gpr-set_xer_overflow : (s : CpuState) (v : Bool) → (set_xer_overflow s v).gpr ≡ s.gpr
unfolding set_xer_overflow
gpr-set_xer_overflow s true = refl
gpr-set_xer_overflow s false = refl

pub carry_of-when_record :
    (b : Bool) (r : ℕ) (s : CpuState) → carry_of (when_record b r s) ≡ carry_of s
unfolding carry_of
carry_of-when_record b r s = ap (λ (x : ℕ). has_bits x xer_carry_mask) (xer-when_record b r s)

-- What each step of an instruction does to the summary overflow bit: recording an overflow sets it,
-- and nothing clears it.
pub summary_of-write_gpr : (s : CpuState) (r v : ℕ) → summary_of (write_gpr s r v) ≡ summary_of s
unfolding summary_of write_gpr
summary_of-write_gpr s r v = refl

pub summary_of-when_record :
    (b : Bool) (r : ℕ) (s : CpuState) → summary_of (when_record b r s) ≡ summary_of s
unfolding summary_of
summary_of-when_record b r s =
    ap (λ (x : ℕ). has_bits x xer_summary_overflow_mask) (xer-when_record b r s)

pub summary_of-set_xer_carry :
    (s : CpuState) (c : Bool) → summary_of (set_xer_carry s c) ≡ summary_of s
unfolding summary_of set_xer_carry
summary_of-set_xer_carry s true = ground (
  arith,
  has_bits-power (bit_or s.xer xer_carry_mask) 31,
  has_bits-power s.xer 31,
  set_bit s.xer 29 31,
)
summary_of-set_xer_carry s false = ground (
  arith,
  has_bits-power (bit_and s.xer (not32 xer_carry_mask)) 31,
  has_bits-power s.xer 31,
  clear_bit s.xer 29 31,
)

pub summary_of-set_xer_overflow :
    (s : CpuState) (v : Bool) → summary_of (set_xer_overflow s v) ≡ (v || summary_of s)
unfolding summary_of set_xer_overflow
summary_of-set_xer_overflow s true = ground (
  arith,
  has_bits-power (bit_or s.xer (bit_or xer_overflow_mask xer_summary_overflow_mask)) 31,
  bit-or s.xer (bit_or xer_overflow_mask xer_summary_overflow_mask) 31,
  bit-lt s.xer 31,
)
summary_of-set_xer_overflow s false = ground (
  arith,
  has_bits-power (bit_and s.xer (not32 xer_overflow_mask)) 31,
  has_bits-power s.xer 31,
  clear_bit s.xer 30 31,
)

-- The overflow bit is the last outcome.
unfoldable pub overflow_of : CpuState → Bool
overflow_of s = has_bits s.xer xer_overflow_mask

pub overflow_of-set_xer_overflow :
    (s : CpuState) (v : Bool) → overflow_of (set_xer_overflow s v) ≡ v
unfolding overflow_of set_xer_overflow
overflow_of-set_xer_overflow s true = ground (
  arith,
  has_bits-power (bit_or s.xer (bit_or xer_overflow_mask xer_summary_overflow_mask)) 30,
  bit-or s.xer (bit_or xer_overflow_mask xer_summary_overflow_mask) 30,
  bit-lt s.xer 30,
)
overflow_of-set_xer_overflow s false =
    ground
      (arith, has_bits-power (bit_and s.xer (not32 xer_overflow_mask)) 30, clear_bit s.xer 30 30)

pub overflow_of-when_record :
    (b : Bool) (r : ℕ) (s : CpuState) → overflow_of (when_record b r s) ≡ overflow_of s
unfolding overflow_of
overflow_of-when_record b r s = ap (λ (x : ℕ). has_bits x xer_overflow_mask) (xer-when_record b r s)
