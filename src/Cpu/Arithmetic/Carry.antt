-- ===== src/Cpu/Arithmetic/Carry.antt =====
-- Carries chain: the pair of a carrying instruction and the extended one of interpreter.cpp computes on
-- 64-bit numbers held in two registers.
use affogato.Base.{
  ℕ, ◌+◌, ◌-◌, ◌*◌, ◌%◌, ◌^◌, ◌<◌, ◌≡◌, ◌≢◌, ap, ◌∙◌, Bool, not, arith, u32, not32, leb, ◌==◌,
  if◌then◌else◌,
}
use affogato.Cpu.State.{CpuState}
use affogato.Cpu.Flags.{set_xer_carry, carry_of, from_bool, write_gpr}
use affogato.Cpu.Flags.Digits.{
  carry_of-set_xer_carry, carry_of-when_record, gpr-when_record, gpr-set_xer_carry,
}
use affogato.Cpu.Arithmetic.{
  Operands, carries, deliver_carry, add_carrying, add_extended, subtract_from_carrying,
  subtract_from_extended, sub32,
}

-- The state after a result with a carry.
pub carry_of-deliver_carry :
    (s : CpuState) (o : Operands) (r : ℕ) (c : Bool) → carry_of (deliver_carry s o r c) ≡ c
carry_of-deliver_carry s o r c =
    carry_of-when_record o.record_result r (set_xer_carry (write_gpr s o.destination r) c)
    ∙ carry_of-set_xer_carry (write_gpr s o.destination r) c

pub gpr-deliver_carry :
    (s : CpuState) (o : Operands) (r : ℕ) (c : Bool) (register : ℕ)
    → (deliver_carry s o r c).gpr register
      ≡ (if o.destination == register then r else s.gpr register)
unfolding write_gpr
gpr-deliver_carry s o r c register =
    ap (λ (f : ℕ → ℕ). f register)
      (gpr-when_record o.record_result r (set_xer_carry (write_gpr s o.destination r) c)
        ∙ gpr-set_xer_carry (write_gpr s o.destination r) c)

-- Two registers read as a number of 64 bits.
abbrev pub double_word : ℕ → ℕ → ℕ
double_word high low = high * 2 ^ 32 + low

module _ (s : CpuState) (low high : Operands) (words : (register : ℕ) → s.gpr register < 2 ^ 32)
    (apart : low.destination ≢ high.destination) (base_kept : low.destination ≢ high.base)
    (source_kept : low.destination ≢ high.source) where
  -- When every register holds a word and the first instruction overwrites neither operand nor the
  -- destination of the second, `addc` on the low words and then `adde` on the high ones adds
  -- 64-bit numbers modulo 2^64, and the carry that is left is that of the whole sum.
  pub add_extended-add_carrying :
      let t = add_extended (add_carrying s low) high in
      let a = double_word (s.gpr high.base) (s.gpr low.base) in
      let b = double_word (s.gpr high.source) (s.gpr low.source) in
      (double_word (t.gpr high.destination) (t.gpr low.destination) ≡ (a + b) % 2 ^ 64)
      × (carry_of t ≡ not (leb (a + b) (2 ^ 64 - 1)))
  unfolding add_extended add_carrying
  add_extended-add_carrying =
      let sum = s.gpr low.base + s.gpr low.source in
      let s' = deliver_carry s low (u32 sum) (carries sum) in
      let sum' = s'.gpr high.base + s'.gpr high.source + from_bool (carry_of s') in
      (
        ground (
          arith,
          carry_of-deliver_carry s low (u32 sum) (carries sum),
          gpr-deliver_carry s low (u32 sum) (carries sum) high.base,
          gpr-deliver_carry s low (u32 sum) (carries sum) high.source,
          gpr-deliver_carry s low (u32 sum) (carries sum) low.destination,
          gpr-deliver_carry s' high (u32 sum') (carries sum') high.destination,
          gpr-deliver_carry s' high (u32 sum') (carries sum') low.destination,
          words low.base,
          words low.source,
          words high.base,
          words high.source,
        ),
        ground (
          arith,
          carry_of-deliver_carry s low (u32 sum) (carries sum),
          carry_of-deliver_carry s' high (u32 sum') (carries sum'),
          gpr-deliver_carry s low (u32 sum) (carries sum) high.base,
          gpr-deliver_carry s low (u32 sum) (carries sum) high.source,
          words low.base,
          words low.source,
          words high.base,
          words high.source,
        ),
      )

  -- When every register holds a word and the first instruction overwrites neither operand nor the
  -- destination of the second, `subfc` on the low words and then `subfe` on the high ones
  -- subtracts 64-bit numbers modulo 2^64, and the carry that is left says that nothing was
  -- borrowed.
  pub subtract_from_extended-subtract_from_carrying :
      let t = subtract_from_extended (subtract_from_carrying s low) high in
      let a = double_word (s.gpr high.base) (s.gpr low.base) in
      let b = double_word (s.gpr high.source) (s.gpr low.source) in
      (double_word (t.gpr high.destination) (t.gpr low.destination) ≡ (b + 2 ^ 64 - a) % 2 ^ 64)
      × (carry_of t ≡ leb a b)
  unfolding subtract_from_extended subtract_from_carrying
  subtract_from_extended-subtract_from_carrying =
      let difference = sub32 (s.gpr low.source) (s.gpr low.base) in
      let carry = leb (s.gpr low.base) (s.gpr low.source) in
      let s' = deliver_carry s low difference carry in
      let sum' = not32 (s'.gpr high.base) + s'.gpr high.source + from_bool (carry_of s') in
      (
        ground (
          arith,
          carry_of-deliver_carry s low difference carry,
          gpr-deliver_carry s low difference carry high.base,
          gpr-deliver_carry s low difference carry high.source,
          gpr-deliver_carry s low difference carry low.destination,
          gpr-deliver_carry s' high (u32 sum') (carries sum') high.destination,
          gpr-deliver_carry s' high (u32 sum') (carries sum') low.destination,
          words low.base,
          words low.source,
          words high.base,
          words high.source,
        ),
        ground (
          arith,
          carry_of-deliver_carry s low difference carry,
          carry_of-deliver_carry s' high (u32 sum') (carries sum'),
          gpr-deliver_carry s low difference carry high.base,
          gpr-deliver_carry s low difference carry high.source,
          words low.base,
          words low.source,
          words high.base,
          words high.source,
        ),
      )
