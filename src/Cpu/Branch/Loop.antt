-- ===== src/Cpu/Branch/Loop.antt =====
-- A counted loop: a conditional branch of src/cpu/espresso/interpreter.cpp to its own address that
-- counts down and goes on while the count register is not zero (`bdnz`).
use affogato.Base.{
  Bool-cases, inl, inr, ℕ, zero, suc, ◌+◌, ◌-◌, ◌^◌, ◌<◌, ◌≡◌, refl, ap, ◌∙◌, Bool, true, false,
  not, arith, u32, Option, none, some, ltb, ◌==◌, if◌then◌else◌,
}
use affogato.Cpu.State.{CpuState}
use affogato.Cpu.Flags.{has_bits}
use affogato.Cpu.Decoder.Instruction.{DecodedInstruction}
use affogato.Cpu.Branch.{
  Jump, same, count_down, conditional_branch_taken, target_of, conditional_branch,
}

-- The instruction executed again and again for as long as it jumps to itself: the state in which it
-- goes on to another address, or `none` when the given number of rounds is not enough.
unfoldable pub spin : ℕ → CpuState → DecodedInstruction → ℕ → Option CpuState
spin zero s i cia = none
spin (suc rounds) s i cia =
    let jump = conditional_branch s i cia in
    let rest = spin rounds jump.state i cia in
    if jump.next_cia == cia then rest else some jump.state

-- A count of 0 wraps around before it is tested.
abbrev pub rounds_of : ℕ → ℕ
rounds_of ctr = if ctr == 0 then 2 ^ 32 else ctr

-- A branch that counts down, whatever the condition, and is taken while the count is not zero.
pub record IsCountedLoop (i : DecodedInstruction) (cia : ℕ) : Type 0 where
  pub ignores_condition : has_bits i.branch_options 0x10 ≡ true
  pub counts : has_bits i.branch_options 0x04 ≡ false
  pub until_zero : has_bits i.branch_options 0x02 ≡ false
  pub no_link : i.link ≡ false
  pub to_itself : target_of i cia ≡ cia
  pub address_fits : cia < 2 ^ 32

taken : (b : Bool) (x y : ℕ) → (if not (same (not b) false) then x else y) ≡ (if b then y else x)
taken true x y = refl
taken false x y = refl

module _ (i : DecodedInstruction) (cia : ℕ) (loop : IsCountedLoop i cia) where
  one_round :
      (s : CpuState)
      → conditional_branch s i cia ≡ record {
        state = count_down s;
        next_cia = if u32 (s.ctr + 2 ^ 32 - 1) == 0 then u32 (cia + 4) else cia;
      }
  unfolding conditional_branch conditional_branch_taken
  one_round s =
      rw (loop.no_link, loop.counts, loop.ignores_condition, loop.until_zero, loop.to_itself)
        (ap (λ (t : ℕ). let out : Jump = record { state = count_down s; next_cia = t } in out)
          (taken (u32 (s.ctr + 2 ^ 32 - 1) == 0) cia (u32 (cia + 4))))

  -- A branch to its own address that counts down and is taken while the count is not zero falls
  -- through after as many rounds as the count register held, 2^32 if it held 0, and not earlier; it
  -- has then changed the count register alone, to 0.
  pub spin-rounds_of :
      (rounds : ℕ) (s : CpuState)
      → s.ctr < 2 ^ 32
      → spin rounds s i cia
        ≡ (if ltb rounds (rounds_of s.ctr) then none else some (record s { ctr = 0 }))
  unfolding spin
  spin-rounds_of zero s h = ground arith
  spin-rounds_of (suc rounds) s h =
      let next : ℕ = u32 (s.ctr + 2 ^ 32 - 1) in
      rw (one_round s) (elim (Bool-cases (next == 0)) [
        | inl last ↦
            let one : s.ctr ≡ 1 = ground arith in
            let over : (u32 (cia + 4) == cia) ≡ false = ground (arith, loop.address_fits) in
            rw (last, over) (ground arith)
        | inr more ↦
            let again : (cia == cia) ≡ true = ground arith in
            let shorter : ltb rounds (rounds_of next) ≡ ltb (suc rounds) (rounds_of s.ctr) =
              ground arith in
            rw (more, again)
              (spin-rounds_of rounds (count_down s) (omega arith)
                ∙ ap (λ (t : Bool). if t then none else some (record s { ctr = 0 })) shorter)
      ])
