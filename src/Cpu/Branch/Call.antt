-- ===== src/Cpu/Branch/Call.antt =====
-- A branch with link and the branch to the link register that returns from it
-- (src/cpu/espresso/interpreter.cpp).
use affogato.Base.{ℕ, ◌+◌, ◌%◌, ◌^◌, ◌<◌, ◌≡◌, true, arith, bit_and, and_not_mask, u32, not32}
use affogato.Cpu.State.{CpuState}
use affogato.Cpu.Flags.{has_bits}
use affogato.Cpu.Decoder.Instruction.{DecodedInstruction}
use affogato.Cpu.Branch.{branch, conditional_branch_taken, conditional_branch_to_link_register}

-- The branch is taken whatever the condition and the count.
pub record IsAlwaysTaken (i : DecodedInstruction) : Type 0 where
  pub ignores_condition : has_bits i.branch_options 0x10 ≡ true
  pub ignores_count : has_bits i.branch_options 0x04 ≡ true

aligned : (x : ℕ) → x < 2 ^ 32 → x % 4 ≡ 0 → bit_and x (not32 3) ≡ x
aligned x h e = omega (arith, and_not_mask 32 2 x h (omega arith))

-- After a branch with link at an aligned address, an unconditional branch to the link register,
-- with or without link, goes to the instruction after the call, from any state in which the link
-- register still holds what the call left there.
conditional_branch_to_link_register-branch :
    (s s' : CpuState) (call return : DecodedInstruction) (cia cia' : ℕ)
    → call.link ≡ true
    → IsAlwaysTaken return
    → cia % 4 ≡ 0
    → s'.lr ≡ (branch s call cia).state.lr
    → (conditional_branch_to_link_register s' return cia').next_cia ≡ u32 (cia + 4)
unfolding branch conditional_branch_to_link_register conditional_branch_taken
conditional_branch_to_link_register-branch s s' call return cia cia' linked taken h same =
    let kept : s'.lr ≡ u32 (cia + 4) = rw linked at same in
    rw (taken.ignores_condition, taken.ignores_count, kept)
      (aligned (u32 (cia + 4)) (omega arith) (omega arith))
