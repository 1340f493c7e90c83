-- ===== src/Cpu/Branch.antt =====
-- The branches and the moves of special registers of `EspressoCore::step`
-- (src/cpu/espresso/interpreter.cpp). A branch gives the state and `next_cia`.
pub mod Loop
pub mod Call
use affogato.Base.{
  ℕ, ◌+◌, ◌-◌, ◌^◌, Bool, true, false, not, ◌&&◌, ◌||◌, bit_and, u32, not32, ◌==◌, if◌then◌else◌,
}
use affogato.Cpu.State.{CpuState, put}
use affogato.Cpu.Flags.{has_bits, read_cr_bit, write_gpr}
use affogato.Cpu.Decoder.Instruction.{DecodedInstruction}

abbrev pub same : Bool → Bool → Bool
same true b = b
same false b = not b

pub record Jump : Type 0 where
  pub state : CpuState
  pub next_cia : ℕ

-- `--state.ctr`.
abbrev pub count_down : CpuState → CpuState
count_down s = record s { ctr = u32 (s.ctr + 2 ^ 32 - 1) }

abbrev pub after_count : CpuState → ℕ → CpuState
after_count s branch_options = if has_bits branch_options 0x04 then s else count_down s

-- The verdict; `after_count` is the state that it leaves.
unfoldable pub conditional_branch_taken : CpuState → ℕ → ℕ → Bool
conditional_branch_taken s branch_options condition_bit =
    let ignore_condition = has_bits branch_options 0x10 in
    let condition_sense = has_bits branch_options 0x08 in
    let ignore_count = has_bits branch_options 0x04 in
    let count_sense = has_bits branch_options 0x02 in
    let condition_ok = ignore_condition || same (read_cr_bit s condition_bit) condition_sense in
    let counted = after_count s branch_options in
    let count_ok = ignore_count || not (same (not (counted.ctr == 0)) count_sense) in
    condition_ok && count_ok

abbrev pub with_link : CpuState → DecodedInstruction → ℕ → CpuState
with_link s i cia = if i.link then record s { lr = u32 (cia + 4) } else s

abbrev pub target_of : DecodedInstruction → ℕ → ℕ
target_of i cia = if i.absolute then i.immediate else u32 (cia + i.immediate)

unfoldable pub branch : CpuState → DecodedInstruction → ℕ → Jump
branch s i cia = record { state = with_link s i cia; next_cia = target_of i cia }

-- The part that the conditional branches share, after the link register is written.
abbrev pub jump_if : CpuState → DecodedInstruction → ℕ → ℕ → Jump
jump_if s i cia target = record {
  state = after_count s i.branch_options;
  next_cia =
      if conditional_branch_taken s i.branch_options i.condition_bit then target else u32 (cia + 4);
}

unfoldable pub conditional_branch : CpuState → DecodedInstruction → ℕ → Jump
conditional_branch s i cia = jump_if (with_link s i cia) i cia (target_of i cia)

-- The target is read before the link register is written.
unfoldable pub conditional_branch_to_link_register : CpuState → DecodedInstruction → ℕ → Jump
conditional_branch_to_link_register s i cia =
    let target = bit_and s.lr (not32 3) in jump_if (with_link s i cia) i cia target

unfoldable pub conditional_branch_to_count_register : CpuState → DecodedInstruction → ℕ → Jump
conditional_branch_to_count_register s i cia =
    let target = bit_and s.ctr (not32 3) in jump_if (with_link s i cia) i cia target

unfoldable pub move_from_link_register : CpuState → DecodedInstruction → CpuState
move_from_link_register s i = write_gpr s i.destination s.lr

unfoldable pub move_to_link_register : CpuState → DecodedInstruction → CpuState
move_to_link_register s i = record s { lr = s.gpr i.destination }

unfoldable pub move_from_count_register : CpuState → DecodedInstruction → CpuState
move_from_count_register s i = write_gpr s i.destination s.ctr

unfoldable pub move_to_count_register : CpuState → DecodedInstruction → CpuState
move_to_count_register s i = record s { ctr = s.gpr i.destination }

unfoldable pub move_from_xer : CpuState → DecodedInstruction → CpuState
move_from_xer s i = write_gpr s i.destination s.xer

unfoldable pub move_to_xer : CpuState → DecodedInstruction → CpuState
move_to_xer s i = record s { xer = s.gpr i.destination }

unfoldable pub move_from_gqr : CpuState → DecodedInstruction → CpuState
move_from_gqr s i = write_gpr s i.destination (s.gqr i.quantized_register)

unfoldable pub move_to_gqr : CpuState → DecodedInstruction → CpuState
move_to_gqr s i = record s { gqr = put s.gqr i.quantized_register (s.gpr i.destination) }
