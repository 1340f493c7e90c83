-- ===== src/Core/Step.antt =====
-- `EspressoCore::step` (src/cpu/espresso/interpreter.cpp), without the instruction history.
pub mod Encoded
use affogato.Base.{ℕ, Bool, true, false, Option, none, some, Result, ok, err, ◌>>=◌, if◌then◌else◌}
use affogato.Core.{EspressoCore}
use affogato.Cpu.State.{CpuState}
use affogato.Cpu.Execute.{HostOutcome, Executed, execute}
use affogato.Cpu.Decoder.{decode}
use affogato.Cpu.Decoder.Instruction.{Opcode, DecodedInstruction}
use affogato.Hle.Dispatch.{HleDispatchResult, dispatch}
use affogato.Memory.State.{GuestMemory}
use affogato.Memory.Read.{read32_be}
use affogato.Memory.Watch.{has_write_watchpoint, set_current_guest_cia}

pub data StepResult : Type 0 where
  executed unsupported_instruction unimplemented_hle_call : StepResult

unfoldable pub is_unsupported : Opcode → Bool
is_unsupported Opcode.unsupported = true
is_unsupported _ = false

-- The watchpoint is told the address of the instruction.
unfoldable pub enter : EspressoCore → EspressoCore
enter core = record core {
  memory =
      if has_write_watchpoint core.memory
      then set_current_guest_cia core.memory core.state.cia
      else core.memory;
}

module _ (host_case : DecodedInstruction → CpuState → GuestMemory → HostOutcome) where
  -- What the switch leaves in the core.
  unfoldable pub execute_decoded :
      EspressoCore → DecodedInstruction → ℕ → Result (EspressoCore × StepResult)
  execute_decoded core i cia = execute host_case i core.state core.memory cia >>= λ outcome.
      elim outcome [
        | none ↦ ok (core, StepResult.unsupported_instruction)
        | some done ↦ ok (
          record core { state = record (done.state) { cia = done.next_cia }; memory = done.memory },
          StepResult.executed,
        )
      ]

  -- The part of `step` after the dispatcher has let the address pass.
  unfoldable pub fetch_execute : EspressoCore → ℕ → Result (EspressoCore × StepResult)
  fetch_execute core cia = read32_be core.memory cia >>= λ instruction_word.
      let i = decode instruction_word in
      if is_unsupported i.opcode
      then ok (core, StepResult.unsupported_instruction)
      else execute_decoded core i cia

  module _ (run_handler : ℕ → EspressoCore → Result EspressoCore) where
    unfoldable pub step : EspressoCore → Result (EspressoCore × StepResult)
    step core =
        let cia = core.state.cia in
        dispatch run_handler (enter core) cia >>= λ (after, dispatched). elim dispatched [
          | HleDispatchResult.executed ↦ ok (after, StepResult.executed)
          | HleDispatchResult.unimplemented ↦ ok (after, StepResult.unimplemented_hle_call)
          | HleDispatchResult.not_hle ↦ fetch_execute after cia
        ]
