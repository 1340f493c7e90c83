-- ===== src/Core/Run.antt =====
-- `EspressoCore::run` (src/cpu/espresso/interpreter.cpp), without the instruction history and texts.
pub mod Limit
use affogato.Base.{ℕ, zero, suc, ◌+◌, Option, none, some, Error, Result, ok, err, ◌>>=◌}
use affogato.Core.{EspressoCore}
use affogato.Core.Step.{StepResult, step}
use affogato.Cpu.Execute.{HostOutcome}
use affogato.Cpu.State.{CpuState}
use affogato.Cpu.Decoder.Instruction.{DecodedInstruction}
use affogato.Memory.State.{GuestMemory}
use affogato.Memory.Read.{read32_be}

pub data StopReason : Type 0 where
  instruction_limit unsupported_instruction unimplemented_hle_call hle_error memory_fault :
      StopReason

-- `core` is what the run leaves, except after an exception, whose effects are not followed.
pub record RunResult : Type 0 where
  pub steps : ℕ
  pub reason : StopReason
  pub core : Option EspressoCore
  pub instruction_word : Option ℕ

-- The handlers of `run`; the last takes every other exception for a memory fault.
unfoldable pub reason_of : Error → StopReason
reason_of Error.hle_error = StopReason.hle_error
reason_of _ = StopReason.memory_fault

module _ (host_case : DecodedInstruction → CpuState → GuestMemory → HostOutcome)
    (run_handler : ℕ → EspressoCore → Result EspressoCore) where
  -- The loop, after `steps` rounds and with `left` to go.
  unfoldable pub run_loop : ℕ → ℕ → EspressoCore → Result RunResult
  run_loop steps zero core = ok (record {
    steps = steps;
    reason = StopReason.instruction_limit;
    core = some core;
    instruction_word = none;
  })
  run_loop steps (suc left) core = elim (step host_case run_handler core) [
    | err thrown ↦
        ok (record {
          steps = steps;
          reason = reason_of thrown;
          core = none;
          instruction_word = none;
        })
    | ok (after, outcome) ↦
        let rest = run_loop (steps + 1) left after in
        elim outcome [
          | StepResult.unsupported_instruction ↦ read32_be after.memory after.state.cia >>= λ word.
              ok (record {
                steps = steps;
                reason = StopReason.unsupported_instruction;
                core = some after;
                instruction_word = some word;
              })
          | StepResult.unimplemented_hle_call ↦ ok (record {
            steps = steps;
            reason = StopReason.unimplemented_hle_call;
            core = some after;
            instruction_word = none;
          })
          | StepResult.executed ↦ rest
        ]
  ]

  unfoldable pub run : EspressoCore → ℕ → Result RunResult
  run core max_steps = run_loop 0 max_steps core
