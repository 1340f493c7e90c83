-- ===== src/Core/Run/Limit.antt =====
-- `run` (src/cpu/espresso/interpreter.cpp) returns, and counts its steps.
use affogato.Base.{
  ◌∙◌, Result-cases, Error, ℕ, zero, suc, ◌+◌, ◌≤◌, ◌≡◌, refl, Bool-cases, inl, inr, none, some,
  Result, ok, err, arith,
}
use affogato.Core.{EspressoCore}
use affogato.Core.Step.{StepResult, step, fetch_execute, execute_decoded, enter, is_unsupported}
use affogato.Core.Run.{StopReason, RunResult, reason_of, run_loop, run}
use affogato.Cpu.Execute.{HostOutcome}
use affogato.Cpu.State.{CpuState}
use affogato.Cpu.Decoder.{decode}
use affogato.Cpu.Decoder.Instruction.{DecodedInstruction}
use affogato.Hle.Dispatch.{HleDispatchResult, dispatch, dispatch_bound, call_handler}
use affogato.Memory.State.{GuestMemory}
use affogato.Memory.Read.{read32_be}

reason_of-thrown : (e : Error) → reason_of e ≡ StopReason.instruction_limit → ⊥
unfolding reason_of
reason_of-thrown (Error.memory_fault address width access) h = ground arith
reason_of-thrown Error.invalid_argument h = ground arith
reason_of-thrown Error.logic_error h = ground arith
reason_of-thrown Error.length_error h = ground arith
reason_of-thrown Error.out_of_range h = ground arith
reason_of-thrown Error.hle_error h = ground arith

cia_kept :
    (core middle after : EspressoCore) (word : ℕ)
    → middle ≡ enter core
    → after ≡ middle
    → read32_be middle.memory core.state.cia ≡ ok word
    → read32_be after.memory after.state.cia ≡ ok word
unfolding enter
cia_kept core middle after word passed same read = cc

module _ (host_case : DecodedInstruction → CpuState → GuestMemory → HostOutcome)
    (run_handler : ℕ → EspressoCore → Result EspressoCore) where
  dispatch-not_hle :
      (core after : EspressoCore) (address : ℕ)
      → dispatch run_handler core address ≡ ok (after, HleDispatchResult.not_hle)
      → after ≡ core
  unfolding dispatch dispatch_bound call_handler
  dispatch-not_hle core after address e = ground arith

  -- A case that answers that the instruction is unsupported has changed nothing.
  execute_decoded-unsupported :
      (core after : EspressoCore) (i : DecodedInstruction) (cia : ℕ)
      → execute_decoded host_case core i cia ≡ ok (after, StepResult.unsupported_instruction)
      → after ≡ core
  unfolding execute_decoded
  execute_decoded-unsupported core after i cia e = ground arith

  fetch_execute-unsupported :
      (core after : EspressoCore) (cia : ℕ)
      → fetch_execute host_case core cia ≡ ok (after, StepResult.unsupported_instruction)
      → (after ≡ core) × (word : ℕ) × (read32_be core.memory cia ≡ ok word)
  unfolding fetch_execute
  fetch_execute-unsupported core after cia e = elim (Result-cases (read32_be core.memory cia)) [
    | inr (thrown, bad) ↦ absurd (ground arith)
    | inl (word, fetched) ↦ elim (Bool-cases (is_unsupported (decode word).opcode)) [
      | inl unknown ↦ (ground arith, word, fetched)
      | inr known ↦
          let same = execute_decoded-unsupported core after (decode word) cia in
          (ground arith, word, fetched)
    ]
  ]

  -- Whatever the handlers of HLE calls and the cases left to the host do, a step that answers that the
  -- instruction is unsupported has changed nothing in the core but what the watchpoint is told at its
  -- start, and the word at the address of the instruction can be read again.
  pub step-unsupported :
      (core after : EspressoCore)
      → step host_case run_handler core ≡ ok (after, StepResult.unsupported_instruction)
      → (after ≡ enter core) × (word : ℕ) × (read32_be after.memory after.state.cia ≡ ok word)
  unfolding step
  step-unsupported core after e =
      elim (Result-cases (dispatch run_handler (enter core) core.state.cia)) [
        | inr (thrown, bad) ↦ absurd (ground arith)
        | inl ((middle, HleDispatchResult.executed), d) ↦ absurd (ground arith)
        | inl ((middle, HleDispatchResult.unimplemented), d) ↦ absurd (ground arith)
        | inl ((middle, HleDispatchResult.not_hle), d) ↦
            let fetched : fetch_execute host_case middle core.state.cia
                ≡ ok (after, StepResult.unsupported_instruction) =
              rw d at e in
            let (same, word, read) =
              fetch_execute-unsupported middle after core.state.cia fetched in
            let passed = dispatch-not_hle (enter core) middle core.state.cia d in
            (same ∙ passed, word, cia_kept core middle after word passed same read)
      ]

  pub run_loop-executed :
      (steps left : ℕ) (core after : EspressoCore) (r : Result RunResult)
      → step host_case run_handler core ≡ ok (after, StepResult.executed)
      → run_loop host_case run_handler (steps + 1) left after ≡ r
      → run_loop host_case run_handler steps (suc left) core ≡ r
  unfolding run_loop
  run_loop-executed steps left core after r e rest = rw (run_loop, e) rest

  pub run_loop-thrown :
      (steps left : ℕ) (core : EspressoCore) (thrown : Error)
      → step host_case run_handler core ≡ err thrown
      → run_loop host_case run_handler steps (suc left) core
        ≡ ok (record {
          steps = steps;
          reason = reason_of thrown;
          core = none;
          instruction_word = none;
        })
  unfolding run_loop
  run_loop-thrown steps left core thrown e = rw (run_loop, e) refl

  pub run_loop-unimplemented :
      (steps left : ℕ) (core after : EspressoCore)
      → step host_case run_handler core ≡ ok (after, StepResult.unimplemented_hle_call)
      → run_loop host_case run_handler steps (suc left) core
        ≡ ok (record {
          steps = steps;
          reason = StopReason.unimplemented_hle_call;
          core = some after;
          instruction_word = none;
        })
  unfolding run_loop
  run_loop-unimplemented steps left core after e = rw (run_loop, e) refl

  pub run_loop-unsupported :
      (steps left : ℕ) (core after : EspressoCore) (word : ℕ)
      → step host_case run_handler core ≡ ok (after, StepResult.unsupported_instruction)
      → read32_be after.memory after.state.cia ≡ ok word
      → run_loop host_case run_handler steps (suc left) core
        ≡ ok (record {
          steps = steps;
          reason = StopReason.unsupported_instruction;
          core = some after;
          instruction_word = some word;
        })
  unfolding run_loop
  run_loop-unsupported steps left core after word e read = rw (run_loop, e, read) refl

  run_loop-returns :
      (steps left : ℕ) (core : EspressoCore)
      → (r : RunResult) × (run_loop host_case run_handler steps left core ≡ ok r)
        × (r.steps ≤ steps + left)
        × (r.reason ≡ StopReason.instruction_limit → r.steps ≡ steps + left)
        × (r.steps ≡ steps + left → r.reason ≡ StopReason.instruction_limit)
  unfolding run_loop
  run_loop-returns steps zero core = (_, refl, omega arith, λ h. omega arith, λ h. refl)
  run_loop-returns steps (suc left) core = elim (Result-cases (step host_case run_handler core)) [
    | inr (thrown, bad) ↦ (
      _,
      run_loop-thrown steps left core thrown bad,
      omega arith,
      λ h. absurd (reason_of-thrown thrown h),
      λ h. absurd (omega arith),
    )
    | inl ((after, StepResult.executed), e) ↦
        let (r, returns, below, limit, reached) = run_loop-returns (steps + 1) left after in
        (
          r,
          run_loop-executed steps left core after (ok r) e returns,
          omega arith,
          λ h. omega (arith, limit h),
          λ h. reached (omega arith),
        )
    | inl ((after, StepResult.unimplemented_hle_call), e) ↦ (
      _,
      run_loop-unimplemented steps left core after e,
      omega arith,
      λ h. absurd (ground arith),
      λ h. absurd (omega arith),
    )
    | inl ((after, StepResult.unsupported_instruction), e) ↦
        let (unchanged, word, read) = step-unsupported core after e in
        (
          _,
          run_loop-unsupported steps left core after word e read,
          omega arith,
          λ h. absurd (ground arith),
          λ h. absurd (omega arith),
        )
  ]

  -- Whatever the handlers of HLE calls and the cases left to the host do, `run` returns: no exception
  -- of a step leaves it, and reading an unsupported instruction again does not throw. It takes at
  -- most the given number of steps, and exactly that number when and only when it stops for the
  -- limit.
  pub run-returns :
      (core : EspressoCore) (max_steps : ℕ)
      → (r : RunResult) × (run host_case run_handler core max_steps ≡ ok r)
        × (r.steps ≤ max_steps)
        × (r.reason ≡ StopReason.instruction_limit → r.steps ≡ max_steps)
        × (r.steps ≡ max_steps → r.reason ≡ StopReason.instruction_limit)
  unfolding run
  run-returns core max_steps =
      let (r, returns, below, limit, reached) = run_loop-returns 0 max_steps core in
      (r, returns, omega arith, λ h. omega (arith, limit h), λ h. reached (omega arith))
