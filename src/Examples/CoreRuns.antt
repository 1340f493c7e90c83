-- ===== src/Examples/CoreRuns.antt =====
-- The theorems on `step` and `run` of interpreter.cpp at a core with one instruction in its memory.
use affogato.Base.{
  true, some, ℕ, ◌+◌, ◌≤◌, ◌≡◌, refl, ◌∷◌, false, none, Result, ok, arith, u32, replicate,
}
use affogato.Core.{EspressoCore}
use affogato.Core.Step.{is_unsupported, fetch_execute, StepResult, enter, step}
use affogato.Core.Step.Encoded.{effect, three_registers, step-encode}
use affogato.Core.Run.{StopReason, RunResult, run}
use affogato.Core.Run.Limit.{step-unsupported, run-returns}
use affogato.Cpu.Execute.{HostOutcome}
use affogato.Cpu.State.{CpuState, zeroed, put}
use affogato.Cpu.Decoder.{decode, decode_primary}
use affogato.Cpu.Decoder.Immediate.{
  decode_immediate, decode_compare_immediate, decode_load_store, decode_float_load_store,
}
use affogato.Hle.Dispatch.{dispatch}
use affogato.Cpu.Decoder.Instruction.{DecodedInstruction}
use affogato.Cpu.Decoder.Encode.{Mnemonic, encode}
use affogato.Hle.State.{find_address}
use affogato.Hle.Register.{initial}
use affogato.Memory.State.{GuestMemory, new}
use affogato.Memory.Access.{is_flat_range}
use affogato.Memory.Read.{read32_be}
use affogato.Memory.Watch.{has_write_watchpoint}

-- `add r3, r4, r5` at address 0, and zeros, which are no instruction.
abbrev memory : GuestMemory
memory = record (new 64) { bytes = 0x7C ∷ 0x64 ∷ 0x2A ∷ 0x14 ∷ replicate 60 0 }

abbrev core : EspressoCore
core = record {
  state = record zeroed { gpr = put (put (λ r. 0) 4 40) 5 2 };
  memory = memory;
  hle = initial;
  current_thread_address = 0;
  guest_heap_cursor = 0;
  guest_heap_limit = 64;
}

abbrev host_case : DecodedInstruction → CpuState → GuestMemory → HostOutcome
host_case i s m = ok (some (s, m))

abbrev advance : ℕ → EspressoCore → Result EspressoCore
advance id c = ok (record c { guest_heap_cursor = id })

unbound : find_address core.state.cia core.hle.bound_imports ≡ none
unfolding find_address
unbound = refl

fetched : read32_be (enter core).memory core.state.cia ≡ ok (encode Mnemonic.add 3 4 5 false)
unfolding enter read32_be is_flat_range new has_write_watchpoint
fetched = refl

step-encode_example :
    step host_case advance core
    ≡ ok (
      record (enter core) {
        state = record (effect Mnemonic.add core.state (three_registers 3 4 5 false)) {
          cia = u32 (0 + 4);
        };
      },
      StepResult.executed,
    )
step-encode_example =
    step-encode host_case advance core Mnemonic.add 3 4 5 false (omega arith) (omega arith)
      (omega arith) unbound fetched

run-returns_example :
    (r : RunResult) × (run host_case advance core 10 ≡ ok r)
    × (r.steps ≤ 10)
    × (r.reason ≡ StopReason.instruction_limit → r.steps ≡ 10)
    × (r.steps ≡ 10 → r.reason ≡ StopReason.instruction_limit)
run-returns_example = run-returns host_case advance core 10

-- At address 4.
abbrev past_end : EspressoCore
past_end = record core { state = record (core.state) { cia = 4 } }

zero_fetched : read32_be (enter past_end).memory 4 ≡ ok 0
unfolding enter read32_be is_flat_range new has_write_watchpoint
zero_fetched = refl

zero_decoded : is_unsupported (decode 0).opcode ≡ true
unfolding is_unsupported decode decode_primary decode_immediate decode_compare_immediate
    decode_load_store decode_float_load_store
zero_decoded = refl

stopped : step host_case advance past_end ≡ ok (enter past_end, StepResult.unsupported_instruction)
unfolding step dispatch fetch_execute find_address enter
stopped = rw (zero_fetched, zero_decoded) refl

step-unsupported_example :
    (enter past_end ≡ enter past_end)
    × (word : ℕ) × (read32_be (enter past_end).memory (enter past_end).state.cia ≡ ok word)
step-unsupported_example = step-unsupported host_case advance past_end (enter past_end) stopped
