-- ===== src/Core/Step/Encoded.antt =====
-- A step at an encoded instruction (src/cpu/espresso/interpreter.cpp): dispatch, fetch, decode and the
-- switch put together.
use affogato.Base.{ℕ, ◌+◌, ◌<◌, ◌≡◌, refl, ◌∙◌, Bool, false, none, some, Result, ok, u32}
use affogato.Core.{EspressoCore}
use affogato.Core.Step.{StepResult, enter, is_unsupported, execute_decoded, fetch_execute, step}
use affogato.Cpu.State.{CpuState}
use affogato.Cpu.Arithmetic
use affogato.Cpu.Arithmetic.{Operands}
use affogato.Cpu.Multiply
use affogato.Cpu.Execute.{HostOutcome, integer_case, execute, operands}
use affogato.Cpu.Decoder.{decode}
use affogato.Cpu.Decoder.Instruction.{DecodedInstruction}
use affogato.Cpu.Decoder.Encode.{Mnemonic, encode, meaning, decode-encode}
use affogato.Hle.State.{find_address}
use affogato.Hle.Dispatch.{dispatch}
use affogato.Memory.State.{GuestMemory}
use affogato.Memory.Read.{read32_be}

-- The case of the switch that an instruction stands for.
abbrev pub effect : Mnemonic → CpuState → Operands → CpuState
effect Mnemonic.add = Arithmetic.add
effect Mnemonic.addo = Arithmetic.add_overflow
effect Mnemonic.addc = Arithmetic.add_carrying
effect Mnemonic.addco = Arithmetic.add_carrying_overflow
effect Mnemonic.adde = Arithmetic.add_extended
effect Mnemonic.addeo = Arithmetic.add_extended_overflow
effect Mnemonic.subf = Arithmetic.subtract_from
effect Mnemonic.subfo = Arithmetic.subtract_from_overflow
effect Mnemonic.subfc = Arithmetic.subtract_from_carrying
effect Mnemonic.subfco = Arithmetic.subtract_from_carrying_overflow
effect Mnemonic.subfe = Arithmetic.subtract_from_extended
effect Mnemonic.subfeo = Arithmetic.subtract_from_extended_overflow
effect Mnemonic.mullw = Multiply.multiply_low_word
effect Mnemonic.mullwo = Multiply.multiply_low_word_overflow
effect Mnemonic.mulhw = Multiply.multiply_high_word_signed
effect Mnemonic.mulhwu = Multiply.multiply_high_word_unsigned
effect Mnemonic.divw = Multiply.divide_word_signed
effect Mnemonic.divwo = Multiply.divide_word_signed_overflow
effect Mnemonic.divwu = Multiply.divide_word_unsigned
effect Mnemonic.divwuo = Multiply.divide_word_unsigned_overflow

integer_case-meaning : (op : Mnemonic) → integer_case (meaning op) ≡ some (effect op)
unfolding integer_case
integer_case-meaning Mnemonic.add = refl
integer_case-meaning Mnemonic.addo = refl
integer_case-meaning Mnemonic.addc = refl
integer_case-meaning Mnemonic.addco = refl
integer_case-meaning Mnemonic.adde = refl
integer_case-meaning Mnemonic.addeo = refl
integer_case-meaning Mnemonic.subf = refl
integer_case-meaning Mnemonic.subfo = refl
integer_case-meaning Mnemonic.subfc = refl
integer_case-meaning Mnemonic.subfco = refl
integer_case-meaning Mnemonic.subfe = refl
integer_case-meaning Mnemonic.subfeo = refl
integer_case-meaning Mnemonic.mullw = refl
integer_case-meaning Mnemonic.mullwo = refl
integer_case-meaning Mnemonic.mulhw = refl
integer_case-meaning Mnemonic.mulhwu = refl
integer_case-meaning Mnemonic.divw = refl
integer_case-meaning Mnemonic.divwo = refl
integer_case-meaning Mnemonic.divwu = refl
integer_case-meaning Mnemonic.divwuo = refl

is_unsupported-meaning : (op : Mnemonic) → is_unsupported (meaning op) ≡ false
unfolding is_unsupported
is_unsupported-meaning Mnemonic.add = refl
is_unsupported-meaning Mnemonic.addo = refl
is_unsupported-meaning Mnemonic.addc = refl
is_unsupported-meaning Mnemonic.addco = refl
is_unsupported-meaning Mnemonic.adde = refl
is_unsupported-meaning Mnemonic.addeo = refl
is_unsupported-meaning Mnemonic.subf = refl
is_unsupported-meaning Mnemonic.subfo = refl
is_unsupported-meaning Mnemonic.subfc = refl
is_unsupported-meaning Mnemonic.subfco = refl
is_unsupported-meaning Mnemonic.subfe = refl
is_unsupported-meaning Mnemonic.subfeo = refl
is_unsupported-meaning Mnemonic.mullw = refl
is_unsupported-meaning Mnemonic.mullwo = refl
is_unsupported-meaning Mnemonic.mulhw = refl
is_unsupported-meaning Mnemonic.mulhwu = refl
is_unsupported-meaning Mnemonic.divw = refl
is_unsupported-meaning Mnemonic.divwo = refl
is_unsupported-meaning Mnemonic.divwu = refl
is_unsupported-meaning Mnemonic.divwuo = refl

-- The operands that name three registers.
abbrev pub three_registers : ℕ → ℕ → ℕ → Bool → Operands
three_registers d a b record_bit = record {
  destination = d;
  source = b;
  base = a;
  immediate = 0;
  shift = 0;
  mask_begin = 0;
  mask_end = 0;
  cr_field = 0;
  record_result = record_bit;
}

module _ (host_case : DecodedInstruction → CpuState → GuestMemory → HostOutcome)
    (run_handler : ℕ → EspressoCore → Result EspressoCore) where
  step-fetch_execute :
      (core : EspressoCore)
      → find_address core.state.cia core.hle.bound_imports ≡ none
      → step host_case run_handler core ≡ fetch_execute host_case (enter core) core.state.cia
  unfolding step dispatch enter
  step-fetch_execute core unbound = rw (step, dispatch, unbound) refl

  fetch_execute-execute_decoded :
      (core : EspressoCore) (cia word : ℕ) (i : DecodedInstruction)
      → read32_be core.memory cia ≡ ok word
      → decode word ≡ i
      → is_unsupported i.opcode ≡ false
      → fetch_execute host_case core cia ≡ execute_decoded host_case core i cia
  unfolding fetch_execute
  fetch_execute-execute_decoded core cia word i fetched decoded known =
      rw (fetch_execute, fetched, decoded, known) refl

  execute_decoded-integer_case :
      (core : EspressoCore) (i : DecodedInstruction) (cia : ℕ)
      (run : CpuState → Operands → CpuState)
      → integer_case i.opcode ≡ some run
      → execute_decoded host_case core i cia
        ≡ ok (
          record core { state = record (run core.state (operands i)) { cia = u32 (cia + 4) } },
          StepResult.executed,
        )
  unfolding execute_decoded execute
  execute_decoded-integer_case core i cia run found = rw (execute_decoded, execute, found) refl

  -- If no import is bound to the address and the word there is that of an add, subtract, multiply or
  -- divide instruction on registers below 32, a step executes the case of that instruction on those
  -- registers, goes on to the next word, and leaves the memory, the dispatcher and the heap as they
  -- were when the step began.
  pub step-encode :
      (core : EspressoCore) (op : Mnemonic) (d a b : ℕ) (record_bit : Bool)
      → d < 32
      → a < 32
      → b < 32
      → find_address core.state.cia core.hle.bound_imports ≡ none
      → read32_be (enter core).memory core.state.cia ≡ ok (encode op d a b record_bit)
      → step host_case run_handler core
        ≡ ok (
          record (enter core) {
            state = record (effect op core.state (three_registers d a b record_bit)) {
              cia = u32 (core.state.cia + 4);
            };
          },
          StepResult.executed,
        )
  unfolding enter
  step-encode core op d a b record_bit hd ha hb unbound fetched =
      step-fetch_execute core unbound
      ∙ (fetch_execute-execute_decoded (enter core) core.state.cia _ _ fetched
            (decode-encode op d a b record_bit hd ha hb) (is_unsupported-meaning op)
          ∙ execute_decoded-integer_case (enter core) _ core.state.cia (effect op)
              (integer_case-meaning op))
