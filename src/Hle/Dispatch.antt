-- ===== src/Hle/Dispatch.antt =====
-- `dispatch` and the call trace (src/cpu/espresso/hle_dispatcher.cpp). What the handlers do is a
-- parameter.
pub mod Range
use Prim.Native.String.{String}
use text.Mathlib.Text.{◌==◌ as str_eq}
use affogato.Base.{
  ℕ, zero, suc, ◌+◌, ◌-◌, ◌%◌, min, Bool, true, false, ◌&&◌, ◌||◌, List, [], ◌∷◌, none, some,
  Result, ok, ◌>>=◌, u64, ◌==◌, if◌then◌else◌, get_elem?, set, replicate,
}
use affogato.Cpu.State.{CpuState}
use affogato.Core.{EspressoCore}
use affogato.Hle.State.{
  ImportName, name_eq, BoundImport, CallTraceEntry, HleDispatcher, find_address, trace_capacity,
}
use affogato.Hle.Register.{full_name}

pub data HleDispatchResult : Type 0 where
  not_hle executed unimplemented : HleDispatchResult

-- `*trace = {}`.
abbrev pub blank_entry : CallTraceEntry
blank_entry = record {
  import_address = 0;
  return_address = 0;
  name = "";
  arguments = replicate 6 0;
  results = replicate 6 0;
  implemented = false;
  completed = false;
}

-- The six registers from r3 on.
unfoldable pub six_registers : CpuState → List ℕ
six_registers state =
    state.gpr 3 ∷ state.gpr 4 ∷ state.gpr 5 ∷ state.gpr 6 ∷ state.gpr 7 ∷ state.gpr 8 ∷ []

unfoldable pub has_handler : BoundImport → Bool
has_handler binding = elim binding.handler [ none ↦ false | some id ↦ true ]

-- Whether this call is traced.
unfoldable pub is_traced : HleDispatcher → BoundImport → Bool
is_traced d binding =
    d.recent_call_trace_enabled
    && (str_eq d.recent_call_trace_filter ""
        || str_eq (full_name binding.name) d.recent_call_trace_filter)

-- `++call_counts_[name]`.
unfoldable pub count_call : HleDispatcher → ImportName → HleDispatcher
count_call d name = record d {
  call_counts =
      λ other. if name_eq name other then u64 (d.call_counts name + 1) else d.call_counts other;
}

-- The entry at the start of a traced call, written into its slot.
unfoldable pub begin_trace : HleDispatcher → CpuState → ℕ → BoundImport → HleDispatcher
begin_trace d state address binding = record d {
  recent_calls = set d.recent_calls d.next_recent_call (record {
    import_address = address;
    return_address = state.lr;
    name = full_name binding.name;
    arguments = six_registers state;
    results = replicate 6 0;
    implemented = has_handler binding;
    completed = false;
  });
}

-- The slot is filled, and the ring moves on. The slot is the one chosen when the call began.
unfoldable pub end_trace : HleDispatcher → ℕ → (CallTraceEntry → CallTraceEntry) → HleDispatcher
end_trace d slot finish = record d {
  recent_calls = elim (get_elem? d.recent_calls slot) [
    | none ↦ d.recent_calls
    | some entry ↦ set d.recent_calls slot (finish entry)
  ];
  next_recent_call = (d.next_recent_call + 1) % trace_capacity;
  recent_call_count = min (d.recent_call_count + 1) trace_capacity;
}

unfoldable pub finish_unimplemented : CallTraceEntry → CallTraceEntry
finish_unimplemented entry = record entry { results = entry.arguments }

unfoldable pub finish_executed : CpuState → CallTraceEntry → CallTraceEntry
finish_executed state entry = record entry { results = six_registers state; completed = true }

-- A change of the dispatcher, made if the call is traced.
abbrev pub when_traced : Bool → HleDispatcher → HleDispatcher → HleDispatcher
when_traced traced changed d = if traced then changed else d

module _ (run_handler : ℕ → EspressoCore → Result EspressoCore) where
  -- The call of a handler and what follows it.
  unfoldable pub call_handler :
      EspressoCore → Bool → ℕ → ℕ → Result (EspressoCore × HleDispatchResult)
  call_handler core traced slot id = run_handler id core >>= λ after.
      let state =
        if after.current_thread_address == core.current_thread_address
        then record (after.state) { cia = core.state.lr }
        else after.state in
      let hle =
        when_traced traced (end_trace after.hle slot (finish_executed after.state)) after.hle in
      ok (
        record after { state = state; hle = record hle { last_unimplemented_call = "" } },
        executed,
      )

  -- A call that was found among the bound imports.
  unfoldable pub dispatch_bound :
      EspressoCore → ℕ → BoundImport → Result (EspressoCore × HleDispatchResult)
  dispatch_bound core address binding =
      let traced = is_traced core.hle binding in
      let counted = count_call core.hle binding.name in
      let slot = core.hle.next_recent_call in
      let begun = when_traced traced (begin_trace counted core.state address binding) counted in
      elim binding.handler [
        | none ↦
            let ended = when_traced traced (end_trace begun slot finish_unimplemented) begun in
            ok (
              record core {
                hle = record ended { last_unimplemented_call = full_name binding.name };
              },
              unimplemented,
            )
        | some id ↦ call_handler (record core { hle = begun }) traced slot id
      ]

  unfoldable pub dispatch : EspressoCore → ℕ → Result (EspressoCore × HleDispatchResult)
  dispatch core address = elim (find_address address core.hle.bound_imports) [
    | none ↦ ok (core, not_hle)
    | some binding ↦ dispatch_bound core address binding
  ]

-- The entries of the ring from a slot on.
unfoldable pub ring_entries : List CallTraceEntry → ℕ → ℕ → ℕ → List CallTraceEntry
ring_entries calls first index zero = []
ring_entries calls first index (suc left) =
    elim (get_elem? calls ((first + index) % trace_capacity)) [
      | none ↦ []
      | some entry ↦ entry ∷ ring_entries calls first (index + 1) left
    ]

unfoldable pub recent_call_trace_snapshot : HleDispatcher → List CallTraceEntry
recent_call_trace_snapshot d =
    let first = (d.next_recent_call + trace_capacity - d.recent_call_count) % trace_capacity in
    ring_entries d.recent_calls first 0 d.recent_call_count

unfoldable pub set_recent_call_trace_enabled : HleDispatcher → Bool → HleDispatcher
set_recent_call_trace_enabled d false = record d { recent_call_trace_enabled = false }
set_recent_call_trace_enabled d true = record d {
  recent_call_trace_enabled = true;
  recent_calls = replicate trace_capacity blank_entry;
  recent_call_count = 0;
  next_recent_call = 0;
}

unfoldable pub set_recent_call_trace_filter : HleDispatcher → String → HleDispatcher
set_recent_call_trace_filter d name = record d {
  recent_call_trace_filter = name;
  recent_call_count = 0;
  next_recent_call = 0;
}
