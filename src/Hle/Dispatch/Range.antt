-- ===== src/Hle/Dispatch/Range.antt =====
-- Which addresses `dispatch` of hle_dispatcher.cpp takes, and what a name that was bound is
-- dispatched to.
use affogato.Base.{some, refl, ◌∙◌, ℕ, ◌≡◌, false, none, Result, ok, arith, Option-cases, inl, inr}
use affogato.Core.{EspressoCore}
use affogato.Hle.State.{
  ImportName, name_eq_iff, BoundImport, HleDispatcher, find_name, find_address,
}
use affogato.Hle.Register.{is_import_address}
use affogato.Hle.Bind.{bind_new, bind_import}
use affogato.Hle.Bind.Laws.{HasTrampolines, emplace_bound-next, find_address-lt}
use affogato.Hle.Dispatch.{
  not_hle, executed, count_call, is_traced, call_handler, dispatch, dispatch_bound,
}

-- What a new binding leaves in the dispatcher.
record Bound (d : HleDispatcher) (name : ImportName) (d' : HleDispatcher) (address : ℕ)
    : Type 0 where
  found :
      find_address address d'.bound_imports
      ≡ some (record { name = name; handler = find_name name d.functions })
  recorded : find_name name d'.addresses ≡ some address
  same_tracing : d'.recent_call_trace_enabled ≡ d.recent_call_trace_enabled

bind_new-Bound :
    (d : HleDispatcher) (name : ImportName)
    → HasTrampolines d
    → Bound d name (bind_new d name) d.next_import_address
unfolding bind_new find_address find_name
bind_new-Bound d name h =
    let made =
      emplace_bound-next d (record { name = name; handler = find_name name d.functions }) h in
    record {
      found = rw made (ground arith);
      recorded = ground (arith, name_eq_iff name name);
      same_tracing = refl;
    }

bind_import-new :
    (d d' : HleDispatcher) (name : ImportName) (address : ℕ)
    → find_name name d.addresses ≡ none
    → bind_import d name ≡ ok (d', address)
    → (bind_new d name ≡ d') × (d.next_import_address ≡ address)
unfolding bind_import
bind_import-new d d' name address fresh bound = (ground arith, ground arith)

module _ (run_handler : ℕ → EspressoCore → Result EspressoCore) where
  -- In a core whose dispatcher has well-formed trampolines, `dispatch` at an address outside the
  -- import range changes nothing and answers that it is no HLE call, whatever the handlers do.
  pub dispatch-outside :
      (core : EspressoCore) (address : ℕ)
      → HasTrampolines core.hle
      → is_import_address core.hle address ≡ false
      → dispatch run_handler core address ≡ ok (core, not_hle)
  unfolding dispatch is_import_address
  dispatch-outside core address h outside =
      elim (Option-cases (find_address address core.hle.bound_imports)) [
        | inl missing ↦ ground arith
        | inr (binding, found) ↦
            let range =
              find_address-lt core.hle.import_range_begin core.hle.next_import_address
                core.hle.bound_imports address binding h.stacked found in
            absurd (ground (arith, h.room))
      ]

  dispatch-found :
      (core : EspressoCore) (address : ℕ) (binding : BoundImport)
      → find_address address core.hle.bound_imports ≡ some binding
      → dispatch run_handler core address ≡ dispatch_bound run_handler core address binding
  unfolding dispatch
  dispatch-found core address binding found = rw (dispatch, found) refl

  -- The call of a handler that is not traced and does not switch threads.
  dispatch_bound-executed :
      (core after : EspressoCore) (address id : ℕ) (name : ImportName)
      → core.hle.recent_call_trace_enabled ≡ false
      → run_handler id (record core { hle = count_call core.hle name }) ≡ ok after
      → after.current_thread_address ≡ core.current_thread_address
      → dispatch_bound run_handler core address (record { name = name; handler = some id })
        ≡ ok (
          record after {
            state = record (after.state) { cia = core.state.lr };
            hle = record (after.hle) { last_unimplemented_call = "" };
          },
          executed,
        )
  unfolding dispatch_bound call_handler is_traced
  dispatch_bound-executed core after address id name untraced ran same = ground arith

  -- In a core whose dispatcher has well-formed trampolines and does not trace calls, let a name
  -- without an address and with a registered handler be bound by a successful `bind_import`. Then
  -- its address is recorded, and `dispatch` there counts a call of the name and runs that handler;
  -- if the handler returns and does not switch threads, the call is executed, the next instruction
  -- is the one that the link register held before the call, and no call is noted as unimplemented.
  pub dispatch-bind_import :
      (core after : EspressoCore) (name : ImportName) (d' : HleDispatcher) (address id : ℕ)
      → HasTrampolines core.hle
      → core.hle.recent_call_trace_enabled ≡ false
      → find_name name core.hle.addresses ≡ none
      → find_name name core.hle.functions ≡ some id
      → bind_import core.hle name ≡ ok (d', address)
      → run_handler id (record core { hle = count_call d' name }) ≡ ok after
      → after.current_thread_address ≡ core.current_thread_address
      → (find_name name d'.addresses ≡ some address)
        × (dispatch run_handler (record core { hle = d' }) address
            ≡ ok (
              record after {
                state = record (after.state) { cia = core.state.lr };
                hle = record (after.hle) { last_unimplemented_call = "" };
              },
              executed,
            ))
  dispatch-bind_import core after name d' address id h untraced fresh registered bound ran same =
      let (same_dispatcher, there) = bind_import-new core.hle d' name address fresh bound in
      let b : Bound core.hle name d' address =
        rw (← same_dispatcher, ← there) (bind_new-Bound core.hle name h) in
      let found = rw registered at b.found in
      (
        b.recorded,
        dispatch-found (record core { hle = d' }) address _ found
            ∙ dispatch_bound-executed (record core { hle = d' }) after address id name
                (b.same_tracing ∙ untraced) ran same,
      )
