-- ===== src/Examples/HleRuns.antt =====
-- The theorems on hle_dispatcher.cpp at a dispatcher with the range of a title, and two names.
use affogato.Base.{
  some, [], ◌∷◌, false, Result, ℕ, ◌≡◌, ◌≢◌, refl, ◌⊎◌, true, none, ok, err, length_error, arith,
}
use affogato.Hle.State.{ImportName, name_eq, name_eq_iff, HleDispatcher, find_name}
use affogato.Hle.Register.{initial, configured, configure_guest_address_base, is_import_address}
use affogato.Hle.Bind.{bind_new, bind_import}
use affogato.Cpu.State.{zeroed}
use affogato.Memory.State.{new}
use affogato.Core.{EspressoCore}
use affogato.Hle.Dispatch.{executed, count_call, not_hle, dispatch}
use affogato.Hle.Dispatch.Range.{dispatch-outside, dispatch-bind_import}
use affogato.Hle.Bind.Laws.{
  HasTrampolines, IsBound, configure-HasTrampolines, configure_top_no_imports, bind_import-Binds,
  bind_import-injective,
}

abbrev report : ImportName
report = record { library = "coreinit"; symbol = "OSReport" }

abbrev lock : ImportName
lock = record { library = "coreinit"; symbol = "OSLockMutex" }

-- The handler 7 is registered for the first.
abbrev registered : HleDispatcher
registered = record initial { functions = (report, 7) ∷ [] }

abbrev title : HleDispatcher
title = configured registered 0x03E00000

configured_title : configure_guest_address_base registered 0x03E00000 ≡ ok title
unfolding configure_guest_address_base
configured_title = refl

title-HasTrampolines : HasTrampolines title
title-HasTrampolines =
    configure-HasTrampolines registered 0x03E00000 title configured_title (omega arith) refl

configured_top :
    configure_guest_address_base initial 0xFFE00000 ≡ ok (configured initial 0xFFE00000)
unfolding configure_guest_address_base
configured_top = refl

configure_top_no_imports_example :
    is_import_address (configured initial 0xFFE00000) 0xFFF00000 ≡ false
configure_top_no_imports_example =
    configure_top_no_imports initial 0xFFE00000 (configured initial 0xFFE00000) configured_top
      (omega arith) 0xFFF00000

bind_import-Binds_example :
    ((bind_import title report ≡ err length_error)
      × (find_name report title.addresses ≡ none)
      × (title.next_import_address ≡ title.import_range_end))
    ⊎ IsBound title report
bind_import-Binds_example = bind_import-Binds title report title-HasTrampolines

abbrev report_address : ℕ
report_address = 0x03F00000

abbrev lock_address : ℕ
lock_address = 0x03F00004

names_apart : report ≢ lock
names_apart same =
    let e : name_eq report lock ≡ true = (name_eq_iff report lock).1 same in absurd (cc)

report_bound : bind_import title report ≡ ok (bind_new title report, report_address)
unfolding bind_import find_name configured
report_bound = refl

lock_bound :
    bind_import (bind_new title report) lock
    ≡ ok (bind_new (bind_new title report) lock, lock_address)
unfolding bind_import bind_new find_name configured
lock_bound = refl

bind_import-injective_example :
    (report_address ≢ lock_address)
    × (find_name report (bind_new (bind_new title report) lock).addresses ≡ some report_address)
bind_import-injective_example =
    bind_import-injective title (bind_new title report) (bind_new (bind_new title report) lock)
      report lock report_address lock_address title-HasTrampolines names_apart report_bound
      lock_bound

-- A core with these imports, whose handlers advance the guest heap.
abbrev title_core : EspressoCore
title_core = record {
  state = zeroed;
  memory = new 64;
  hle = title;
  current_thread_address = 5;
  guest_heap_cursor = 0;
  guest_heap_limit = 64;
}

abbrev advance : ℕ → EspressoCore → Result EspressoCore
advance id core = ok (record core { guest_heap_cursor = id })

dispatch-outside_example : dispatch advance title_core 0x02000000 ≡ ok (title_core, not_hle)
dispatch-outside_example =
    dispatch-outside advance title_core 0x02000000 title-HasTrampolines
      (unfold is_import_address configured in refl)

-- The core after the handler has run.
abbrev advanced : EspressoCore
advanced = record title_core {
  hle = count_call (bind_new title report) report;
  guest_heap_cursor = 7;
}

dispatch-bind_import_example :
    (find_name report (bind_new title report).addresses ≡ some report_address)
    × (dispatch advance (record title_core { hle = bind_new title report }) report_address
        ≡ ok (
          record advanced {
            state = record zeroed { cia = 0 };
            hle = record (advanced.hle) { last_unimplemented_call = "" };
          },
          executed,
        ))
dispatch-bind_import_example =
    dispatch-bind_import advance title_core advanced report (bind_new title report) report_address 7
      title-HasTrampolines (unfold configured in refl) (unfold find_name configured in refl)
      (unfold find_name configured in refl) report_bound refl refl
