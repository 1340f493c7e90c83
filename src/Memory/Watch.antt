-- ===== src/Memory/Watch.antt =====
-- The write watchpoint (src/cpu/espresso/guest_memory.hpp).
use affogato.Base.{
  ℕ, zero, suc, ◌+◌, Bool, ◌||◌, List, [], ◌∷◌, ◌++◌, none, some, Access, Result, ok, ◌>>=◌, ◌>>◌,
  invalid_argument, throw_if, u32, ltb, leb, ◌==◌, if◌then◌else◌, length, drop,
}
use affogato.Memory.State.{GuestMemory, WriteWatchEvent, write_watch_event_capacity}
use affogato.Memory.Access.{validate_access}
use affogato.Memory.Read.{shift_in, read8}

unfoldable pub set_write_watchpoint : GuestMemory → ℕ → ℕ → Result GuestMemory
set_write_watchpoint m address width = do
  throw_if (width == 0 || ltb 8 width) invalid_argument
  validate_access m address width Access.read
  ok (record m { write_watchpoint = some (address, width); write_watch_events = [] })

-- The pointer is set, or it is null.
unfoldable pub set_write_watch_gpr_source : GuestMemory → Bool → GuestMemory
set_write_watch_gpr_source m is_set = record m { write_watch_gpr_source = is_set }

unfoldable pub has_write_watchpoint : GuestMemory → Bool
has_write_watchpoint m = elim m.write_watchpoint [ none ↦ Bool.false | some w ↦ Bool.true ]

unfoldable pub set_current_guest_cia : GuestMemory → ℕ → GuestMemory
set_current_guest_cia m cia = record m { current_guest_cia = cia }

-- The loop that reads the watched value, `left` bytes from the byte `byte` on.
unfoldable pub watched_value : GuestMemory → ℕ → ℕ → ℕ → ℕ → Result ℕ
watched_value m address byte zero value = ok value
watched_value m address byte (suc left) value = do
  b ← read8 m (u32 (address + byte))
  watched_value m address (byte + 1) left (shift_in 64 value b)

-- The oldest event goes when the list is full.
unfoldable pub push_event : List WriteWatchEvent → WriteWatchEvent → List WriteWatchEvent
push_event events event =
    (if length events == write_watch_event_capacity then drop 1 events else events) ++ event ∷ []

-- The event that a write leaves.
unfoldable pub watch_event : GuestMemory → ℕ → ℕ → ℕ → ℕ → ℕ → WriteWatchEvent
watch_event m address width watched_address watched_width value = record {
  writer_cia = m.current_guest_cia;
  access_address = address;
  access_width = width;
  watched_address = watched_address;
  watched_width = watched_width;
  watched_value = value;
  has_gpr_snapshot = m.write_watch_gpr_source;
}

unfoldable pub record_watched : GuestMemory → ℕ → ℕ → ℕ → ℕ → Result GuestMemory
record_watched m address width watched_address watched_width =
    if leb (watched_address + watched_width) address || leb (address + width) watched_address
    then ok m
    else do
      value ← watched_value m watched_address 0 watched_width 0
      let event = watch_event m address width watched_address watched_width value
      ok (record m { write_watch_events = push_event m.write_watch_events event })

unfoldable pub record_write_watch_event : GuestMemory → ℕ → ℕ → Result GuestMemory
record_write_watch_event m address width = elim m.write_watchpoint [
  | none ↦ ok m
  | some (watched_address, watched_width) ↦
      record_watched m address width watched_address watched_width
]
