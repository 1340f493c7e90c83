-- ===== src/Memory/Bytes/Commit.antt =====
-- What guest_memory.hpp does after a store, the generations and the watchpoint, succeeds and changes
-- no byte and no mapping.
use affogato.Base.{
  ℕ, zero, suc, ◌+◌, ◌*◌, ◌/◌, ◌^◌, ◌≤◌, ◌≡◌, refl, ap, ◌∙◌, inl, inr, List, Option, none, some,
  Result, ok, arith, Bool-cases, u32, leb, ◌||◌,
}
use affogato.Memory.State.{GuestMemory, WriteWatchEvent, guest_page_size}
use affogato.Memory.Map.{resolve_alias}
use affogato.Memory.Storage.{load}
use affogato.Memory.Generations.{
  mark_page_written, mark_pages, mark_pages_written, bump_write_generation,
}
use affogato.Memory.Read.{shift_in, read8}
use affogato.Memory.Watch.{
  push_event, watch_event, watched_value, record_watched, record_write_watch_event,
}
use affogato.Memory.Write.{commit8, commit}
use affogato.Memory.Layout.{layout, locate, IsLaidOut}
use affogato.Memory.Layout.Valid.{RangeIsMapped}
use affogato.Memory.Bytes.{IsWellFormed, WatchFits, read8-peek}

-- The memory holds the same bytes under the same addresses, and is watched as before.
pub record SameContents (m m' : GuestMemory) : Type 0 where
  pub same_bytes : m'.bytes ≡ m.bytes
  pub same_regions : m'.mapped_regions ≡ m.mapped_regions
  pub same_aliases : m'.aliases ≡ m.aliases
  pub same_watch : m'.write_watchpoint ≡ m.write_watchpoint

SameContents-trans : {m n o : GuestMemory} → SameContents m n → SameContents n o → SameContents m o
SameContents-trans a b = record {
  same_bytes = b.same_bytes ∙ a.same_bytes;
  same_regions = b.same_regions ∙ a.same_regions;
  same_aliases = b.same_aliases ∙ a.same_aliases;
  same_watch = b.same_watch ∙ a.same_watch;
}

pub layout-SameContents : {m m' : GuestMemory} → SameContents m m' → layout m' ≡ layout m
unfolding layout
layout-SameContents s = rw (s.same_bytes, s.same_regions, s.same_aliases)

mark_page_written-SameContents :
    (m : GuestMemory) (page : ℕ) → SameContents m (mark_page_written m page)
unfolding mark_page_written
mark_page_written-SameContents m page = ground arith

mark_pages-SameContents :
    (m : GuestMemory) (page count : ℕ) → SameContents m (mark_pages m page count)
unfolding mark_pages
mark_pages-SameContents m page zero = record {
  same_bytes = refl;
  same_regions = refl;
  same_aliases = refl;
  same_watch = refl;
}
mark_pages-SameContents m page (suc count) =
    let marked =
      mark_page_written m
        (resolve_alias m.aliases (u32 (page * guest_page_size)) / guest_page_size) in
    SameContents-trans (mark_page_written-SameContents m _)
      (mark_pages-SameContents marked (page + 1) count)

watched_value-ok :
    (m : GuestMemory) (address byte left value : ℕ)
    → IsLaidOut (layout m)
    → address + (byte + left) ≤ 2 ^ 32
    → RangeIsMapped (layout m) address (byte + left)
    → (v : ℕ) × (watched_value m address byte left value ≡ ok v)
unfolding watched_value
watched_value-ok m address byte zero value w fits h = (value, refl)
watched_value-ok m address byte (suc left) value w fits h =
    let (span, found) = h byte (omega arith) in
    let there : locate (layout m) (u32 (address + byte)) ≡ some span =
      ap (locate (layout m)) (omega arith) ∙ found in
    let got : read8 m (u32 (address + byte)) ≡ ok (load m span 0) =
      rw (read8-peek m w (u32 (address + byte)) (omega arith), there) in
    rw got (
      watched_value-ok m address (byte + 1) left (shift_in 64 value (load m span 0)) w (omega arith)
        (λ i lt. h i (omega arith)))

-- The event, if there is one, is recorded.
abbrev pub Records : GuestMemory → Result GuestMemory → Type 0
Records m r = (events : List WriteWatchEvent) × (r ≡ ok (record m { write_watch_events = events }))

record_watched-ok :
    (m : GuestMemory) (address width watched_address watched_width : ℕ)
    → IsLaidOut (layout m)
    → WatchFits (layout m) (some (watched_address, watched_width))
    → Records m (record_watched m address width watched_address watched_width)
unfolding record_watched
record_watched-ok m address width watched_address watched_width w fits =
    elim (Bool-cases
      (leb (watched_address + watched_width) address || leb (address + width) watched_address)) [
        | inl outside ↦ (m.write_watch_events, rw outside refl)
        | inr touched ↦
            let (v, e) =
              watched_value-ok m watched_address 0 watched_width 0 w (omega (arith, fits.0))
                (λ i lt. fits.1 i (omega arith)) in
            (
              push_event m.write_watch_events
                  (watch_event m address width watched_address watched_width v),
              rw (touched, e) refl,
            )
      ]

record_write_watch_event-ok :
    (m : GuestMemory) (address width : ℕ) (watch : Option (ℕ × ℕ))
    → m.write_watchpoint ≡ watch
    → IsLaidOut (layout m)
    → WatchFits (layout m) watch
    → Records m (record_write_watch_event m address width)
unfolding record_write_watch_event
record_write_watch_event-ok m address width none e w fits = (m.write_watch_events, ground arith)
record_write_watch_event-ok m address width (some (a, n)) e w fits =
    let (events, done) = record_watched-ok m address width a n w fits in
    (events, ground (arith, done))

-- The code after a store returns, and keeps the contents.
abbrev pub Keeps : GuestMemory → Result GuestMemory → Type 0
Keeps m r = (m' : GuestMemory) × (r ≡ ok m') × SameContents m m'

recorded :
    (m marked : GuestMemory) (address width : ℕ)
    → IsWellFormed m
    → SameContents m marked
    → Keeps m (record_write_watch_event marked address width)
recorded m marked address width w s =
    let (events, done) =
      record_write_watch_event-ok marked address width m.write_watchpoint s.same_watch
        (rw (layout-SameContents s) w.laid_out) (rw (layout-SameContents s) w.watch_fits) in
    (
      record marked { write_watch_events = events },
      done,
      record {
        same_bytes = s.same_bytes;
        same_regions = s.same_regions;
        same_aliases = s.same_aliases;
        same_watch = s.same_watch;
      },
    )

bump-SameContents : (m : GuestMemory) → SameContents m (bump_write_generation m)
unfolding bump_write_generation
bump-SameContents m = record {
  same_bytes = refl;
  same_regions = refl;
  same_aliases = refl;
  same_watch = refl;
}

pub commit8-Keeps : (m : GuestMemory) (address : ℕ) → IsWellFormed m → Keeps m (commit8 m address)
unfolding commit8
commit8-Keeps m address w =
    recorded m (mark_page_written (bump_write_generation m) (address / guest_page_size)) address 1 w
      (SameContents-trans (bump-SameContents m) (mark_page_written-SameContents _ _))

pub commit-Keeps :
    (m : GuestMemory) (address width : ℕ) → IsWellFormed m → Keeps m (commit m address width)
unfolding commit mark_pages_written
commit-Keeps m address width w =
    recorded m (mark_pages_written (bump_write_generation m) address width) address width w
      (SameContents-trans (bump-SameContents m) (mark_pages-SameContents _ _ _))

-- After a byte is stored, its page is marked and nothing else changes but the events.
pub commit8-Records :
    (m : GuestMemory) (address : ℕ)
    → IsWellFormed m
    → Records
        (mark_page_written (bump_write_generation m) (address / guest_page_size))
        (commit8 m address)
unfolding commit8
commit8-Records m address w =
    let marked = mark_page_written (bump_write_generation m) (address / guest_page_size) in
    let s : SameContents m marked =
      SameContents-trans (bump-SameContents m) (mark_page_written-SameContents _ _) in
    record_write_watch_event-ok marked address 1 m.write_watchpoint s.same_watch
      (rw (layout-SameContents s) w.laid_out) (rw (layout-SameContents s) w.watch_fits)
