-- ===== src/Memory/Bytes/Coherence.antt =====
-- What a byte written by `write8` of guest_memory.hpp shows at every address, aliases included.
use affogato.Base.{
  ℕ, ◌+◌, ◌^◌, ◌<◌, ◌≡◌, refl, ap, ◌∙◌, none, some, Access, ok, err, memory_fault, arith,
  if◌then◌else◌,
}
use affogato.Memory.State.{GuestMemory}
use affogato.Memory.Storage.{Backing, flat, mapped, Span, load, store, store_cell, load_cell}
use affogato.Memory.Access.{is_flat_range}
use affogato.Memory.Read.{read8}
use affogato.Memory.Write.{write8, commit8}
use affogato.Memory.Layout.{Layout, layout, locate}
use affogato.Memory.Layout.Locate.{storage_from-locate, locate-pos}
use affogato.Memory.Layout.Kept.{layout-store_cell}
use affogato.Memory.Cells.{same_cell, load_cell-store_cell, locate-Holds}
use affogato.Memory.Bytes.{
  IsWellFormed, locate-flat, validate_one, validate_one-unmapped, read8-peek,
}
use affogato.Memory.Bytes.Commit.{SameContents, layout-SameContents, commit8-Keeps}

module _ (m : GuestMemory) (w : IsWellFormed m) (address v : ℕ) (bound : address < 2 ^ 32) where
  pub write8-stores :
      (span : Span)
      → locate (layout m) address ≡ some span
      → write8 m address v ≡ commit8 (store m span 0 v) address
  unfolding write8 is_flat_range store_cell
  write8-stores span found = ground (
    arith,
    locate-flat m w.laid_out address,
    validate_one m w.laid_out address Access.write span bound found,
    storage_from-locate m address,
  )

pub IsWellFormed-transfer :
    {m m' : GuestMemory}
    → layout m' ≡ layout m
    → m'.write_watchpoint ≡ m.write_watchpoint
    → IsWellFormed m
    → IsWellFormed m'
IsWellFormed-transfer l e w = record {
  laid_out = rw l w.laid_out;
  watch_fits = rw (l, e) w.watch_fits;
}

pub watch-store_cell :
    (m : GuestMemory) (b : Backing) (i v : ℕ)
    → (store_cell m b i v).write_watchpoint ≡ m.write_watchpoint
unfolding store_cell
watch-store_cell m flat i v = refl
watch-store_cell m (mapped k) i v = refl

pub store_cell-IsWellFormed :
    (m : GuestMemory) (b : Backing) (i v : ℕ) → IsWellFormed m → IsWellFormed (store_cell m b i v)
store_cell-IsWellFormed m b i v w =
    IsWellFormed-transfer (layout-store_cell m b i v) (watch-store_cell m b i v) w

pub SameContents-IsWellFormed :
    {m m' : GuestMemory} → SameContents m m' → IsWellFormed m → IsWellFormed m'
SameContents-IsWellFormed s w = IsWellFormed-transfer (layout-SameContents s) s.same_watch w

pub load_cell-SameContents :
    {m m' : GuestMemory}
    → SameContents m m'
    → (b : Backing) (i : ℕ) → load_cell m' b i ≡ load_cell m b i
unfolding load_cell
load_cell-SameContents s flat i = rw s.same_bytes
load_cell-SameContents s (mapped k) i = rw s.same_regions

-- What a memory `m'` shows after `v` is stored in the cell of `span`.
abbrev pub Shows : GuestMemory → Span → ℕ → GuestMemory → Type 0
Shows m span v m' =
    (other : ℕ) (there : Span)
    → other < 2 ^ 32
    → locate (layout m) other ≡ some there
    → read8 m' other
      ≡ ok (
          if same_cell span.backing span.start there.backing there.start then v else load m there 0)

-- In a well-formed memory, writing a byte at an address below 2^32 that is mapped succeeds and
-- leaves a well-formed memory with the same address map, in which each mapped address shows the
-- byte written if it means the same cell, directly or through an alias, and its old byte
-- otherwise.
pub write8-Shows :
    (m : GuestMemory) (address v : ℕ) (span : Span)
    → IsWellFormed m
    → address < 2 ^ 32
    → locate (layout m) address ≡ some span
    → (m' : GuestMemory) × (write8 m address v ≡ ok m')
      × IsWellFormed m'
      × (layout m' ≡ layout m)
      × Shows m span v m'
write8-Shows m address v span w bound found =
    let stored = store m span 0 v in
    let stored_ok = store_cell-IsWellFormed m span.backing (span.start + 0) v w in
    let (m', done, same) = commit8-Keeps stored address stored_ok in
    let kept : layout m' ≡ layout m =
      layout-SameContents same ∙ layout-store_cell m span.backing (span.start + 0) v in
    let ends_ok = SameContents-IsWellFormed same stored_ok in
    (
      m',
      write8-stores m w address v bound span found ∙ done,
      ends_ok,
      kept,
      λ other there below mapped_there.
          let here : locate (layout m') other ≡ some there =
            ap (λ (l : Layout). locate l other) kept ∙ mapped_there in
          ground (
            arith,
            read8-peek m' ends_ok.laid_out other below,
            here,
            load_cell-SameContents same there.backing (there.start + 0),
            load_cell-store_cell m span.backing (span.start + 0) there.backing (there.start + 0) v
                (locate-Holds m address 0 span found (locate-pos address span w.laid_out found)),
          ),
    )

-- In a well-formed memory, writing a byte at an address below 2^32 that is not mapped gives a
-- memory fault that names the address and a write of one byte.
pub write8-faults :
    (m : GuestMemory) (address v : ℕ)
    → IsWellFormed m
    → address < 2 ^ 32
    → locate (layout m) address ≡ none
    → write8 m address v ≡ err (memory_fault address 1 Access.write)
unfolding write8 is_flat_range
write8-faults m address v w bound missing = ground (
  arith,
  locate-flat m w.laid_out address,
  validate_one-unmapped m w.laid_out address Access.write bound missing,
)
