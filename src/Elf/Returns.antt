-- ===== src/Elf/Returns.antt =====
-- `zero_fill` and `write_bytes` of guest_memory.hpp on flat memory, as the loader
-- (src/cpu/espresso/elf_loader.cpp) calls them.
use affogato.Base.{
  ℕ, zero, suc, ◌+◌, ◌-◌, ◌^◌, ◌≤◌, ◌<◌, min, ◌≡◌, refl, ap, ◌∙◌, arith, List, [], ◌∷◌, Access,
  Result, ok, length, take, drop, u32, false, ◌==◌,
}
use affogato.Memory.State.{GuestMemory}
use affogato.Memory.Storage.{Span, flat, storage_from, store_cell}
use affogato.Memory.Access.{validate_access}
use affogato.Memory.Layout.{layout}
use affogato.Memory.Layout.Locate.{alias_span-none_below}
use affogato.Memory.Layout.Kept.{layout-store_cell}
use affogato.Memory.Layout.Valid.{validate_access-iff-mapped}
use affogato.Memory.Write.{
  copy_span, copy_in, write_bytes, fill_span, fill_loop, fill_bytes, zero_fill, commit,
}
use affogato.Memory.Bytes.{IsWellFormed, locate-flat}
use affogato.Memory.Bytes.Commit.{commit-Keeps, layout-SameContents}
use affogato.Memory.Bytes.Coherence.{store_cell-IsWellFormed, SameContents-IsWellFormed}

-- The memory is well formed afterwards, over the same address map.
pub record Kept (m m' : GuestMemory) : Type 0 where
  pub well_formed : IsWellFormed m'
  pub same_layout : layout m' ≡ layout m

abbrev pub Returns : GuestMemory → Result GuestMemory → Type 0
Returns m r = (m' : GuestMemory) × (r ≡ ok m') × Kept m m'

pub Kept-trans : {a b c : GuestMemory} → Kept a b → Kept b c → Kept a c
Kept-trans h k = record { well_formed = k.well_formed; same_layout = k.same_layout ∙ h.same_layout }

pub length-Kept : {m m' : GuestMemory} → Kept m m' → length m'.bytes ≡ length m.bytes
unfolding layout
length-Kept h = ap (λ l. l.flat_size) h.same_layout

store_cell-Kept : (m : GuestMemory) (i v : ℕ) → IsWellFormed m → Kept m (store_cell m flat i v)
store_cell-Kept m i v w = record {
  well_formed = store_cell-IsWellFormed m flat i v w;
  same_layout = layout-store_cell m flat i v;
}

abbrev flat_span : ℕ → ℕ → Span
flat_span start size = record { backing = flat; start = start; size = size }

fill_span-Kept :
    (m : GuestMemory) (start size i left v : ℕ)
    → IsWellFormed m
    → Kept m (fill_span m (flat_span start size) i left v)
unfolding fill_span
fill_span-Kept m start size i zero v w = record { well_formed = w; same_layout = refl }
fill_span-Kept m start size i (suc left) v w =
    let first = store_cell-Kept m (start + i) v w in
    Kept-trans first
      (fill_span-Kept (store_cell m flat (start + i) v) start size (i + 1) left v first.well_formed)

copy_span-Kept :
    (m : GuestMemory) (start size i : ℕ) (values : List ℕ)
    → IsWellFormed m
    → Kept m (copy_span m (flat_span start size) i values)
unfolding copy_span
copy_span-Kept m start size i [] w = record { well_formed = w; same_layout = refl }
copy_span-Kept m start size i (v ∷ values) w =
    let first = store_cell-Kept m (start + i) v w in
    Kept-trans first
      (copy_span-Kept (store_cell m flat (start + i) v) start size (i + 1) values first.well_formed)

commit-Returns :
    (m : GuestMemory) (address width : ℕ) → IsWellFormed m → Returns m (commit m address width)
commit-Returns m address width w =
    let (m', done, same) = commit-Keeps m address width w in
    (
      m',
      done,
      record {
        well_formed = SameContents-IsWellFormed same w;
        same_layout = layout-SameContents same;
      },
    )

take-length : (xs : List ℕ) → take (length xs) xs ≡ xs
take-length [] = refl
take-length (x ∷ xs) = ap (λ ys. x ∷ ys) (take-length xs)

drop-length : (xs : List ℕ) → drop (length xs) xs ≡ []
drop-length [] = refl
drop-length (x ∷ xs) = drop-length xs

module _ (m : GuestMemory) (w : IsWellFormed m) (address : ℕ) where
  storage_from-flat :
      address < length m.bytes
      → storage_from m address ≡ ok (flat_span address (length m.bytes - address))
  unfolding storage_from layout
  storage_from-flat h = ground (arith, alias_span-none_below w.laid_out address)

  storage_from-wrapped :
      address < length m.bytes
      → address < 2 ^ 32
      → storage_from m (u32 address) ≡ ok (flat_span address (length m.bytes - address))
  storage_from-wrapped h k =
      let wraps : u32 address ≡ address = omega arith in rw wraps (storage_from-flat h)

  validate_access-flat :
      (width : ℕ) (access : Access)
      → 0 < width
      → address + width ≤ length m.bytes
      → address + width ≤ 2 ^ 32
      → validate_access m address width access ≡ ok tt
  validate_access-flat width access pos inside below =
      (validate_access-iff-mapped m w.laid_out address width access (omega arith) pos).1
        (below, λ i lt. (_, locate-flat m w.laid_out (address + i) (omega arith)))

  fill_loop-flat :
      (fuel left v : ℕ)
      → address + suc left ≤ length m.bytes
      → address + suc left ≤ 2 ^ 32
      → fill_loop m (suc fuel) address (suc left) v
        ≡ ok (fill_span m (flat_span address (length m.bytes - address)) 0 (suc left) v)
  unfolding fill_loop
  fill_loop-flat fuel left v inside below =
      let whole : min (length m.bytes - address) (suc left) ≡ suc left = omega arith in
      let rest : suc left - suc left ≡ 0 = omega arith in
      let found = storage_from-wrapped (omega arith) (omega arith) in
      rw (fill_loop, found, whole, rest) refl

  copy_in-flat :
      (fuel v : ℕ) (values : List ℕ)
      → address + suc (length values) ≤ length m.bytes
      → address + suc (length values) ≤ 2 ^ 32
      → copy_in m (suc fuel) address (v ∷ values)
        ≡ ok (copy_span m (flat_span address (length m.bytes - address)) 0 (v ∷ values))
  unfolding copy_in
  copy_in-flat fuel v values inside below =
      let whole : min (length m.bytes - address) (suc (length values)) ≡ suc (length values) =
        omega arith in
      let found = storage_from-wrapped (omega arith) (omega arith) in
      rw (copy_in, found, whole, take-length values, drop-length values) refl

-- `zero_fill` of a range of flat memory returns.
pub zero_fill-Returns :
    (m : GuestMemory) (address size : ℕ)
    → IsWellFormed m
    → address + size ≤ length m.bytes
    → address + size ≤ 2 ^ 32
    → Returns m (zero_fill m address size)
unfolding zero_fill fill_bytes
zero_fill-Returns m address zero w inside below =
    (m, refl, record { well_formed = w; same_layout = refl })
zero_fill-Returns m address (suc left) w inside below =
    let filled = fill_span m (flat_span address (length m.bytes - address)) 0 (suc left) 0 in
    let kept : Kept m filled = fill_span-Kept m _ _ 0 (suc left) 0 w in
    let (m', done, after) = commit-Returns filled address (suc left) kept.well_formed in
    let valid =
      validate_access-flat m w address (suc left) Access.write (omega arith) inside below in
    let nonzero : (suc left == 0) ≡ false = ground arith in
    let stored = fill_loop-flat m w address left left 0 inside below in
    (m', rw (valid, stored, nonzero) done, Kept-trans kept after)

write_nothing :
    (m : GuestMemory) (address : ℕ)
    → address < length m.bytes
    → address ≤ 2 ^ 32
    → write_bytes m address [] ≡ ok m
unfolding write_bytes validate_access copy_in
write_nothing m address start below = ground arith

-- `write_bytes` of values that fit flat memory returns, at an address in flat memory.
pub write_bytes-Returns :
    (m : GuestMemory) (address : ℕ) (values : List ℕ)
    → IsWellFormed m
    → address < length m.bytes
    → address + length values ≤ length m.bytes
    → address + length values ≤ 2 ^ 32
    → Returns m (write_bytes m address values)
unfolding write_bytes
write_bytes-Returns m address [] w start inside below =
    (m, write_nothing m address start (omega arith), record { well_formed = w; same_layout = refl })
write_bytes-Returns m address (v ∷ values) w start inside below =
    let copied = copy_span m (flat_span address (length m.bytes - address)) 0 (v ∷ values) in
    let kept : Kept m copied = copy_span-Kept m _ _ 0 (v ∷ values) w in
    let (m', done, after) = commit-Returns copied address (suc (length values)) kept.well_formed in
    let valid =
      validate_access-flat m w address (suc (length values)) Access.write (omega arith) inside
        below in
    let nonzero : (suc (length values) == 0) ≡ false = ground arith in
    let stored = copy_in-flat m w address (length values) v values inside below in
    (m', rw (valid, stored, nonzero) done, Kept-trans kept after)
