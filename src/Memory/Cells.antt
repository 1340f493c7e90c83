-- ===== src/Memory/Cells.antt =====
-- The backing store of guest_memory.hpp as cells: what a store changes, and that spans stay inside
-- their vectors.
use affogato.Base.{
  ℕ, zero, suc, ◌+◌, ◌<◌, ◌≡◌, refl, ap, ◌∙◌, inl, inr, Bool, false, ◌&&◌, List, [], ◌∷◌, some,
  arith, ◌==◌, if◌then◌else◌, length, get_or-set_self, get_or-set_ne, Bool-cases, Option-cases, ltb,
}
use affogato.Memory.State.{GuestMemory, MappedRegion, AliasRegion}
use affogato.Memory.Storage.{
  Backing, flat, mapped, Span, alias_span, region_byte, set_region_byte, load_cell, store_cell,
}
use affogato.Memory.Layout.{in_extent, extents, layout, extent_span, locate}

-- The two places are one byte of the host's memory.
abbrev pub same_cell : Backing → ℕ → Backing → ℕ → Bool
same_cell flat i flat j = i == j
same_cell flat i (mapped l) j = false
same_cell (mapped k) i flat j = false
same_cell (mapped k) i (mapped l) j = k == l && i == j

abbrev pub RegionHolds : List MappedRegion → ℕ → ℕ → Type 0
RegionHolds [] index i = ⊥
RegionHolds (r ∷ rest) zero i = i < length r.bytes
RegionHolds (r ∷ rest) (suc index) i = RegionHolds rest index i

-- The place lies inside its vector.
abbrev pub Holds : GuestMemory → Backing → ℕ → Type 0
Holds m flat i = i < length m.bytes
Holds m (mapped index) i = RegionHolds m.mapped_regions index i

region_byte-set_region_byte :
    (regions : List MappedRegion) (k i l j v : ℕ)
    → RegionHolds regions k i
    → region_byte (set_region_byte regions k i v) l j
      ≡ (if k == l && i == j then v else region_byte regions l j)
unfolding region_byte set_region_byte
region_byte-set_region_byte [] k i l j v h = absurd h
region_byte-set_region_byte (r ∷ rest) zero i zero j v h =
    ground (arith, get_or-set_self r.bytes i v 0, get_or-set_ne r.bytes i j v 0)
region_byte-set_region_byte (r ∷ rest) zero i (suc l) j v h = ground arith
region_byte-set_region_byte (r ∷ rest) (suc k) i zero j v h = ground arith
region_byte-set_region_byte (r ∷ rest) (suc k) i (suc l) j v h =
    ground (arith, region_byte-set_region_byte rest k i l j v h)

-- A store changes its own cell alone.
pub load_cell-store_cell :
    (m : GuestMemory) (b : Backing) (i : ℕ) (c : Backing) (j v : ℕ)
    → Holds m b i
    → load_cell (store_cell m b i v) c j ≡ (if same_cell b i c j then v else load_cell m c j)
unfolding load_cell store_cell
load_cell-store_cell m flat i flat j v h =
    ground (arith, get_or-set_self m.bytes i v 0, get_or-set_ne m.bytes i j v 0)
load_cell-store_cell m flat i (mapped l) j v h = refl
load_cell-store_cell m (mapped k) i flat j v h = refl
load_cell-store_cell m (mapped k) i (mapped l) j v h =
    region_byte-set_region_byte m.mapped_regions k i l j v h

alias_span-holds :
    (n : ℕ) (aliases : List AliasRegion) (address i : ℕ) (span : Span)
    → alias_span n aliases address ≡ some span
    → i < span.size
    → (span.backing ≡ flat) × (span.start + i < n)
unfolding alias_span
alias_span-holds n [] address i span e lt = absurd (cc)
alias_span-holds n (a ∷ rest) address i span e lt =
    ground (arith, alias_span-holds n rest address i span)

extent_span-holds :
    (k : ℕ) (regions : List MappedRegion) (address i : ℕ) (span : Span)
    → extent_span k (extents regions) address ≡ some span
    → i < span.size
    → (j : ℕ) × (span.backing ≡ mapped (k + j)) × RegionHolds regions j (span.start + i)
unfolding extent_span extents
extent_span-holds k [] address i span e lt = absurd (cc)
extent_span-holds k (r ∷ rest) address i span e lt =
    elim (Bool-cases (in_extent (record { address = r.address; size = length r.bytes }) address)) [
      | inl here ↦ (0, ground arith, ground arith)
      | inr there ↦
          let (j, b, h) = extent_span-holds (suc k) rest address i span (ground arith) lt in
          (suc j, ground arith, h)
    ]

-- Every byte of the span of an address lies inside its vector.
pub locate-Holds :
    (m : GuestMemory) (address i : ℕ) (span : Span)
    → locate (layout m) address ≡ some span
    → i < span.size
    → Holds m span.backing (span.start + i)
unfolding locate layout
locate-Holds m address i span e lt =
    elim (Option-cases (alias_span (length m.bytes) m.aliases address)) [
      | inl missing ↦ elim (Bool-cases (ltb address (length m.bytes))) [
        | inl below ↦
            let b : span.backing ≡ flat = ground arith in
            let h : span.start + i < length m.bytes = ground arith in rw b h
        | inr above ↦
            let found : extent_span 0 (extents m.mapped_regions) address ≡ some span =
              ground arith in
            let (j, b, h) = extent_span-holds 0 m.mapped_regions address i span found lt in
            let b' : span.backing ≡ mapped j = b ∙ ap mapped (omega arith) in rw b' h
      ]
      | inr (s, found) ↦
          let (b, h) =
            alias_span-holds (length m.bytes) m.aliases address i span (ground arith) lt in
          rw b h
    ]
