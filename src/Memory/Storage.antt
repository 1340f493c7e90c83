-- ===== src/Memory/Storage.antt =====
-- `storage_from` and the spans that it returns (src/cpu/espresso/guest_memory.hpp).
use affogato.Base.{
  ℕ, zero, suc, ◌+◌, ◌-◌, min, Bool, ◌&&◌, List, [], ◌∷◌, Option, none, some, Result, ok, err,
  out_of_range, ltb, leb, if◌then◌else◌, length, get_or, set,
}
use affogato.Memory.State.{GuestMemory, MappedRegion, AliasRegion}

-- The vector that a span points into: the flat bytes, or those of the region at an index.
pub data Backing : Type 0 where
  flat : Backing
  mapped : ℕ → Backing

pub record Span : Type 0 where
  pub backing : Backing
  pub start : ℕ
  pub size : ℕ

abbrev pub in_alias : AliasRegion → ℕ → Bool
in_alias alias address = leb alias.address address && ltb (address - alias.address) alias.size

-- The loop over `aliases_`; the number is `bytes_.size()`.
unfoldable pub alias_span : ℕ → List AliasRegion → ℕ → Option Span
alias_span flat_size [] address = none
alias_span flat_size (alias ∷ rest) address =
    let offset = address - alias.address in
    let target = alias.target + offset in
    if in_alias alias address
    then some (record {
      backing = flat;
      start = target;
      size = min (alias.size - offset) (flat_size - target);
    })
    else alias_span flat_size rest address

abbrev pub in_region : MappedRegion → ℕ → Bool
in_region region address =
    leb region.address address && ltb (address - region.address) (length region.bytes)

-- The loop over `mapped_regions_`, from the region at an index on.
unfoldable pub region_span : ℕ → List MappedRegion → ℕ → Option Span
region_span index [] address = none
region_span index (region ∷ rest) address =
    let offset = address - region.address in
    if in_region region address
    then some
        (record { backing = mapped index; start = offset; size = length region.bytes - offset })
    else region_span (suc index) rest address

unfoldable pub storage_from : GuestMemory → ℕ → Result Span
storage_from m address = elim (alias_span (length m.bytes) m.aliases address) [
  | some span ↦ ok span
  | none ↦
      if ltb address (length m.bytes)
      then ok (record { backing = flat; start = address; size = length m.bytes - address })
      else elim (region_span 0 m.mapped_regions address) [
        | some span ↦ ok span
        | none ↦ err out_of_range
      ]
]

unfoldable pub region_byte : List MappedRegion → ℕ → ℕ → ℕ
region_byte [] index i = 0
region_byte (region ∷ rest) zero i = get_or region.bytes i 0
region_byte (region ∷ rest) (suc index) i = region_byte rest index i

unfoldable pub set_region_byte : List MappedRegion → ℕ → ℕ → ℕ → List MappedRegion
set_region_byte [] index i v = []
set_region_byte (region ∷ rest) zero i v = record region { bytes = set region.bytes i v } ∷ rest
set_region_byte (region ∷ rest) (suc index) i v = region ∷ set_region_byte rest index i v

-- The byte at a place of the backing store.
unfoldable pub load_cell : GuestMemory → Backing → ℕ → ℕ
load_cell m flat i = get_or m.bytes i 0
load_cell m (mapped index) i = region_byte m.mapped_regions index i

unfoldable pub store_cell : GuestMemory → Backing → ℕ → ℕ → GuestMemory
store_cell m flat i v = record m { bytes = set m.bytes i v }
store_cell m (mapped index) i v = record m {
  mapped_regions = set_region_byte m.mapped_regions index i v;
}

-- `span[i]`, read and written.
abbrev pub load : GuestMemory → Span → ℕ → ℕ
load m span i = load_cell m span.backing (span.start + i)

abbrev pub store : GuestMemory → Span → ℕ → ℕ → GuestMemory
store m span i v = store_cell m span.backing (span.start + i) v
