-- ===== src/Memory/Layout.antt =====
-- The address map of a guest memory, apart from the bytes: which ranges are flat, mapped or aliased.
-- It is the abstract view by which the accesses of guest_memory.hpp are described.
pub mod Locate
pub mod Valid
pub mod Kept
use affogato.Base.{
  ℕ, suc, ◌+◌, ◌-◌, ◌*◌, ◌^◌, ◌%◌, ◌≤◌, ◌<◌, min, ◌≡◌, ◌⊎◌, Bool, ◌&&◌, List, [], ◌∷◌, Option, none,
  some, ltb, leb, if◌then◌else◌, length, All, AllPairs,
}
use affogato.Memory.State.{GuestMemory, MappedRegion, AliasRegion, guest_page_size}
use affogato.Memory.Storage.{Backing, flat, mapped, Span, alias_span}

-- The range of a mapped region.
pub record Extent : Type 0 where
  pub address : ℕ
  pub size : ℕ

pub record Layout : Type 0 where
  pub flat_size : ℕ
  pub regions : List Extent
  pub aliases : List AliasRegion

unfoldable pub extents : List MappedRegion → List Extent
extents [] = []
extents (region ∷ rest) =
    record { address = region.address; size = length region.bytes } ∷ extents rest

unfoldable pub layout : GuestMemory → Layout
layout m = record {
  flat_size = length m.bytes;
  regions = extents m.mapped_regions;
  aliases = m.aliases;
}

abbrev pub in_extent : Extent → ℕ → Bool
in_extent region address = leb region.address address && ltb (address - region.address) region.size

unfoldable pub extent_span : ℕ → List Extent → ℕ → Option Span
extent_span index [] address = none
extent_span index (region ∷ rest) address =
    let offset = address - region.address in
    if in_extent region address
    then some (record { backing = mapped index; start = offset; size = region.size - offset })
    else extent_span (suc index) rest address

-- The backing of an address, and of the addresses after it.
unfoldable pub locate : Layout → ℕ → Option Span
locate l address = elim (alias_span l.flat_size l.aliases address) [
  | some span ↦ some span
  | none ↦
      if ltb address l.flat_size
      then some (record { backing = flat; start = address; size = l.flat_size - address })
      else extent_span 0 l.regions address
]

abbrev pub Apart : ℕ → ℕ → ℕ → ℕ → Type 0
Apart a s b t = (a + s ≤ b) ⊎ (b + t ≤ a)

pub record ExtentFits (flat_size : ℕ) (r : Extent) : Type 0 where
  pub above : flat_size ≤ r.address
  pub nonempty : 0 < r.size
  pub inside : r.address + r.size ≤ 2 ^ 32

pub record AliasFits (flat_size : ℕ) (a : AliasRegion) : Type 0 where
  pub above : flat_size ≤ a.address
  pub nonempty : 0 < a.size
  pub inside : a.address + a.size ≤ 2 ^ 32
  pub target_inside : a.target + a.size ≤ flat_size
  pub address_aligned : a.address % guest_page_size ≡ 0
  pub target_aligned : a.target % guest_page_size ≡ 0
  pub size_aligned : a.size % guest_page_size ≡ 0

abbrev pub ExtentsApart : Extent → Extent → Type 0
ExtentsApart r s = Apart r.address r.size s.address s.size

abbrev pub AliasesApart : AliasRegion → AliasRegion → Type 0
AliasesApart a b = Apart a.address a.size b.address b.size

abbrev pub AliasClear : List Extent → AliasRegion → Type 0
AliasClear regions a = All (λ r. Apart a.address a.size r.address r.size) regions

-- No two ranges overlap, and every alias stands for whole pages of flat memory.
pub record IsLaidOut (l : Layout) : Type 0 where
  pub extents_fit : All (ExtentFits l.flat_size) l.regions
  pub aliases_fit : All (AliasFits l.flat_size) l.aliases
  pub extents_apart : AllPairs ExtentsApart l.regions
  pub aliases_apart : AllPairs AliasesApart l.aliases
  pub aliases_clear : All (AliasClear l.regions) l.aliases

-- Some byte backs the address.
abbrev pub IsMapped : Layout → ℕ → Type 0
IsMapped l address = (span : Span) × (locate l address ≡ some span)

-- The span that begins `i` bytes further on.
abbrev pub shift : Span → ℕ → Span
shift span i = record span { start = span.start + i; size = span.size - i }
