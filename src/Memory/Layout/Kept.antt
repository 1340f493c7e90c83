-- ===== src/Memory/Layout/Kept.antt =====
-- `map_region` and `map_alias` of guest_memory.hpp keep the address map well formed; stores and
-- what follows a store do not change it.
use affogato.Base.{
  ℕ, zero, suc, ◌+◌, ◌^◌, ◌≤◌, ◌<◌, ◌≡◌, refl, ◌⊎◌, false, List, [], ◌∷◌, ◌++◌, ok, arith, and_mask,
  inl, inr, length, replicate, length-set, length-replicate, All, All-append, AllPairs-append_one,
}
use affogato.Memory.State.{GuestMemory, MappedRegion, AliasRegion, new}
use affogato.Memory.Storage.{Backing, flat, mapped, store_cell, set_region_byte}
use affogato.Memory.Map.{
  overlaps, overlaps_region, overlaps_alias, map_region, map_alias, check_aliases, clear,
}
use affogato.Memory.Layout.{
  Extent, extents, layout, Apart, ExtentFits, AliasFits, ExtentsApart, AliasesApart, AliasClear,
  IsLaidOut,
}

pub new-IsLaidOut : (size : ℕ) → IsLaidOut (layout (new size))
unfolding new layout extents
new-IsLaidOut size = record {
  extents_fit = tt;
  aliases_fit = tt;
  extents_apart = tt;
  aliases_apart = tt;
  aliases_clear = tt;
}

extents-set_region_byte :
    (regions : List MappedRegion) (index i v : ℕ)
    → extents (set_region_byte regions index i v) ≡ extents regions
unfolding extents set_region_byte
extents-set_region_byte [] index i v = refl
extents-set_region_byte (r ∷ rest) zero i v = rw (length-set r.bytes i v)
extents-set_region_byte (r ∷ rest) (suc index) i v = rw (extents-set_region_byte rest index i v)

pub layout-store_cell :
    (m : GuestMemory) (b : Backing) (i v : ℕ) → layout (store_cell m b i v) ≡ layout m
unfolding layout store_cell
layout-store_cell m flat i v = rw (length-set m.bytes i v)
layout-store_cell m (mapped index) i v = rw (extents-set_region_byte m.mapped_regions index i v)

extents-append_one :
    (regions : List MappedRegion) (r : MappedRegion)
    → extents (regions ++ r ∷ [])
      ≡ extents regions ++ record { address = r.address; size = length r.bytes } ∷ []
unfolding extents
extents-append_one [] r = refl
extents-append_one (s ∷ rest) r = rw (extents-append_one rest r)

-- What passes the test of overlaps stands apart.
overlaps_region-Apart :
    (address size : ℕ) (regions : List MappedRegion)
    → overlaps_region address size regions ≡ false
    → All (λ r. Apart r.address r.size address size) (extents regions)
unfolding overlaps_region overlaps extents
overlaps_region-Apart address size [] e = tt
overlaps_region-Apart address size (r ∷ rest) e =
    (ground arith, overlaps_region-Apart address size rest (ground arith))

overlaps_alias-Apart :
    (address size : ℕ) (aliases : List AliasRegion)
    → overlaps_alias address size aliases ≡ false
    → All (λ a. Apart a.address a.size address size) aliases
unfolding overlaps_alias overlaps
overlaps_alias-Apart address size [] e = tt
overlaps_alias-Apart address size (a ∷ rest) e =
    (ground arith, overlaps_alias-Apart address size rest (ground arith))

AliasClear-append_one :
    (aliases : List AliasRegion) (regions : List Extent) (r : Extent)
    → All (AliasClear regions) aliases
    → All (λ a. Apart a.address a.size r.address r.size) aliases
    → All (AliasClear (regions ++ r ∷ [])) aliases
AliasClear-append_one [] regions r h k = tt
AliasClear-append_one (a ∷ rest) regions r h k = (
  All-append (λ s. Apart a.address a.size s.address s.size) regions (r ∷ []) h.0 (k.0, tt),
  AliasClear-append_one rest regions r h.1 k.1,
)

-- What a successful `map_region` has checked.
record RegionChecks (m : GuestMemory) (address size : ℕ) (m' : GuestMemory) : Type 0 where
  nonempty : 0 < size
  inside : address + size ≤ 2 ^ 32
  above : length m.bytes ≤ address
  regions_clear : overlaps_region address size m.mapped_regions ≡ false
  aliases_clear : overlaps_alias address size m.aliases ≡ false
  result : m' ≡ record m {
    mapped_regions =
        m.mapped_regions ++ record { address = address; bytes = replicate size 0 } ∷ [];
  }

map_region-checks :
    (m : GuestMemory) (address size : ℕ) (m' : GuestMemory)
    → address < 2 ^ 32
    → map_region m address size ≡ ok m'
    → RegionChecks m address size m'
unfolding map_region overlaps
map_region-checks m address size m' bound e = record {
  nonempty = ground arith;
  inside = ground arith;
  above = ground arith;
  regions_clear = ground arith;
  aliases_clear = ground arith;
  result = ground arith;
}

layout-map_region :
    (m : GuestMemory) (address size : ℕ) (m' : GuestMemory)
    → RegionChecks m address size m'
    → layout m' ≡ record (layout m) {
      regions = (layout m).regions ++ record { address = address; size = size } ∷ [];
    }
unfolding layout
layout-map_region m address size m' c = rw c.result (
    rw
      (extents-append_one m.mapped_regions (record { address = address; bytes = replicate size 0 }))
      (rw (length-replicate size zero)))

-- From a well-formed address map, a `map_region` at an address below 2^32 that succeeds leaves a
-- well-formed address map.
pub map_region-IsLaidOut :
    (m : GuestMemory) (address size : ℕ) (m' : GuestMemory)
    → address < 2 ^ 32
    → IsLaidOut (layout m)
    → map_region m address size ≡ ok m'
    → IsLaidOut (layout m')
unfolding layout
map_region-IsLaidOut m address size m' bound w e =
    let c = map_region-checks m address size m' bound e in
    let r : Extent = record { address = address; size = size } in
    let fit : ExtentFits (length m.bytes) r = record {
      above = c.above;
      nonempty = c.nonempty;
      inside = c.inside;
    } in
    rw (layout-map_region m address size m' c) (record {
      extents_fit =
          All-append (ExtentFits (length m.bytes)) (extents m.mapped_regions) (r ∷ []) w.extents_fit
            (fit, tt);
      aliases_fit = w.aliases_fit;
      extents_apart =
          AllPairs-append_one ExtentsApart (extents m.mapped_regions) r w.extents_apart
            (overlaps_region-Apart address size m.mapped_regions c.regions_clear);
      aliases_apart = w.aliases_apart;
      aliases_clear =
          AliasClear-append_one m.aliases (extents m.mapped_regions) r w.aliases_clear
            (overlaps_alias-Apart address size m.aliases c.aliases_clear);
    })

check_aliases-Apart :
    (address target size : ℕ) (aliases : List AliasRegion)
    → check_aliases address target size aliases ≡ clear
    → All (λ a. Apart a.address a.size address size) aliases
unfolding check_aliases overlaps
check_aliases-Apart address target size [] e = tt
check_aliases-Apart address target size (a ∷ rest) e =
    (ground arith, check_aliases-Apart address target size rest (ground arith))

-- What a `map_alias` that adds an alias has checked.
record AliasChecks (m : GuestMemory) (a : AliasRegion) : Type 0 where
  fits : AliasFits (length m.bytes) a
  regions_clear : overlaps_region a.address a.size m.mapped_regions ≡ false
  aliases_clear : check_aliases a.address a.target a.size m.aliases ≡ clear

map_alias-checks :
    (m : GuestMemory) (address target size : ℕ) (m' : GuestMemory)
    → address < 2 ^ 32
    → map_alias m address target size ≡ ok m'
    → (m' ≡ m)
      ⊎ (AliasChecks m (record { address = address; target = target; size = size })
          × (m' ≡ record m {
            aliases = m.aliases ++ record { address = address; target = target; size = size } ∷ [];
          }))
unfolding map_alias overlaps
map_alias-checks m address target size m' bound e =
    ground (arith, and_mask 12 address, and_mask 12 target, and_mask 12 size)

clear-of-extents :
    (address size : ℕ) (regions : List MappedRegion)
    → overlaps_region address size regions ≡ false
    → All (λ r. Apart address size r.address r.size) (extents regions)
unfolding overlaps_region overlaps extents
clear-of-extents address size [] e = tt
clear-of-extents address size (r ∷ rest) e =
    (ground arith, clear-of-extents address size rest (ground arith))

add_alias-IsLaidOut :
    (m : GuestMemory) (a : AliasRegion)
    → IsLaidOut (layout m)
    → AliasChecks m a
    → IsLaidOut (layout (record m { aliases = m.aliases ++ a ∷ [] }))
unfolding layout
add_alias-IsLaidOut m a w c = record {
  extents_fit = w.extents_fit;
  aliases_fit =
      All-append (AliasFits (length m.bytes)) m.aliases (a ∷ []) w.aliases_fit (c.fits, tt);
  extents_apart = w.extents_apart;
  aliases_apart =
      AllPairs-append_one AliasesApart m.aliases a w.aliases_apart
        (check_aliases-Apart a.address a.target a.size m.aliases c.aliases_clear);
  aliases_clear =
      All-append (AliasClear (extents m.mapped_regions)) m.aliases (a ∷ []) w.aliases_clear
        (clear-of-extents a.address a.size m.mapped_regions c.regions_clear, tt);
}

-- From a well-formed address map, a `map_alias` at an address below 2^32 that succeeds leaves a
-- well-formed address map.
pub map_alias-IsLaidOut :
    (m : GuestMemory) (address target size : ℕ) (m' : GuestMemory)
    → address < 2 ^ 32
    → IsLaidOut (layout m)
    → map_alias m address target size ≡ ok m'
    → IsLaidOut (layout m')
map_alias-IsLaidOut m address target size m' bound w e =
    elim (map_alias-checks m address target size m' bound e) [
      | inl same ↦ rw same w
      | inr (c, added) ↦ rw added (add_alias-IsLaidOut m _ w c)
    ]
