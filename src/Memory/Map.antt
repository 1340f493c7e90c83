-- ===== src/Memory/Map.antt =====
-- `map_region`, `map_alias` and address aliasing (src/cpu/espresso/guest_memory.hpp).
use affogato.Base.{
  ℕ, ◌+◌, ◌-◌, ◌^◌, bit_and, Bool, false, not, ◌&&◌, ◌||◌, List, [], ◌∷◌, ◌++◌, Result, ok, err,
  invalid_argument, u32, ltb, ◌==◌, if◌then◌else◌, length, replicate,
}
use affogato.Memory.State.{GuestMemory, MappedRegion, AliasRegion, guest_page_size}
use affogato.Memory.Storage.{in_alias}

-- Half-open ranges, in 64 bits, where the sums do not wrap.
unfoldable pub overlaps : ℕ → ℕ → ℕ → ℕ → Bool
overlaps address size other_address other_size =
    ltb address (other_address + other_size) && ltb other_address (address + size)

unfoldable pub overlaps_region : ℕ → ℕ → List MappedRegion → Bool
overlaps_region address size [] = false
overlaps_region address size (region ∷ rest) =
    overlaps address size region.address (length region.bytes) || overlaps_region address size rest

unfoldable pub overlaps_alias : ℕ → ℕ → List AliasRegion → Bool
overlaps_alias address size [] = false
overlaps_alias address size (alias ∷ rest) =
    overlaps address size alias.address alias.size || overlaps_alias address size rest

unfoldable pub map_region : GuestMemory → ℕ → ℕ → Result GuestMemory
map_region m address size =
    if size == 0 || (ltb (2 ^ 32 - address) size || overlaps address size 0 (length m.bytes))
    then err invalid_argument
    else if overlaps_region address size m.mapped_regions
    then err invalid_argument
    else if overlaps_alias address size m.aliases
    then err invalid_argument
    else ok (record m {
      mapped_regions =
          m.mapped_regions ++ record { address = address; bytes = replicate size 0 } ∷ [];
    })

-- What the loop over the aliases finds first: the same alias, or an overlap.
pub data AliasCheck : Type 0 where
  clear already_mapped overlapping : AliasCheck

unfoldable pub check_aliases : ℕ → ℕ → ℕ → List AliasRegion → AliasCheck
check_aliases address target size [] = clear
check_aliases address target size (alias ∷ rest) =
    if alias.address == address && (alias.target == target && alias.size == size)
    then already_mapped
    else if overlaps address size alias.address alias.size
        || overlaps target size alias.address alias.size
    then overlapping
    else check_aliases address target size rest

unfoldable pub map_alias : GuestMemory → ℕ → ℕ → ℕ → Result GuestMemory
map_alias m address target size =
    if size == 0
      || (ltb (2 ^ 32 - address) size
          || (ltb (length m.bytes) target
              || (ltb (length m.bytes - target) size
                  || (overlaps address size 0 (length m.bytes)
                      || (not (bit_and address (guest_page_size - 1) == 0)
                          || (not (bit_and target (guest_page_size - 1) == 0)
                              || not (bit_and size (guest_page_size - 1) == 0)))))))
    then err invalid_argument
    else if overlaps_region address size m.mapped_regions
    then err invalid_argument
    else elim (check_aliases address target size m.aliases) [
      | already_mapped ↦ ok m
      | overlapping ↦ err invalid_argument
      | clear ↦ ok (record m {
        aliases = m.aliases ++ record { address = address; target = target; size = size } ∷ [];
      })
    ]

-- `resolve_alias_address`.
unfoldable pub resolve_alias : List AliasRegion → ℕ → ℕ
resolve_alias [] address = address
resolve_alias (alias ∷ rest) address =
    if in_alias alias address
    then u32 (alias.target + (address - alias.address))
    else resolve_alias rest address

-- `reservation_address`.
unfoldable pub reservation_address : GuestMemory → ℕ → ℕ
reservation_address m address = resolve_alias m.aliases address
