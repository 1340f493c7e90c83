-- ===== src/Memory/Access.antt =====
-- `validate_access` and `is_flat_range` (src/cpu/espresso/guest_memory.hpp).
use affogato.Base.{
  ℕ, zero, suc, ◌+◌, ◌-◌, ◌^◌, min, Bool, true, false, ◌&&◌, ◌||◌, List, [], ◌∷◌, Access, Result,
  ok, err, memory_fault, u32, ltb, leb, ◌==◌, if◌then◌else◌, length,
}
use affogato.Memory.State.{GuestMemory, MappedRegion, AliasRegion}
use affogato.Memory.Storage.{storage_from}

unfoldable pub is_flat_range : GuestMemory → ℕ → ℕ → Bool
is_flat_range m address width = leb address (length m.bytes) && leb width (length m.bytes - address)

-- The loops for an access of width 0, which may stand at the end of an alias or a region.
unfoldable pub alias_touches : List AliasRegion → ℕ → Bool
alias_touches [] address = false
alias_touches (alias ∷ rest) address =
    (leb alias.address address && leb (address - alias.address) alias.size)
    || alias_touches rest address

unfoldable pub region_touches : List MappedRegion → ℕ → Bool
region_touches [] address = false
region_touches (region ∷ rest) address =
    (leb region.address address && leb (address - region.address) (length region.bytes))
    || region_touches rest address

-- The loop over the segments: `true` if the remaining bytes are all backed. A round covers at
-- least one byte, so fuel for as many rounds as bytes remain is enough.
unfoldable pub walk : GuestMemory → ℕ → ℕ → ℕ → Bool
walk m fuel current zero = true
walk m zero current (suc remaining) = false
walk m (suc fuel) current (suc remaining) = elim (storage_from m (u32 current)) [
  | err e ↦ false
  | ok segment ↦
      let count = min segment.size (suc remaining) in
      let rest = walk m fuel (current + count) (suc remaining - count) in
      if count == 0 then false else rest
]

unfoldable pub validate_access : GuestMemory → ℕ → ℕ → Access → Result (Unit {0})
validate_access m address width access =
    let fault = err (memory_fault address width access) in
    if ltb (2 ^ 32 - address) width
    then fault
    else if width == 0
    then if ltb address (length m.bytes)
        || (alias_touches m.aliases address || region_touches m.mapped_regions address)
      then ok tt
      else fault
    else if walk m width address width
    then ok tt
    else fault

-- `validate_write_range`.
unfoldable pub validate_write_range : GuestMemory → ℕ → ℕ → Result (Unit {0})
validate_write_range m address width = validate_access m address width Access.write
