-- ===== src/Memory/Bytes.antt =====
-- `read8` and `write8` of guest_memory.hpp described cell by cell: a memory is well formed, an
-- address means a cell, and what a write shows at every address.

pub mod Commit
pub mod Coherence
pub mod Stale
use affogato.Base.{
  ℕ, ◌+◌, ◌-◌, ◌^◌, ◌≤◌, ◌<◌, ◌≡◌, refl, sym, ap, ◌∙◌, ◌⊎◌, inl, inr, Bool, true, false, Option,
  none, some, Access, Result, ok, err, memory_fault, arith, length, Option-cases, Bool-cases,
  if◌then◌else◌, u32,
}
use affogato.Memory.State.{GuestMemory}
use affogato.Memory.Storage.{Span, flat, alias_span, storage_from, load, load_cell}
use affogato.Memory.Access.{is_flat_range, validate_access}
use affogato.Memory.Read.{read8}
use affogato.Memory.Layout.{Layout, layout, locate, IsLaidOut, IsMapped}
use affogato.Memory.Layout.Locate.{alias_span-none_below, storage_from-locate}
use affogato.Memory.Layout.Valid.{RangeIsMapped, validate_access-iff-mapped, validate_access_faults}

-- The watched range can be read.
abbrev pub WatchFits : Layout → Option (ℕ × ℕ) → Type 0
WatchFits l none = Unit
WatchFits l (some (address, width)) = (address + width ≤ 2 ^ 32) × RangeIsMapped l address width

pub record IsWellFormed (m : GuestMemory) : Type 0 where
  pub laid_out : IsLaidOut (layout m)
  pub watch_fits : WatchFits (layout m) m.write_watchpoint

-- The byte that an address shows, if one backs it.
abbrev pub byte_at : GuestMemory → Option Span → Option ℕ
byte_at m none = none
byte_at m (some span) = some (load m span 0)

abbrev pub peek : GuestMemory → ℕ → Option ℕ
peek m address = byte_at m (locate (layout m) address)

abbrev pub or_fault : ℕ → Option ℕ → Result ℕ
or_fault address none = err (memory_fault address 1 Access.read)
or_fault address (some byte) = ok byte

module _ (m : GuestMemory) (laid_out : IsLaidOut (layout m)) where
  pub locate-flat :
      (address : ℕ)
      → address < length m.bytes
      → locate (layout m) address
        ≡ some (record { backing = flat; start = address; size = length m.bytes - address })
  unfolding locate layout
  locate-flat address h = ground (arith, alias_span-none_below laid_out address)

  pub validate_one :
      (address : ℕ) (access : Access) (span : Span)
      → address < 2 ^ 32
      → locate (layout m) address ≡ some span
      → validate_access m address 1 access ≡ ok tt
  validate_one address access span bound e =
      (validate_access-iff-mapped m laid_out address 1 access bound (omega arith)).1
        (omega arith, λ i lt. (span, ap (locate (layout m)) (omega arith) ∙ e))

  pub validate_one-unmapped :
      (address : ℕ) (access : Access)
      → address < 2 ^ 32
      → locate (layout m) address ≡ none
      → validate_access m address 1 access ≡ err (memory_fault address 1 access)
  validate_one-unmapped address access bound e =
      elim (validate_access_faults m laid_out address 1 access) [
        | inr fault ↦ fault
        | inl valid ↦
            let h =
              (validate_access-iff-mapped m laid_out address 1 access bound (omega arith)).0
                valid in
            let (span, found) = h.1 0 (omega arith) in
            let none_some : none ≡ some span =
              sym e ∙ ap (locate (layout m)) (omega arith) ∙ found in
            absurd (cc)
      ]

  -- In a well-formed address map, `read8` at an address below 2^32 gives the byte of the cell
  -- that the address means, by either of its paths, and faults where there is none.
  pub read8-peek :
      (address : ℕ) → address < 2 ^ 32 → read8 m address ≡ or_fault address (peek m address)
  unfolding read8 is_flat_range load_cell
  read8-peek address bound = elim (Option-cases (locate (layout m) address)) [
    | inl missing ↦ ground (
      arith,
      missing,
      locate-flat address,
      validate_one-unmapped address Access.read bound missing,
    )
    | inr (span, found) ↦ ground (
      arith,
      found,
      locate-flat address,
      validate_one address Access.read span bound found,
      storage_from-locate m address,
    )
  ]
