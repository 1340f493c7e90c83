-- ===== src/Memory/Layout/Valid.antt =====
-- What `validate_access` of guest_memory.hpp accepts: exactly the ranges all of whose bytes are
-- backed.
use affogato.Base.{
  ℕ, zero, suc, ◌+◌, ◌-◌, ◌^◌, ◌≤◌, ◌<◌, min, ◌≡◌, sym, ap, ◌∙◌, ◌⊎◌, inl, inr, ◌↔◌, true, false,
  none, some, Access, ok, err, memory_fault, arith, u32, Option-cases, dec_lt,
}
use affogato.Memory.State.{GuestMemory}
use affogato.Memory.Storage.{Span}
use affogato.Memory.Access.{walk, validate_access}
use affogato.Memory.Layout.{layout, Layout, locate, IsLaidOut, IsMapped, shift}
use affogato.Memory.Layout.Locate.{locate-shift, locate-pos, storage_from-locate}

-- Every byte of the range is backed.
abbrev pub RangeIsMapped : Layout → ℕ → ℕ → Type 0
RangeIsMapped l address width = (i : ℕ) → i < width → IsMapped l (address + i)

module _ (m : GuestMemory) (laid_out : IsLaidOut (layout m)) where
  walk-unmapped :
      (fuel current left : ℕ)
      → current < 2 ^ 32
      → locate (layout m) current ≡ none
      → walk m (suc fuel) current (suc left) ≡ false
  unfolding walk
  walk-unmapped fuel current left bound e = ground (arith, storage_from-locate m (u32 current))

  walk-mapped :
      (fuel current left : ℕ) (span : Span)
      → current < 2 ^ 32
      → locate (layout m) current ≡ some span
      → walk m (suc fuel) current (suc left)
        ≡ walk m fuel (current + min span.size (suc left)) (suc left - min span.size (suc left))
  unfolding walk
  walk-mapped fuel current left span bound e =
      ground (arith, storage_from-locate m (u32 current), locate-pos current span laid_out)

  -- The bytes past the first span, read from where it ends.
  range_rest :
      (current left n : ℕ)
      → n ≤ left
      → RangeIsMapped (layout m) current left
      → RangeIsMapped (layout m) (current + n) (left - n)
  range_rest current left n le h i lt =
      let (span, e) = h (n + i) (omega arith) in (span, ap (locate (layout m)) (omega arith) ∙ e)

  -- The first span, and the bytes after it, cover the range.
  range_join :
      (current left : ℕ) (span : Span)
      → locate (layout m) current ≡ some span
      → RangeIsMapped (layout m) (current + min span.size left) (left - min span.size left)
      → RangeIsMapped (layout m) current left
  range_join current left span e h i lt = elim (dec_lt i (min span.size left)) [
    | yes p ↦ (shift span i, locate-shift laid_out current i span e (omega arith))
    | no p ↦
        let (found, e') = h (i - min span.size left) (omega arith) in
        (found, ap (locate (layout m)) (omega arith) ∙ e')
  ]

  walk_sound :
      (fuel current left : ℕ)
      → current + left ≤ 2 ^ 32
      → walk m fuel current left ≡ true
      → RangeIsMapped (layout m) current left
  walk_sound fuel current zero bound e i lt = absurd (omega arith)
  walk_sound zero current (suc left) bound e i lt = absurd (unfold walk in (cc))
  walk_sound (suc fuel) current (suc left) bound e i lt =
      elim (Option-cases (locate (layout m) current)) [
        | inl missing ↦ absurd (cc (walk-unmapped fuel current left (omega arith) missing))
        | inr (span, found) ↦
            range_join current (suc left) span found
              (walk_sound fuel (current + min span.size (suc left))
                (suc left - min span.size (suc left)) (omega arith)
                (sym (walk-mapped fuel current left span (omega arith) found) ∙ e))
              i lt
      ]

  walk_complete :
      (fuel current left : ℕ)
      → current + left ≤ 2 ^ 32
      → left ≤ fuel
      → RangeIsMapped (layout m) current left
      → walk m fuel current left ≡ true
  walk_complete fuel current zero bound le h = unfold walk in (ground arith)
  walk_complete zero current (suc left) bound le h = absurd (omega arith)
  walk_complete (suc fuel) current (suc left) bound le h =
      let (span, e) = h 0 (omega arith) in
      let found : locate (layout m) current ≡ some span =
        ap (locate (layout m)) (omega arith) ∙ e in
      let pos = locate-pos current span laid_out found in
      walk-mapped fuel current left span (omega arith) found
      ∙ walk_complete fuel (current + min span.size (suc left))
          (suc left - min span.size (suc left)) (omega arith) (omega arith)
          (range_rest current (suc left) (min span.size (suc left)) (omega arith) h)

  -- In a well-formed address map, `validate_access` returns for a range of at least one byte at
  -- an address below 2^32 exactly when the range ends within the 32-bit address space and every
  -- byte of it is backed.
  pub validate_access-iff-mapped :
      (address width : ℕ) (access : Access)
      → address < 2 ^ 32
      → 0 < width
      → (validate_access m address width access ≡ ok tt)
        ↔ ((address + width ≤ 2 ^ 32) × RangeIsMapped (layout m) address width)
  unfolding validate_access
  validate_access-iff-mapped address width access bound pos = (there, back)
    where
      there :
          validate_access m address width access ≡ ok tt
          → (address + width ≤ 2 ^ 32) × RangeIsMapped (layout m) address width
      there e =
          let fits : address + width ≤ 2 ^ 32 = ground arith in
          (fits, walk_sound width address width fits (ground arith))

      back :
          (address + width ≤ 2 ^ 32) × RangeIsMapped (layout m) address width
          → validate_access m address width access ≡ ok tt
      back h = ground (arith, walk_complete width address width h.0 (omega arith) h.1)

  -- `validate_access` either returns or throws a memory fault that names the address, the width
  -- and the kind of access.
  pub validate_access_faults :
      (address width : ℕ) (access : Access)
      → (validate_access m address width access ≡ ok tt)
        ⊎ (validate_access m address width access ≡ err (memory_fault address width access))
  unfolding validate_access
  validate_access_faults address width access = ground arith
