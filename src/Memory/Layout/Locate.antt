-- ===== src/Memory/Layout/Locate.antt =====
-- Spans are contiguous: the byte `i` of a span backs the address `i` further on.
use affogato.Base.{
  ℕ, suc, ◌+◌, ◌≤◌, ◌<◌, ◌≡◌, refl, inr, false, List, [], ◌∷◌, Option, none, some, Result, ok, err,
  out_of_range, arith, All, AllPairs, All-imp,
}
use affogato.Memory.State.{GuestMemory, MappedRegion, AliasRegion}
use affogato.Memory.Storage.{Span, in_alias, alias_span, region_span, storage_from}
use affogato.Memory.Layout.{
  Extent, extents, layout, Layout, in_extent, extent_span, locate, Apart, ExtentFits, AliasFits,
  ExtentsApart, AliasesApart, AliasClear, IsLaidOut, shift,
}

-- No alias of the list holds the address if all stand apart from a range that does.
alias_span-none :
    (n : ℕ) (aliases : List AliasRegion) (lo size address : ℕ)
    → All (λ a. Apart a.address a.size lo size) aliases
    → lo ≤ address
    → address < lo + size
    → alias_span n aliases address ≡ none
unfolding alias_span
alias_span-none n [] lo size address h p q = refl
alias_span-none n (a ∷ rest) lo size address h p q =
    ground (arith, alias_span-none n rest lo size address h.1 p q)

aliases-above :
    (n : ℕ) (aliases : List AliasRegion)
    → All (AliasFits n) aliases
    → All (λ a. Apart a.address a.size 0 n) aliases
aliases-above n [] h = tt
aliases-above n (a ∷ rest) h =
    (inr (let f : AliasFits n a = h.0 in omega (arith, f.above)), aliases-above n rest h.1)

-- The alias spans before an address stay clear of a later alias that holds it.
alias_span-not_head :
    (n : ℕ) (head : AliasRegion) (aliases : List AliasRegion) (address i : ℕ) (span : Span)
    → All (AliasesApart head) aliases
    → alias_span n aliases address ≡ some span
    → i < span.size
    → in_alias head (address + i) ≡ false
unfolding alias_span
alias_span-not_head n head [] address i span h e lt = absurd (cc)
alias_span-not_head n head (a ∷ rest) address i span h e lt =
    ground (arith, alias_span-not_head n head rest address i span h.1)

alias_span-shift :
    (n : ℕ) (aliases : List AliasRegion) (address i : ℕ) (span : Span)
    → All (AliasFits n) aliases
    → AllPairs AliasesApart aliases
    → alias_span n aliases address ≡ some span
    → i < span.size
    → alias_span n aliases (address + i) ≡ some (shift span i)
unfolding alias_span
alias_span-shift n [] address i span f p e lt = absurd (cc)
alias_span-shift n (a ∷ rest) address i span f p e lt = ground (
  arith,
  alias_span-not_head n a rest address i span p.0,
  alias_span-shift n rest address i span f.1 p.1,
)

extent_span-not_head :
    (k : ℕ) (head : Extent) (regions : List Extent) (address i : ℕ) (span : Span)
    → All (ExtentsApart head) regions
    → extent_span k regions address ≡ some span
    → i < span.size
    → in_extent head (address + i) ≡ false
unfolding extent_span
extent_span-not_head k head [] address i span h e lt = absurd (cc)
extent_span-not_head k head (r ∷ rest) address i span h e lt =
    ground (arith, extent_span-not_head (suc k) head rest address i span h.1)

extent_span-shift :
    (k : ℕ) (regions : List Extent) (address i : ℕ) (span : Span)
    → AllPairs ExtentsApart regions
    → extent_span k regions address ≡ some span
    → i < span.size
    → extent_span k regions (address + i) ≡ some (shift span i)
unfolding extent_span
extent_span-shift k [] address i span p e lt = absurd (cc)
extent_span-shift k (r ∷ rest) address i span p e lt = ground (
  arith,
  extent_span-not_head k r rest address i span p.0,
  extent_span-not_head (suc k) r rest address i span p.0,
  extent_span-shift (suc k) rest address i span p.1,
)

extent_span-above :
    (n k : ℕ) (regions : List Extent) (address : ℕ) (span : Span)
    → All (ExtentFits n) regions
    → extent_span k regions address ≡ some span
    → n ≤ address
unfolding extent_span
extent_span-above n k [] address span f e = absurd (cc)
extent_span-above n k (r ∷ rest) address span f e =
    ground (arith, extent_span-above n (suc k) rest address span f.1)

extent_span-clear :
    (n k : ℕ) (regions : List Extent) (aliases : List AliasRegion) (address i : ℕ) (span : Span)
    → All (AliasClear regions) aliases
    → extent_span k regions address ≡ some span
    → i < span.size
    → alias_span n aliases (address + i) ≡ none
unfolding extent_span
extent_span-clear n k [] aliases address i span c e lt = absurd (cc)
extent_span-clear n k (r ∷ rest) aliases address i span c e lt = ground (
  arith,
  alias_span-none n aliases r.address r.size (address + i) (All-imp aliases (λ a h. h.0) c),
  extent_span-clear n (suc k) rest aliases address i span (All-imp aliases (λ a h. h.1) c),
)

module _ {l : Layout} (laid_out : IsLaidOut l) where
  open laid_out use {extents_fit, aliases_fit, extents_apart, aliases_apart, aliases_clear}

  pub alias_span-none_below :
      (address : ℕ) → address < l.flat_size → alias_span l.flat_size l.aliases address ≡ none
  alias_span-none_below address h =
      alias_span-none l.flat_size l.aliases 0 l.flat_size address
        (aliases-above l.flat_size l.aliases aliases_fit) (omega arith) (omega arith)

  -- The byte `i` of the span of an address backs the address `i` further on.
  pub locate-shift :
      (address i : ℕ) (span : Span)
      → locate l address ≡ some span
      → i < span.size
      → locate l (address + i) ≡ some (shift span i)
  unfolding locate
  locate-shift address i span e lt = ground (
    arith,
    alias_span-shift l.flat_size l.aliases address i span aliases_fit aliases_apart,
    alias_span-none_below (address + i),
    extent_span-above l.flat_size 0 l.regions address span extents_fit,
    extent_span-clear l.flat_size 0 l.regions l.aliases address i span aliases_clear,
    extent_span-shift 0 l.regions address i span extents_apart,
  )

alias_span-pos :
    (n : ℕ) (aliases : List AliasRegion) (address : ℕ) (span : Span)
    → All (AliasFits n) aliases
    → alias_span n aliases address ≡ some span
    → 0 < span.size
unfolding alias_span
alias_span-pos n [] address span f e = absurd (cc)
alias_span-pos n (a ∷ rest) address span f e =
    let fit : AliasFits n a = f.0 in
    ground (arith, fit.target_inside, alias_span-pos n rest address span f.1)

extent_span-pos :
    (k : ℕ) (regions : List Extent) (address : ℕ) (span : Span)
    → extent_span k regions address ≡ some span
    → 0 < span.size
unfolding extent_span
extent_span-pos k [] address span e = absurd (cc)
extent_span-pos k (r ∷ rest) address span e =
    ground (arith, extent_span-pos (suc k) rest address span)

pub locate-pos :
    {l : Layout} (address : ℕ) (span : Span)
    → IsLaidOut l
    → locate l address ≡ some span
    → 0 < span.size
unfolding locate
locate-pos {l} address span laid_out e = ground (
  arith,
  alias_span-pos l.flat_size l.aliases address span laid_out.aliases_fit,
  extent_span-pos 0 l.regions address span,
)

region_span-extent_span :
    (k : ℕ) (regions : List MappedRegion) (address : ℕ)
    → region_span k regions address ≡ extent_span k (extents regions) address
unfolding region_span extent_span extents
region_span-extent_span k [] address = refl
region_span-extent_span k (r ∷ rest) address =
    ground (arith, region_span-extent_span (suc k) rest address)

abbrev pub or_out_of_range : Option Span → Result Span
or_out_of_range none = err out_of_range
or_out_of_range (some span) = ok span

-- `storage_from` reads the address map alone.
pub storage_from-locate :
    (m : GuestMemory) (address : ℕ)
    → storage_from m address ≡ or_out_of_range (locate (layout m) address)
unfolding storage_from locate layout
storage_from-locate m address = ground (arith, region_span-extent_span 0 m.mapped_regions address)
