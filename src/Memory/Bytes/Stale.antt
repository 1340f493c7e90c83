-- ===== src/Memory/Bytes/Stale.antt =====
-- Page write generations and aliases: `write8` of guest_memory.hpp marks the page of the address as
-- given, `page_write_generation` reads that of the resolved address.
use affogato.Base.{
  ℕ, ◌+◌, ◌-◌, ◌/◌, ◌^◌, ◌≤◌, ◌<◌, ◌≡◌, refl, sym, ap, ◌∙◌, true, List, [], ◌∷◌, some, ok, arith,
  length, All,
}
use affogato.Memory.State.{GuestMemory, AliasRegion, guest_page_size}
use affogato.Memory.Storage.{Backing, flat, mapped, Span, alias_span, store_cell}
use affogato.Memory.Map.{resolve_alias}
use affogato.Memory.Generations.{page_write_generation, mark_page_written, bump_write_generation}
use affogato.Memory.Read.{read8}
use affogato.Memory.Write.{write8, commit8}
use affogato.Memory.Layout.{layout, locate, AliasFits}
use affogato.Memory.Cells.{same_cell}
use affogato.Memory.Bytes.{IsWellFormed}
use affogato.Memory.Bytes.Commit.{commit8-Records}
use affogato.Memory.Bytes.Coherence.{write8-stores, write8-Shows, store_cell-IsWellFormed}

-- The pages of flat memory.
abbrev pub flat_pages : GuestMemory → ℕ
flat_pages m = (length m.bytes + guest_page_size - 1) / guest_page_size

alias_span-page :
    (n : ℕ) (aliases : List AliasRegion) (address : ℕ) (span : Span)
    → All (AliasFits n) aliases
    → alias_span n aliases address ≡ some span
    → ((n + guest_page_size - 1) / guest_page_size ≤ address / guest_page_size)
      × (resolve_alias aliases address < n)
unfolding alias_span resolve_alias
alias_span-page n [] address span f e = absurd (cc)
alias_span-page n (a ∷ rest) address span f e =
    let fit : AliasFits n a = f.0 in
    ground (
      arith,
      fit.above,
      fit.inside,
      fit.target_inside,
      fit.address_aligned,
      alias_span-page n rest address span f.1,
    )

-- What `commit8` leaves at a page that is not flat: the flat generations as they were.
commit8-flat_generations :
    (m m' : GuestMemory) (address : ℕ)
    → IsWellFormed m
    → length m.flat_page_write_generations ≤ address / guest_page_size
    → commit8 m address ≡ ok m'
    → (m'.flat_page_write_generations ≡ m.flat_page_write_generations) × (m'.aliases ≡ m.aliases)
unfolding mark_page_written bump_write_generation
commit8-flat_generations m m' address w above e =
    let (events, done) = commit8-Records m address w in ground (arith, done)

generations-store_cell :
    (m : GuestMemory) (b : Backing) (i v : ℕ)
    → ((store_cell m b i v).flat_page_write_generations ≡ m.flat_page_write_generations)
      × ((store_cell m b i v).aliases ≡ m.aliases)
unfolding store_cell
generations-store_cell m flat i v = (refl, refl)
generations-store_cell m (mapped k) i v = (refl, refl)

page_write_generation-same :
    (m m' : GuestMemory) (address : ℕ)
    → m'.flat_page_write_generations ≡ m.flat_page_write_generations
    → m'.aliases ≡ m.aliases
    → resolve_alias m.aliases address / guest_page_size < length m.flat_page_write_generations
    → page_write_generation m' address ≡ page_write_generation m address
unfolding page_write_generation
page_write_generation-same m m' address same_flat same_aliases lt =
    rw (same_flat, same_aliases) (ground arith)

locate-alias :
    (m : GuestMemory) (address : ℕ) (span : Span)
    → alias_span (length m.bytes) m.aliases address ≡ some span
    → locate (layout m) address ≡ some span
unfolding locate layout
locate-alias m address span e = ground arith

same_cell_self : (b : Backing) (i : ℕ) → same_cell b i b i ≡ true
same_cell_self flat i = ground arith
same_cell_self (mapped k) i = ground arith

-- In a well-formed memory with one generation for each flat page, writing a byte at an address
-- below 2^32 that an alias covers succeeds and changes the byte shown there, but the generation
-- of its page is read as before.
pub page_write_generation-write8 :
    (m : GuestMemory) (address v : ℕ) (span : Span)
    → IsWellFormed m
    → address < 2 ^ 32
    → length m.flat_page_write_generations ≡ flat_pages m
    → alias_span (length m.bytes) m.aliases address ≡ some span
    → (m' : GuestMemory) × (write8 m address v ≡ ok m')
      × (read8 m' address ≡ ok v)
      × (page_write_generation m' address ≡ page_write_generation m address)
unfolding layout
page_write_generation-write8 m address v span w bound pages aliased =
    let found = locate-alias m address span aliased in
    let (m', done, ends_ok, kept, shows) = write8-Shows m address v span w bound found in
    let page =
      alias_span-page (length m.bytes) m.aliases address span w.laid_out.aliases_fit aliased in
    let b = span.backing in
    let i = span.start + 0 in
    let stored = store_cell m b i v in
    let gens = generations-store_cell m b i v in
    let committed : commit8 stored address ≡ ok m' =
      sym (write8-stores m w address v bound span found) ∙ done in
    let after =
      commit8-flat_generations stored m' address (store_cell-IsWellFormed m b i v w)
        (omega (arith, ap length gens.0, pages, page.0)) committed in
    (
      m',
      done,
      rw (same_cell_self span.backing span.start) at (shows address span bound found),
      page_write_generation-same m m' address (after.0 ∙ gens.0) (after.1 ∙ gens.1)
          (omega (arith, pages, page.1)),
    )
