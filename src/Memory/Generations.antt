-- ===== src/Memory/Generations.antt =====
-- The page write generations that validate recompiled code (src/cpu/espresso/guest_memory.hpp).
use affogato.Base.{
  ℕ, zero, suc, ◌+◌, ◌-◌, ◌*◌, ◌/◌, u32, u64, ltb, ◌==◌, if◌then◌else◌, length, get_or, set,
}
use affogato.Memory.State.{GuestMemory, guest_page_size}
use affogato.Memory.Map.{resolve_alias}

unfoldable pub page_write_generation : GuestMemory → ℕ → ℕ
page_write_generation m address =
    let page = resolve_alias m.aliases address / guest_page_size in
    if ltb page (length m.flat_page_write_generations)
    then get_or m.flat_page_write_generations page 0
    else m.sparse_page_write_generations page

-- The generations of 64 bits wrap.
unfoldable pub mark_page_written : GuestMemory → ℕ → GuestMemory
mark_page_written m page =
    if ltb page (length m.flat_page_write_generations)
    then record m {
      flat_page_write_generations =
          set m.flat_page_write_generations page
            (u64 (get_or m.flat_page_write_generations page 0 + 1));
    }
    else record m {
      sparse_page_write_generations = λ other.
          if page == other
          then u64 (m.sparse_page_write_generations page + 1)
          else m.sparse_page_write_generations other;
    }

-- The loop over `count` pages from `page` on.
unfoldable pub mark_pages : GuestMemory → ℕ → ℕ → GuestMemory
mark_pages m page zero = m
mark_pages m page (suc count) =
    let backing_address = resolve_alias m.aliases (u32 (page * guest_page_size)) in
    mark_pages (mark_page_written m (backing_address / guest_page_size)) (page + 1) count

-- Every caller passes a positive width.
unfoldable pub mark_pages_written : GuestMemory → ℕ → ℕ → GuestMemory
mark_pages_written m address width =
    let first_page = address / guest_page_size in
    let last_page = (address + width - 1) / guest_page_size in
    mark_pages m first_page (last_page + 1 - first_page)

unfoldable pub bump_write_generation : GuestMemory → GuestMemory
bump_write_generation m = record m { write_generation = u64 (m.write_generation + 1) }
