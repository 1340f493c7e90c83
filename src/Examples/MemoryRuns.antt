-- ===== src/Examples/MemoryRuns.antt =====
-- The theorems on guest_memory.hpp at a memory of 64 flat bytes with a region of 16 bytes.
use affogato.Base.{
  ◌+◌, ◌^◌, ◌≤◌, ◌≡◌, refl, ◌↔◌, [], ◌∷◌, none, some, Access, ok, err, memory_fault, arith,
  replicate,
}
use affogato.Memory.State.{GuestMemory, new}
use affogato.Memory.Storage.{Span, flat, mapped, alias_span}
use affogato.Memory.Generations.{page_write_generation}
use affogato.Memory.Bytes.Stale.{page_write_generation-write8}
use affogato.Memory.Access.{validate_access}
use affogato.Memory.Read.{read8}
use affogato.Memory.Write.{write8, write32_be}
use affogato.Memory.Map.{
  map_region, map_alias, overlaps, overlaps_region, overlaps_alias, check_aliases,
}
use affogato.Memory.Layout.{layout, locate, extents, extent_span, IsLaidOut}
use affogato.Memory.Layout.Kept.{new-IsLaidOut, map_region-IsLaidOut, map_alias-IsLaidOut}
use affogato.Memory.Layout.Valid.{RangeIsMapped, validate_access-iff-mapped}
use affogato.Memory.Bytes.{IsWellFormed, peek, or_fault, read8-peek}
use affogato.Memory.Bytes.Coherence.{Shows, write8-Shows, write8-faults}
use affogato.Memory.Words.{ShowsWord, write32_be-ShowsWord}

abbrev flat_memory : GuestMemory
flat_memory = new 64

abbrev region_memory : GuestMemory
region_memory = record flat_memory {
  mapped_regions = record { address = 0x10000; bytes = replicate 16 0 } ∷ [];
}

abbrev located_span : Span
located_span = record { backing = mapped 0; start = 3; size = 13 }

region_mapped : map_region flat_memory 0x10000 16 ≡ ok region_memory
unfolding map_region overlaps overlaps_region overlaps_alias new
region_mapped = refl

region_memory-IsWellFormed : IsWellFormed region_memory
unfolding new
region_memory-IsWellFormed = record {
  laid_out =
      map_region-IsLaidOut flat_memory 0x10000 16 region_memory (omega arith) (new-IsLaidOut 64)
        region_mapped;
  watch_fits = tt;
}

region_located : locate (layout region_memory) 0x10003 ≡ some located_span
unfolding locate layout extents extent_span alias_span new
region_located = refl

nothing_located : locate (layout region_memory) 0x20000 ≡ none
unfolding locate layout extents extent_span alias_span new
nothing_located = refl

write8-Shows_example :
    (m' : GuestMemory) × (write8 region_memory 0x10003 7 ≡ ok m')
    × IsWellFormed m'
    × (layout m' ≡ layout region_memory)
    × Shows region_memory located_span 7 m'
write8-Shows_example =
    write8-Shows region_memory 0x10003 7 located_span region_memory-IsWellFormed (omega arith)
      region_located

write8-faults_example : write8 region_memory 0x20000 7 ≡ err (memory_fault 0x20000 1 Access.write)
write8-faults_example =
    write8-faults region_memory 0x20000 7 region_memory-IsWellFormed (omega arith) nothing_located

write32_be-ShowsWord_example :
    (m' : GuestMemory) × (write32_be region_memory 8 0x12345678 ≡ ok m')
    × ShowsWord region_memory 8 0x12345678 m'
write32_be-ShowsWord_example =
    write32_be-ShowsWord region_memory 8 0x12345678 region_memory-IsWellFormed
      (unfold new in (omega arith)) (omega arith)

read8-peek_example : read8 region_memory 0x10003 ≡ or_fault 0x10003 (peek region_memory 0x10003)
read8-peek_example =
    read8-peek region_memory region_memory-IsWellFormed.laid_out 0x10003 (omega arith)

validate_access-iff-mapped_example :
    (validate_access region_memory 0x10004 8 Access.read ≡ ok tt)
    ↔ ((0x10004 + 8 ≤ 2 ^ 32) × RangeIsMapped (layout region_memory) 0x10004 8)
validate_access-iff-mapped_example =
    validate_access-iff-mapped region_memory region_memory-IsWellFormed.laid_out 0x10004 8
      Access.read (omega arith) (omega arith)

map_region-IsLaidOut_example : IsLaidOut (layout region_memory)
map_region-IsLaidOut_example =
    map_region-IsLaidOut flat_memory 0x10000 16 region_memory (omega arith) (new-IsLaidOut 64)
      region_mapped

-- A page of flat memory with an alias.
abbrev page_memory : GuestMemory
page_memory = new 0x1000

abbrev aliased_memory : GuestMemory
aliased_memory = record page_memory {
  aliases = record { address = 0x8000; target = 0; size = 0x1000 } ∷ [];
}

page_aliased : map_alias page_memory 0x8000 0 0x1000 ≡ ok aliased_memory
unfolding map_alias overlaps overlaps_region check_aliases new
page_aliased = refl

map_alias-IsLaidOut_example : IsLaidOut (layout aliased_memory)
map_alias-IsLaidOut_example =
    map_alias-IsLaidOut page_memory 0x8000 0 0x1000 aliased_memory (omega arith)
      (new-IsLaidOut 0x1000) page_aliased

aliased_memory-IsWellFormed : IsWellFormed aliased_memory
unfolding new
aliased_memory-IsWellFormed = record {
  laid_out =
      map_alias-IsLaidOut page_memory 0x8000 0 0x1000 aliased_memory (omega arith)
        (new-IsLaidOut 0x1000) page_aliased;
  watch_fits = tt;
}

abbrev aliased_span : Span
aliased_span = record { backing = flat; start = 2; size = 4094 }

alias_found : alias_span 0x1000 aliased_memory.aliases 0x8002 ≡ some aliased_span
unfolding alias_span new
alias_found = refl

page_write_generation-write8_example :
    (m' : GuestMemory) × (write8 aliased_memory 0x8002 7 ≡ ok m')
    × (read8 m' 0x8002 ≡ ok 7)
    × (page_write_generation m' 0x8002 ≡ page_write_generation aliased_memory 0x8002)
page_write_generation-write8_example =
    page_write_generation-write8 aliased_memory 0x8002 7 aliased_span aliased_memory-IsWellFormed
      (omega arith) (unfold new in refl) (unfold new in alias_found)
