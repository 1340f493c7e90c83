-- ===== src/Examples/ElfRuns.antt =====
-- The loader of src/cpu/espresso/elf_loader.cpp at a file with one segment.
use affogato.Base.{
  ℕ, ◌≡◌, refl, arith, List, [], ◌∷◌, ◌++◌, ◌⊎◌, Access, memory_fault, invalid_argument, ok, err,
  replicate, length,
}
use affogato.Core.{EspressoCore}
use affogato.Cpu.State.{zeroed}
use affogato.Hle.Register.{initial}
use affogato.Memory.State.{new}
use affogato.Memory.Storage.{alias_span, storage_from, store_cell}
use affogato.Memory.Access.{alias_touches, region_touches, walk, validate_access}
use affogato.Memory.Generations.{
  bump_write_generation, mark_page_written, mark_pages, mark_pages_written,
}
use affogato.Memory.Map.{resolve_alias}
use affogato.Memory.Watch.{record_write_watch_event}
use affogato.Memory.Write.{
  copy_span, copy_in, write_bytes, fill_span, fill_loop, fill_bytes, zero_fill, commit,
}
use affogato.Memory.Bytes.{IsWellFormed}
use affogato.Memory.Layout.Kept.{new-IsLaidOut}
use affogato.Elf.{
  LoadSegment, ElfLoadResult, require_file_range, read_file16_be, read_file32_be, is_power_of_two,
  check_identification, read_file_header, check_segment, is_entry_segment, read_segment_fields,
  push_segment, read_load_segment, read_program_header, read_program_headers, check_entry,
  read_segments, load_segments, load_elf32_powerpc,
}
use affogato.Elf.Throws.{BeginsAtEnd, load_elf32_powerpc-throws}
use affogato.Elf.Accepted.{Any, Accepted, load_elf32_powerpc-Accepted}
use affogato.Elf.Loads.{load_elf32_powerpc-returns}
use affogato.Elf.Returns.{Kept}

abbrev core : EspressoCore
core = record {
  state = zeroed;
  memory = new 64;
  hle = initial;
  current_thread_address = 0;
  guest_heap_cursor = 0;
  guest_heap_limit = 64;
}

memory-IsWellFormed : IsWellFormed core.memory
unfolding new
memory-IsWellFormed = record { laid_out = new-IsLaidOut 64; watch_fits = tt }

-- Four bytes for address 16, where eight are taken; the entry point is 16.
abbrev program : List ℕ
program =
    0x7F ∷ 69 ∷ 76 ∷ 70 ∷ 1 ∷ 2 ∷ 1 ∷ replicate 10 0
    ++ 2 ∷ 0 ∷ 20 ∷ 0 ∷ 0 ∷ 0 ∷ 1 ∷ 0 ∷ 0 ∷ 0 ∷ 16 ∷ 0 ∷ 0 ∷ 0 ∷ 52 ∷ replicate 9 0
    ++ 52 ∷ 0 ∷ 32 ∷ 0 ∷ 1 ∷ replicate 9 0
    ++ 1 ∷ 0 ∷ 0 ∷ 0 ∷ 84 ∷ 0 ∷ 0 ∷ 0 ∷ 16 ∷ 0 ∷ 0 ∷ 0 ∷ 16 ∷ 0 ∷ 0 ∷ 0 ∷ 4 ∷ 0 ∷ 0 ∷ 0 ∷ 8 ∷ 0 ∷ 0
      ∷ 0 ∷ 5 ∷ 0 ∷ 0 ∷ 0 ∷ 4 ∷ 0x48 ∷ 0 ∷ 0 ∷ 1 ∷ []

abbrev segment : LoadSegment
segment = record {
  file_offset = 84;
  virtual_address = 16;
  file_size = 4;
  memory_size = 8;
  flags = 5;
}

checked : read_segments program core.memory ≡ ok (16, segment ∷ [])
unfolding require_file_range read_file16_be read_file32_be is_power_of_two check_identification
    read_file_header check_segment is_entry_segment read_segment_fields push_segment
    read_load_segment read_program_header read_program_headers check_entry read_segments new
checked = refl

load_elf32_powerpc-returns_example :
    (after : EspressoCore) × (load_elf32_powerpc core program
      ≡ ok (after, record { entry_point = 16; loaded_segments = 1 }))
    × Kept core.memory after.memory
load_elf32_powerpc-returns_example =
    load_elf32_powerpc-returns core program 16 (segment ∷ []) memory-IsWellFormed checked
      (unfold new in (omega arith, tt))

abbrev loaded : EspressoCore
loaded = record core {
  state = record zeroed { cia = 16 };
  memory = record (new 64) {
    bytes = replicate 16 0 ++ 0x48 ∷ 0 ∷ 0 ∷ 1 ∷ replicate 44 0;
    flat_page_write_generations = 2 ∷ [];
    write_generation = 2;
  };
}

abbrev result : ElfLoadResult
result = record { entry_point = 16; loaded_segments = 1 }

loads : load_segments program core.memory (segment ∷ []) ≡ ok loaded.memory
unfolding load_segments zero_fill fill_bytes fill_loop fill_span write_bytes copy_in copy_span
    validate_access walk storage_from alias_span store_cell commit bump_write_generation
    mark_pages_written mark_pages mark_page_written record_write_watch_event new resolve_alias
loads = refl

load_elf32_powerpc-Accepted_example :
    (segments : List LoadSegment) × (load_segments program core.memory segments ≡ ok loaded.memory)
    × (loaded.state ≡ record (core.state) { cia = 16 })
    × (length segments ≡ 1)
    × Accepted program core.memory 16 segments
load_elf32_powerpc-Accepted_example =
    load_elf32_powerpc-Accepted core program loaded result
      (unfold load_elf32_powerpc in (rw (checked, loads) refl))

-- The same with a second, empty segment where flat memory ends.
abbrev two_segments : List ℕ
two_segments =
    0x7F ∷ 69 ∷ 76 ∷ 70 ∷ 1 ∷ 2 ∷ 1 ∷ replicate 10 0
    ++ 2 ∷ 0 ∷ 20 ∷ 0 ∷ 0 ∷ 0 ∷ 1 ∷ 0 ∷ 0 ∷ 0 ∷ 16 ∷ 0 ∷ 0 ∷ 0 ∷ 52 ∷ replicate 9 0
    ++ 52 ∷ 0 ∷ 32 ∷ 0 ∷ 2 ∷ replicate 9 0
    ++ 1
      ∷ 0
      ∷ 0
      ∷ 0
      ∷ 116
      ∷ 0
      ∷ 0
      ∷ 0
      ∷ 16
      ∷ 0
      ∷ 0
      ∷ 0
      ∷ 16
      ∷ 0
      ∷ 0
      ∷ 0
      ∷ 4
      ∷ 0
      ∷ 0
      ∷ 0
      ∷ 8
      ∷ 0
      ∷ 0
      ∷ 0
      ∷ 5
      ∷ 0
      ∷ 0
      ∷ 0
      ∷ 4
      ∷ 0
      ∷ 0
      ∷ 0
      ∷ 1
      ∷ 0
      ∷ 0
      ∷ 0
      ∷ 116
      ∷ 0
      ∷ 0
      ∷ 0
      ∷ 64
      ∷ replicate 15 0
    ++ 4 ∷ 0 ∷ 0 ∷ 0 ∷ 0 ∷ 0x48 ∷ 0 ∷ 0 ∷ 1 ∷ []

faults : load_elf32_powerpc core two_segments ≡ err (memory_fault 64 0 Access.write)
unfolding require_file_range read_file16_be read_file32_be is_power_of_two check_identification
    read_file_header check_segment is_entry_segment read_segment_fields push_segment
    read_load_segment read_program_header read_program_headers check_entry read_segments
    load_elf32_powerpc load_segments zero_fill fill_bytes fill_loop fill_span write_bytes copy_in
    copy_span validate_access walk storage_from alias_span store_cell commit bump_write_generation
    mark_pages_written mark_pages mark_page_written record_write_watch_event new resolve_alias
    alias_touches region_touches
faults = refl

load_elf32_powerpc-throws_example :
    ((memory_fault 64 0 Access.write ≡ invalid_argument)
      × (read_segments two_segments core.memory ≡ err (memory_fault 64 0 Access.write)))
    ⊎ ((entry : ℕ) × (segments : List LoadSegment) × (read_segments two_segments core.memory
          ≡ ok (entry, segments))
        × Any (BeginsAtEnd (length core.memory.bytes)) segments)
load_elf32_powerpc-throws_example =
    load_elf32_powerpc-throws core two_segments (memory_fault 64 0 Access.write) memory-IsWellFormed
      faults
