-- ===== src/Elf.antt =====
-- `load_elf32_powerpc` (src/cpu/espresso/elf_loader.cpp): the loader of ELF executables. A file is
-- the list of its bytes; offsets into it are below 2^64 by the widths of the fields they come from.
pub mod Accepted
pub mod Returns
pub mod Loads
pub mod Throws
use affogato.Base.{
  ℕ, zero, suc, ◌+◌, ◌-◌, ◌*◌, ◌/◌, ◌%◌, ◌^◌, Bool, true, false, not, ◌&&◌, ◌||◌, List, [], ◌∷◌,
  ◌++◌, Result, ok, err, throw_if, invalid_argument, ◌>>=◌, ◌>>◌, ltb, leb, ◌==◌, if◌then◌else◌,
  bit_and, bit_or, length, get_or, take, drop,
}
use affogato.Core.{EspressoCore}
use affogato.Memory.State.{GuestMemory}
use affogato.Memory.Write.{zero_fill, write_bytes}

abbrev pub elf32_header_size : ℕ
elf32_header_size = 52

abbrev pub elf32_program_header_size : ℕ
elf32_program_header_size = 32

abbrev pub loadable_segment : ℕ
loadable_segment = 1

abbrev pub executable_segment_flag : ℕ
executable_segment_flag = 1

pub record LoadSegment : Type 0 where
  pub file_offset : ℕ
  pub virtual_address : ℕ
  pub file_size : ℕ
  pub memory_size : ℕ
  pub flags : ℕ

pub record ElfLoadResult : Type 0 where
  pub entry_point : ℕ
  pub loaded_segments : ℕ

unfoldable pub require_file_range : List ℕ → ℕ → ℕ → Result (Unit {0})
require_file_range file offset size =
    throw_if (ltb (length file) offset || ltb (length file - offset) size) invalid_argument

-- `file[offset]`.
abbrev pub file_byte : List ℕ → ℕ → ℕ
file_byte file offset = get_or file offset 0

-- `read16_be` and `read32_be` of the loader.
unfoldable pub read_file16_be : List ℕ → ℕ → Result ℕ
read_file16_be file offset = do
  require_file_range file offset 2
  ok (bit_or (file_byte file offset * 2 ^ 8) (file_byte file (offset + 1)))

unfoldable pub read_file32_be : List ℕ → ℕ → Result ℕ
read_file32_be file offset = do
  require_file_range file offset 4
  ok (
      bit_or
        (bit_or (bit_or (file_byte file offset * 2 ^ 24) (file_byte file (offset + 1) * 2 ^ 16))
          (file_byte file (offset + 2) * 2 ^ 8))
        (file_byte file (offset + 3)))

unfoldable pub is_power_of_two : ℕ → Bool
is_power_of_two value = not (value == 0) && bit_and value (value - 1) == 0

-- The fields of the file header that the loader uses.
pub record FileHeader : Type 0 where
  pub entry_point : ℕ
  pub table_offset : ℕ
  pub entry_size : ℕ
  pub program_header_count : ℕ

unfoldable pub check_identification : List ℕ → Result (Unit {0})
check_identification file = do
  require_file_range file 0 elf32_header_size
  throw_if
      (not (file_byte file 0 == 0x7F)
        || (not (file_byte file 1 == 69)
            || (not (file_byte file 2 == 76) || not (file_byte file 3 == 70))))
      invalid_argument
  throw_if
      (not (file_byte file 4 == 1) || (not (file_byte file 5 == 2) || not (file_byte file 6 == 1)))
      invalid_argument

-- Everything before the loop over the program headers.
unfoldable pub read_file_header : List ℕ → Result FileHeader
read_file_header file = do
  check_identification file
  kind ← read_file16_be file 16
  machine ← read_file16_be file 18
  version ← read_file32_be file 20
  entry_point ← read_file32_be file 24
  table_offset ← read_file32_be file 28
  header_size ← read_file16_be file 40
  entry_size ← read_file16_be file 42
  count ← read_file16_be file 44
  throw_if (not (kind == 2) || (not (machine == 20) || not (version == 1))) invalid_argument
  throw_if
      (ltb header_size elf32_header_size
        || (ltb entry_size elf32_program_header_size || count == 0))
      invalid_argument
  require_file_range file 0 header_size
  throw_if
      (ltb table_offset header_size
        || (ltb (length file) table_offset
            || ltb ((length file - table_offset) / entry_size) count))
      invalid_argument
  ok (record {
    entry_point = entry_point;
    table_offset = table_offset;
    entry_size = entry_size;
    program_header_count = count;
  })

-- The checks of a loadable program header, with its alignment.
unfoldable pub check_segment : List ℕ → GuestMemory → LoadSegment → ℕ → Result (Unit {0})
check_segment file m segment alignment = do
  throw_if (ltb segment.memory_size segment.file_size) invalid_argument
  require_file_range file segment.file_offset segment.file_size
  throw_if (ltb (2 ^ 32) (segment.virtual_address + segment.memory_size)) invalid_argument
  throw_if
      (ltb (length m.bytes) segment.virtual_address
        || ltb (length m.bytes - segment.virtual_address) segment.memory_size)
      invalid_argument
  throw_if
      (ltb 1 alignment
        && (not (is_power_of_two alignment)
            || not (segment.file_offset % alignment == segment.virtual_address % alignment)))
      invalid_argument

unfoldable pub is_entry_segment : ℕ → LoadSegment → Bool
is_entry_segment entry_point segment =
    not (bit_and segment.flags executable_segment_flag == 0)
    && (leb segment.virtual_address entry_point
        && ltb entry_point (segment.virtual_address + segment.memory_size))

-- `segments` and `entry_is_executable`.
pub record Found : Type 0 where
  pub segments : List LoadSegment
  pub entry_is_executable : Bool

-- The segment that a program header describes, and its alignment.
unfoldable pub read_segment_fields : List ℕ → ℕ → Result (LoadSegment × ℕ)
read_segment_fields file offset = do
  file_offset ← read_file32_be file (offset + 4)
  virtual_address ← read_file32_be file (offset + 8)
  file_size ← read_file32_be file (offset + 16)
  memory_size ← read_file32_be file (offset + 20)
  flags ← read_file32_be file (offset + 24)
  alignment ← read_file32_be file (offset + 28)
  ok (
    record {
      file_offset = file_offset;
      virtual_address = virtual_address;
      file_size = file_size;
      memory_size = memory_size;
      flags = flags;
    },
    alignment,
  )

unfoldable pub push_segment : ℕ → LoadSegment → Found → Found
push_segment entry_point segment found = record {
  segments = found.segments ++ segment ∷ [];
  entry_is_executable = is_entry_segment entry_point segment || found.entry_is_executable;
}

unfoldable pub read_load_segment : List ℕ → GuestMemory → ℕ → ℕ → Found → Result Found
read_load_segment file m entry_point offset found =
    read_segment_fields file offset >>= λ (segment, alignment).
    check_segment file m segment alignment >> ok (push_segment entry_point segment found)

-- One round of the loop over the program headers.
unfoldable pub read_program_header : List ℕ → GuestMemory → ℕ → ℕ → Found → Result Found
read_program_header file m entry_point offset found = do
  kind ← read_file32_be file offset
  if kind == loadable_segment then read_load_segment file m entry_point offset found else ok found

-- The loop, with the rounds that are left.
unfoldable pub read_program_headers :
    List ℕ → GuestMemory → FileHeader → ℕ → ℕ → Found → Result Found
read_program_headers file m header zero index found = ok found
read_program_headers file m header (suc left) index found =
    read_program_header file m (header.entry_point)
      (header.table_offset + index * header.entry_size) found
    >>= λ next. read_program_headers file m header left (index + 1) next

abbrev pub nothing_found : Found
nothing_found = record { segments = []; entry_is_executable = false }

-- The checks after the loop.
unfoldable pub check_entry : ℕ → Found → Result (Unit {0})
check_entry entry_point found = do
  throw_if (length found.segments == 0) invalid_argument
  throw_if (not (bit_and entry_point 3 == 0) || not found.entry_is_executable) invalid_argument

-- Everything before the first byte is written: the entry point and the segments.
unfoldable pub read_segments : List ℕ → GuestMemory → Result (ℕ × List LoadSegment)
read_segments file m = read_file_header file >>= λ header.
    read_program_headers file m header header.program_header_count 0 nothing_found >>= λ found.
    check_entry header.entry_point found >> ok (header.entry_point, found.segments)

-- `file.subspan(offset, size)`.
abbrev pub subspan : List ℕ → ℕ → ℕ → List ℕ
subspan file offset size = take size (drop offset file)

unfoldable pub load_segments : List ℕ → GuestMemory → List LoadSegment → Result GuestMemory
load_segments file m [] = ok m
load_segments file m (segment ∷ segments) = do
  filled ← zero_fill m segment.virtual_address segment.memory_size
  written ←
      write_bytes filled segment.virtual_address
        (subspan file segment.file_offset segment.file_size)
  load_segments file written segments

unfoldable pub load_elf32_powerpc : EspressoCore → List ℕ → Result (EspressoCore × ElfLoadResult)
load_elf32_powerpc core file = read_segments file core.memory >>= λ (entry_point, segments).
    load_segments file core.memory segments >>= λ m. ok (
      record core { state = record (core.state) { cia = entry_point }; memory = m },
      record { entry_point = entry_point; loaded_segments = length segments },
    )
