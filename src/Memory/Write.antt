-- ===== src/Memory/Write.antt =====
-- The writes of `GuestMemory` (src/cpu/espresso/guest_memory.hpp).
use affogato.Base.{
  ℕ, zero, suc, ◌+◌, ◌-◌, ◌*◌, ◌/◌, min, List, [], ◌∷◌, Access, Result, ok, err, ◌>>=◌, ◌>>◌, u8,
  u32, ◌>>>◌, leb, ◌==◌, if◌then◌else◌, length, set, take, drop,
}
use affogato.Memory.State.{GuestMemory, guest_page_size}
use affogato.Memory.Storage.{Span, storage_from, store}
use affogato.Memory.Access.{is_flat_range, validate_access}
use affogato.Memory.Generations.{mark_page_written, mark_pages_written, bump_write_generation}
use affogato.Memory.Read.{span_of_byte, read_bytes}
use affogato.Memory.Watch.{record_write_watch_event}

-- What `write8` does after the byte is stored. The page is that of the address as given.
unfoldable pub commit8 : GuestMemory → ℕ → Result GuestMemory
commit8 m address =
    record_write_watch_event
      (mark_page_written (bump_write_generation m) (address / guest_page_size)) address 1

-- What every other write does after its bytes are stored.
unfoldable pub commit : GuestMemory → ℕ → ℕ → Result GuestMemory
commit m address width =
    record_write_watch_event (mark_pages_written (bump_write_generation m) address width) address
      width

unfoldable pub write8 : GuestMemory → ℕ → ℕ → Result GuestMemory
write8 m address value =
    if is_flat_range m address 1
    then commit8 (record m { bytes = set m.bytes address value }) address
    else do
      validate_access m address 1 Access.write
      span ← storage_from m address
      commit8 (store m span 0 value) address

-- The byte `byte` of a value of `width` bytes, the most significant first.
unfoldable pub byte_of : ℕ → ℕ → ℕ → ℕ
byte_of width value byte = u8 (value >>> ((width - 1 - byte) * 8))

-- The bytes from `byte` on, into flat memory. The index of a byte wraps.
unfoldable pub put_flat : ℕ → ℕ → GuestMemory → ℕ → ℕ → ℕ → GuestMemory
put_flat width value m address byte zero = m
put_flat width value m address byte (suc left) =
    put_flat width value
      (record m { bytes = set m.bytes (u32 (address + byte)) (byte_of width value byte) }) address
      (byte + 1) left

-- The bytes from `byte` on, into one span.
unfoldable pub put_span : ℕ → ℕ → GuestMemory → Span → ℕ → ℕ → GuestMemory
put_span width value m span byte zero = m
put_span width value m span byte (suc left) =
    put_span width value (store m span byte (byte_of width value byte)) span (byte + 1) left

-- The bytes from `byte` on, each into the span of its own address.
unfoldable pub put_across : ℕ → ℕ → GuestMemory → Span → ℕ → ℕ → ℕ → Result GuestMemory
put_across width value m first address byte zero = ok m
put_across width value m first address byte (suc left) = do
  segment ← span_of_byte m first address byte
  put_across width value (store m segment 0 (byte_of width value byte)) first address (byte + 1)
      left

-- The common body of `write16_be`, `write32_be` and `write64_be`, whose stores differ only in
-- that the narrow ones write their loop out.
unfoldable pub write_be : ℕ → GuestMemory → ℕ → ℕ → Result GuestMemory
write_be width m address value =
    if is_flat_range m address width
    then commit (put_flat width value m address 0 width) address width
    else do
      validate_access m address width Access.write
      first ← storage_from m address
      if leb width first.size
          then commit (put_span width value m first 0 width) address width
          else do
            stored ← put_across width value m first address 0 width
            commit stored address width

unfoldable pub write16_be : GuestMemory → ℕ → ℕ → Result GuestMemory
write16_be = write_be 2

unfoldable pub write32_be : GuestMemory → ℕ → ℕ → Result GuestMemory
write32_be = write_be 4

unfoldable pub write64_be : GuestMemory → ℕ → ℕ → Result GuestMemory
write64_be = write_be 8

-- `std::copy_n` of bytes into a span, from its byte `i` on.
unfoldable pub copy_span : GuestMemory → Span → ℕ → List ℕ → GuestMemory
copy_span m span i [] = m
copy_span m span i (value ∷ values) = copy_span (store m span i value) span (i + 1) values

-- The copy loop of `write_bytes`; a round copies at least one byte.
unfoldable pub copy_in : GuestMemory → ℕ → ℕ → List ℕ → Result GuestMemory
copy_in m fuel current [] = ok m
copy_in m zero current (value ∷ values) = ok m
copy_in m (suc fuel) current (value ∷ values) = elim (storage_from m (u32 current)) [
  | err e ↦ err e
  | ok destination ↦
      let count = min destination.size (length (value ∷ values)) in
      let copied = copy_span m destination 0 (take count (value ∷ values)) in
      copy_in copied fuel (current + count) (drop count (value ∷ values))
]

unfoldable pub write_bytes : GuestMemory → ℕ → List ℕ → Result GuestMemory
write_bytes m address values = do
  validate_access m address (length values) Access.write
  stored ← copy_in m (length values) address values
  if length values == 0 then ok stored else commit stored address (length values)

-- `std::fill_n`, from the byte `i` of a span on.
unfoldable pub fill_span : GuestMemory → Span → ℕ → ℕ → ℕ → GuestMemory
fill_span m span i zero value = m
fill_span m span i (suc left) value = fill_span (store m span i value) span (i + 1) left value

unfoldable pub fill_loop : GuestMemory → ℕ → ℕ → ℕ → ℕ → Result GuestMemory
fill_loop m fuel current zero value = ok m
fill_loop m zero current (suc left) value = ok m
fill_loop m (suc fuel) current (suc left) value = elim (storage_from m (u32 current)) [
  | err e ↦ err e
  | ok destination ↦
      let count = min destination.size (suc left) in
      let filled = fill_span m destination 0 count value in
      fill_loop filled fuel (current + count) (suc left - count) value
]

unfoldable pub fill_bytes : GuestMemory → ℕ → ℕ → ℕ → Result GuestMemory
fill_bytes m address length value = if length == 0 then ok m else do
  validate_access m address length Access.write
  filled ← fill_loop m length address length value
  commit filled address length

unfoldable pub zero_fill : GuestMemory → ℕ → ℕ → Result GuestMemory
zero_fill m address length = fill_bytes m address length 0

-- `copy_bytes` and `move_bytes` are this.
unfoldable pub transfer_bytes : GuestMemory → ℕ → ℕ → ℕ → Result GuestMemory
transfer_bytes m source destination length = if length == 0 then ok m else do
  validate_access m source length Access.read
  validate_access m destination length Access.write
  temporary ← read_bytes m source length
  write_bytes m destination temporary
