-- ===== src/Memory/Read.antt =====
-- The reads of `GuestMemory` (src/cpu/espresso/guest_memory.hpp): the fast path in flat memory, the
-- path inside one span, and the path that crosses spans.
use affogato.Base.{
  ℕ, zero, suc, ◌+◌, ◌-◌, ◌%◌, ◌^◌, min, bit_or, List, [], ◌∷◌, ◌++◌, Access, Result, ok, err,
  ◌>>=◌, ◌>>◌, u16, u32, ◌<<<◌, leb, ◌==◌, if◌then◌else◌, get_or,
}
use affogato.Memory.State.{GuestMemory}
use affogato.Memory.Storage.{Span, storage_from, load}
use affogato.Memory.Access.{is_flat_range, validate_access}

-- `(value << 8) | byte` in an integer of that many bits.
unfoldable pub shift_in : ℕ → ℕ → ℕ → ℕ
shift_in bits value byte = bit_or ((value <<< 8) % 2 ^ bits) byte

unfoldable pub read8 : GuestMemory → ℕ → Result ℕ
read8 m address = if is_flat_range m address 1 then ok (get_or m.bytes address 0) else do
  validate_access m address 1 Access.read
  span ← storage_from m address
  ok (load m span 0)

-- The loop over the bytes of one span, from the byte `i` on.
unfoldable pub fold_span : GuestMemory → ℕ → Span → ℕ → ℕ → ℕ → ℕ
fold_span m bits span i zero value = value
fold_span m bits span i (suc left) value =
    fold_span m bits span (i + 1) left (shift_in bits value (load m span i))

-- The span of one byte of an access that crosses spans.
unfoldable pub span_of_byte : GuestMemory → Span → ℕ → ℕ → Result Span
span_of_byte m first address byte =
    if byte == 0 then ok first else storage_from m (u32 (address + byte))

-- The loop that looks up the span of each byte.
unfoldable pub fold_across : GuestMemory → ℕ → Span → ℕ → ℕ → ℕ → ℕ → Result ℕ
fold_across m bits first address byte zero value = ok value
fold_across m bits first address byte (suc left) value = do
  segment ← span_of_byte m first address byte
  fold_across m bits first address (byte + 1) left (shift_in bits value (load m segment 0))

-- What `read32_be` and `read64_be` do outside flat memory.
unfoldable pub read_checked : GuestMemory → ℕ → ℕ → ℕ → Result ℕ
read_checked m bits width address = do
  validate_access m address width Access.read
  first ← storage_from m address
  if leb width first.size
      then ok (fold_span m bits first 0 width 0)
      else fold_across m bits first address 0 width 0

unfoldable pub read16_be : GuestMemory → ℕ → Result ℕ
read16_be m address =
    if is_flat_range m address 2
    then ok (u16 (bit_or (get_or m.bytes address 0 <<< 8) (get_or m.bytes (u32 (address + 1)) 0)))
    else do
      validate_access m address 2 Access.read
      first ← storage_from m address
      if leb 2 first.size
          then ok (u16 (bit_or (u16 (load m first 0 <<< 8)) (load m first 1)))
          else do
            second ← storage_from m (u32 (address + 1))
            ok (u16 (bit_or (u16 (load m first 0 <<< 8)) (load m second 0)))

unfoldable pub read32_be : GuestMemory → ℕ → Result ℕ
read32_be m address =
    if is_flat_range m address 4
    then ok (
        bit_or
          (bit_or
            (bit_or (get_or m.bytes address 0 <<< 24) (get_or m.bytes (u32 (address + 1)) 0 <<< 16))
            (get_or m.bytes (u32 (address + 2)) 0 <<< 8))
          (get_or m.bytes (u32 (address + 3)) 0))
    else read_checked m 32 4 address

-- The loop of the fast path of `read64_be`.
unfoldable pub fold_flat : GuestMemory → ℕ → ℕ → ℕ → ℕ → ℕ
fold_flat m bits address zero value = value
fold_flat m bits address (suc left) value =
    fold_flat m bits (address + 1) left (shift_in bits value (get_or m.bytes address 0))

unfoldable pub read64_be : GuestMemory → ℕ → Result ℕ
read64_be m address =
    if is_flat_range m address 8
    then ok (fold_flat m 64 address 8 0)
    else read_checked m 64 8 address

-- `count` bytes of a span, from the byte `i` on.
unfoldable pub span_bytes : GuestMemory → Span → ℕ → ℕ → List ℕ
span_bytes m span i zero = []
span_bytes m span i (suc left) = load m span i ∷ span_bytes m span (i + 1) left

-- The copy loop; the fuel is the number of bytes left, since a round copies at least one.
unfoldable pub copy_out : GuestMemory → ℕ → ℕ → ℕ → Result (List ℕ)
copy_out m fuel current zero = ok []
copy_out m zero current (suc left) = ok []
copy_out m (suc fuel) current (suc left) = elim (storage_from m (u32 current)) [
  | err e ↦ err e
  | ok source ↦
      let count = min source.size (suc left) in
      let rest = copy_out m fuel (current + count) (suc left - count) in
      rest >>= λ others. ok (span_bytes m source 0 count ++ others)
]

-- `read_bytes`; the destination is the list returned.
unfoldable pub read_bytes : GuestMemory → ℕ → ℕ → Result (List ℕ)
read_bytes m address length =
    if length == 0
    then ok []
    else do validate_access m address length Access.read; copy_out m length address length
