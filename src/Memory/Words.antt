-- ===== src/Memory/Words.antt =====
-- The big-endian words of guest_memory.hpp in flat memory: a word read is the word written, and
-- words beside it are untouched.
use affogato.Base.{
  u32, min, ℕ, zero, suc, ◌+◌, ◌-◌, ◌*◌, ◌/◌, ◌%◌, ◌^◌, ◌≤◌, ◌<◌, ◌≡◌, refl, ap, ◌∙◌, ◌⊎◌, true,
  ◌&&◌, ok, arith, bit_or, or_fields, ◌<<<◌, ltb, leb, if◌then◌else◌, length, get_or, set,
  length-set, get_or-set_self, get_or-set_ne,
}
use affogato.Memory.State.{GuestMemory}
use affogato.Memory.Access.{is_flat_range}
use affogato.Memory.Read.{read32_be}
use affogato.Memory.Write.{byte_of, put_flat, write_be, write32_be}
use affogato.Memory.Layout.{layout, Apart}
use affogato.Memory.Bytes.{IsWellFormed}
use affogato.Memory.Bytes.Commit.{layout-SameContents, commit-Keeps}
use affogato.Memory.Bytes.Coherence.{IsWellFormed-transfer, SameContents-IsWellFormed}

-- Four bytes from an address on lie in flat memory and below 2^32.
abbrev pub IsFlatWord : GuestMemory → ℕ → Type 0
IsFlatWord m address = address + 4 ≤ min (length m.bytes) (2 ^ 32)

-- The number that four bytes stand for, the most significant first.
abbrev pub big_endian : ℕ → ℕ → ℕ → ℕ → ℕ
big_endian a b c d = a * 2 ^ 24 + b * 2 ^ 16 + c * 2 ^ 8 + d

or_bytes :
    (a b c d : ℕ)
    → b < 256
    → c < 256
    → d < 256
    → bit_or (bit_or (bit_or (a <<< 24) (b <<< 16)) (c <<< 8)) d ≡ big_endian a b c d
or_bytes a b c d hb hc hd = ground (
  arith,
  or_fields 24 a (b * 2 ^ 16),
  or_fields 16 (a * 256 + b) (c * 2 ^ 8),
  or_fields 8 (a * 65536 + b * 256 + c) d,
)

length-put_flat :
    (width v : ℕ) (m : GuestMemory) (address byte left : ℕ)
    → length (put_flat width v m address byte left).bytes ≡ length m.bytes
unfolding put_flat
length-put_flat width v m address byte zero = refl
length-put_flat width v m address byte (suc left) =
    length-put_flat width v
      (record m { bytes = set m.bytes (u32 (address + byte)) (byte_of width v byte) }) address
      (byte + 1) left
    ∙ length-set m.bytes (u32 (address + byte)) (byte_of width v byte)

-- Each byte of the range is the byte of the value; the others are as before.
get_or-put_flat :
    (width v : ℕ) (m : GuestMemory) (address byte left j : ℕ)
    → address + byte + left ≤ min (length m.bytes) (2 ^ 32)
    → get_or (put_flat width v m address byte left).bytes j 0 ≡ (
        if leb (address + byte) j && ltb j (address + byte + left)
        then byte_of width v (j - address)
        else get_or m.bytes j 0)
unfolding put_flat
get_or-put_flat width v m address byte zero j h = ground arith
get_or-put_flat width v m address byte (suc left) j h =
    let index = u32 (address + byte) in
    let same : index ≡ address + byte = omega arith in
    ground (
      arith,
      same,
      get_or-put_flat width v (record m { bytes = set m.bytes index (byte_of width v byte) })
          address (byte + 1) left j,
      length-set m.bytes index (byte_of width v byte),
      get_or-set_self m.bytes index (byte_of width v byte) 0,
      get_or-set_ne m.bytes index j (byte_of width v byte) 0,
      ap (byte_of width v) (let e : address + byte - address ≡ byte = omega arith in e),
    )

is_flat_range-word :
    (m : GuestMemory) (address : ℕ) → IsFlatWord m address → is_flat_range m address 4 ≡ true
unfolding is_flat_range
is_flat_range-word m address h = ground arith

read32_be-flat :
    (m : GuestMemory) (address : ℕ)
    → IsFlatWord m address
    → read32_be m address
      ≡ ok (
          bit_or
            (bit_or
              (bit_or (get_or m.bytes address 0 <<< 24) (get_or m.bytes (address + 1) 0 <<< 16))
              (get_or m.bytes (address + 2) 0 <<< 8))
            (get_or m.bytes (address + 3) 0))
unfolding read32_be
read32_be-flat m address h =
    let e : u32 (address + 1) ≡ address + 1 = omega arith in
    let e' : u32 (address + 2) ≡ address + 2 = omega arith in
    let e'' : u32 (address + 3) ≡ address + 3 = omega arith in
    rw (is_flat_range-word m address h, e, e', e'')

put_flat-IsWellFormed :
    (width v : ℕ) (m : GuestMemory) (address byte left : ℕ)
    → (layout (put_flat width v m address byte left) ≡ layout m)
      × ((put_flat width v m address byte left).write_watchpoint ≡ m.write_watchpoint)
unfolding put_flat layout
put_flat-IsWellFormed width v m address byte zero = (refl, refl)
put_flat-IsWellFormed width v m address byte (suc left) =
    let stored = record m { bytes = set m.bytes (u32 (address + byte)) (byte_of width v byte) } in
    let ih = put_flat-IsWellFormed width v stored address (byte + 1) left in
    (
      ih.0
          ∙ ap (λ (n : ℕ). record (layout m) { flat_size = n })
              (length-set m.bytes (u32 (address + byte)) (byte_of width v byte)),
      ih.1,
    )

-- What a memory `m'` shows after the word `v` is written at an address.
pub record ShowsWord (m : GuestMemory) (address v : ℕ) (m' : GuestMemory) : Type 0 where
  pub same_layout : layout m' ≡ layout m
  pub same_size : length m'.bytes ≡ length m.bytes
  pub well_formed : IsWellFormed m'
  pub reads_back : read32_be m' address ≡ ok v
  pub others_kept :
      (other : ℕ)
      → IsFlatWord m other
      → Apart other 4 address 4
      → read32_be m' other ≡ read32_be m other

module _ (m : GuestMemory) (address v : ℕ) (fits : IsFlatWord m address) where
  abbrev stored : GuestMemory
  stored = put_flat 4 v m address 0 4

  stored_inside :
      (j : ℕ) → j < 4 → get_or stored.bytes (address + j) 0 ≡ v / 2 ^ ((3 - j) * 8) % 2 ^ 8
  unfolding byte_of
  stored_inside j lt = ground (
    arith,
    get_or-put_flat 4 v m address 0 4 (address + j),
    ap (byte_of 4 v) (let e : address + j - address ≡ j = omega arith in e),
  )

  stored_outside :
      (j : ℕ) → (j < address) ⊎ (address + 4 ≤ j) → get_or stored.bytes j 0 ≡ get_or m.bytes j 0
  stored_outside j out = ground (arith, get_or-put_flat 4 v m address 0 4 j)

-- In a well-formed memory, writing a word of 32 bits at an address whose four bytes lie in flat
-- memory and below 2^32 succeeds and leaves a well-formed memory of the same size and address map, from which
-- the word reads back and every flat word that does not overlap it reads as before.
pub write32_be-ShowsWord :
    (m : GuestMemory) (address v : ℕ)
    → IsWellFormed m
    → IsFlatWord m address
    → v < 2 ^ 32
    → (m' : GuestMemory) × (write32_be m address v ≡ ok m') × ShowsWord m address v m'
unfolding write32_be write_be
write32_be-ShowsWord m address v w fits small =
    let kept = put_flat-IsWellFormed 4 v m address 0 4 in
    let stored_ok = IsWellFormed-transfer kept.0 kept.1 w in
    let (m', done, same) = commit-Keeps (stored m address v fits) address 4 stored_ok in
    let size : length m'.bytes ≡ length m.bytes =
      ap length same.same_bytes ∙ length-put_flat 4 v m address 0 4 in
    (
      m',
      rw (is_flat_range-word m address fits) done,
      record {
        same_layout = layout-SameContents same ∙ kept.0;
        same_size = size;
        well_formed = SameContents-IsWellFormed same stored_ok;
        reads_back =
            read32_be-flat m' address (rw size fits)
            ∙ rw same.same_bytes (
                ap ok (
                  ground (
                    arith,
                    stored_inside m address v fits 0,
                    stored_inside m address v fits 1,
                    stored_inside m address v fits 2,
                    stored_inside m address v fits 3,
                    ap (λ (t : ℕ). get_or (stored m address v fits).bytes t 0)
                        (let e : address + 0 ≡ address = omega arith in e),
                    or_bytes (v / 2 ^ 24 % 2 ^ 8) (v / 2 ^ 16 % 2 ^ 8) (v / 2 ^ 8 % 2 ^ 8)
                        (v / 2 ^ 0 % 2 ^ 8),
                  )));
        others_kept = λ other inside apart.
            read32_be-flat m' other (rw size inside)
            ∙ rw same.same_bytes (
                ground (
                  arith,
                  read32_be-flat m other inside,
                  stored_outside m address v fits other,
                  stored_outside m address v fits (other + 1),
                  stored_outside m address v fits (other + 2),
                  stored_outside m address v fits (other + 3),
                ));
      },
    )
