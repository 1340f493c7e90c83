-- ===== src/Elf/Accepted.antt =====
-- What the loader has checked of a file before it writes (src/cpu/espresso/elf_loader.cpp).
use affogato.Base.{
  ℕ, zero, suc, ◌⊎◌, inl, inr, ◌+◌, ◌*◌, ◌%◌, ◌^◌, ◌≤◌, ◌<◌, ◌≡◌, ◌≢◌, arith, true, List, [], ◌∷◌,
  ◌++◌, ok, Result-cases, length, bit_and, and_mask, All, All-append, Bool-cases,
}
use affogato.Memory.State.{GuestMemory}
use affogato.Core.{EspressoCore}
use affogato.Elf.{
  load_segments, load_elf32_powerpc, ElfLoadResult, LoadSegment, Found, FileHeader,
  require_file_range, check_segment, is_entry_segment, read_segment_fields, push_segment,
  check_entry, read_load_segment, read_program_header, read_program_headers, read_file_header,
  nothing_found, read_segments,
}

-- The segment lies in the file and in flat memory, and its bytes fit the memory it takes.
pub record Fits (file : List ℕ) (flat_size : ℕ) (s : LoadSegment) : Type 0 where
  pub in_file : s.file_offset + s.file_size ≤ length file
  pub in_memory : s.virtual_address + s.memory_size ≤ flat_size
  pub below_limit : s.virtual_address + s.memory_size ≤ 2 ^ 32
  pub room : s.file_size ≤ s.memory_size

-- An executable segment that contains the address.
abbrev pub Executes : ℕ → LoadSegment → Type 0
Executes entry s =
    (bit_and s.flags 1 ≢ 0)
    × (s.virtual_address ≤ entry)
    × (entry < s.virtual_address + s.memory_size)

abbrev pub Any {ℓ} : {A : Type ℓ} → (A → Type 0) → List A → Type 0
Any P [] = ⊥
Any P (x ∷ xs) = P x ⊎ Any P xs

Any-append-left {ℓ} : {A : Type ℓ} (P : A → Type 0) (xs ys : List A) → Any P xs → Any P (xs ++ ys)
Any-append-left P [] ys h = absurd h
Any-append-left P (x ∷ xs) ys (inl here) = inl here
Any-append-left P (x ∷ xs) ys (inr there) = inr (Any-append-left P xs ys there)

Any-append-last {ℓ} :
    {A : Type ℓ} (P : A → Type 0) (xs : List A) (y : A) → P y → Any P (xs ++ y ∷ [])
Any-append-last P [] y h = inl h
Any-append-last P (x ∷ xs) y h = inr (Any-append-last P xs y h)

check_segment-Fits :
    (file : List ℕ) (m : GuestMemory) (s : LoadSegment) (alignment : ℕ)
    → check_segment file m s alignment ≡ ok tt
    → Fits file (length m.bytes) s
unfolding check_segment require_file_range
check_segment-Fits file m s alignment e = record {
  in_file = ground arith;
  in_memory = ground arith;
  below_limit = ground arith;
  room = ground arith;
}

is_entry_segment-Executes :
    (entry : ℕ) (s : LoadSegment) → is_entry_segment entry s ≡ true → Executes entry s
unfolding is_entry_segment
is_entry_segment-Executes entry s e = (ground arith, ground arith, ground arith)

-- What the loop has established of the program headers that it has read.
record Checked (file : List ℕ) (m : GuestMemory) (entry : ℕ) (found : Found) : Type 0 where
  fit : All (Fits file (length m.bytes)) found.segments
  executes : found.entry_is_executable ≡ true → Any (Executes entry) found.segments

module _ (file : List ℕ) (m : GuestMemory) (entry : ℕ) where
  push_segment-Checked :
      (s : LoadSegment) (alignment : ℕ) (found : Found)
      → check_segment file m s alignment ≡ ok tt
      → Checked file m entry found
      → Checked file m entry (push_segment entry s found)
  unfolding push_segment
  push_segment-Checked s alignment found e checked = record {
    fit =
        All-append (Fits file (length m.bytes)) found.segments (s ∷ []) checked.fit
          (check_segment-Fits file m s alignment e, tt);
    executes = λ h. elim (Bool-cases (is_entry_segment entry s)) [
      | inl here ↦
          Any-append-last (Executes entry) found.segments s (is_entry_segment-Executes entry s here)
      | inr other ↦
          Any-append-left (Executes entry) found.segments (s ∷ []) (checked.executes (ground arith))
    ];
  }

  read_load_segment-Checked :
      (offset : ℕ) (found next : Found)
      → read_load_segment file m entry offset found ≡ ok next
      → Checked file m entry found
      → Checked file m entry next
  unfolding read_load_segment
  read_load_segment-Checked offset found next e checked =
      elim (Result-cases (read_segment_fields file offset)) [
        | inr (thrown, p) ↦ absurd (ground arith)
        | inl ((s, alignment), p) ↦ ground (arith, push_segment-Checked s alignment found)
      ]

  read_program_header-Checked :
      (offset : ℕ) (found next : Found)
      → read_program_header file m entry offset found ≡ ok next
      → Checked file m entry found
      → Checked file m entry next
  unfolding read_program_header
  read_program_header-Checked offset found next e checked =
      ground (arith, read_load_segment-Checked offset found next)

read_program_headers-Checked :
    (file : List ℕ) (m : GuestMemory) (header : FileHeader) (left index : ℕ) (found last : Found)
    → read_program_headers file m header left index found ≡ ok last
    → Checked file m header.entry_point found
    → Checked file m header.entry_point last
unfolding read_program_headers
read_program_headers-Checked file m header zero index found last e checked = ground arith
read_program_headers-Checked file m header (suc left) index found last e checked =
    let offset = header.table_offset + index * header.entry_size in
    elim (Result-cases (read_program_header file m header.entry_point offset found)) [
      | inr (thrown, p) ↦ absurd (ground arith)
      | inl (next, p) ↦
          read_program_headers-Checked file m header left (index + 1) next last (ground arith)
            (read_program_header-Checked file m header.entry_point offset found next p checked)
    ]

-- What is known of an accepted file: the entry point is aligned and lies in an executable segment,
-- and every segment fits.
pub record Accepted (file : List ℕ) (m : GuestMemory) (entry : ℕ) (segments : List LoadSegment)
    : Type 0 where
  pub aligned : entry % 4 ≡ 0
  pub fit : All (Fits file (length m.bytes)) segments
  pub executes : Any (Executes entry) segments

check_entry-Accepted :
    (file : List ℕ) (m : GuestMemory) (entry : ℕ) (found : Found)
    → Checked file m entry found
    → check_entry entry found ≡ ok tt
    → Accepted file m entry found.segments
unfolding check_entry
check_entry-Accepted file m entry found checked e = record {
  aligned = ground (arith, and_mask 2 entry);
  fit = checked.fit;
  executes = checked.executes (ground arith);
}

pub read_segments-Accepted :
    (file : List ℕ) (m : GuestMemory) (entry : ℕ) (segments : List LoadSegment)
    → read_segments file m ≡ ok (entry, segments)
    → Accepted file m entry segments
unfolding read_segments
read_segments-Accepted file m entry segments e = elim (Result-cases (read_file_header file)) [
  | inr (thrown, p) ↦ absurd (ground arith)
  | inl (header, p) ↦
      elim (Result-cases
        (read_program_headers file m header header.program_header_count 0 nothing_found)) [
          | inr (thrown, q) ↦ absurd (ground arith)
          | inl (found, q) ↦
              let checked : Checked file m header.entry_point found =
                read_program_headers-Checked file m header header.program_header_count 0
                  nothing_found found q (record { fit = tt; executes = λ h. absurd (cc) }) in
              ground (arith, check_entry-Accepted file m header.entry_point found checked)
        ]
]

-- If the loader accepts a file, there are segments such that the memory afterwards is the one
-- that loading them in turn gives, the registers are the same but for the address of the next
-- instruction, which is the entry point that is returned, and the number of segments is the one
-- that is returned. The entry point is a multiple of 4 and lies in a segment that is executable;
-- and each segment lies in the file, in flat memory and below 2^32, with no more bytes in the
-- file than in memory.
pub load_elf32_powerpc-Accepted :
    (core : EspressoCore) (file : List ℕ) (after : EspressoCore) (result : ElfLoadResult)
    → load_elf32_powerpc core file ≡ ok (after, result)
    → (segments : List LoadSegment) × (load_segments file core.memory segments ≡ ok after.memory)
      × (after.state ≡ record (core.state) { cia = result.entry_point })
      × (length segments ≡ result.loaded_segments)
      × Accepted file core.memory result.entry_point segments
unfolding load_elf32_powerpc
load_elf32_powerpc-Accepted core file after result e =
    elim (Result-cases (read_segments file core.memory)) [
      | inr (thrown, p) ↦ absurd (ground arith)
      | inl ((entry, segments), p) ↦ elim (Result-cases (load_segments file core.memory segments)) [
        | inr (thrown, q) ↦ absurd (ground arith)
        | inl (m, q) ↦
            let accepted = read_segments-Accepted file core.memory entry segments p in
            let same : entry ≡ result.entry_point = ground arith in
            (segments, ground arith, ground arith, ground arith, rw (← same) accepted)
      ]
    ]
