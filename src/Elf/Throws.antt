-- ===== src/Elf/Throws.antt =====
-- The exceptions of the loader (src/cpu/espresso/elf_loader.cpp).
use affogato.Base.{
  ℕ, zero, suc, ◌+◌, ◌*◌, ◌<◌, ◌≡◌, ◌⊎◌, inl, inr, sym, ◌∙◌, arith, Bool, true, false, List, [],
  ◌∷◌, Error, Result, ok, err, throw_if, invalid_argument, ◌>>=◌, ◌>>◌, length, dec_lt, All,
  Result-cases,
}
use affogato.Core.{EspressoCore}
use affogato.Memory.State.{GuestMemory}
use affogato.Memory.Bytes.{IsWellFormed}
use affogato.Elf.{
  FileHeader, Found, LoadSegment, require_file_range, read_file16_be, read_file32_be,
  check_identification, read_file_header, check_segment, read_segment_fields, read_load_segment,
  read_program_header, read_program_headers, nothing_found, check_entry, read_segments,
  load_elf32_powerpc,
}
use affogato.Elf.Accepted.{Any, Fits, read_segments-Accepted}
use affogato.Elf.Loads.{load_elf32_powerpc-returns}

-- The only exception of the code is `std::invalid_argument`.
abbrev Rejects {ℓ} : {A : Type ℓ} → Result A → Type ℓ
Rejects r = (e : Error) → r ≡ err e → e ≡ invalid_argument

ok-Rejects {ℓ} : {A : Type ℓ} (a : A) → Rejects (ok a)
ok-Rejects a e h = absurd (cc)

bind-Rejects {ℓ κ} :
    {A : Type ℓ} {B : Type κ} (r : Result A) (next : A → Result B)
    → Rejects r
    → ((a : A) → Rejects (next a))
    → Rejects (r >>= next)
bind-Rejects (err thrown) next h k e p = h e (ground arith)
bind-Rejects (ok a) next h k e p = k a e p

then-Rejects {ℓ} :
    {B : Type ℓ} (done : Result (Unit {0})) (rest : Result B)
    → Rejects done
    → Rejects rest
    → Rejects (done >> rest)
then-Rejects (err thrown) rest h k e p = h e (ground arith)
then-Rejects (ok tt) rest h k e p = k e p

throw_if-Rejects : (b : Bool) → Rejects (throw_if b invalid_argument)
throw_if-Rejects true e h = ground arith
throw_if-Rejects false e h = absurd (cc)

module _ (file : List ℕ) where
  require_file_range-Rejects : (offset size : ℕ) → Rejects (require_file_range file offset size)
  unfolding require_file_range
  require_file_range-Rejects offset size e h = ground arith

  read_file16_be-Rejects : (offset : ℕ) → Rejects (read_file16_be file offset)
  unfolding read_file16_be
  read_file16_be-Rejects offset e h = ground (arith, require_file_range-Rejects offset 2 e)

  read_file32_be-Rejects : (offset : ℕ) → Rejects (read_file32_be file offset)
  unfolding read_file32_be
  read_file32_be-Rejects offset e h = ground (arith, require_file_range-Rejects offset 4 e)

  check_identification-Rejects : Rejects (check_identification file)
  unfolding check_identification
  check_identification-Rejects e h = ground (arith, require_file_range-Rejects 0 52 e)

  read_file_header-Rejects : Rejects (read_file_header file)
  unfolding read_file_header
  read_file_header-Rejects = then-Rejects _ _ check_identification-Rejects (
      bind-Rejects _ _ (read_file16_be-Rejects 16) λ kind.
        bind-Rejects _ _ (read_file16_be-Rejects 18) λ machine.
          bind-Rejects _ _ (read_file32_be-Rejects 20) λ version.
            bind-Rejects _ _ (read_file32_be-Rejects 24) λ entry_point.
              bind-Rejects _ _ (read_file32_be-Rejects 28) λ table_offset.
                bind-Rejects _ _ (read_file16_be-Rejects 40) λ header_size.
                  bind-Rejects _ _ (read_file16_be-Rejects 42) λ entry_size.
                    bind-Rejects _ _ (read_file16_be-Rejects 44) λ count.
                      then-Rejects _ _ (throw_if-Rejects _) (
                        then-Rejects _ _ (throw_if-Rejects _) (
                          then-Rejects _ _ (require_file_range-Rejects 0 header_size)
                            (then-Rejects _ _ (throw_if-Rejects _) (ok-Rejects _)))))

  read_segment_fields-Rejects : (offset : ℕ) → Rejects (read_segment_fields file offset)
  unfolding read_segment_fields
  read_segment_fields-Rejects offset =
      bind-Rejects _ _ (read_file32_be-Rejects (offset + 4)) λ file_offset.
        bind-Rejects _ _ (read_file32_be-Rejects (offset + 8)) λ virtual_address.
          bind-Rejects _ _ (read_file32_be-Rejects (offset + 16)) λ file_size.
            bind-Rejects _ _ (read_file32_be-Rejects (offset + 20)) λ memory_size.
              bind-Rejects _ _ (read_file32_be-Rejects (offset + 24)) λ flags.
                bind-Rejects _ _ (read_file32_be-Rejects (offset + 28)) λ alignment. ok-Rejects _

  check_segment-Rejects :
      (m : GuestMemory) (s : LoadSegment) (alignment : ℕ)
      → Rejects (check_segment file m s alignment)
  unfolding check_segment
  check_segment-Rejects m s alignment e h =
      ground (arith, require_file_range-Rejects s.file_offset s.file_size e)

  read_program_header-Rejects :
      (m : GuestMemory) (entry offset : ℕ) (found : Found)
      → Rejects (read_program_header file m entry offset found)
  unfolding read_program_header read_load_segment
  read_program_header-Rejects m entry offset found e h =
      elim (Result-cases (read_segment_fields file offset)) [
        | inr (thrown, p) ↦
            ground (arith, p, read_file32_be-Rejects offset e, read_segment_fields-Rejects offset e)
        | inl ((s, alignment), p) ↦
            ground
              (arith, p, read_file32_be-Rejects offset e, check_segment-Rejects m s alignment e)
      ]

  read_program_headers-Rejects :
      (m : GuestMemory) (header : FileHeader) (left index : ℕ) (found : Found)
      → Rejects (read_program_headers file m header left index found)
  unfolding read_program_headers
  read_program_headers-Rejects m header zero index found e h = absurd (cc)
  read_program_headers-Rejects m header (suc left) index found e h =
      let offset = header.table_offset + index * header.entry_size in
      elim (Result-cases (read_program_header file m header.entry_point offset found)) [
        | inr (thrown, p) ↦
            ground (arith, read_program_header-Rejects m header.entry_point offset found e)
        | inl (next, p) ↦
            read_program_headers-Rejects m header left (index + 1) next e (ground arith)
      ]

  read_segments-Rejects : (m : GuestMemory) → Rejects (read_segments file m)
  unfolding read_segments check_entry
  read_segments-Rejects m e h = elim (Result-cases (read_file_header file)) [
    | inr (thrown, p) ↦ ground (arith, read_file_header-Rejects e)
    | inl (header, p) ↦
        ground (
          arith,
          read_program_headers-Rejects m header header.program_header_count 0 nothing_found e,
        )
  ]

-- A segment that begins where flat memory ends, and so is empty.
abbrev pub BeginsAtEnd : ℕ → LoadSegment → Type 0
BeginsAtEnd size s = (s.virtual_address ≡ size) × (s.memory_size ≡ 0)

starting :
    (file : List ℕ) (size : ℕ) (segments : List LoadSegment)
    → All (Fits file size) segments
    → All (λ s. s.virtual_address < size) segments ⊎ Any (BeginsAtEnd size) segments
starting file size [] h = inl tt
starting file size (s ∷ rest) (fits, others) = elim (dec_lt s.virtual_address size) [
  | no beyond ↦ inr (inl (omega (arith, fits.in_memory), omega (arith, fits.in_memory)))
  | yes inside ↦ elim (starting file size rest others) [
    | inl all ↦ inl (inside, all)
    | inr at_end ↦ inr (inr at_end)
  ]
]

-- If the loader throws in a core whose memory is well formed, then either it throws
-- `std::invalid_argument` before it has written anything, or it has accepted a file with an empty
-- segment that begins where flat memory ends.
pub load_elf32_powerpc-throws :
    (core : EspressoCore) (file : List ℕ) (e : Error)
    → IsWellFormed core.memory
    → load_elf32_powerpc core file ≡ err e
    → ((e ≡ invalid_argument) × (read_segments file core.memory ≡ err e))
      ⊎ ((entry : ℕ) × (segments : List LoadSegment) × (read_segments file core.memory
            ≡ ok (entry, segments))
          × Any (BeginsAtEnd (length core.memory.bytes)) segments)
unfolding load_elf32_powerpc
load_elf32_powerpc-throws core file e w h = elim (Result-cases (read_segments file core.memory)) [
  | inr (thrown, p) ↦
      let same : thrown ≡ e = ground arith in
      let rejected : read_segments file core.memory ≡ err e = rw (← same) p in
      inl (read_segments-Rejects file core.memory e rejected, rejected)
  | inl ((entry, segments), p) ↦
      let accepted = read_segments-Accepted file core.memory entry segments p in
      elim (starting file (length core.memory.bytes) segments accepted.fit) [
        | inr at_end ↦ inr (entry, segments, p, at_end)
        | inl inside ↦
            let (after, done, k) = load_elf32_powerpc-returns core file entry segments w p inside in
            absurd (
              let clash : err e
                  ≡ ok (after, record { entry_point = entry; loaded_segments = length segments }) =
                sym h ∙ done in
              cc)
      ]
]
