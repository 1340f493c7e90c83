-- ===== src/Elf/Loads.antt =====
-- The loads of the segments of an accepted file (src/cpu/espresso/elf_loader.cpp).
use affogato.Base.{
  ℕ, zero, suc, ◌+◌, ◌^◌, ◌≤◌, ◌<◌, ◌≡◌, refl, ◌∙◌, arith, List, [], ◌∷◌, ok, length, take, drop,
  All,
}
use affogato.Core.{EspressoCore}
use affogato.Memory.State.{GuestMemory}
use affogato.Memory.Bytes.{IsWellFormed}
use affogato.Elf.{LoadSegment, subspan, load_segments, read_segments, load_elf32_powerpc}
use affogato.Elf.Accepted.{Fits, read_segments-Accepted}
use affogato.Elf.Returns.{
  Kept, Kept-trans, Returns, length-Kept, zero_fill-Returns, write_bytes-Returns,
}

length-take : (n : ℕ) (xs : List ℕ) → length (take n xs) ≤ n
length-take zero xs = omega arith
length-take (suc n) [] = omega arith
length-take (suc n) (x ∷ xs) = omega (arith, length-take n xs)

load_segment-Returns :
    (file : List ℕ) (m : GuestMemory) (s : LoadSegment)
    → IsWellFormed m
    → s.virtual_address < length m.bytes
    → s.virtual_address + s.memory_size ≤ length m.bytes
    → s.virtual_address + s.memory_size ≤ 2 ^ 32
    → s.file_size ≤ s.memory_size
    → (rest : List LoadSegment)
    → (m' : GuestMemory) × (load_segments file m (s ∷ rest) ≡ load_segments file m' rest)
      × Kept m m'
unfolding load_segments
load_segment-Returns file m s w start inside below room rest =
    let values = subspan file s.file_offset s.file_size in
    let short : length values ≤ s.file_size = length-take s.file_size (drop s.file_offset file) in
    let (filled, e, k) = zero_fill-Returns m s.virtual_address s.memory_size w inside below in
    let same = length-Kept k in
    let (written, e', k') =
      write_bytes-Returns filled s.virtual_address values k.well_formed (omega arith) (omega arith)
        (omega arith) in
    (written, rw (e, e') refl, Kept-trans k k')

load_segments-Returns :
    (segments : List LoadSegment) (file : List ℕ) (size : ℕ) (m : GuestMemory)
    → length m.bytes ≡ size
    → IsWellFormed m
    → All (λ s. Fits file size s × (s.virtual_address < size)) segments
    → Returns m (load_segments file m segments)
unfolding load_segments
load_segments-Returns [] file size m same w fit =
    (m, refl, record { well_formed = w; same_layout = refl })
load_segments-Returns (s ∷ rest) file size m same w ((fits, start), others) =
    let (next, e, k) =
      load_segment-Returns file m s w (omega arith) (omega (arith, fits.in_memory)) fits.below_limit
        fits.room rest in
    let (last, e', k') =
      load_segments-Returns rest file size next (length-Kept k ∙ same) k.well_formed others in
    (last, e ∙ e', Kept-trans k k')

fit-starting :
    (file : List ℕ) (size : ℕ) (segments : List LoadSegment)
    → All (Fits file size) segments
    → All (λ s. s.virtual_address < size) segments
    → All (λ s. Fits file size s × (s.virtual_address < size)) segments
fit-starting file size [] h k = tt
fit-starting file size (s ∷ rest) h k = ((h.0, k.0), fit-starting file size rest h.1 k.1)

-- If the checks accept a file for a well-formed memory, and every segment begins inside flat
-- memory, then the load returns: no store of it faults. The result is the entry point and the
-- number of segments, and the memory afterwards is well formed with the same address map.
pub load_elf32_powerpc-returns :
    (core : EspressoCore) (file : List ℕ) (entry : ℕ) (segments : List LoadSegment)
    → IsWellFormed core.memory
    → read_segments file core.memory ≡ ok (entry, segments)
    → All (λ s. s.virtual_address < length core.memory.bytes) segments
    → (after : EspressoCore) × (load_elf32_powerpc core file
        ≡ ok (after, record { entry_point = entry; loaded_segments = length segments }))
      × Kept core.memory after.memory
unfolding load_elf32_powerpc
load_elf32_powerpc-returns core file entry segments w e start =
    let accepted = read_segments-Accepted file core.memory entry segments e in
    let (m, e', k) =
      load_segments-Returns segments file (length core.memory.bytes) core.memory refl w
        (fit-starting file (length core.memory.bytes) segments accepted.fit start) in
    (record core { state = record (core.state) { cia = entry }; memory = m }, rw (e, e') refl, k)
