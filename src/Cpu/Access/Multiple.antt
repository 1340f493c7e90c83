-- ===== src/Cpu/Access/Multiple.antt =====
-- `stmw` and `lmw` (src/cpu/espresso/interpreter.cpp): the registers saved and restored.
use affogato.Base.{
  ℕ, zero, suc, ◌+◌, ◌-◌, ◌*◌, ◌^◌, ◌<◌, ◌≤◌, ◌≡◌, refl, ap, ◌∙◌, inl, ok, arith, length, u32, leb,
  ltb, ◌&&◌, if◌then◌else◌,
}
use affogato.Cpu.State.{CpuState}
use affogato.Cpu.Flags.{write_gpr}
use affogato.Cpu.Decoder.Instruction.{DecodedInstruction}
use affogato.Cpu.Access.{
  effective_address, load_words, store_words, load_multiple_word, store_multiple_word,
}
use affogato.Memory.State.{GuestMemory}
use affogato.Memory.Read.{read32_be}
use affogato.Memory.Bytes.{IsWellFormed}
use affogato.Memory.Words.{IsFlatWord, write32_be-ShowsWord}

-- The memory `m` shows the registers from `reg` on, `left` of them, from the address on.
abbrev pub Saved : CpuState → ℕ → ℕ → ℕ → GuestMemory → Type 0
Saved s reg address left m =
    (k : ℕ) → k < left → read32_be m (address + 4 * k) ≡ ok (s.gpr (reg + k))

-- The words below the address read as before.
abbrev KeptBelow : ℕ → GuestMemory → GuestMemory → Type 0
KeptBelow address m m' =
    (other : ℕ) → IsFlatWord m other → other + 4 ≤ address → read32_be m' other ≡ read32_be m other

Saved-suc :
    (s : CpuState) (reg address left : ℕ) (m : GuestMemory)
    → read32_be m address ≡ ok (s.gpr reg)
    → Saved s (reg + 1) (address + 4) left m
    → Saved s reg address (suc left) m
Saved-suc s reg address left m first rest zero lt =
    let a : address + 4 * 0 ≡ address = omega arith in
    let r : reg + 0 ≡ reg = omega arith in rw (a, r) first
Saved-suc s reg address left m first rest (suc k) lt =
    let a : address + 4 * suc k ≡ address + 4 + 4 * k = omega arith in
    let r : reg + suc k ≡ reg + 1 + k = omega arith in rw (a, r) (rest k (omega arith))

module _ (s : CpuState) (words : (register : ℕ) → s.gpr register < 2 ^ 32) where
  store_words-Saved :
      (reg address left : ℕ) (m : GuestMemory)
      → IsWellFormed m
      → address + 4 * left ≤ length m.bytes
      → length m.bytes ≤ 2 ^ 32 - 4
      → (m' : GuestMemory) × (store_words s reg address left m ≡ ok m')
        × Saved s reg address left m'
        × KeptBelow address m m'
        × (length m'.bytes ≡ length m.bytes)
  unfolding store_words
  store_words-Saved reg address zero m w fits room =
      (m, refl, λ k lt. absurd (omega arith), λ other inside apart. refl, refl)
  store_words-Saved reg address (suc left) m w fits room =
      let (n, stored, shows) =
        write32_be-ShowsWord m address (s.gpr reg) w (omega arith) (words reg) in
      let size = shows.same_size in
      let (m', done, saved, below, same) =
        store_words-Saved (reg + 1) (address + 4) left n shows.well_formed (omega arith)
          (omega arith) in
      let next : u32 (address + 4) ≡ address + 4 = omega arith in
      (
        m',
        rw (stored, next) done,
        Saved-suc s reg address left m'
            (below address (omega arith) (omega arith) ∙ shows.reads_back) saved,
        λ other inside apart.
            below other (omega arith) (omega arith)
            ∙ shows.others_kept other inside (inl (omega arith)),
        same ∙ size,
      )

-- The loop of loads reads what the memory shows.
abbrev Restored : CpuState → CpuState → ℕ → ℕ → CpuState → Type 0
Restored s t reg left t' =
    (r : ℕ) → t'.gpr r ≡ (if leb reg r && ltb r (reg + left) then s.gpr r else t.gpr r)

-- One round of the loop of loads, at an address that does not wrap around.
load_words-round :
    (m : GuestMemory) (reg address left value : ℕ) (t t' : CpuState)
    → address + 4 < 2 ^ 32
    → read32_be m address ≡ ok value
    → load_words m (reg + 1) (address + 4) left (write_gpr t reg value) ≡ ok t'
    → load_words m reg address (suc left) t ≡ ok t'
unfolding load_words
load_words-round m reg address left value t t' room first rest =
    let next : u32 (address + 4) ≡ address + 4 = omega arith in rw (first, next) rest

load_multiple_word-words :
    (t t' : CpuState) (m : GuestMemory) (i : DecodedInstruction) (reg address : ℕ)
    → i.destination ≡ reg
    → effective_address t i.base i.immediate ≡ address
    → load_words m reg address (32 - reg) t ≡ ok t'
    → load_multiple_word t m i ≡ ok (t', m)
unfolding load_multiple_word
load_multiple_word-words t t' m i reg address same_reg same loaded =
    rw (same_reg, same, loaded) refl

load_words-Restored :
    (s t : CpuState) (m : GuestMemory) (reg address left : ℕ)
    → address + 4 * left ≤ 2 ^ 32 - 4
    → Saved s reg address left m
    → (t' : CpuState) × (load_words m reg address left t ≡ ok t') × Restored s t reg left t'
unfolding load_words write_gpr
load_words-Restored s t m reg address zero room saved = (t, refl, λ r. ground arith)
load_words-Restored s t m reg address (suc left) room saved =
    let a : address + 4 * 0 ≡ address = omega arith in
    let g : reg + 0 ≡ reg = omega arith in
    let first : read32_be m address ≡ ok (s.gpr reg) = rw (a, g) at (saved 0 (omega arith)) in
    let rest : Saved s (reg + 1) (address + 4) left m = λ k lt.
      let b : address + 4 * suc k ≡ address + 4 + 4 * k = omega arith in
      let h : reg + suc k ≡ reg + 1 + k = omega arith in
      rw (b, h) at (saved (suc k) (omega arith)) in
    let (t', done, restored) =
      load_words-Restored s (write_gpr t reg (s.gpr reg)) m (reg + 1) (address + 4) left
        (omega arith) rest in
    (
      t',
      load_words-round m reg address left (s.gpr reg) t t' (omega arith) first done,
      λ r. ground (arith, restored r, λ (e : reg ≡ r). ap s.gpr e),
    )

-- In a well-formed memory of less than 4 GiB, `stmw` from 32-bit registers into flat memory
-- succeeds, and a later `lmw` from the same effective address and the same first register, in
-- whatever state of the registers, restores each register from that one to the last and changes no
-- other general register.
pub load_multiple_word-store_multiple_word :
    (s t : CpuState) (m : GuestMemory) (save restore : DecodedInstruction)
    → ((register : ℕ) → s.gpr register < 2 ^ 32)
    → IsWellFormed m
    → save.source ≤ 32
    → effective_address s save.base save.immediate + 4 * (32 - save.source) ≤ length m.bytes
    → length m.bytes ≤ 2 ^ 32 - 4
    → restore.destination ≡ save.source
    → effective_address t restore.base restore.immediate
      ≡ effective_address s save.base save.immediate
    → (m' : GuestMemory) × (store_multiple_word s m save ≡ ok (s, m'))
      × (t' : CpuState) × (load_multiple_word t m' restore ≡ ok (t', m'))
      × ((r : ℕ) → r < 32 → t'.gpr r ≡ (if leb save.source r then s.gpr r else t.gpr r))
unfolding store_multiple_word
load_multiple_word-store_multiple_word s t m save restore words w first fits room same_reg same =
    let address = effective_address s save.base save.immediate in
    let (m', stored, saved, below, size) =
      store_words-Saved s words save.source address (32 - save.source) m w fits room in
    let (t', loaded, restored) =
      load_words-Restored s t m' save.source address (32 - save.source) (omega arith) saved in
    (
      m',
      rw stored refl,
      t',
      load_multiple_word-words t t' m' restore save.source address same_reg same loaded,
      λ r lt. ground (arith, restored r),
    )
