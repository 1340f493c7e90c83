-- ===== src/Cpu/Access/Reserve.antt =====
-- The reservation of `lwarx` and `stwcx.` (src/cpu/espresso/interpreter.cpp).
use affogato.Base.{
  ℕ, sym, leb, ◌-◌, ◌<◌, ◌≤◌, ◌^◌, ap, ◌∙◌, Bool, bit, bit_or, bit_and, u32, ◌<<<◌, ◌==◌,
  if◌then◌else◌, ◌≡◌, refl, true, false, ok, arith,
}
use affogato.Cpu.State.{CpuState}
use affogato.Cpu.Flags.{has_bits, xer_summary_overflow_mask, read_cr_bit, put_cr_field}
use affogato.Cpu.Flags.Digits.{summary_of}
use affogato.Cpu.Flags.Field.{read_cr_bit-bit, put_cr_field-bit}
use affogato.Cpu.Decoder.Instruction.{DecodedInstruction}
use affogato.Cpu.Access.{
  indexed_address, load_word_reserve_indexed, store_word_conditional_indexed, finish_conditional,
  reserved,
}
use affogato.Memory.State.{GuestMemory}
use affogato.Memory.Map.{reservation_address}
use affogato.Memory.Read.{read32_be}
use affogato.Memory.Bytes.{IsWellFormed}
use affogato.Memory.Words.{IsFlatWord, write32_be-ShowsWord}
use affogato.Memory.Write.{write32_be}

-- What a `lwarx` that completes has checked and left.
record Reserves (s' : CpuState) (m : GuestMemory) (address : ℕ) : Type 0 where
  is_aligned : has_bits address 3 ≡ false
  is_valid : s'.reservation_valid ≡ true
  is_address : s'.reservation_address ≡ reservation_address m address

load_word_reserve_indexed-Reserves :
    (s s' : CpuState) (m m' : GuestMemory) (i : DecodedInstruction)
    → load_word_reserve_indexed s m i ≡ ok (s', m')
    → Reserves s' m (indexed_address s i)
unfolding load_word_reserve_indexed
load_word_reserve_indexed-Reserves s s' m m' i loaded = record {
  is_aligned = ground arith;
  is_valid = ground arith;
  is_address = ground arith;
}

-- What a `stwcx.` that completes leaves in the registers: no reservation, and in the first field of the
-- condition register whether it stored, beside the summary overflow bit.
pub record Reports (s : CpuState) (success : Bool) (t : CpuState) : Type 0 where
  pub released : t.reservation_valid ≡ false
  pub less_bit : read_cr_bit t 0 ≡ false
  pub greater_bit : read_cr_bit t 1 ≡ false
  pub equal_bit : read_cr_bit t 2 ≡ success
  pub summary_bit : read_cr_bit t 3 ≡ summary_of s
  pub others_kept : (n : ℕ) → 4 ≤ n → n < 32 → read_cr_bit t n ≡ read_cr_bit s n
  pub same_gpr : t.gpr ≡ s.gpr

abbrev field_of : Bool → Bool → ℕ
field_of success over = bit_or (if success then 2 else 0) (if over then 1 else 0)

field_bits :
    (success over : Bool)
    → ((bit (field_of success over) 3 == 1) ≡ false)
      × ((bit (field_of success over) 2 == 1) ≡ false)
      × ((bit (field_of success over) 1 == 1) ≡ success)
      × ((bit (field_of success over) 0 == 1) ≡ over)
      × (field_of success over < 16)
field_bits true true = (refl, refl, refl, refl, omega arith)
field_bits true false = (refl, refl, refl, refl, omega arith)
field_bits false true = (refl, refl, refl, refl, omega arith)
field_bits false false = (refl, refl, refl, refl, omega arith)

finish_conditional-cr :
    (s : CpuState) (success : Bool)
    → (finish_conditional s success).cr ≡ (put_cr_field s 0 (field_of success (summary_of s))).cr
unfolding finish_conditional put_cr_field summary_of
finish_conditional-cr s success =
    let over = has_bits s.xer xer_summary_overflow_mask in
    let (l, g, e, o, small) = field_bits success over in
    let fits : u32 (field_of success over <<< 28) ≡ field_of success over <<< 28 = omega arith in
    ap (λ (t : ℕ). bit_or (bit_and s.cr 0x0FFFFFFF) t) (sym fits)

module _ (s : CpuState) (success : Bool) where
  abbrev reported : ℕ
  reported = field_of success (summary_of s)

  -- A bit of the condition register afterwards.
  read_cr_bit-finish_conditional :
      (n : ℕ)
      → n < 32
      → read_cr_bit (finish_conditional s success) n
        ≡ (if leb n 3 then bit reported (3 - n) == 1 else read_cr_bit s n)
  read_cr_bit-finish_conditional n lt =
      let small = (field_bits success (summary_of s)).4 in
      let same : 31 - n - 28 ≡ 3 - n = omega arith in
      read_cr_bit-bit (finish_conditional s success) n
      ∙ ground (
        arith,
        ap (λ (t : ℕ). bit t (31 - n)) (finish_conditional-cr s success),
        put_cr_field-bit s 0 reported (31 - n) small (omega arith),
        ap (bit reported) same,
        read_cr_bit-bit s n,
      )

  finish_conditional-Reports : Reports s success (finish_conditional s success)
  finish_conditional-Reports =
      let (less, greater, equal, over, small) = field_bits success (summary_of s) in
      record {
        released = unfold finish_conditional in refl;
        less_bit = read_cr_bit-finish_conditional 0 (omega arith) ∙ less;
        greater_bit = read_cr_bit-finish_conditional 1 (omega arith) ∙ greater;
        equal_bit = read_cr_bit-finish_conditional 2 (omega arith) ∙ equal;
        summary_bit = read_cr_bit-finish_conditional 3 (omega arith) ∙ over;
        others_kept = λ n above lt. read_cr_bit-finish_conditional n lt ∙ ground arith;
        same_gpr = unfold finish_conditional in refl;
      }

module _ (t : CpuState) (n : GuestMemory) (i : DecodedInstruction) (address : ℕ)
    (here : indexed_address t i ≡ address) (aligned : has_bits address 3 ≡ false) where
  store_word_conditional_indexed-reserved :
      (stored : GuestMemory)
      → reserved t n address ≡ true
      → write32_be n address (t.gpr i.destination) ≡ ok stored
      → store_word_conditional_indexed t n i ≡ ok (finish_conditional t true, stored)
  unfolding store_word_conditional_indexed
  store_word_conditional_indexed-reserved stored success done =
      rw (here, aligned, success, done) refl

  store_word_conditional_indexed-released :
      t.reservation_valid ≡ false
      → store_word_conditional_indexed t n i ≡ ok (finish_conditional t false, n)
  unfolding store_word_conditional_indexed
  store_word_conditional_indexed-released gone = rw (here, aligned, gone) refl

-- The address of a `stwcx.` reads the general registers alone.
indexed_address-gpr :
    (t u : CpuState) (i : DecodedInstruction)
    → u.gpr ≡ t.gpr
    → indexed_address u i ≡ indexed_address t i
unfolding indexed_address
indexed_address-gpr t u i same = rw same refl

-- Take a `stwcx.` at the address of the last `lwarx`, from a state whose reservation is still the one
-- that `lwarx` left, in a well-formed memory with the same aliases, which may have been written
-- since, at a word of flat memory below 2^32. It stores its register, so that the word reads back,
-- and reports success; a second `stwcx.` right after it changes no memory and reports failure. Both
-- leave no reservation, the other fields of the condition register and the general registers.
pub store_word_conditional_indexed-load_word_reserve_indexed :
    (s s' t : CpuState) (m m' n : GuestMemory) (reserve conditional : DecodedInstruction)
    → load_word_reserve_indexed s m reserve ≡ ok (s', m')
    → t.reservation_address ≡ s'.reservation_address
    → t.reservation_valid ≡ s'.reservation_valid
    → n.aliases ≡ m.aliases
    → indexed_address t conditional ≡ indexed_address s reserve
    → IsWellFormed n
    → IsFlatWord n (indexed_address s reserve)
    → t.gpr conditional.destination < 2 ^ 32
    → (u : CpuState) × (stored : GuestMemory) × (store_word_conditional_indexed t n conditional
        ≡ ok (u, stored))
      × Reports t true u
      × (read32_be stored (indexed_address s reserve) ≡ ok (t.gpr conditional.destination))
      × (v : CpuState) × (store_word_conditional_indexed u stored conditional ≡ ok (v, stored))
      × Reports u false v
unfolding reservation_address
store_word_conditional_indexed-load_word_reserve_indexed s s' t m m' n reserve conditional loaded
      address valid aliases same w fits small =
    let place = indexed_address s reserve in
    let left = load_word_reserve_indexed-Reserves s s' m m' reserve loaded in
    let success : reserved t n place ≡ true =
      rw (aliases, valid, left.is_valid, address, left.is_address) (ground arith) in
    let (stored, done, shows) =
      write32_be-ShowsWord n place (t.gpr conditional.destination) w fits small in
    let u = finish_conditional t true in
    let first = finish_conditional-Reports t true in
    (
      u,
      stored,
      store_word_conditional_indexed-reserved t n conditional place same left.is_aligned stored
          success done,
      first,
      shows.reads_back,
      finish_conditional u false,
      store_word_conditional_indexed-released u stored conditional place
          (indexed_address-gpr t u conditional first.same_gpr ∙ same) left.is_aligned
          first.released,
      finish_conditional-Reports u false,
    )
