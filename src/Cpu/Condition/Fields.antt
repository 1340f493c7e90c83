-- ===== src/Cpu/Condition/Fields.antt =====
-- `mtcrf` (src/cpu/espresso/interpreter.cpp): the fields that its loop moves.
use affogato.Base.{
  ℕ, zero, suc, ◌+◌, ◌-◌, ◌*◌, ◌/◌, ◌^◌, ◌<◌, ◌≡◌, refl, ap, ◌∙◌, true, ◌&&◌, arith, bit, bit-or,
  bit-and, bit-lt, bit-complement, pow-le-pow, and_power, bit_and, Bool-cases, inl, inr, bit_or,
  u32, not32, ◌<<<◌, leb, ◌==◌, if◌then◌else◌,
}
use affogato.Cpu.State.{CpuState}
use affogato.Cpu.Flags.{read_cr_bit, write_gpr}
use affogato.Cpu.Flags.Field.{read_cr_bit-bit, bit-shifted, nibble_full}
use affogato.Cpu.Decoder.Instruction.{DecodedInstruction}
use affogato.Cpu.Condition.{
  move_fields, move_to_condition_register_fields, move_from_condition_register,
}

-- The bits of the mask of a field.
mask-bit :
    (f k : ℕ)
    → f < 8
    → k < 32
    → bit (u32 (0xF <<< (28 - 4 * f))) k ≡ (if 7 - k / 4 == f then 1 else 0)
mask-bit f k hf hk =
    let room = pow-le-pow (28 - 4 * f) 28 (omega arith) in
    let mask : u32 (0xF <<< (28 - 4 * f)) ≡ 15 * 2 ^ (28 - 4 * f) = omega (arith, room) in
    ground (
      arith,
      ap (λ (t : ℕ). bit t k) mask,
      bit-shifted 15 (28 - 4 * f) k,
      nibble_full (k - (28 - 4 * f)),
    )

mask-lt : (f : ℕ) → u32 (0xF <<< (28 - 4 * f)) < 2 ^ 32
mask-lt f = omega arith

-- One round of the loop.
moved-bit :
    (f k cr source : ℕ)
    → f < 8
    → k < 32
    → let field_mask = u32 (0xF <<< (28 - 4 * f)) in
      bit (bit_or (bit_and cr (not32 field_mask)) (bit_and source field_mask)) k
      ≡ (if 7 - k / 4 == f then bit source k else bit cr k)
moved-bit f k cr source hf hk =
    let field_mask = u32 (0xF <<< (28 - 4 * f)) in
    ground (
      arith,
      bit-or (bit_and cr (not32 field_mask)) (bit_and source field_mask) k,
      bit-and cr (not32 field_mask) k,
      bit-and source field_mask k,
      bit-complement 32 field_mask k (mask-lt f) hk,
      mask-bit f k hf hk,
      bit-lt cr k,
      bit-lt source k,
    )

-- `(mask & (1 << (7 - f))) == 0`.
selected-bit : (mask f : ℕ) → (bit_and mask (1 <<< (7 - f)) == 0) ≡ (bit mask (7 - f) == 0)
selected-bit mask f =
    let e : 1 <<< (7 - f) ≡ 2 ^ (7 - f) = omega arith in
    let positive = pow-le-pow 0 (7 - f) (omega arith) in
    rw e (ground (arith, and_power mask (7 - f), positive, bit-lt mask (7 - f)))

move_fields-bit :
    (mask source f left cr k : ℕ)
    → f + left ≡ 8
    → k < 32
    → bit (move_fields mask source f left cr) k
      ≡ (if leb f (7 - k / 4) && (bit mask (k / 4) == 1) then bit source k else bit cr k)
unfolding move_fields
move_fields-bit mask source f zero cr k e hk = ground arith
move_fields-bit mask source f (suc left) cr k e hk =
    let field_mask = u32 (0xF <<< (28 - 4 * f)) in
    let moved = bit_or (bit_and cr (not32 field_mask)) (bit_and source field_mask) in
    let here =
      λ (h : 7 - k / 4 ≡ f). ap (bit mask) (let same : k / 4 ≡ 7 - f = omega arith in same) in
    elim (Bool-cases (bit_and mask (1 <<< (7 - f)) == 0)) [
      | inl skipped ↦ rw skipped (
          move_fields-bit mask source (f + 1) left cr k (omega arith) hk
          ∙ ground (arith, selected-bit mask f, here, skipped))
      | inr chosen ↦ rw chosen (
          move_fields-bit mask source (f + 1) left moved k (omega arith) hk
          ∙ ground (
            arith,
            selected-bit mask f,
            here,
            chosen,
            moved-bit f k cr source (omega arith) hk,
            bit-lt mask (7 - f),
          ))
    ]

-- `mtcrf` gives a bit of the condition register the register's bit where the mask has the bit of its
-- field, and keeps it where it does not.
pub move_to_condition_register_fields-reads :
    (s : CpuState) (i : DecodedInstruction) (n : ℕ)
    → n < 32
    → read_cr_bit (move_to_condition_register_fields s i) n ≡ (
        if bit i.cr_field_mask (7 - n / 4) == 1
        then bit (s.gpr i.destination) (31 - n) == 1
        else read_cr_bit s n)
unfolding move_to_condition_register_fields
move_to_condition_register_fields-reads s i n hn =
    let e : (31 - n) / 4 ≡ 7 - n / 4 = omega arith in
    ground (
      arith,
      read_cr_bit-bit (move_to_condition_register_fields s i) n,
      read_cr_bit-bit s n,
      move_fields-bit i.cr_field_mask (s.gpr i.destination) 0 8 s.cr (31 - n) refl (omega arith),
      ap (bit i.cr_field_mask) e,
    )

full_mask : (j : ℕ) → j < 8 → bit 0xFF j ≡ 1
full_mask zero h = refl
full_mask (suc zero) h = refl
full_mask (suc (suc zero)) h = refl
full_mask (suc (suc (suc zero))) h = refl
full_mask (suc (suc (suc (suc zero)))) h = refl
full_mask (suc (suc (suc (suc (suc zero))))) h = refl
full_mask (suc (suc (suc (suc (suc (suc zero)))))) h = refl
full_mask (suc (suc (suc (suc (suc (suc (suc zero))))))) h = refl
full_mask (suc (suc (suc (suc (suc (suc (suc (suc j)))))))) h = absurd (omega arith)

-- `mtcrf` of all eight fields from a register that still holds what `mfcr` left there restores every
-- bit of the condition register, whatever has happened to it in between.
pub move_to_condition_register_fields-move_from_condition_register :
    (s t : CpuState) (save restore : DecodedInstruction) (n : ℕ)
    → restore.cr_field_mask ≡ 0xFF
    → t.gpr restore.destination ≡ (move_from_condition_register s save).gpr save.destination
    → n < 32
    → read_cr_bit (move_to_condition_register_fields t restore) n ≡ read_cr_bit s n
unfolding move_from_condition_register write_gpr
move_to_condition_register_fields-move_from_condition_register s t save restore n all kept hn =
    let same : (save.destination == save.destination) ≡ true = ground arith in
    let saved : t.gpr restore.destination ≡ s.cr = rw same at kept in
    ground (
      arith,
      move_to_condition_register_fields-reads t restore n hn,
      ap (λ (m : ℕ). bit m (7 - n / 4)) all,
      full_mask (7 - n / 4) (omega arith),
      read_cr_bit-bit s n,
      ap (λ (c : ℕ). bit c (31 - n)) saved,
    )
