-- ===== src/Cpu/Decoder/Valid.antt =====
-- What `decode` (src/cpu/espresso/decoder.cpp) guarantees of every instruction: the ranges of its
-- fields, and the base register of the forms that write it back.
use affogato.Base.{
  ℕ, suc, ◌+◌, ◌-◌, ◌*◌, ◌%◌, ◌^◌, ◌<◌, ◌≡◌, ◌≢◌, refl, ap, ◌∙◌, Bool, true, false, not, ◌&&◌, ◌||◌,
  List, [], ◌∷◌, arith, bit_and, bit_or, bit_xor, and_mask, bit_xor-lt, ◌<<<◌, ◌>>>◌, leb, u32,
  ◌==◌, if◌then◌else◌, Bool-cases, inl, inr,
}
use affogato.Cpu.Decoder.Instruction.{Opcode, DecodedInstruction, blank}
use affogato.Cpu.Decoder.Fields.{field, flag, sign_extend}
pub mod Forms
pub mod FloatForms
pub mod ImmediateForms
pub mod Chain
pub mod Indexed
pub mod Integer
pub mod Floating
pub mod Paired
pub mod Immediate
pub mod Decode

-- Every number of the list is below the limit.
abbrev pub AllBelow : ℕ → List ℕ → Type 0
AllBelow limit [] = Unit
AllBelow limit (n ∷ ns) = (n < limit) × AllBelow limit ns

-- Every field fits the operand that it stands for: a register or a bit number below 32, a field of a
-- status register or a quantization register below 8, and the masks and immediates in their widths.
unfoldable pub IsInRange : DecodedInstruction → Type 0
IsInRange i =
    AllBelow 32 (
      i.destination ∷ i.source ∷ i.fp_register ∷ i.fp_source_a ∷ i.fp_source_b ∷ i.base
      ∷ i.cr_destination_bit ∷ i.cr_source_a_bit ∷ i.cr_source_b_bit ∷ i.fp_compare_a
      ∷ i.fp_compare_b ∷ i.fp_source_c ∷ i.fpscr_bit ∷ i.branch_options ∷ i.condition_bit ∷ i.shift
      ∷ i.mask_begin ∷ i.mask_end ∷ i.string_byte_count ∷ [])
    × AllBelow 8 (i.cr_field ∷ i.cr_field_source ∷ i.fpscr_field ∷ i.quantized_register ∷ [])
    × (i.cr_field_mask < 256)
    × (i.fpscr_field_mask < 256)
    × (i.fpscr_immediate < 16)
    × (i.immediate < 2 ^ 32)

-- The opcodes that write the effective address back to the base register.
abbrev pub is_update : Opcode → Bool
is_update Opcode.load_word_update = true
is_update Opcode.load_word_indexed_update = true
is_update Opcode.load_byte_zero_indexed_update = true
is_update Opcode.load_halfword_zero_indexed_update = true
is_update Opcode.load_halfword_algebraic_indexed_update = true
is_update Opcode.store_word_indexed_update = true
is_update Opcode.store_byte_indexed_update = true
is_update Opcode.store_halfword_indexed_update = true
is_update Opcode.load_byte_update = true
is_update Opcode.store_byte_update = true
is_update Opcode.load_halfword_zero_update = true
is_update Opcode.store_halfword_update = true
is_update Opcode.store_word_update = true
is_update Opcode.load_single_update = true
is_update Opcode.load_single_indexed_update = true
is_update Opcode.load_double_update = true
is_update Opcode.load_double_indexed_update = true
is_update Opcode.store_single_update = true
is_update Opcode.store_single_indexed_update = true
is_update Opcode.store_double_indexed_update = true
is_update Opcode.store_double_update = true
is_update Opcode.paired_single_quantized_load_update = true
is_update Opcode.paired_single_quantized_load_indexed_update = true
is_update Opcode.paired_single_quantized_store_update = true
is_update Opcode.paired_single_quantized_store_indexed_update = true
is_update _ = false

abbrev pub HasBase : DecodedInstruction → Type 0
HasBase i = is_update i.opcode ≡ true → i.base ≢ 0

pub record IsValid (i : DecodedInstruction) : Type 0 where
  pub range : IsInRange i
  pub has_base : HasBase i
