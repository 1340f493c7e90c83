-- ===== src/Cpu/Decoder/Immediate.antt =====
-- The cases of the switch of `decode` (src/cpu/espresso/decoder.cpp) with an immediate or a
-- displacement. The cases exclude one another, so the order of the tests is of no account.
use affogato.Base.{ℕ, not, ◌&&◌, ◌||◌, bit_and, ◌<<<◌, ◌==◌, if◌then◌else◌}
use affogato.Cpu.Decoder.Instruction.{Opcode, DecodedInstruction, blank}
use affogato.Cpu.Decoder.Fields.{field}
use affogato.Cpu.Decoder.Forms.{rotate_form, rotate_register_form, base_form, destination_base_form}
use affogato.Cpu.Decoder.FloatForms.{quantized_form, fp_immediate_form}
use affogato.Cpu.Decoder.ImmediateForms.{
  immediate_form, immediate_record_form, store_multiple_form, logical_immediate_form,
  logical_immediate_record_form, compare_immediate_form, compare_logical_immediate_form, jump_form,
  conditional_form,
}

unfoldable pub decode_float_load_store : ℕ → ℕ → DecodedInstruction
decode_float_load_store raw primary =
    if primary == 48
    then fp_immediate_form raw Opcode.load_single
    else if primary == 49
    then (if not (field raw 16 0x1F == 0)
        then fp_immediate_form raw Opcode.load_single_update
        else base_form raw Opcode.unsupported)
    else if primary == 50
    then fp_immediate_form raw Opcode.load_double
    else if primary == 51
    then (if not (field raw 16 0x1F == 0)
        then fp_immediate_form raw Opcode.load_double_update
        else base_form raw Opcode.unsupported)
    else if primary == 52
    then fp_immediate_form raw Opcode.store_single
    else if primary == 53
    then (if not (field raw 16 0x1F == 0)
        then fp_immediate_form raw Opcode.store_single_update
        else base_form raw Opcode.unsupported)
    else if primary == 54
    then fp_immediate_form raw Opcode.store_double
    else if primary == 55
    then (if not (field raw 16 0x1F == 0)
        then fp_immediate_form raw Opcode.store_double_update
        else base_form raw Opcode.unsupported)
    else if primary == 56
    then quantized_form raw Opcode.paired_single_quantized_load
    else if primary == 57
    then (if not (field raw 16 0x1F == 0)
        then quantized_form raw Opcode.paired_single_quantized_load_update
        else base_form raw Opcode.unsupported)
    else if primary == 60
    then quantized_form raw Opcode.paired_single_quantized_store
    else if primary == 61
    then (if not (field raw 16 0x1F == 0)
        then quantized_form raw Opcode.paired_single_quantized_store_update
        else base_form raw Opcode.unsupported)
    else blank raw

unfoldable pub decode_load_store : ℕ → ℕ → DecodedInstruction
decode_load_store raw primary =
    if primary == 32
    then immediate_form raw Opcode.load_word_zero
    else if primary == 33
    then (if not (field raw 16 0x1F == 0)
        then immediate_form raw Opcode.load_word_update
        else base_form raw Opcode.unsupported)
    else if primary == 34
    then immediate_form raw Opcode.load_byte_zero
    else if primary == 35
    then (if not (field raw 16 0x1F == 0)
        then immediate_form raw Opcode.load_byte_update
        else base_form raw Opcode.unsupported)
    else if primary == 36
    then immediate_form raw Opcode.store_word
    else if primary == 37
    then (if not (field raw 16 0x1F == 0)
        then immediate_form raw Opcode.store_word_update
        else base_form raw Opcode.unsupported)
    else if primary == 38
    then immediate_form raw Opcode.store_byte
    else if primary == 39
    then (if not (field raw 16 0x1F == 0)
        then immediate_form raw Opcode.store_byte_update
        else base_form raw Opcode.unsupported)
    else if primary == 40
    then immediate_form raw Opcode.load_halfword_zero
    else if primary == 41
    then (if not (field raw 16 0x1F == 0) && not (field raw 16 0x1F == field raw 21 0x1F)
        then immediate_form raw Opcode.load_halfword_zero_update
        else destination_base_form raw Opcode.unsupported)
    else if primary == 42
    then immediate_form raw Opcode.load_halfword_algebraic
    else if primary == 44
    then immediate_form raw Opcode.store_halfword
    else if primary == 45
    then (if not (field raw 16 0x1F == 0)
        then immediate_form raw Opcode.store_halfword_update
        else base_form raw Opcode.unsupported)
    else if primary == 46
    then immediate_form raw Opcode.load_multiple_word
    else if primary == 47
    then store_multiple_form raw Opcode.store_multiple_word
    else decode_float_load_store raw primary

unfoldable pub decode_compare_immediate : ℕ → ℕ → DecodedInstruction
decode_compare_immediate raw primary =
    if primary == 11
    then (if bit_and raw (1 <<< 22) == 0
        then compare_immediate_form raw Opcode.compare_signed_immediate
        else blank raw)
    else if primary == 12 || primary == 13
    then immediate_record_form raw Opcode.add_immediate_carry
    else if primary == 10
    then compare_logical_immediate_form raw Opcode.compare_unsigned_immediate
    else if primary == 16
    then conditional_form raw Opcode.conditional_branch
    else decode_load_store raw primary

unfoldable pub decode_immediate : ℕ → ℕ → DecodedInstruction
decode_immediate raw primary =
    if primary == 7
    then immediate_form raw Opcode.multiply_low_immediate
    else if primary == 8
    then immediate_form raw Opcode.subtract_from_immediate_carry
    else if primary == 14
    then immediate_form raw Opcode.addi
    else if primary == 15
    then immediate_form raw Opcode.addis
    else if primary == 20 || primary == 21
    then rotate_form raw (
        if primary == 20
        then Opcode.rotate_left_word_and_mask_insert
        else Opcode.rotate_left_word_and_mask)
    else if primary == 23
    then rotate_register_form raw Opcode.rotate_left_word_and_mask_register
    else if primary == 24 || primary == 25
    then logical_immediate_form raw
        (if primary == 25 then Opcode.or_immediate_shifted else Opcode.ori)
    else if primary == 26 || primary == 27
    then logical_immediate_form raw
        (if primary == 26 then Opcode.xor_immediate else Opcode.xor_immediate_shifted)
    else if primary == 18
    then jump_form raw Opcode.branch
    else if primary == 28
    then logical_immediate_record_form raw Opcode.and_immediate_record
    else if primary == 29
    then logical_immediate_record_form raw Opcode.and_immediate_shifted_record
    else decode_compare_immediate raw primary
