-- ===== src/Cpu/Decoder/Instruction.antt =====
-- `Opcode` and `DecodedInstruction` (src/cpu/espresso/decoder.hpp). The immediate is the bit pattern
-- of the signed number; `record_result` is the field `record`.
use affogato.Base.{ℕ, Bool, false}

pub data Opcode : Type 0 where
  unsupported multiply_low_immediate multiply_low_word multiply_low_word_overflow : Opcode
  multiply_high_word_unsigned multiply_high_word_signed divide_word_unsigned : Opcode
  divide_word_unsigned_overflow divide_word_signed divide_word_signed_overflow : Opcode
  xor_immediate xor_immediate_shifted count_leading_zeros addi addis : Opcode
  add_immediate_carry add_carrying add_carrying_overflow add_to_zero_extended : Opcode
  add_to_zero_extended_overflow add_extended add_extended_overflow : Opcode
  add_to_minus_one_extended add_to_minus_one_extended_overflow : Opcode
  subtract_from_immediate_carry add add_overflow subtract_from : Opcode
  subtract_from_overflow subtract_from_carrying subtract_from_carrying_overflow : Opcode
  subtract_from_extended subtract_from_extended_overflow : Opcode
  subtract_from_zero_extended subtract_from_zero_extended_overflow : Opcode
  subtract_from_minus_one_extended subtract_from_minus_one_extended_overflow : Opcode
  negate negate_overflow extend_sign_byte extend_sign_halfword ori : Opcode
  or_immediate_shifted bitwise_or bitwise_and bitwise_and_complement bitwise_xor : Opcode
  bitwise_equivalence bitwise_nand bitwise_nor bitwise_or_complement : Opcode
  and_immediate_record and_immediate_shifted_record : Opcode
  rotate_left_word_and_mask_register rotate_left_word_and_mask : Opcode
  rotate_left_word_and_mask_insert arithmetic_shift_right_immediate : Opcode
  arithmetic_shift_right_word shift_left_word shift_right_word branch : Opcode
  instruction_sync enforce_in_order_io instruction_cache_block_invalidate : Opcode
  data_cache_block_touch data_cache_block_touch_for_store data_cache_block_store : Opcode
  data_cache_block_flush data_cache_block_zero compare_signed_immediate : Opcode
  compare_signed_register compare_unsigned_immediate compare_unsigned_register : Opcode
  floating_compare_unordered floating_compare_ordered floating_divide_single : Opcode
  floating_divide_double floating_add_single floating_subtract_single : Opcode
  floating_add_double floating_multiply_single floating_multiply_double : Opcode
  floating_multiply_add_single floating_multiply_subtract_single : Opcode
  floating_negative_multiply_subtract_single floating_negative_multiply_add_single : Opcode
  floating_multiply_add_double floating_multiply_subtract_double : Opcode
  floating_negative_multiply_add_double floating_negative_multiply_subtract_double : Opcode
  floating_reciprocal_estimate_single floating_reciprocal_square_root_estimate : Opcode
  floating_move_register floating_negate floating_absolute_value : Opcode
  floating_negative_absolute_value floating_move_from_fpscr : Opcode
  floating_move_to_fpscr_bit_zero floating_move_to_fpscr_bit_one : Opcode
  floating_move_to_fpscr_field_immediate floating_move_to_fpscr_fields : Opcode
  floating_convert_to_integer_word floating_convert_to_integer_word_zero : Opcode
  floating_select floating_subtract_double floating_round_to_single : Opcode
  conditional_branch load_word_zero load_multiple_word load_string_word_immediate : Opcode
  load_string_word_indexed store_string_word_immediate store_string_word_indexed : Opcode
  load_word_update load_word_indexed load_word_reserve_indexed : Opcode
  load_word_indexed_update load_word_byte_reverse_indexed load_byte_zero_indexed : Opcode
  load_byte_zero_indexed_update load_halfword_zero_indexed : Opcode
  load_halfword_zero_indexed_update load_halfword_byte_reverse_indexed : Opcode
  load_halfword_algebraic_indexed load_halfword_algebraic_indexed_update : Opcode
  store_word store_multiple_word store_word_indexed store_word_conditional_indexed : Opcode
  store_word_indexed_update store_word_byte_reverse_indexed store_byte_indexed : Opcode
  store_byte_indexed_update store_halfword_indexed store_halfword_indexed_update : Opcode
  store_halfword_byte_reverse_indexed store_floating_as_integer_word_indexed : Opcode
  load_byte_zero load_byte_update store_byte store_byte_update load_halfword_zero : Opcode
  load_halfword_zero_update load_halfword_algebraic store_halfword : Opcode
  store_halfword_update store_word_update move_from_link_register : Opcode
  move_to_link_register conditional_branch_to_link_register : Opcode
  move_from_count_register move_to_count_register move_from_xer move_to_xer : Opcode
  move_from_gqr move_to_gqr move_from_time_base_lower move_from_time_base_upper : Opcode
  conditional_branch_to_count_register load_single load_single_update : Opcode
  load_single_indexed load_single_indexed_update load_double load_double_update : Opcode
  load_double_indexed load_double_indexed_update store_single store_single_update : Opcode
  store_single_indexed store_single_indexed_update store_double : Opcode
  store_double_indexed store_double_indexed_update store_double_update : Opcode
  paired_single_merge00 paired_single_merge01 paired_single_merge10 : Opcode
  paired_single_merge11 paired_single_add paired_single_subtract : Opcode
  paired_single_multiply paired_single_multiply_add : Opcode
  paired_single_multiply_subtract paired_single_multiply_add_scalar0 : Opcode
  paired_single_multiply_add_scalar1 paired_single_negative_multiply_add : Opcode
  paired_single_negative_multiply_subtract paired_single_multiply_scalar0 : Opcode
  paired_single_multiply_scalar1 paired_single_sum0 paired_single_sum1 : Opcode
  paired_single_divide paired_single_compare_unordered0 : Opcode
  paired_single_compare_unordered1 paired_single_compare_ordered0 : Opcode
  paired_single_compare_ordered1 paired_single_reciprocal_estimate : Opcode
  paired_single_reciprocal_square_root_estimate paired_single_move_register : Opcode
  paired_single_negate paired_single_absolute_value : Opcode
  paired_single_negative_absolute_value paired_single_select : Opcode
  paired_single_quantized_load paired_single_quantized_load_update : Opcode
  paired_single_quantized_load_indexed paired_single_quantized_load_indexed_update : Opcode
  paired_single_quantized_store paired_single_quantized_store_update : Opcode
  paired_single_quantized_store_indexed : Opcode
  paired_single_quantized_store_indexed_update condition_bit_and : Opcode
  condition_bit_and_complement condition_bit_or condition_bit_or_complement : Opcode
  condition_bit_nor condition_bit_xor condition_bit_nand condition_bit_equivalence : Opcode
  move_condition_register_field move_condition_register_from_fpscr : Opcode
  move_from_condition_register move_to_condition_register_fields : Opcode
  move_condition_register_from_xer memory_synchronize : Opcode
  memory_synchronize_lightweight : Opcode

pub record DecodedInstruction : Type 0 where
  pub opcode : Opcode
  pub raw : ℕ
  pub destination : ℕ
  pub source : ℕ
  pub fp_register : ℕ
  pub fp_source_a : ℕ
  pub fp_source_b : ℕ
  pub base : ℕ
  pub cr_field : ℕ
  pub cr_field_source : ℕ
  pub cr_field_mask : ℕ
  pub cr_destination_bit : ℕ
  pub cr_source_a_bit : ℕ
  pub cr_source_b_bit : ℕ
  pub fp_compare_a : ℕ
  pub fp_compare_b : ℕ
  pub fp_source_c : ℕ
  pub fpscr_bit : ℕ
  pub fpscr_field : ℕ
  pub fpscr_immediate : ℕ
  pub fpscr_field_mask : ℕ
  pub branch_options : ℕ
  pub condition_bit : ℕ
  pub shift : ℕ
  pub mask_begin : ℕ
  pub mask_end : ℕ
  pub string_byte_count : ℕ
  pub quantized_register : ℕ
  pub immediate : ℕ
  pub absolute : Bool
  pub link : Bool
  pub record_result : Bool
  pub paired_single_w : Bool
  pub fp_compare_uses_ps1 : Bool

-- `DecodedInstruction instruction{}; instruction.raw = raw`.
abbrev pub blank : ℕ → DecodedInstruction
blank word = record {
  opcode = Opcode.unsupported;
  raw = word;
  destination = 0;
  source = 0;
  fp_register = 0;
  fp_source_a = 0;
  fp_source_b = 0;
  base = 0;
  cr_field = 0;
  cr_field_source = 0;
  cr_field_mask = 0;
  cr_destination_bit = 0;
  cr_source_a_bit = 0;
  cr_source_b_bit = 0;
  fp_compare_a = 0;
  fp_compare_b = 0;
  fp_source_c = 0;
  fpscr_bit = 0;
  fpscr_field = 0;
  fpscr_immediate = 0;
  fpscr_field_mask = 0;
  branch_options = 0;
  condition_bit = 0;
  shift = 0;
  mask_begin = 0;
  mask_end = 0;
  string_byte_count = 0;
  quantized_register = 0;
  immediate = 0;
  absolute = false;
  link = false;
  record_result = false;
  paired_single_w = false;
  fp_compare_uses_ps1 = false;
}
