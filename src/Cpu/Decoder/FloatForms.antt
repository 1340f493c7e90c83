-- ===== src/Cpu/Decoder/FloatForms.antt =====
-- One function for each set of operands that the cases of `decode` (src/cpu/espresso/decoder.cpp)
-- read: the floating-point and paired-single instructions.
use affogato.Base.{ℕ, true, not, ◌==◌}
use affogato.Cpu.Decoder.Instruction.{Opcode, DecodedInstruction, blank}
use affogato.Cpu.Decoder.Fields.{field, sign_extend}

abbrev pub fp_indexed_form : ℕ → Opcode → DecodedInstruction
fp_indexed_form raw op = record (blank raw) {
  opcode = op;
  fp_register = field raw 21 0x1F;
  base = field raw 16 0x1F;
  source = field raw 11 0x1F;
}

abbrev pub fp_move_form : ℕ → Opcode → DecodedInstruction
fp_move_form raw op = record (blank raw) {
  opcode = op;
  fp_register = field raw 21 0x1F;
  fp_source_b = field raw 11 0x1F;
}

abbrev pub fp_round_form : ℕ → Opcode → DecodedInstruction
fp_round_form raw op = record (blank raw) {
  opcode = op;
  fp_register = field raw 21 0x1F;
  fp_source_a = field raw 11 0x1F;
}

abbrev pub fp_add_form : ℕ → Opcode → DecodedInstruction
fp_add_form raw op = record (blank raw) {
  opcode = op;
  fp_register = field raw 21 0x1F;
  fp_source_a = field raw 16 0x1F;
  fp_source_b = field raw 11 0x1F;
}

abbrev pub fp_multiply_form : ℕ → Opcode → DecodedInstruction
fp_multiply_form raw op = record (blank raw) {
  opcode = op;
  fp_register = field raw 21 0x1F;
  fp_source_a = field raw 16 0x1F;
  fp_source_c = field raw 6 0x1F;
}

abbrev pub fp_multiply_add_form : ℕ → Opcode → DecodedInstruction
fp_multiply_add_form raw op = record (blank raw) {
  opcode = op;
  fp_register = field raw 21 0x1F;
  fp_source_a = field raw 16 0x1F;
  fp_source_b = field raw 11 0x1F;
  fp_source_c = field raw 6 0x1F;
}

abbrev pub fp_compare_form : ℕ → Opcode → DecodedInstruction
fp_compare_form raw op = record (blank raw) {
  opcode = op;
  cr_field = field raw 23 0x7;
  fp_compare_a = field raw 16 0x1F;
  fp_compare_b = field raw 11 0x1F;
}

abbrev pub fp_compare_ps1_form : ℕ → Opcode → DecodedInstruction
fp_compare_ps1_form raw op = record (blank raw) {
  opcode = op;
  cr_field = field raw 23 0x7;
  fp_compare_a = field raw 16 0x1F;
  fp_compare_b = field raw 11 0x1F;
  fp_compare_uses_ps1 = true;
}

abbrev pub fp_register_form : ℕ → Opcode → DecodedInstruction
fp_register_form raw op = record (blank raw) { opcode = op; fp_register = field raw 21 0x1F }

abbrev pub fpscr_bit_form : ℕ → Opcode → DecodedInstruction
fpscr_bit_form raw op = record (blank raw) { opcode = op; fpscr_bit = field raw 21 0x1F }

abbrev pub fpscr_immediate_form : ℕ → Opcode → DecodedInstruction
fpscr_immediate_form raw op = record (blank raw) {
  opcode = op;
  fpscr_field = field raw 23 0x7;
  fpscr_immediate = field raw 12 0xF;
}

abbrev pub fpscr_fields_form : ℕ → Opcode → DecodedInstruction
fpscr_fields_form raw op = record (blank raw) {
  opcode = op;
  fp_source_b = field raw 11 0x1F;
  fpscr_field_mask = field raw 17 0xFF;
}

abbrev pub fpscr_move_form : ℕ → Opcode → DecodedInstruction
fpscr_move_form raw op = record (blank raw) {
  opcode = op;
  cr_field = field raw 23 0x7;
  fpscr_field = field raw 18 0x7;
}

abbrev pub quantized_indexed_form : ℕ → Opcode → DecodedInstruction
quantized_indexed_form raw op = record (blank raw) {
  opcode = op;
  fp_register = field raw 21 0x1F;
  base = field raw 16 0x1F;
  source = field raw 11 0x1F;
  paired_single_w = not (field raw 10 1 == 0);
  quantized_register = field raw 7 0x7;
}

abbrev pub quantized_form : ℕ → Opcode → DecodedInstruction
quantized_form raw op = record (blank raw) {
  opcode = op;
  fp_register = field raw 21 0x1F;
  base = field raw 16 0x1F;
  paired_single_w = not (field raw 15 1 == 0);
  quantized_register = field raw 12 0x7;
  immediate = sign_extend raw 12;
}

abbrev pub fp_immediate_form : ℕ → Opcode → DecodedInstruction
fp_immediate_form raw op = record (blank raw) {
  opcode = op;
  fp_register = field raw 21 0x1F;
  base = field raw 16 0x1F;
  immediate = sign_extend raw 16;
}
