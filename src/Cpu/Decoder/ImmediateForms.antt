-- ===== src/Cpu/Decoder/ImmediateForms.antt =====
-- One function for each set of operands that the cases of `decode` (src/cpu/espresso/decoder.cpp)
-- read: the instructions with an immediate.
use affogato.Base.{ℕ, true, bit_and, ◌==◌}
use affogato.Cpu.Decoder.Instruction.{Opcode, DecodedInstruction, blank}
use affogato.Cpu.Decoder.Fields.{field, flag, sign_extend}

abbrev pub immediate_form : ℕ → Opcode → DecodedInstruction
immediate_form raw op = record (blank raw) {
  opcode = op;
  destination = field raw 21 0x1F;
  base = field raw 16 0x1F;
  immediate = sign_extend raw 16;
}

abbrev pub immediate_record_form : ℕ → Opcode → DecodedInstruction
immediate_record_form raw op = record (blank raw) {
  opcode = op;
  destination = field raw 21 0x1F;
  base = field raw 16 0x1F;
  immediate = sign_extend raw 16;
  record_result = field raw 26 0x3F == 13;
}

abbrev pub store_multiple_form : ℕ → Opcode → DecodedInstruction
store_multiple_form raw op = record (blank raw) {
  opcode = op;
  source = field raw 21 0x1F;
  base = field raw 16 0x1F;
  immediate = sign_extend raw 16;
}

abbrev pub logical_immediate_form : ℕ → Opcode → DecodedInstruction
logical_immediate_form raw op = record (blank raw) {
  opcode = op;
  source = field raw 21 0x1F;
  destination = field raw 16 0x1F;
  immediate = field raw 0 0xFFFF;
}

abbrev pub logical_immediate_record_form : ℕ → Opcode → DecodedInstruction
logical_immediate_record_form raw op = record (blank raw) {
  opcode = op;
  source = field raw 21 0x1F;
  destination = field raw 16 0x1F;
  immediate = field raw 0 0xFFFF;
  record_result = true;
}

abbrev pub compare_immediate_form : ℕ → Opcode → DecodedInstruction
compare_immediate_form raw op = record (blank raw) {
  opcode = op;
  cr_field = field raw 23 0x7;
  base = field raw 16 0x1F;
  immediate = sign_extend raw 16;
}

abbrev pub compare_logical_immediate_form : ℕ → Opcode → DecodedInstruction
compare_logical_immediate_form raw op = record (blank raw) {
  opcode = op;
  cr_field = field raw 23 0x7;
  base = field raw 16 0x1F;
  immediate = field raw 0 0xFFFF;
}

abbrev pub jump_form : ℕ → Opcode → DecodedInstruction
jump_form raw op = record (blank raw) {
  opcode = op;
  immediate = sign_extend (bit_and raw 0x03FFFFFC) 26;
  absolute = flag raw 2;
  link = flag raw 1;
}

abbrev pub conditional_form : ℕ → Opcode → DecodedInstruction
conditional_form raw op = record (blank raw) {
  opcode = op;
  branch_options = field raw 21 0x1F;
  condition_bit = field raw 16 0x1F;
  immediate = sign_extend (bit_and raw 0xFFFC) 16;
  absolute = flag raw 2;
  link = flag raw 1;
}
