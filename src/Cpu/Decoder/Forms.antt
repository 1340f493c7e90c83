-- ===== src/Cpu/Decoder/Forms.antt =====
-- One function for each set of operands that the cases of `decode` (src/cpu/espresso/decoder.cpp)
-- read: the integer, condition register and cache instructions.
use affogato.Base.{ℕ}
use affogato.Cpu.Decoder.Instruction.{Opcode, DecodedInstruction, blank}
use affogato.Cpu.Decoder.Fields.{field, flag}

abbrev pub indexed_form : ℕ → Opcode → DecodedInstruction
indexed_form raw op = record (blank raw) {
  opcode = op;
  destination = field raw 21 0x1F;
  base = field raw 16 0x1F;
  source = field raw 11 0x1F;
}

abbrev pub arithmetic_form : ℕ → Opcode → DecodedInstruction
arithmetic_form raw op = record (blank raw) {
  opcode = op;
  destination = field raw 21 0x1F;
  base = field raw 16 0x1F;
  source = field raw 11 0x1F;
  record_result = flag raw 1;
}

abbrev pub unary_form : ℕ → Opcode → DecodedInstruction
unary_form raw op = record (blank raw) {
  opcode = op;
  destination = field raw 21 0x1F;
  base = field raw 16 0x1F;
  record_result = flag raw 1;
}

abbrev pub negate_form : ℕ → Opcode → DecodedInstruction
negate_form raw op = record (blank raw) {
  opcode = op;
  destination = field raw 21 0x1F;
  source = field raw 16 0x1F;
  record_result = flag raw 1;
}

abbrev pub logical_form : ℕ → Opcode → DecodedInstruction
logical_form raw op = record (blank raw) {
  opcode = op;
  source = field raw 21 0x1F;
  destination = field raw 16 0x1F;
  base = field raw 11 0x1F;
  record_result = flag raw 1;
}

abbrev pub extend_form : ℕ → Opcode → DecodedInstruction
extend_form raw op = record (blank raw) {
  opcode = op;
  source = field raw 21 0x1F;
  destination = field raw 16 0x1F;
  record_result = flag raw 1;
}

abbrev pub shift_form : ℕ → Opcode → DecodedInstruction
shift_form raw op = record (blank raw) {
  opcode = op;
  source = field raw 21 0x1F;
  destination = field raw 16 0x1F;
  shift = field raw 11 0x1F;
  record_result = flag raw 1;
}

abbrev pub rotate_form : ℕ → Opcode → DecodedInstruction
rotate_form raw op = record (blank raw) {
  opcode = op;
  source = field raw 21 0x1F;
  destination = field raw 16 0x1F;
  shift = field raw 11 0x1F;
  mask_begin = field raw 6 0x1F;
  mask_end = field raw 1 0x1F;
  record_result = flag raw 1;
}

abbrev pub rotate_register_form : ℕ → Opcode → DecodedInstruction
rotate_register_form raw op = record (blank raw) {
  opcode = op;
  source = field raw 21 0x1F;
  destination = field raw 16 0x1F;
  base = field raw 11 0x1F;
  mask_begin = field raw 6 0x1F;
  mask_end = field raw 1 0x1F;
  record_result = flag raw 1;
}

abbrev pub cache_form : ℕ → Opcode → DecodedInstruction
cache_form raw op = record (blank raw) {
  opcode = op;
  base = field raw 16 0x1F;
  source = field raw 11 0x1F;
}

abbrev pub compare_form : ℕ → Opcode → DecodedInstruction
compare_form raw op = record (blank raw) {
  opcode = op;
  cr_field = field raw 23 0x7;
  base = field raw 16 0x1F;
  source = field raw 11 0x1F;
}

abbrev pub plain_form : ℕ → Opcode → DecodedInstruction
plain_form raw op = record (blank raw) { opcode = op }

abbrev pub base_form : ℕ → Opcode → DecodedInstruction
base_form raw op = record (blank raw) { opcode = op; base = field raw 16 0x1F }

abbrev pub destination_base_form : ℕ → Opcode → DecodedInstruction
destination_base_form raw op = record (blank raw) {
  opcode = op;
  destination = field raw 21 0x1F;
  base = field raw 16 0x1F;
}

abbrev pub destination_form : ℕ → Opcode → DecodedInstruction
destination_form raw op = record (blank raw) { opcode = op; destination = field raw 21 0x1F }

abbrev pub cr_fields_form : ℕ → Opcode → DecodedInstruction
cr_fields_form raw op = record (blank raw) {
  opcode = op;
  destination = field raw 21 0x1F;
  cr_field_mask = field raw 12 0xFF;
}

abbrev pub cr_field_form : ℕ → Opcode → DecodedInstruction
cr_field_form raw op = record (blank raw) { opcode = op; cr_field = field raw 23 0x7 }

abbrev pub load_string_form : ℕ → Opcode → DecodedInstruction
load_string_form raw op = record (blank raw) {
  opcode = op;
  destination = field raw 21 0x1F;
  base = field raw 16 0x1F;
  string_byte_count = field raw 11 0x1F;
}

abbrev pub store_string_form : ℕ → Opcode → DecodedInstruction
store_string_form raw op = record (blank raw) {
  opcode = op;
  source = field raw 21 0x1F;
  base = field raw 16 0x1F;
  string_byte_count = field raw 11 0x1F;
}

abbrev pub store_string_indexed_form : ℕ → Opcode → DecodedInstruction
store_string_indexed_form raw op = record (blank raw) {
  opcode = op;
  destination = field raw 11 0x1F;
  source = field raw 21 0x1F;
  base = field raw 16 0x1F;
}

abbrev pub cr_bits_form : ℕ → Opcode → DecodedInstruction
cr_bits_form raw op = record (blank raw) {
  opcode = op;
  cr_destination_bit = field raw 21 0x1F;
  cr_source_a_bit = field raw 16 0x1F;
  cr_source_b_bit = field raw 11 0x1F;
}

abbrev pub cr_move_form : ℕ → Opcode → DecodedInstruction
cr_move_form raw op = record (blank raw) {
  opcode = op;
  cr_field = field raw 23 0x7;
  cr_field_source = field raw 18 0x7;
}

abbrev pub branch_form : ℕ → Opcode → DecodedInstruction
branch_form raw op = record (blank raw) {
  opcode = op;
  branch_options = field raw 21 0x1F;
  condition_bit = field raw 16 0x1F;
  link = flag raw 1;
}
