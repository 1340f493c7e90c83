-- ===== src/Cpu/Decoder/Valid/FloatForms.antt =====
-- The ranges of the operands of the floating-point and paired-single instructions.
use affogato.Base.{ℕ}
use affogato.Cpu.Decoder.Instruction.{Opcode}
use affogato.Cpu.Decoder.FloatForms.{
  fp_indexed_form, fp_move_form, fp_round_form, fp_add_form, fp_multiply_form, fp_multiply_add_form,
  fp_compare_form, fp_compare_ps1_form, fp_register_form, fpscr_bit_form, fpscr_immediate_form,
  fpscr_fields_form, fpscr_move_form, quantized_indexed_form, quantized_form, fp_immediate_form,
}
use affogato.Cpu.Decoder.Valid.{IsInRange}
use affogato.Cpu.Decoder.Valid.Forms.{◌▹◌, z, r3, r4, r5, r8, extended}

pub fp_indexed_form-IsInRange : (raw : ℕ) (op : Opcode) → IsInRange (fp_indexed_form raw op)
unfolding IsInRange
fp_indexed_form-IsInRange raw op = (
  z ▹ r5 _ ▹ r5 _ ▹ z ▹ z ▹ r5 _ ▹ z ▹ z ▹ z ▹ z ▹ z ▹ z ▹ z ▹ z ▹ z ▹ z ▹ z ▹ z ▹ z ▹ tt,
  z ▹ z ▹ z ▹ z ▹ tt,
  z,
  z,
  z,
  z,
)

pub fp_move_form-IsInRange : (raw : ℕ) (op : Opcode) → IsInRange (fp_move_form raw op)
unfolding IsInRange
fp_move_form-IsInRange raw op = (
  z ▹ z ▹ r5 _ ▹ z ▹ r5 _ ▹ z ▹ z ▹ z ▹ z ▹ z ▹ z ▹ z ▹ z ▹ z ▹ z ▹ z ▹ z ▹ z ▹ z ▹ tt,
  z ▹ z ▹ z ▹ z ▹ tt,
  z,
  z,
  z,
  z,
)

pub fp_round_form-IsInRange : (raw : ℕ) (op : Opcode) → IsInRange (fp_round_form raw op)
unfolding IsInRange
fp_round_form-IsInRange raw op = (
  z ▹ z ▹ r5 _ ▹ r5 _ ▹ z ▹ z ▹ z ▹ z ▹ z ▹ z ▹ z ▹ z ▹ z ▹ z ▹ z ▹ z ▹ z ▹ z ▹ z ▹ tt,
  z ▹ z ▹ z ▹ z ▹ tt,
  z,
  z,
  z,
  z,
)

pub fp_add_form-IsInRange : (raw : ℕ) (op : Opcode) → IsInRange (fp_add_form raw op)
unfolding IsInRange
fp_add_form-IsInRange raw op = (
  z ▹ z ▹ r5 _ ▹ r5 _ ▹ r5 _ ▹ z ▹ z ▹ z ▹ z ▹ z ▹ z ▹ z ▹ z ▹ z ▹ z ▹ z ▹ z ▹ z ▹ z ▹ tt,
  z ▹ z ▹ z ▹ z ▹ tt,
  z,
  z,
  z,
  z,
)

pub fp_multiply_form-IsInRange : (raw : ℕ) (op : Opcode) → IsInRange (fp_multiply_form raw op)
unfolding IsInRange
fp_multiply_form-IsInRange raw op = (
  z ▹ z ▹ r5 _ ▹ r5 _ ▹ z ▹ z ▹ z ▹ z ▹ z ▹ z ▹ z ▹ r5 _ ▹ z ▹ z ▹ z ▹ z ▹ z ▹ z ▹ z ▹ tt,
  z ▹ z ▹ z ▹ z ▹ tt,
  z,
  z,
  z,
  z,
)

pub fp_multiply_add_form-IsInRange :
    (raw : ℕ) (op : Opcode) → IsInRange (fp_multiply_add_form raw op)
unfolding IsInRange
fp_multiply_add_form-IsInRange raw op = (
  z ▹ z ▹ r5 _ ▹ r5 _ ▹ r5 _ ▹ z ▹ z ▹ z ▹ z ▹ z ▹ z ▹ r5 _ ▹ z ▹ z ▹ z ▹ z ▹ z ▹ z ▹ z ▹ tt,
  z ▹ z ▹ z ▹ z ▹ tt,
  z,
  z,
  z,
  z,
)

pub fp_compare_form-IsInRange : (raw : ℕ) (op : Opcode) → IsInRange (fp_compare_form raw op)
unfolding IsInRange
fp_compare_form-IsInRange raw op = (
  z ▹ z ▹ z ▹ z ▹ z ▹ z ▹ z ▹ z ▹ z ▹ r5 _ ▹ r5 _ ▹ z ▹ z ▹ z ▹ z ▹ z ▹ z ▹ z ▹ z ▹ tt,
  r3 _ ▹ z ▹ z ▹ z ▹ tt,
  z,
  z,
  z,
  z,
)

pub fp_compare_ps1_form-IsInRange : (raw : ℕ) (op : Opcode) → IsInRange (fp_compare_ps1_form raw op)
unfolding IsInRange
fp_compare_ps1_form-IsInRange raw op = (
  z ▹ z ▹ z ▹ z ▹ z ▹ z ▹ z ▹ z ▹ z ▹ r5 _ ▹ r5 _ ▹ z ▹ z ▹ z ▹ z ▹ z ▹ z ▹ z ▹ z ▹ tt,
  r3 _ ▹ z ▹ z ▹ z ▹ tt,
  z,
  z,
  z,
  z,
)

pub fp_register_form-IsInRange : (raw : ℕ) (op : Opcode) → IsInRange (fp_register_form raw op)
unfolding IsInRange
fp_register_form-IsInRange raw op = (
  z ▹ z ▹ r5 _ ▹ z ▹ z ▹ z ▹ z ▹ z ▹ z ▹ z ▹ z ▹ z ▹ z ▹ z ▹ z ▹ z ▹ z ▹ z ▹ z ▹ tt,
  z ▹ z ▹ z ▹ z ▹ tt,
  z,
  z,
  z,
  z,
)

pub fpscr_bit_form-IsInRange : (raw : ℕ) (op : Opcode) → IsInRange (fpscr_bit_form raw op)
unfolding IsInRange
fpscr_bit_form-IsInRange raw op = (
  z ▹ z ▹ z ▹ z ▹ z ▹ z ▹ z ▹ z ▹ z ▹ z ▹ z ▹ z ▹ r5 _ ▹ z ▹ z ▹ z ▹ z ▹ z ▹ z ▹ tt,
  z ▹ z ▹ z ▹ z ▹ tt,
  z,
  z,
  z,
  z,
)

pub fpscr_immediate_form-IsInRange :
    (raw : ℕ) (op : Opcode) → IsInRange (fpscr_immediate_form raw op)
unfolding IsInRange
fpscr_immediate_form-IsInRange raw op = (
  z ▹ z ▹ z ▹ z ▹ z ▹ z ▹ z ▹ z ▹ z ▹ z ▹ z ▹ z ▹ z ▹ z ▹ z ▹ z ▹ z ▹ z ▹ z ▹ tt,
  z ▹ z ▹ r3 _ ▹ z ▹ tt,
  z,
  z,
  r4 _,
  z,
)

pub fpscr_fields_form-IsInRange : (raw : ℕ) (op : Opcode) → IsInRange (fpscr_fields_form raw op)
unfolding IsInRange
fpscr_fields_form-IsInRange raw op = (
  z ▹ z ▹ z ▹ z ▹ r5 _ ▹ z ▹ z ▹ z ▹ z ▹ z ▹ z ▹ z ▹ z ▹ z ▹ z ▹ z ▹ z ▹ z ▹ z ▹ tt,
  z ▹ z ▹ z ▹ z ▹ tt,
  z,
  r8 _,
  z,
  z,
)

pub fpscr_move_form-IsInRange : (raw : ℕ) (op : Opcode) → IsInRange (fpscr_move_form raw op)
unfolding IsInRange
fpscr_move_form-IsInRange raw op = (
  z ▹ z ▹ z ▹ z ▹ z ▹ z ▹ z ▹ z ▹ z ▹ z ▹ z ▹ z ▹ z ▹ z ▹ z ▹ z ▹ z ▹ z ▹ z ▹ tt,
  r3 _ ▹ z ▹ r3 _ ▹ z ▹ tt,
  z,
  z,
  z,
  z,
)

pub quantized_indexed_form-IsInRange :
    (raw : ℕ) (op : Opcode) → IsInRange (quantized_indexed_form raw op)
unfolding IsInRange
quantized_indexed_form-IsInRange raw op = (
  z ▹ r5 _ ▹ r5 _ ▹ z ▹ z ▹ r5 _ ▹ z ▹ z ▹ z ▹ z ▹ z ▹ z ▹ z ▹ z ▹ z ▹ z ▹ z ▹ z ▹ z ▹ tt,
  z ▹ z ▹ z ▹ r3 _ ▹ tt,
  z,
  z,
  z,
  z,
)

pub quantized_form-IsInRange : (raw : ℕ) (op : Opcode) → IsInRange (quantized_form raw op)
unfolding IsInRange
quantized_form-IsInRange raw op = (
  z ▹ z ▹ r5 _ ▹ z ▹ z ▹ r5 _ ▹ z ▹ z ▹ z ▹ z ▹ z ▹ z ▹ z ▹ z ▹ z ▹ z ▹ z ▹ z ▹ z ▹ tt,
  z ▹ z ▹ z ▹ r3 _ ▹ tt,
  z,
  z,
  z,
  extended _ _,
)

pub fp_immediate_form-IsInRange : (raw : ℕ) (op : Opcode) → IsInRange (fp_immediate_form raw op)
unfolding IsInRange
fp_immediate_form-IsInRange raw op = (
  z ▹ z ▹ r5 _ ▹ z ▹ z ▹ r5 _ ▹ z ▹ z ▹ z ▹ z ▹ z ▹ z ▹ z ▹ z ▹ z ▹ z ▹ z ▹ z ▹ z ▹ tt,
  z ▹ z ▹ z ▹ z ▹ tt,
  z,
  z,
  z,
  extended _ _,
)
