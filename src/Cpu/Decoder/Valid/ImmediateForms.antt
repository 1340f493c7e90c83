-- ===== src/Cpu/Decoder/Valid/ImmediateForms.antt =====
-- The ranges of the operands of the instructions with an immediate.
use affogato.Base.{ℕ}
use affogato.Cpu.Decoder.Instruction.{Opcode}
use affogato.Cpu.Decoder.ImmediateForms.{
  immediate_form, immediate_record_form, store_multiple_form, logical_immediate_form,
  logical_immediate_record_form, compare_immediate_form, compare_logical_immediate_form, jump_form,
  conditional_form,
}
use affogato.Cpu.Decoder.Valid.{IsInRange}
use affogato.Cpu.Decoder.Valid.Forms.{◌▹◌, z, r3, r5, h16, extended}

pub immediate_form-IsInRange : (raw : ℕ) (op : Opcode) → IsInRange (immediate_form raw op)
unfolding IsInRange
immediate_form-IsInRange raw op = (
  r5 _ ▹ z ▹ z ▹ z ▹ z ▹ r5 _ ▹ z ▹ z ▹ z ▹ z ▹ z ▹ z ▹ z ▹ z ▹ z ▹ z ▹ z ▹ z ▹ z ▹ tt,
  z ▹ z ▹ z ▹ z ▹ tt,
  z,
  z,
  z,
  extended _ _,
)

pub immediate_record_form-IsInRange :
    (raw : ℕ) (op : Opcode) → IsInRange (immediate_record_form raw op)
unfolding IsInRange
immediate_record_form-IsInRange raw op = (
  r5 _ ▹ z ▹ z ▹ z ▹ z ▹ r5 _ ▹ z ▹ z ▹ z ▹ z ▹ z ▹ z ▹ z ▹ z ▹ z ▹ z ▹ z ▹ z ▹ z ▹ tt,
  z ▹ z ▹ z ▹ z ▹ tt,
  z,
  z,
  z,
  extended _ _,
)

pub store_multiple_form-IsInRange : (raw : ℕ) (op : Opcode) → IsInRange (store_multiple_form raw op)
unfolding IsInRange
store_multiple_form-IsInRange raw op = (
  z ▹ r5 _ ▹ z ▹ z ▹ z ▹ r5 _ ▹ z ▹ z ▹ z ▹ z ▹ z ▹ z ▹ z ▹ z ▹ z ▹ z ▹ z ▹ z ▹ z ▹ tt,
  z ▹ z ▹ z ▹ z ▹ tt,
  z,
  z,
  z,
  extended _ _,
)

pub logical_immediate_form-IsInRange :
    (raw : ℕ) (op : Opcode) → IsInRange (logical_immediate_form raw op)
unfolding IsInRange
logical_immediate_form-IsInRange raw op = (
  r5 _ ▹ r5 _ ▹ z ▹ z ▹ z ▹ z ▹ z ▹ z ▹ z ▹ z ▹ z ▹ z ▹ z ▹ z ▹ z ▹ z ▹ z ▹ z ▹ z ▹ tt,
  z ▹ z ▹ z ▹ z ▹ tt,
  z,
  z,
  z,
  h16 _,
)

pub logical_immediate_record_form-IsInRange :
    (raw : ℕ) (op : Opcode) → IsInRange (logical_immediate_record_form raw op)
unfolding IsInRange
logical_immediate_record_form-IsInRange raw op = (
  r5 _ ▹ r5 _ ▹ z ▹ z ▹ z ▹ z ▹ z ▹ z ▹ z ▹ z ▹ z ▹ z ▹ z ▹ z ▹ z ▹ z ▹ z ▹ z ▹ z ▹ tt,
  z ▹ z ▹ z ▹ z ▹ tt,
  z,
  z,
  z,
  h16 _,
)

pub compare_immediate_form-IsInRange :
    (raw : ℕ) (op : Opcode) → IsInRange (compare_immediate_form raw op)
unfolding IsInRange
compare_immediate_form-IsInRange raw op = (
  z ▹ z ▹ z ▹ z ▹ z ▹ r5 _ ▹ z ▹ z ▹ z ▹ z ▹ z ▹ z ▹ z ▹ z ▹ z ▹ z ▹ z ▹ z ▹ z ▹ tt,
  r3 _ ▹ z ▹ z ▹ z ▹ tt,
  z,
  z,
  z,
  extended _ _,
)

pub compare_logical_immediate_form-IsInRange :
    (raw : ℕ) (op : Opcode) → IsInRange (compare_logical_immediate_form raw op)
unfolding IsInRange
compare_logical_immediate_form-IsInRange raw op = (
  z ▹ z ▹ z ▹ z ▹ z ▹ r5 _ ▹ z ▹ z ▹ z ▹ z ▹ z ▹ z ▹ z ▹ z ▹ z ▹ z ▹ z ▹ z ▹ z ▹ tt,
  r3 _ ▹ z ▹ z ▹ z ▹ tt,
  z,
  z,
  z,
  h16 _,
)

pub jump_form-IsInRange : (raw : ℕ) (op : Opcode) → IsInRange (jump_form raw op)
unfolding IsInRange
jump_form-IsInRange raw op = (
  z ▹ z ▹ z ▹ z ▹ z ▹ z ▹ z ▹ z ▹ z ▹ z ▹ z ▹ z ▹ z ▹ z ▹ z ▹ z ▹ z ▹ z ▹ z ▹ tt,
  z ▹ z ▹ z ▹ z ▹ tt,
  z,
  z,
  z,
  extended _ _,
)

pub conditional_form-IsInRange : (raw : ℕ) (op : Opcode) → IsInRange (conditional_form raw op)
unfolding IsInRange
conditional_form-IsInRange raw op = (
  z ▹ z ▹ z ▹ z ▹ z ▹ z ▹ z ▹ z ▹ z ▹ z ▹ z ▹ z ▹ z ▹ r5 _ ▹ r5 _ ▹ z ▹ z ▹ z ▹ z ▹ tt,
  z ▹ z ▹ z ▹ z ▹ tt,
  z,
  z,
  z,
  extended _ _,
)
