-- ===== src/Cpu/Decoder/Valid/Forms.antt =====
-- The ranges of the operands of the integer, condition register and cache instructions.
use affogato.Base.{ℕ, suc, ◌^◌, ◌<◌, arith, bit_and, and_mask}
use affogato.Cpu.Decoder.Instruction.{Opcode}
use affogato.Cpu.Decoder.Fields.{sign_extend}
use affogato.Cpu.Decoder.Forms.{
  indexed_form, arithmetic_form, unary_form, negate_form, logical_form, extend_form, shift_form,
  rotate_form, rotate_register_form, cache_form, compare_form, plain_form, base_form,
  destination_base_form, destination_form, cr_fields_form, cr_field_form, load_string_form,
  store_string_form, store_string_indexed_form, cr_bits_form, cr_move_form, branch_form,
}
use affogato.Cpu.Decoder.Valid.{IsInRange}

pub z : {n : ℕ} → 0 < suc n
z {n} = omega arith

infixr 20 ◌▹◌
abbrev pub ◌▹◌ : {A B : Type 0} → A → B → A × B
p ▹ q = (p, q)

pub r3 : (x : ℕ) → bit_and x 0x7 < 8
r3 x = omega (arith, and_mask 3 x)

pub r4 : (x : ℕ) → bit_and x 0xF < 16
r4 x = omega (arith, and_mask 4 x)

pub r5 : (x : ℕ) → bit_and x 0x1F < 32
r5 x = omega (arith, and_mask 5 x)

pub r8 : (x : ℕ) → bit_and x 0xFF < 256
r8 x = omega (arith, and_mask 8 x)

pub h16 : (x : ℕ) → bit_and x 0xFFFF < 2 ^ 32
h16 x = omega (arith, and_mask 16 x)

pub extended : (value bits : ℕ) → sign_extend value bits < 2 ^ 32
unfolding sign_extend
extended value bits = omega arith

pub indexed_form-IsInRange : (raw : ℕ) (op : Opcode) → IsInRange (indexed_form raw op)
unfolding IsInRange
indexed_form-IsInRange raw op = (
  r5 _ ▹ r5 _ ▹ z ▹ z ▹ z ▹ r5 _ ▹ z ▹ z ▹ z ▹ z ▹ z ▹ z ▹ z ▹ z ▹ z ▹ z ▹ z ▹ z ▹ z ▹ tt,
  z ▹ z ▹ z ▹ z ▹ tt,
  z,
  z,
  z,
  z,
)

pub arithmetic_form-IsInRange : (raw : ℕ) (op : Opcode) → IsInRange (arithmetic_form raw op)
unfolding IsInRange
arithmetic_form-IsInRange raw op = (
  r5 _ ▹ r5 _ ▹ z ▹ z ▹ z ▹ r5 _ ▹ z ▹ z ▹ z ▹ z ▹ z ▹ z ▹ z ▹ z ▹ z ▹ z ▹ z ▹ z ▹ z ▹ tt,
  z ▹ z ▹ z ▹ z ▹ tt,
  z,
  z,
  z,
  z,
)

pub unary_form-IsInRange : (raw : ℕ) (op : Opcode) → IsInRange (unary_form raw op)
unfolding IsInRange
unary_form-IsInRange raw op = (
  r5 _ ▹ z ▹ z ▹ z ▹ z ▹ r5 _ ▹ z ▹ z ▹ z ▹ z ▹ z ▹ z ▹ z ▹ z ▹ z ▹ z ▹ z ▹ z ▹ z ▹ tt,
  z ▹ z ▹ z ▹ z ▹ tt,
  z,
  z,
  z,
  z,
)

pub negate_form-IsInRange : (raw : ℕ) (op : Opcode) → IsInRange (negate_form raw op)
unfolding IsInRange
negate_form-IsInRange raw op = (
  r5 _ ▹ r5 _ ▹ z ▹ z ▹ z ▹ z ▹ z ▹ z ▹ z ▹ z ▹ z ▹ z ▹ z ▹ z ▹ z ▹ z ▹ z ▹ z ▹ z ▹ tt,
  z ▹ z ▹ z ▹ z ▹ tt,
  z,
  z,
  z,
  z,
)

pub logical_form-IsInRange : (raw : ℕ) (op : Opcode) → IsInRange (logical_form raw op)
unfolding IsInRange
logical_form-IsInRange raw op = (
  r5 _ ▹ r5 _ ▹ z ▹ z ▹ z ▹ r5 _ ▹ z ▹ z ▹ z ▹ z ▹ z ▹ z ▹ z ▹ z ▹ z ▹ z ▹ z ▹ z ▹ z ▹ tt,
  z ▹ z ▹ z ▹ z ▹ tt,
  z,
  z,
  z,
  z,
)

pub extend_form-IsInRange : (raw : ℕ) (op : Opcode) → IsInRange (extend_form raw op)
unfolding IsInRange
extend_form-IsInRange raw op = (
  r5 _ ▹ r5 _ ▹ z ▹ z ▹ z ▹ z ▹ z ▹ z ▹ z ▹ z ▹ z ▹ z ▹ z ▹ z ▹ z ▹ z ▹ z ▹ z ▹ z ▹ tt,
  z ▹ z ▹ z ▹ z ▹ tt,
  z,
  z,
  z,
  z,
)

pub shift_form-IsInRange : (raw : ℕ) (op : Opcode) → IsInRange (shift_form raw op)
unfolding IsInRange
shift_form-IsInRange raw op = (
  r5 _ ▹ r5 _ ▹ z ▹ z ▹ z ▹ z ▹ z ▹ z ▹ z ▹ z ▹ z ▹ z ▹ z ▹ z ▹ z ▹ r5 _ ▹ z ▹ z ▹ z ▹ tt,
  z ▹ z ▹ z ▹ z ▹ tt,
  z,
  z,
  z,
  z,
)

pub rotate_form-IsInRange : (raw : ℕ) (op : Opcode) → IsInRange (rotate_form raw op)
unfolding IsInRange
rotate_form-IsInRange raw op = (
  r5 _ ▹ r5 _ ▹ z ▹ z ▹ z ▹ z ▹ z ▹ z ▹ z ▹ z ▹ z ▹ z ▹ z ▹ z ▹ z ▹ r5 _ ▹ r5 _ ▹ r5 _ ▹ z ▹ tt,
  z ▹ z ▹ z ▹ z ▹ tt,
  z,
  z,
  z,
  z,
)

pub rotate_register_form-IsInRange :
    (raw : ℕ) (op : Opcode) → IsInRange (rotate_register_form raw op)
unfolding IsInRange
rotate_register_form-IsInRange raw op = (
  r5 _ ▹ r5 _ ▹ z ▹ z ▹ z ▹ r5 _ ▹ z ▹ z ▹ z ▹ z ▹ z ▹ z ▹ z ▹ z ▹ z ▹ z ▹ r5 _ ▹ r5 _ ▹ z ▹ tt,
  z ▹ z ▹ z ▹ z ▹ tt,
  z,
  z,
  z,
  z,
)

pub cache_form-IsInRange : (raw : ℕ) (op : Opcode) → IsInRange (cache_form raw op)
unfolding IsInRange
cache_form-IsInRange raw op = (
  z ▹ r5 _ ▹ z ▹ z ▹ z ▹ r5 _ ▹ z ▹ z ▹ z ▹ z ▹ z ▹ z ▹ z ▹ z ▹ z ▹ z ▹ z ▹ z ▹ z ▹ tt,
  z ▹ z ▹ z ▹ z ▹ tt,
  z,
  z,
  z,
  z,
)

pub compare_form-IsInRange : (raw : ℕ) (op : Opcode) → IsInRange (compare_form raw op)
unfolding IsInRange
compare_form-IsInRange raw op = (
  z ▹ r5 _ ▹ z ▹ z ▹ z ▹ r5 _ ▹ z ▹ z ▹ z ▹ z ▹ z ▹ z ▹ z ▹ z ▹ z ▹ z ▹ z ▹ z ▹ z ▹ tt,
  r3 _ ▹ z ▹ z ▹ z ▹ tt,
  z,
  z,
  z,
  z,
)

pub plain_form-IsInRange : (raw : ℕ) (op : Opcode) → IsInRange (plain_form raw op)
unfolding IsInRange
plain_form-IsInRange raw op = (
  z ▹ z ▹ z ▹ z ▹ z ▹ z ▹ z ▹ z ▹ z ▹ z ▹ z ▹ z ▹ z ▹ z ▹ z ▹ z ▹ z ▹ z ▹ z ▹ tt,
  z ▹ z ▹ z ▹ z ▹ tt,
  z,
  z,
  z,
  z,
)

pub base_form-IsInRange : (raw : ℕ) (op : Opcode) → IsInRange (base_form raw op)
unfolding IsInRange
base_form-IsInRange raw op = (
  z ▹ z ▹ z ▹ z ▹ z ▹ r5 _ ▹ z ▹ z ▹ z ▹ z ▹ z ▹ z ▹ z ▹ z ▹ z ▹ z ▹ z ▹ z ▹ z ▹ tt,
  z ▹ z ▹ z ▹ z ▹ tt,
  z,
  z,
  z,
  z,
)

pub destination_base_form-IsInRange :
    (raw : ℕ) (op : Opcode) → IsInRange (destination_base_form raw op)
unfolding IsInRange
destination_base_form-IsInRange raw op = (
  r5 _ ▹ z ▹ z ▹ z ▹ z ▹ r5 _ ▹ z ▹ z ▹ z ▹ z ▹ z ▹ z ▹ z ▹ z ▹ z ▹ z ▹ z ▹ z ▹ z ▹ tt,
  z ▹ z ▹ z ▹ z ▹ tt,
  z,
  z,
  z,
  z,
)

pub destination_form-IsInRange : (raw : ℕ) (op : Opcode) → IsInRange (destination_form raw op)
unfolding IsInRange
destination_form-IsInRange raw op = (
  r5 _ ▹ z ▹ z ▹ z ▹ z ▹ z ▹ z ▹ z ▹ z ▹ z ▹ z ▹ z ▹ z ▹ z ▹ z ▹ z ▹ z ▹ z ▹ z ▹ tt,
  z ▹ z ▹ z ▹ z ▹ tt,
  z,
  z,
  z,
  z,
)

pub cr_fields_form-IsInRange : (raw : ℕ) (op : Opcode) → IsInRange (cr_fields_form raw op)
unfolding IsInRange
cr_fields_form-IsInRange raw op = (
  r5 _ ▹ z ▹ z ▹ z ▹ z ▹ z ▹ z ▹ z ▹ z ▹ z ▹ z ▹ z ▹ z ▹ z ▹ z ▹ z ▹ z ▹ z ▹ z ▹ tt,
  z ▹ z ▹ z ▹ z ▹ tt,
  r8 _,
  z,
  z,
  z,
)

pub cr_field_form-IsInRange : (raw : ℕ) (op : Opcode) → IsInRange (cr_field_form raw op)
unfolding IsInRange
cr_field_form-IsInRange raw op = (
  z ▹ z ▹ z ▹ z ▹ z ▹ z ▹ z ▹ z ▹ z ▹ z ▹ z ▹ z ▹ z ▹ z ▹ z ▹ z ▹ z ▹ z ▹ z ▹ tt,
  r3 _ ▹ z ▹ z ▹ z ▹ tt,
  z,
  z,
  z,
  z,
)

pub load_string_form-IsInRange : (raw : ℕ) (op : Opcode) → IsInRange (load_string_form raw op)
unfolding IsInRange
load_string_form-IsInRange raw op = (
  r5 _ ▹ z ▹ z ▹ z ▹ z ▹ r5 _ ▹ z ▹ z ▹ z ▹ z ▹ z ▹ z ▹ z ▹ z ▹ z ▹ z ▹ z ▹ z ▹ r5 _ ▹ tt,
  z ▹ z ▹ z ▹ z ▹ tt,
  z,
  z,
  z,
  z,
)

pub store_string_form-IsInRange : (raw : ℕ) (op : Opcode) → IsInRange (store_string_form raw op)
unfolding IsInRange
store_string_form-IsInRange raw op = (
  z ▹ r5 _ ▹ z ▹ z ▹ z ▹ r5 _ ▹ z ▹ z ▹ z ▹ z ▹ z ▹ z ▹ z ▹ z ▹ z ▹ z ▹ z ▹ z ▹ r5 _ ▹ tt,
  z ▹ z ▹ z ▹ z ▹ tt,
  z,
  z,
  z,
  z,
)

pub store_string_indexed_form-IsInRange :
    (raw : ℕ) (op : Opcode) → IsInRange (store_string_indexed_form raw op)
unfolding IsInRange
store_string_indexed_form-IsInRange raw op = (
  r5 _ ▹ r5 _ ▹ z ▹ z ▹ z ▹ r5 _ ▹ z ▹ z ▹ z ▹ z ▹ z ▹ z ▹ z ▹ z ▹ z ▹ z ▹ z ▹ z ▹ z ▹ tt,
  z ▹ z ▹ z ▹ z ▹ tt,
  z,
  z,
  z,
  z,
)

pub cr_bits_form-IsInRange : (raw : ℕ) (op : Opcode) → IsInRange (cr_bits_form raw op)
unfolding IsInRange
cr_bits_form-IsInRange raw op = (
  z ▹ z ▹ z ▹ z ▹ z ▹ z ▹ r5 _ ▹ r5 _ ▹ r5 _ ▹ z ▹ z ▹ z ▹ z ▹ z ▹ z ▹ z ▹ z ▹ z ▹ z ▹ tt,
  z ▹ z ▹ z ▹ z ▹ tt,
  z,
  z,
  z,
  z,
)

pub cr_move_form-IsInRange : (raw : ℕ) (op : Opcode) → IsInRange (cr_move_form raw op)
unfolding IsInRange
cr_move_form-IsInRange raw op = (
  z ▹ z ▹ z ▹ z ▹ z ▹ z ▹ z ▹ z ▹ z ▹ z ▹ z ▹ z ▹ z ▹ z ▹ z ▹ z ▹ z ▹ z ▹ z ▹ tt,
  r3 _ ▹ r3 _ ▹ z ▹ z ▹ tt,
  z,
  z,
  z,
  z,
)

pub branch_form-IsInRange : (raw : ℕ) (op : Opcode) → IsInRange (branch_form raw op)
unfolding IsInRange
branch_form-IsInRange raw op = (
  z ▹ z ▹ z ▹ z ▹ z ▹ z ▹ z ▹ z ▹ z ▹ z ▹ z ▹ z ▹ z ▹ r5 _ ▹ r5 _ ▹ z ▹ z ▹ z ▹ z ▹ tt,
  z ▹ z ▹ z ▹ z ▹ tt,
  z,
  z,
  z,
  z,
)
