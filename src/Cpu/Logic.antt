-- ===== src/Cpu/Logic.antt =====
-- The logical, shift, rotate and compare instructions of `EspressoCore::step`
-- (src/cpu/espresso/interpreter.cpp), one function for each opcode, and the mask of the rotates.
pub mod Mask
pub mod Divide
use affogato.Base.{
  ℕ, zero, suc, ◌+◌, ◌-◌, ◌*◌, ◌/◌, ◌%◌, ◌^◌, bit_and, bit_or, bit_xor, Bool, true, false, not,
  ◌&&◌, ◌||◌, u32, not32, ◌<<<◌, ◌>>>◌, ltb, leb, ◌==◌, if◌then◌else◌,
}
use affogato.Cpu.State.{CpuState}
use affogato.Cpu.Flags.{
  set_xer_carry, set_record_result, set_compare_result, set_compare_result_unsigned, write_gpr,
}
use affogato.Cpu.Arithmetic.{Operands, deliver, deliver_carry, sign_bit}

-- Whether the mask has the bit, numbered from the most significant end.
abbrev pub selected : ℕ → ℕ → ℕ → Bool
selected begin end bit_number =
    if leb begin end
    then leb begin bit_number && leb bit_number end
    else leb begin bit_number || leb bit_number end

-- The loop, from a bit on.
unfoldable pub rotate_mask_from : ℕ → ℕ → ℕ → ℕ → ℕ → ℕ
rotate_mask_from begin end bit_number zero mask = mask
rotate_mask_from begin end bit_number (suc left) mask =
    rotate_mask_from begin end (bit_number + 1) left
      (if selected begin end bit_number then bit_or mask (1 <<< (31 - bit_number)) else mask)

unfoldable pub rotate_mask : ℕ → ℕ → ℕ
rotate_mask begin end = rotate_mask_from begin end 0 32 0

-- `std::rotl` of 32 bits.
abbrev pub rotl : ℕ → ℕ → ℕ
rotl x n = let r = n % 32 in bit_or (u32 (x <<< r)) (x >>> (32 - r))

-- `>>` of a signed integer given by its bit pattern.
abbrev pub shift_right_signed : ℕ → ℕ → ℕ
shift_right_signed x n = if ltb x (2 ^ 31) then x >>> n else not32 (not32 x >>> n)

-- `std::countl_zero` of a number of so many bits.
unfoldable pub countl_zero : ℕ → ℕ → ℕ
countl_zero zero x = 0
countl_zero (suc bits) x = let rest = countl_zero bits x in if ltb x (2 ^ bits) then suc rest else 0

unfoldable pub ori : CpuState → Operands → CpuState
ori s o = write_gpr s o.destination (bit_or (s.gpr o.source) o.immediate)

unfoldable pub or_immediate_shifted : CpuState → Operands → CpuState
or_immediate_shifted s o =
    write_gpr s o.destination (bit_or (s.gpr o.source) (u32 (o.immediate <<< 16)))

unfoldable pub count_leading_zeros : CpuState → Operands → CpuState
count_leading_zeros s o = deliver s o (countl_zero 32 (s.gpr o.source))

unfoldable pub xor_immediate : CpuState → Operands → CpuState
xor_immediate s o = write_gpr s o.destination (bit_xor (s.gpr o.source) o.immediate)

unfoldable pub xor_immediate_shifted : CpuState → Operands → CpuState
xor_immediate_shifted s o =
    write_gpr s o.destination (bit_xor (s.gpr o.source) (u32 (o.immediate <<< 16)))

-- The operation of each bitwise opcode on two registers.
pub data BitwiseOpcode : Type 0 where
  bitwise_or bitwise_and bitwise_and_complement bitwise_xor : BitwiseOpcode
  bitwise_equivalence bitwise_nand bitwise_nor bitwise_or_complement : BitwiseOpcode

unfoldable pub bitwise_result : BitwiseOpcode → ℕ → ℕ → ℕ
bitwise_result bitwise_or lhs rhs = bit_or lhs rhs
bitwise_result bitwise_and lhs rhs = bit_and lhs rhs
bitwise_result bitwise_and_complement lhs rhs = bit_and lhs (not32 rhs)
bitwise_result bitwise_xor lhs rhs = bit_xor lhs rhs
bitwise_result bitwise_equivalence lhs rhs = not32 (bit_xor lhs rhs)
bitwise_result bitwise_nand lhs rhs = not32 (bit_and lhs rhs)
bitwise_result bitwise_nor lhs rhs = not32 (bit_or lhs rhs)
bitwise_result bitwise_or_complement lhs rhs = bit_or lhs (not32 rhs)

unfoldable pub execute_bitwise : BitwiseOpcode → CpuState → Operands → CpuState
execute_bitwise op s o = deliver s o (bitwise_result op (s.gpr o.source) (s.gpr o.base))

-- The two immediate forms record their result always.
unfoldable pub and_immediate_record : CpuState → Operands → CpuState
and_immediate_record s o =
    let result = bit_and (s.gpr o.source) o.immediate in
    set_record_result (write_gpr s o.destination result) result

unfoldable pub and_immediate_shifted_record : CpuState → Operands → CpuState
and_immediate_shifted_record s o =
    let result = bit_and (s.gpr o.source) (u32 (o.immediate <<< 16)) in
    set_record_result (write_gpr s o.destination result) result

abbrev pub rotate_and_mask : CpuState → Operands → ℕ → CpuState
rotate_and_mask s o shift =
    deliver s o (bit_and (rotl (s.gpr o.source) shift) (rotate_mask o.mask_begin o.mask_end))

unfoldable pub rotate_left_word_and_mask : CpuState → Operands → CpuState
rotate_left_word_and_mask s o = rotate_and_mask s o o.shift

unfoldable pub rotate_left_word_and_mask_register : CpuState → Operands → CpuState
rotate_left_word_and_mask_register s o = rotate_and_mask s o (bit_and (s.gpr o.base) 0x1F)

unfoldable pub arithmetic_shift_right_word : CpuState → Operands → CpuState
arithmetic_shift_right_word s o =
    let source = s.gpr o.source in
    let shift = bit_and (s.gpr o.base) 0x3F in
    let negative = leb (2 ^ 31) source in
    if shift == 0
    then deliver_carry s o source false
    else if ltb shift 32
    then deliver_carry s o (shift_right_signed source shift)
        (negative && not (bit_and source (u32 (1 <<< shift) - 1) == 0))
    else deliver_carry s o (if negative then 0xFFFFFFFF else 0) negative

unfoldable pub rotate_left_word_and_mask_insert : CpuState → Operands → CpuState
rotate_left_word_and_mask_insert s o =
    let rotated = rotl (s.gpr o.source) o.shift in
    let mask = rotate_mask o.mask_begin o.mask_end in
    deliver s o (bit_or (bit_and rotated mask) (bit_and (s.gpr o.destination) (not32 mask)))

unfoldable pub arithmetic_shift_right_immediate : CpuState → Operands → CpuState
arithmetic_shift_right_immediate s o =
    let source = s.gpr o.source in
    let mask = if o.shift == 0 then 0 else u32 (1 <<< o.shift) - 1 in
    deliver_carry s o (shift_right_signed source o.shift)
      (leb (2 ^ 31) source && not (bit_and source mask == 0))

unfoldable pub shift_left_word : CpuState → Operands → CpuState
shift_left_word s o =
    let shift = bit_and (s.gpr o.base) 0x3F in
    deliver s o (if leb 32 shift then 0 else u32 (s.gpr o.source <<< shift))

unfoldable pub shift_right_word : CpuState → Operands → CpuState
shift_right_word s o =
    let shift = bit_and (s.gpr o.base) 0x3F in
    deliver s o (if leb 32 shift then 0 else s.gpr o.source >>> shift)

unfoldable pub compare_signed_immediate : CpuState → Operands → CpuState
compare_signed_immediate s o = set_compare_result s o.cr_field (s.gpr o.base) o.immediate

unfoldable pub compare_signed_register : CpuState → Operands → CpuState
compare_signed_register s o = set_compare_result s o.cr_field (s.gpr o.base) (s.gpr o.source)

unfoldable pub compare_unsigned_immediate : CpuState → Operands → CpuState
compare_unsigned_immediate s o = set_compare_result_unsigned s o.cr_field (s.gpr o.base) o.immediate

unfoldable pub compare_unsigned_register : CpuState → Operands → CpuState
compare_unsigned_register s o =
    set_compare_result_unsigned s o.cr_field (s.gpr o.base) (s.gpr o.source)
