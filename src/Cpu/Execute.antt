-- ===== src/Cpu/Execute.antt =====
-- The switch of `EspressoCore::step` (src/cpu/espresso/interpreter.cpp) on the opcode. The cases that
-- stand on the floating-point arithmetic or the clock of the host are a parameter.
use affogato.Base.{
  ℕ, ◌+◌, Bool, false, not, ◌&&◌, bit_and, ◌>>>◌, ltb, leb, ◌==◌, if◌then◌else◌, Option, none, some,
  Result, ok, ◌>>=◌, u32,
}
use affogato.Cpu.State.{CpuState}
use affogato.Cpu.Decoder.Instruction.{Opcode, DecodedInstruction}
use affogato.Cpu.Arithmetic
use affogato.Cpu.Arithmetic.{Operands}
use affogato.Cpu.Logic
use affogato.Cpu.Multiply
use affogato.Cpu.Branch
use affogato.Cpu.Branch.{Jump}
use affogato.Cpu.Condition
use affogato.Cpu.Access
use affogato.Cpu.Access.{Outcome}
use affogato.Cpu.Access.Strings.{load_string_word, store_string_word}
use affogato.Memory.State.{GuestMemory}

-- The operands of the integer instructions.
abbrev pub operands : DecodedInstruction → Operands
operands i = record {
  destination = i.destination;
  source = i.source;
  base = i.base;
  immediate = i.immediate;
  shift = i.shift;
  mask_begin = i.mask_begin;
  mask_end = i.mask_end;
  cr_field = i.cr_field;
  record_result = i.record_result;
}

-- The cases that work on the operands and change registers alone.
unfoldable pub integer_case : Opcode → Option (CpuState → Operands → CpuState)
integer_case Opcode.negate = some Arithmetic.negate
integer_case Opcode.negate_overflow = some Arithmetic.negate_overflow
integer_case Opcode.extend_sign_byte = some Arithmetic.extend_sign_byte
integer_case Opcode.extend_sign_halfword = some Arithmetic.extend_sign_halfword
integer_case Opcode.addi = some Arithmetic.addi
integer_case Opcode.addis = some Arithmetic.addis
integer_case Opcode.add_immediate_carry = some Arithmetic.add_immediate_carry
integer_case Opcode.subtract_from_immediate_carry = some Arithmetic.subtract_from_immediate_carry
integer_case Opcode.add = some Arithmetic.add
integer_case Opcode.add_overflow = some Arithmetic.add_overflow
integer_case Opcode.subtract_from_overflow = some Arithmetic.subtract_from_overflow
integer_case Opcode.add_carrying = some Arithmetic.add_carrying
integer_case Opcode.add_carrying_overflow = some Arithmetic.add_carrying_overflow
integer_case Opcode.add_to_zero_extended = some Arithmetic.add_to_zero_extended
integer_case Opcode.add_to_zero_extended_overflow = some Arithmetic.add_to_zero_extended_overflow
integer_case Opcode.add_extended = some Arithmetic.add_extended
integer_case Opcode.add_extended_overflow = some Arithmetic.add_extended_overflow
integer_case Opcode.add_to_minus_one_extended = some Arithmetic.add_to_minus_one_extended
integer_case Opcode.add_to_minus_one_extended_overflow =
    some Arithmetic.add_to_minus_one_extended_overflow
integer_case Opcode.subtract_from = some Arithmetic.subtract_from
integer_case Opcode.subtract_from_carrying = some Arithmetic.subtract_from_carrying
integer_case Opcode.subtract_from_carrying_overflow =
    some Arithmetic.subtract_from_carrying_overflow
integer_case Opcode.subtract_from_extended = some Arithmetic.subtract_from_extended
integer_case Opcode.subtract_from_extended_overflow =
    some Arithmetic.subtract_from_extended_overflow
integer_case Opcode.subtract_from_zero_extended = some Arithmetic.subtract_from_zero_extended
integer_case Opcode.subtract_from_zero_extended_overflow =
    some Arithmetic.subtract_from_zero_extended_overflow
integer_case Opcode.subtract_from_minus_one_extended =
    some Arithmetic.subtract_from_minus_one_extended
integer_case Opcode.subtract_from_minus_one_extended_overflow =
    some Arithmetic.subtract_from_minus_one_extended_overflow
integer_case Opcode.multiply_low_immediate = some Multiply.multiply_low_immediate
integer_case Opcode.multiply_low_word = some Multiply.multiply_low_word
integer_case Opcode.multiply_low_word_overflow = some Multiply.multiply_low_word_overflow
integer_case Opcode.multiply_high_word_unsigned = some Multiply.multiply_high_word_unsigned
integer_case Opcode.multiply_high_word_signed = some Multiply.multiply_high_word_signed
integer_case Opcode.divide_word_unsigned = some Multiply.divide_word_unsigned
integer_case Opcode.divide_word_unsigned_overflow = some Multiply.divide_word_unsigned_overflow
integer_case Opcode.divide_word_signed = some Multiply.divide_word_signed
integer_case Opcode.divide_word_signed_overflow = some Multiply.divide_word_signed_overflow
integer_case Opcode.ori = some Logic.ori
integer_case Opcode.or_immediate_shifted = some Logic.or_immediate_shifted
integer_case Opcode.count_leading_zeros = some Logic.count_leading_zeros
integer_case Opcode.xor_immediate = some Logic.xor_immediate
integer_case Opcode.xor_immediate_shifted = some Logic.xor_immediate_shifted
integer_case Opcode.and_immediate_record = some Logic.and_immediate_record
integer_case Opcode.and_immediate_shifted_record = some Logic.and_immediate_shifted_record
integer_case Opcode.rotate_left_word_and_mask = some Logic.rotate_left_word_and_mask
integer_case Opcode.rotate_left_word_and_mask_register =
    some Logic.rotate_left_word_and_mask_register
integer_case Opcode.arithmetic_shift_right_word = some Logic.arithmetic_shift_right_word
integer_case Opcode.rotate_left_word_and_mask_insert = some Logic.rotate_left_word_and_mask_insert
integer_case Opcode.arithmetic_shift_right_immediate = some Logic.arithmetic_shift_right_immediate
integer_case Opcode.shift_left_word = some Logic.shift_left_word
integer_case Opcode.shift_right_word = some Logic.shift_right_word
integer_case Opcode.compare_signed_immediate = some Logic.compare_signed_immediate
integer_case Opcode.compare_signed_register = some Logic.compare_signed_register
integer_case Opcode.compare_unsigned_immediate = some Logic.compare_unsigned_immediate
integer_case Opcode.compare_unsigned_register = some Logic.compare_unsigned_register
integer_case Opcode.bitwise_or = some (Logic.execute_bitwise Logic.BitwiseOpcode.bitwise_or)
integer_case Opcode.bitwise_and = some (Logic.execute_bitwise Logic.BitwiseOpcode.bitwise_and)
integer_case Opcode.bitwise_and_complement =
    some (Logic.execute_bitwise Logic.BitwiseOpcode.bitwise_and_complement)
integer_case Opcode.bitwise_xor = some (Logic.execute_bitwise Logic.BitwiseOpcode.bitwise_xor)
integer_case Opcode.bitwise_equivalence =
    some (Logic.execute_bitwise Logic.BitwiseOpcode.bitwise_equivalence)
integer_case Opcode.bitwise_nand = some (Logic.execute_bitwise Logic.BitwiseOpcode.bitwise_nand)
integer_case Opcode.bitwise_nor = some (Logic.execute_bitwise Logic.BitwiseOpcode.bitwise_nor)
integer_case Opcode.bitwise_or_complement =
    some (Logic.execute_bitwise Logic.BitwiseOpcode.bitwise_or_complement)
integer_case _ = none

-- The other cases that change registers alone.
unfoldable pub register_case : Opcode → Option (CpuState → DecodedInstruction → CpuState)
register_case Opcode.move_from_link_register = some Branch.move_from_link_register
register_case Opcode.move_to_link_register = some Branch.move_to_link_register
register_case Opcode.move_from_count_register = some Branch.move_from_count_register
register_case Opcode.move_to_count_register = some Branch.move_to_count_register
register_case Opcode.move_from_xer = some Branch.move_from_xer
register_case Opcode.move_to_xer = some Branch.move_to_xer
register_case Opcode.move_from_gqr = some Branch.move_from_gqr
register_case Opcode.move_to_gqr = some Branch.move_to_gqr
register_case Opcode.move_condition_register_field = some Condition.move_condition_register_field
register_case Opcode.move_from_condition_register = some Condition.move_from_condition_register
register_case Opcode.move_to_condition_register_fields =
    some Condition.move_to_condition_register_fields
register_case Opcode.move_condition_register_from_xer =
    some Condition.move_condition_register_from_xer
register_case Opcode.condition_bit_and = some Condition.execute_condition_bit
register_case Opcode.condition_bit_and_complement = some Condition.execute_condition_bit
register_case Opcode.condition_bit_or = some Condition.execute_condition_bit
register_case Opcode.condition_bit_or_complement = some Condition.execute_condition_bit
register_case Opcode.condition_bit_nor = some Condition.execute_condition_bit
register_case Opcode.condition_bit_xor = some Condition.execute_condition_bit
register_case Opcode.condition_bit_nand = some Condition.execute_condition_bit
register_case Opcode.condition_bit_equivalence = some Condition.execute_condition_bit
-- The ordering points and the hints, which have nothing to order.
register_case Opcode.instruction_sync = some (λ s i. s)
register_case Opcode.memory_synchronize = some (λ s i. s)
register_case Opcode.memory_synchronize_lightweight = some (λ s i. s)
register_case Opcode.enforce_in_order_io = some (λ s i. s)
register_case Opcode.data_cache_block_touch = some (λ s i. s)
register_case Opcode.data_cache_block_touch_for_store = some (λ s i. s)
register_case Opcode.instruction_cache_block_invalidate = some (λ s i. s)
register_case _ = none

unfoldable pub branch_case : Opcode → Option (CpuState → DecodedInstruction → ℕ → Jump)
branch_case Opcode.branch = some Branch.branch
branch_case Opcode.conditional_branch = some Branch.conditional_branch
branch_case Opcode.conditional_branch_to_link_register =
    some Branch.conditional_branch_to_link_register
branch_case Opcode.conditional_branch_to_count_register =
    some Branch.conditional_branch_to_count_register
branch_case _ = none

-- The loads, the stores and the cache blocks.
unfoldable pub access_case : Opcode → Option (CpuState → GuestMemory → DecodedInstruction → Outcome)
access_case Opcode.load_word_zero = some Access.load_word_zero
access_case Opcode.load_multiple_word = some Access.load_multiple_word
access_case Opcode.load_word_reserve_indexed = some Access.load_word_reserve_indexed
access_case Opcode.store_word = some Access.store_word
access_case Opcode.store_multiple_word = some Access.store_multiple_word
access_case Opcode.store_word_conditional_indexed = some Access.store_word_conditional_indexed
access_case Opcode.data_cache_block_zero = some Access.data_cache_block_zero
access_case Opcode.load_word_indexed = some (Access.execute_load Opcode.load_word_indexed)
access_case Opcode.load_word_indexed_update =
    some (Access.execute_load Opcode.load_word_indexed_update)
access_case Opcode.load_word_byte_reverse_indexed =
    some (Access.execute_load Opcode.load_word_byte_reverse_indexed)
access_case Opcode.load_halfword_byte_reverse_indexed =
    some (Access.execute_load Opcode.load_halfword_byte_reverse_indexed)
access_case Opcode.load_byte_zero_indexed = some (Access.execute_load Opcode.load_byte_zero_indexed)
access_case Opcode.load_byte_zero_indexed_update =
    some (Access.execute_load Opcode.load_byte_zero_indexed_update)
access_case Opcode.load_halfword_zero_indexed =
    some (Access.execute_load Opcode.load_halfword_zero_indexed)
access_case Opcode.load_halfword_zero_indexed_update =
    some (Access.execute_load Opcode.load_halfword_zero_indexed_update)
access_case Opcode.load_halfword_algebraic_indexed =
    some (Access.execute_load Opcode.load_halfword_algebraic_indexed)
access_case Opcode.load_halfword_algebraic_indexed_update =
    some (Access.execute_load Opcode.load_halfword_algebraic_indexed_update)
access_case Opcode.load_word_update = some (Access.execute_load Opcode.load_word_update)
access_case Opcode.store_word_indexed = some (Access.execute_store Opcode.store_word_indexed)
access_case Opcode.store_word_indexed_update =
    some (Access.execute_store Opcode.store_word_indexed_update)
access_case Opcode.store_word_byte_reverse_indexed =
    some (Access.execute_store Opcode.store_word_byte_reverse_indexed)
access_case Opcode.store_byte_indexed = some (Access.execute_store Opcode.store_byte_indexed)
access_case Opcode.store_byte_indexed_update =
    some (Access.execute_store Opcode.store_byte_indexed_update)
access_case Opcode.store_halfword_indexed =
    some (Access.execute_store Opcode.store_halfword_indexed)
access_case Opcode.store_halfword_indexed_update =
    some (Access.execute_store Opcode.store_halfword_indexed_update)
access_case Opcode.store_halfword_byte_reverse_indexed =
    some (Access.execute_store Opcode.store_halfword_byte_reverse_indexed)
access_case Opcode.store_floating_as_integer_word_indexed =
    some (Access.execute_store Opcode.store_floating_as_integer_word_indexed)
access_case Opcode.store_word_update = some (Access.execute_store Opcode.store_word_update)
access_case Opcode.load_byte_zero = some (Access.execute_load_displaced Opcode.load_byte_zero)
access_case Opcode.load_byte_update = some (Access.execute_load_displaced Opcode.load_byte_update)
access_case Opcode.load_halfword_zero =
    some (Access.execute_load_displaced Opcode.load_halfword_zero)
access_case Opcode.load_halfword_zero_update =
    some (Access.execute_load_displaced Opcode.load_halfword_zero_update)
access_case Opcode.load_halfword_algebraic =
    some (Access.execute_load_displaced Opcode.load_halfword_algebraic)
access_case Opcode.store_byte = some (Access.execute_store_displaced Opcode.store_byte)
access_case Opcode.store_byte_update =
    some (Access.execute_store_displaced Opcode.store_byte_update)
access_case Opcode.store_halfword = some (Access.execute_store_displaced Opcode.store_halfword)
access_case Opcode.store_halfword_update =
    some (Access.execute_store_displaced Opcode.store_halfword_update)
access_case Opcode.load_string_word_immediate =
    some (load_string_word Opcode.load_string_word_immediate)
access_case Opcode.load_string_word_indexed =
    some (load_string_word Opcode.load_string_word_indexed)
access_case Opcode.store_string_word_immediate =
    some (store_string_word Opcode.store_string_word_immediate)
access_case Opcode.store_string_word_indexed =
    some (store_string_word Opcode.store_string_word_indexed)
access_case Opcode.data_cache_block_store = some Access.touch_block
access_case Opcode.data_cache_block_flush = some Access.touch_block
access_case _ = none

-- The registers, the memory and `next_cia` after the switch.
pub record Executed : Type 0 where
  pub state : CpuState
  pub memory : GuestMemory
  pub next_cia : ℕ

-- What a case leaves; `none` where it returns `unsupported_instruction`, having changed nothing.
abbrev pub HostOutcome : Type 0
HostOutcome = Result (Option (CpuState × GuestMemory))

abbrev pub goes_on : ℕ → Outcome → Result (Option Executed)
goes_on cia outcome =
    outcome >>= λ (s, m). ok (some (record { state = s; memory = m; next_cia = u32 (cia + 4) }))

-- The reserved types of the quantized paired-single loads and stores.
abbrev pub reserved_load : CpuState → DecodedInstruction → Bool
reserved_load s i =
    let load_type = bit_and (s.gqr i.quantized_register >>> 16) 0x7 in
    ltb load_type 4 && not (load_type == 0)

abbrev pub reserved_store : CpuState → DecodedInstruction → Bool
reserved_store s i =
    let store_type = bit_and (s.gqr i.quantized_register) 0x7 in
    leb 1 store_type && leb store_type 3

-- The early returns of the quantized loads and stores that look at the quantization register.
unfoldable pub is_reserved : Opcode → CpuState → DecodedInstruction → Bool
is_reserved Opcode.paired_single_quantized_load s i = reserved_load s i
is_reserved Opcode.paired_single_quantized_load_update s i = reserved_load s i
is_reserved Opcode.paired_single_quantized_load_indexed s i = reserved_load s i
is_reserved Opcode.paired_single_quantized_load_indexed_update s i = reserved_load s i
is_reserved Opcode.paired_single_quantized_store s i = reserved_store s i
is_reserved Opcode.paired_single_quantized_store_update s i = reserved_store s i
is_reserved Opcode.paired_single_quantized_store_indexed s i = reserved_store s i
is_reserved Opcode.paired_single_quantized_store_indexed_update s i = reserved_store s i
is_reserved _ s i = false

module _ (host_case : DecodedInstruction → CpuState → GuestMemory → HostOutcome) where
  unfoldable pub goes_on_host :
      DecodedInstruction → CpuState → GuestMemory → ℕ → Result (Option Executed)
  goes_on_host i s m cia = host_case i s m >>= λ outcome. elim outcome [
    | none ↦ ok none
    | some (s', m') ↦ ok (some (record { state = s'; memory = m'; next_cia = u32 (cia + 4) }))
  ]

  unfoldable pub execute :
      DecodedInstruction → CpuState → GuestMemory → ℕ → Result (Option Executed)
  execute i s m cia = elim (integer_case i.opcode) [
    | some run ↦ goes_on cia (ok (run s (operands i), m))
    | none ↦ elim (register_case i.opcode) [
      | some run ↦ goes_on cia (ok (run s i, m))
      | none ↦ elim (branch_case i.opcode) [
        | some run ↦
            let jump = run s i cia in
            ok (some (record { state = jump.state; memory = m; next_cia = jump.next_cia }))
        | none ↦ elim (access_case i.opcode) [
          | some run ↦ goes_on cia (run s m i)
          | none ↦ if is_reserved i.opcode s i then ok none else goes_on_host i s m cia
        ]
      ]
    ]
  ]
