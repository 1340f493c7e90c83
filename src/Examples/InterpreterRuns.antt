-- ===== src/Examples/InterpreterRuns.antt =====
-- The theorems on the branches, the condition register and the multiply and divide instructions of
-- interpreter.cpp at concrete registers.
use affogato.Base.{
  ℕ, ◌+◌, ◌-◌, ◌/◌, ◌*◌, ◌^◌, ◌≡◌, ◌≢◌, refl, true, some, none, arith, bit, ◌==◌, if◌then◌else◌,
  ltb, int32, wrap, ◌*ℤ◌, ◌/ℤ◌,
}
use affogato.Cpu.State.{CpuState, zeroed, put}
use affogato.Cpu.Flags.{read_cr_bit, write_gpr}
use affogato.Cpu.Arithmetic.{Operands}
use affogato.Cpu.Decoder.Instruction.{Opcode, DecodedInstruction, blank}
use affogato.Cpu.Branch.Loop.{spin, rounds_of, IsCountedLoop, spin-rounds_of}
use affogato.Cpu.Condition.{move_from_condition_register, move_to_condition_register_fields}
use affogato.Cpu.Condition.Fields.{
  move_to_condition_register_fields-reads,
  move_to_condition_register_fields-move_from_condition_register,
}
use affogato.Cpu.Multiply.{multiply_high_word_signed, multiply_low_word, divide_word_signed}
use affogato.Cpu.Multiply.Product.{multiply_high_word_signed-multiply_low_word}
use affogato.Cpu.Multiply.Quotient.{divide_word_signed-quotient}

-- r4 and r5 hold -7 and 2.
abbrev registers : CpuState
registers = record zeroed {
  gpr = put (put (λ r. 0) 4 0xFFFFFFF9) 5 2;
  cr = 0x48000002;
  ctr = 3;
  lr = 0x1000;
}

-- `bdnz` to its own address.
abbrev bdnz : DecodedInstruction
bdnz = record (blank 0x42000000) { opcode = Opcode.conditional_branch; branch_options = 16 }

bdnz-IsCountedLoop : IsCountedLoop bdnz 0x2000
bdnz-IsCountedLoop = record {
  ignores_condition = refl;
  counts = refl;
  until_zero = refl;
  no_link = refl;
  to_itself = refl;
  address_fits = omega arith;
}

spin-rounds_of_example :
    spin 3 registers bdnz 0x2000
    ≡ (if ltb 3 (rounds_of registers.ctr) then none else some (record registers { ctr = 0 }))
spin-rounds_of_example = spin-rounds_of bdnz 0x2000 bdnz-IsCountedLoop 3 registers (omega arith)

-- `mfcr r12` and `mtcrf 0xFF, r12`.
abbrev save : DecodedInstruction
save = record (blank 0x7D800026) { opcode = Opcode.move_from_condition_register; destination = 12 }

abbrev restore : DecodedInstruction
restore = record (blank 0x7D8FF120) {
  opcode = Opcode.move_to_condition_register_fields;
  destination = 12;
  cr_field_mask = 0xFF;
}

abbrev restore_one : DecodedInstruction
restore_one = record restore { cr_field_mask = 0x80 }

move_to_condition_register_fields-reads_example :
    read_cr_bit (move_to_condition_register_fields registers restore_one) 1 ≡ (
      if bit 0x80 (7 - 1 / 4) == 1
      then bit (registers.gpr 12) (31 - 1) == 1
      else read_cr_bit registers 1)
move_to_condition_register_fields-reads_example =
    move_to_condition_register_fields-reads registers restore_one 1 (omega arith)

abbrev saved : CpuState
saved = record (write_gpr registers 12 0x48000002) { cr = 0 }

move_to_condition_register_fields-move_from_condition_register_example :
    read_cr_bit (move_to_condition_register_fields saved restore) 4 ≡ read_cr_bit registers 4
move_to_condition_register_fields-move_from_condition_register_example =
    move_to_condition_register_fields-move_from_condition_register registers saved save restore 4
      refl (unfold move_from_condition_register write_gpr in refl) (omega arith)

abbrev three : Operands
three = record {
  destination = 3;
  source = 5;
  base = 4;
  immediate = 0;
  shift = 0;
  mask_begin = 0;
  mask_end = 0;
  cr_field = 0;
  record_result = true;
}

multiply_high_word_signed-multiply_low_word_example :
    (multiply_high_word_signed registers three).gpr 3 * 2 ^ 32
      + (multiply_low_word registers three).gpr 3
    ≡ wrap 64 (int32 0xFFFFFFF9 *ℤ int32 2)
multiply_high_word_signed-multiply_low_word_example =
    multiply_high_word_signed-multiply_low_word registers three

abbrev two : ℕ
two = 2

two_is_positive : two ≢ 0
two_is_positive e = absurd (omega arith)

divide_word_signed-quotient_example :
    int32 ((divide_word_signed registers three).gpr 3) ≡ int32 0xFFFFFFF9 /ℤ int32 2
divide_word_signed-quotient_example =
    divide_word_signed-quotient registers three (omega arith) (omega arith) two_is_positive
      (λ e. absurd (omega arith))
