-- ===== src/Cpu/Condition/Bits.antt =====
-- What the logic of the condition register (src/cpu/espresso/interpreter.cpp) does to its bits.
use affogato.Base.{
  ℕ, zero, suc, sym, ◌+◌, ◌-◌, ◌*◌, ◌/◌, ◌%◌, ◌^◌, ◌<◌, ◌≡◌, ap, ◌∙◌, Bool, true, false, arith, bit,
  bit-or, bit-and, bit-lt, bit-power, bit-complement, pow-lt-pow, and_mask, bit_and, not32, ◌>>>◌,
  ◌==◌, if◌then◌else◌,
}
use native.Mathlib.Nat.{pow-suc, div-div-eq-div-mul}
use affogato.Cpu.State.{CpuState}
use affogato.Cpu.Flags.{read_cr_bit, put_cr_field}
use affogato.Cpu.Flags.Field.{read_cr_bit-bit, put_cr_field-bit, field_shift, nibble_full}
use affogato.Cpu.Decoder.Instruction.{DecodedInstruction}
use affogato.Cpu.Condition.{
  condition_result, put_cr_bit, execute_condition_bit, move_condition_register_field,
}

put_cr_bit-bit :
    (s : CpuState) (b k : ℕ) (result : Bool)
    → b < 32
    → k < 32
    → bit (put_cr_bit s b result).cr k
      ≡ (if 31 - b == k then (if result then 1 else 0) else bit s.cr k)
unfolding put_cr_bit
put_cr_bit-bit s b k true hb hk = ground (
  arith,
  bit-or s.cr (1 * 2 ^ (31 - b)) k,
  ap (λ (t : ℕ). bit t k) (let e : 1 * 2 ^ (31 - b) ≡ 2 ^ (31 - b) = omega arith in e),
  bit-power (31 - b) k,
  bit-lt s.cr k,
)
put_cr_bit-bit s b k false hb hk = ground (
  arith,
  bit-and s.cr (not32 (1 * 2 ^ (31 - b))) k,
  bit-complement 32 (1 * 2 ^ (31 - b)) k (omega (arith, pow-lt-pow (31 - b) 32 (omega arith))) hk,
  ap (λ (t : ℕ). bit t k) (let e : 1 * 2 ^ (31 - b) ≡ 2 ^ (31 - b) = omega arith in e),
  bit-power (31 - b) k,
  bit-lt s.cr k,
)

-- For bit numbers below 32, an instruction of the logic of the condition register gives its
-- destination bit the result of its operation on the two source bits as they were, and every other
-- bit reads as before.
execute_condition_bit-reads :
    (s : CpuState) (i : DecodedInstruction) (n : ℕ)
    → i.cr_destination_bit < 32
    → n < 32
    → read_cr_bit (execute_condition_bit s i) n ≡ (
        if n == i.cr_destination_bit
        then condition_result i.opcode
            (read_cr_bit s i.cr_source_a_bit)
            (read_cr_bit s i.cr_source_b_bit)
        else read_cr_bit s n)
unfolding execute_condition_bit
execute_condition_bit-reads s i n hd hn =
    let result =
      condition_result i.opcode (read_cr_bit s i.cr_source_a_bit)
        (read_cr_bit s i.cr_source_b_bit) in
    ground (
      arith,
      read_cr_bit-bit (put_cr_bit s i.cr_destination_bit result) n,
      read_cr_bit-bit s n,
      put_cr_bit-bit s i.cr_destination_bit (31 - n) result hd (omega arith),
    )

bit-shift : (x w k : ℕ) → bit (x / 2 ^ w) k ≡ bit x (w + k)
bit-shift x zero k =
    ap (λ (t : ℕ). bit t k) (let e : x / 2 ^ 0 ≡ x = omega arith in e)
    ∙ ap (bit x) (let z : k ≡ 0 + k = omega arith in z)
bit-shift x (suc w) k =
    let e : x / 2 ^ suc w ≡ x / 2 / 2 ^ w =
      ap (λ (t : ℕ). x / t) (omega (arith, pow-suc 2 w)) ∙ sym (div-div-eq-div-mul x 2 (2 ^ w)) in
    let next : suc (w + k) ≡ suc w + k = omega arith in
    ap (λ (t : ℕ). bit t k) e ∙ (bit-shift (x / 2) w k ∙ ap (bit x) next)

-- For fields below 8, `mcrf` copies the four bits of the source field to those of the destination
-- field, and every other bit reads as before.
pub move_condition_register_field-reads :
    (s : CpuState) (i : DecodedInstruction) (n : ℕ)
    → i.cr_field < 8
    → i.cr_field_source < 8
    → n < 32
    → read_cr_bit (move_condition_register_field s i) n ≡ (
        if n / 4 == i.cr_field
        then read_cr_bit s (4 * i.cr_field_source + n % 4)
        else read_cr_bit s n)
unfolding move_condition_register_field
move_condition_register_field-reads s i n hd hs hn =
    let value = bit_and (s.cr >>> (28 - 4 * i.cr_field_source)) 0xF in
    let j = 31 - n - field_shift i.cr_field in
    let from = 31 - (4 * i.cr_field_source + n % 4) in
    ground (
      arith,
      read_cr_bit-bit (put_cr_field s i.cr_field value) n,
      read_cr_bit-bit s n,
      read_cr_bit-bit s (4 * i.cr_field_source + n % 4),
      put_cr_field-bit s i.cr_field value (31 - n)
          (omega (arith, and_mask 4 (s.cr >>> (28 - 4 * i.cr_field_source)))) (omega arith),
      bit-and (s.cr >>> (28 - 4 * i.cr_field_source)) 0xF j,
      nibble_full j,
      bit-shift s.cr (28 - 4 * i.cr_field_source) j,
      bit-lt s.cr from,
      λ (here : n / 4 ≡ i.cr_field).
          ap (bit s.cr) (let e : 28 - 4 * i.cr_field_source + j ≡ from = omega arith in e),
    )
