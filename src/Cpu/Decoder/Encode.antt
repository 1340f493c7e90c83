-- ===== src/Cpu/Decoder/Encode.antt =====
-- Words of opcode 31 that name three registers, put together from their fields, and what `decode`
-- (src/cpu/espresso/decoder.cpp) makes of them.
use affogato.Base.{
  ℕ, ◌+◌, ◌*◌, ◌/◌, ◌^◌, ◌<◌, ◌≡◌, refl, ◌∙◌, Bool, true, false, not, arith, bit_and, and_mask,
  ◌==◌, if◌then◌else◌,
}
use affogato.Cpu.Decoder.{decode_primary, decode}
use affogato.Cpu.Decoder.Instruction.{Opcode, blank}
use affogato.Cpu.Decoder.Fields.{field}
use affogato.Cpu.Decoder.Forms.{arithmetic_form}
use affogato.Cpu.Decoder.Integer.{
  decode_system, decode_special, decode_add_subtract, decode_multiply_divide,
}

-- The add, subtract, multiply and divide instructions on two registers.
pub data Mnemonic : Type 0 where
  add addo addc addco adde addeo subf subfo subfc subfco subfe subfeo : Mnemonic
  mullw mullwo mulhw mulhwu divw divwo divwu divwuo : Mnemonic

-- The extended opcode of the instruction set, with the overflow bit.
abbrev pub number : Mnemonic → ℕ
number add = 266
number addo = 778
number addc = 10
number addco = 522
number adde = 138
number addeo = 650
number subf = 40
number subfo = 552
number subfc = 8
number subfco = 520
number subfe = 136
number subfeo = 648
number mullw = 235
number mullwo = 747
number mulhw = 75
number mulhwu = 11
number divw = 491
number divwo = 1003
number divwu = 459
number divwuo = 971

abbrev pub meaning : Mnemonic → Opcode
meaning add = Opcode.add
meaning addo = Opcode.add_overflow
meaning addc = Opcode.add_carrying
meaning addco = Opcode.add_carrying_overflow
meaning adde = Opcode.add_extended
meaning addeo = Opcode.add_extended_overflow
meaning subf = Opcode.subtract_from
meaning subfo = Opcode.subtract_from_overflow
meaning subfc = Opcode.subtract_from_carrying
meaning subfco = Opcode.subtract_from_carrying_overflow
meaning subfe = Opcode.subtract_from_extended
meaning subfeo = Opcode.subtract_from_extended_overflow
meaning mullw = Opcode.multiply_low_word
meaning mullwo = Opcode.multiply_low_word_overflow
meaning mulhw = Opcode.multiply_high_word_signed
meaning mulhwu = Opcode.multiply_high_word_unsigned
meaning divw = Opcode.divide_word_signed
meaning divwo = Opcode.divide_word_signed_overflow
meaning divwu = Opcode.divide_word_unsigned
meaning divwuo = Opcode.divide_word_unsigned_overflow

-- The word with these fields.
abbrev pub encode : Mnemonic → ℕ → ℕ → ℕ → Bool → ℕ
encode op d a b record_bit =
    31 * 2 ^ 26
    + d * 2 ^ 21
    + a * 2 ^ 16
    + b * 2 ^ 11
    + number op * 2
    + (if record_bit then 1 else 0)

number-lt : (op : Mnemonic) → number op < 1024
number-lt add = omega arith
number-lt addo = omega arith
number-lt addc = omega arith
number-lt addco = omega arith
number-lt adde = omega arith
number-lt addeo = omega arith
number-lt subf = omega arith
number-lt subfo = omega arith
number-lt subfc = omega arith
number-lt subfco = omega arith
number-lt subfe = omega arith
number-lt subfeo = omega arith
number-lt mullw = omega arith
number-lt mullwo = omega arith
number-lt mulhw = omega arith
number-lt mulhwu = omega arith
number-lt divw = omega arith
number-lt divwo = omega arith
number-lt divwu = omega arith
number-lt divwuo = omega arith

-- What the fields of such a word read.
module _ (d a b ext rc : ℕ) (hd : d < 32) (ha : a < 32) (hb : b < 32) (he : ext < 1024)
    (hr : rc < 2) where
  word : ℕ
  word = 31 * 2 ^ 26 + d * 2 ^ 21 + a * 2 ^ 16 + b * 2 ^ 11 + ext * 2 + rc

  primary : field word 26 0x3F ≡ 31
  unfolding word
  primary = omega (arith, and_mask 6 (word / 2 ^ 26))

  extended : field word 1 0x3FF ≡ ext
  unfolding word
  extended = omega (arith, and_mask 10 (word / 2 ^ 1))

  destination : field word 21 0x1F ≡ d
  unfolding word
  destination = omega (arith, and_mask 5 (word / 2 ^ 21))

  base : field word 16 0x1F ≡ a
  unfolding word
  base = omega (arith, and_mask 5 (word / 2 ^ 16))

  source : field word 11 0x1F ≡ b
  unfolding word
  source = omega (arith, and_mask 5 (word / 2 ^ 11))

  lowest : bit_and word 1 ≡ rc
  unfolding word
  lowest = omega (arith, and_mask 1 word)

  -- A word of opcode 31 goes through its chain of tests.
  decode_31 : decode word ≡ decode_system word ext
  unfolding decode decode_primary
  decode_31 = rw (primary, extended) refl

  same_fields :
      (op : Opcode)
      → arithmetic_form word op ≡ record (blank word) {
        opcode = op;
        destination = d;
        base = a;
        source = b;
        record_result = not (rc == 0);
      }
  same_fields op = rw (destination, base, source, lowest) refl

-- The chain of tests finds the instruction.
table : (op : Mnemonic) (raw : ℕ) → decode_system raw (number op) ≡ arithmetic_form raw (meaning op)
unfolding decode_system decode_special decode_add_subtract decode_multiply_divide
table add raw = refl
table addo raw = refl
table addc raw = refl
table addco raw = refl
table adde raw = refl
table addeo raw = refl
table subf raw = refl
table subfo raw = refl
table subfc raw = refl
table subfco raw = refl
table subfe raw = refl
table subfeo raw = refl
table mullw raw = refl
table mullwo raw = refl
table mulhw raw = refl
table mulhwu raw = refl
table divw raw = refl
table divwo raw = refl
table divwu raw = refl
table divwuo raw = refl

-- For registers below 32, the word of an add, subtract, multiply or divide instruction on two
-- registers is decoded as that instruction with those registers and that record bit, and nothing
-- else set.
pub decode-encode :
    (op : Mnemonic) (d a b : ℕ) (record_bit : Bool)
    → d < 32
    → a < 32
    → b < 32
    → decode (encode op d a b record_bit) ≡ record (blank (encode op d a b record_bit)) {
      opcode = meaning op;
      destination = d;
      base = a;
      source = b;
      record_result = record_bit;
    }
unfolding word
decode-encode op d a b true hd ha hb =
    decode_31 d a b (number op) 1 hd ha hb (number-lt op) (omega arith)
    ∙ (table op (encode op d a b true)
        ∙ same_fields d a b (number op) 1 hd ha hb (number-lt op) (omega arith) (meaning op))
decode-encode op d a b false hd ha hb =
    decode_31 d a b (number op) 0 hd ha hb (number-lt op) (omega arith)
    ∙ (table op (encode op d a b false)
        ∙ same_fields d a b (number op) 0 hd ha hb (number-lt op) (omega arith) (meaning op))
