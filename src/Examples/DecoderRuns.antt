-- ===== src/Examples/DecoderRuns.antt =====
-- The theorems on decoder.cpp at concrete instruction words.
use affogato.Base.{ℕ, ◌≡◌, ◌≢◌, refl, true, arith}
use affogato.Cpu.Decoder.{decode, decode_primary}
use affogato.Cpu.Decoder.Instruction.{Opcode, blank}
use affogato.Cpu.Decoder.Immediate.{decode_immediate, decode_compare_immediate, decode_load_store}
use affogato.Cpu.Decoder.Condition.{decode_condition}
use affogato.Cpu.Decoder.Encode.{Mnemonic, encode, decode-encode}
use affogato.Cpu.Decoder.Valid.{IsInRange}
use affogato.Cpu.Decoder.Valid.Decode.{decode-IsInRange, decode-update-base}

-- `stwu r1, -16(r1)`.
abbrev push_frame : ℕ
push_frame = 0x9421FFF0

decode-IsInRange_example : IsInRange (decode push_frame)
decode-IsInRange_example = decode-IsInRange push_frame

decode-update-base_example : (decode push_frame).base ≢ 0
unfolding decode decode_primary decode_immediate decode_compare_immediate decode_load_store
decode-update-base_example = decode-update-base push_frame refl

-- `add. r3, r4, r5`.
decode-encode_example :
    decode (encode Mnemonic.add 3 4 5 true) ≡ record (blank (encode Mnemonic.add 3 4 5 true)) {
      opcode = Opcode.add;
      destination = 3;
      base = 4;
      source = 5;
      record_result = true;
    }
decode-encode_example =
    decode-encode Mnemonic.add 3 4 5 true (omega arith) (omega arith) (omega arith)

-- `crand 4, 13, 6`.
crand_decoded : (decode 0x4C8D3202).opcode ≡ Opcode.condition_bit_and
unfolding decode decode_primary decode_condition
crand_decoded = refl
