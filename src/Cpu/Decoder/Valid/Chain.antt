-- ===== src/Cpu/Decoder/Valid/Chain.antt =====
-- A chain of tests gives a valid instruction when each of its branches does.
use affogato.Base.{
  ℕ, ◌≡◌, ◌≢◌, refl, Bool, true, false, not, ◌&&◌, ◌||◌, arith, ◌==◌, if◌then◌else◌,
}
use affogato.Cpu.Decoder.Instruction.{Opcode, DecodedInstruction, blank}
use affogato.Cpu.Decoder.Valid.{IsInRange, IsValid, is_update}
use affogato.Cpu.Decoder.Valid.Forms.{z, ◌▹◌}

-- An instruction that is no update form.
pub calm : {i : DecodedInstruction} → IsInRange i → is_update i.opcode ≡ false → IsValid i
calm {i} r h = record { range = r; has_base = λ u. absurd (clash (is_update i.opcode) h u) }
  where
    clash : (b : Bool) → b ≡ false → b ≡ true → ⊥
    clash b h u = ground arith

-- An instruction with a base register.
pub based :
    {i : DecodedInstruction} → IsInRange i → (is_update i.opcode ≡ true → i.base ≢ 0) → IsValid i
based r h = record { range = r; has_base = h }

infix 1 when◌valid◌else◌
pub when◌valid◌else◌ :
    (b : Bool) {x y : DecodedInstruction}
    → (b ≡ true → IsValid x)
    → IsValid y
    → IsValid (if b then x else y)
when true valid h else k = h refl
when false valid h else k = k

pub and_left : (b c : Bool) → (b && c) ≡ true → b ≡ true
and_left b c h = ground arith

pub and_right : (b c : Bool) → (b && c) ≡ true → c ≡ true
and_right b c h = ground arith

pub nonzero : (n : ℕ) → not (n == 0) ≡ true → n ≢ 0
nonzero n h = ground arith

pub quantized_update :
    (update : Bool) (base : ℕ)
    → (not update || not (base == 0)) ≡ true
    → is_update (
        if update
        then Opcode.paired_single_quantized_load_indexed_update
        else Opcode.paired_single_quantized_load_indexed)
      ≡ true
    → base ≢ 0
quantized_update true base g h = nonzero base g
quantized_update false base g h = absurd (let impossible : false ≡ true = h in ground arith)

blank-IsInRange : (raw : ℕ) → IsInRange (blank raw)
unfolding IsInRange
blank-IsInRange raw = (
  z ▹ z ▹ z ▹ z ▹ z ▹ z ▹ z ▹ z ▹ z ▹ z ▹ z ▹ z ▹ z ▹ z ▹ z ▹ z ▹ z ▹ z ▹ z ▹ tt,
  z ▹ z ▹ z ▹ z ▹ tt,
  z,
  z,
  z,
  z,
)

pub blank-IsValid : (raw : ℕ) → IsValid (blank raw)
blank-IsValid raw = calm (blank-IsInRange raw) refl
