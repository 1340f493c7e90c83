-- ===== src/Cpu/Access/Strings.antt =====
-- `lswi`, `lswx`, `stswi` and `stswx` (src/cpu/espresso/interpreter.cpp).
use affogato.Base.{
  ℕ, zero, suc, ◌+◌, ◌-◌, ◌*◌, ◌/◌, ◌%◌, Bool, true, false, List, [], ◌∷◌, ok, ◌>>=◌, bit_and,
  bit_or, u8, u32, ◌<<<◌, ◌>>>◌, ◌==◌, if◌then◌else◌, get_or,
}
use affogato.Cpu.State.{CpuState}
use affogato.Cpu.Flags.{write_gpr}
use affogato.Cpu.Arithmetic.{base_or_zero}
use affogato.Cpu.Decoder.Instruction.{Opcode, DecodedInstruction}
use affogato.Cpu.Access.{Outcome, store_memory}
use affogato.Memory.State.{GuestMemory}
use affogato.Memory.Read.{read_bytes}
use affogato.Memory.Write.{write_bytes}

abbrev is_indexed : Opcode → Bool
is_indexed Opcode.load_string_word_indexed = true
is_indexed Opcode.store_string_word_indexed = true
is_indexed _ = false

-- The number of bytes: that of XER in the indexed forms, where it may be 0.
unfoldable pub string_byte_count_of : Opcode → CpuState → DecodedInstruction → ℕ
string_byte_count_of op s i =
    if is_indexed op
    then bit_and s.xer 0x7F
    else if i.string_byte_count == 0
    then 32
    else i.string_byte_count

-- `index` is the register that the indexed form adds.
unfoldable pub string_address : Opcode → CpuState → DecodedInstruction → ℕ → ℕ
string_address op s i index =
    if is_indexed op then u32 (base_or_zero s i.base + s.gpr index) else base_or_zero s i.base

-- Four bytes, with zeros after the last.
unfoldable pub string_value : List ℕ → ℕ → ℕ
string_value bytes k =
    bit_or
      (bit_or (bit_or (get_or bytes (4 * k) 0 <<< 24) (get_or bytes (4 * k + 1) 0 <<< 16))
        (get_or bytes (4 * k + 2) 0 <<< 8))
      (get_or bytes (4 * k + 3) 0)

-- The loop over the registers, which go on at 0 after 31.
unfoldable pub put_string : List ℕ → ℕ → ℕ → ℕ → CpuState → CpuState
put_string bytes destination k zero s = s
put_string bytes destination k (suc left) s =
    put_string bytes destination (k + 1) left
      (write_gpr s (bit_and (destination + k) 31) (string_value bytes k))

unfoldable pub load_string_word : Opcode → CpuState → GuestMemory → DecodedInstruction → Outcome
load_string_word op s m i =
    let byte_count = string_byte_count_of op s i in
    read_bytes m (string_address op s i i.source) byte_count >>= λ bytes.
    ok (put_string bytes i.destination 0 ((byte_count + 3) / 4) s, m)

-- The bytes of the registers from `source` on, from the byte `k`.
unfoldable pub get_string : CpuState → ℕ → ℕ → ℕ → List ℕ
get_string s source k zero = []
get_string s source k (suc left) =
    u8 (s.gpr (bit_and (source + k / 4) 31) >>> (24 - k % 4 * 8)) ∷ get_string s source (k + 1) left

-- The indexed form takes its index from the register that it decodes as destination.
unfoldable pub store_string_word : Opcode → CpuState → GuestMemory → DecodedInstruction → Outcome
store_string_word op s m i =
    let byte_count = string_byte_count_of op s i in
    if byte_count == 0
    then ok (s, m)
    else store_memory s
        (write_bytes m (string_address op s i i.destination) (get_string s i.source 0 byte_count))
