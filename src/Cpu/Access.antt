-- ===== src/Cpu/Access.antt =====
-- The loads and stores of `EspressoCore::step` (src/cpu/espresso/interpreter.cpp), on the registers and
-- the guest memory.
pub mod Reserve
pub mod Word
pub mod Multiple
pub mod Strings
use affogato.Base.{
  ℕ, zero, suc, ◌+◌, ◌-◌, ◌*◌, ◌/◌, ◌%◌, ◌^◌, Bool, true, false, not, ◌&&◌, Result, ok, err, ◌>>=◌,
  ◌>>◌, throw_if, Access, memory_fault, bit_and, bit_or, u8, u16, u32, not32, ◌<<<◌, ◌>>>◌, ◌==◌,
  if◌then◌else◌, replicate,
}
use affogato.Cpu.State.{CpuState}
use affogato.Cpu.Flags.{has_bits, write_gpr, put_cr_field, cr_equal, xer_summary_overflow_mask}
use affogato.Cpu.Arithmetic.{base_or_zero}
use affogato.Cpu.Decoder.Instruction.{Opcode, DecodedInstruction}
use affogato.Memory.State.{GuestMemory}
use affogato.Memory.Map.{reservation_address}
use affogato.Memory.Read.{read8, read16_be, read32_be}
use affogato.Memory.Write.{write8, write16_be, write32_be, write_bytes}

-- The registers and the memory after an instruction.
abbrev pub Outcome : Type 0
Outcome = Result (CpuState × GuestMemory)

unfoldable pub effective_address : CpuState → ℕ → ℕ → ℕ
effective_address s base_register displacement = u32 (base_or_zero s base_register + displacement)

-- The address of the indexed forms.
unfoldable pub indexed_address : CpuState → DecodedInstruction → ℕ
indexed_address s i = u32 (base_or_zero s i.base + s.gpr i.source)

-- The address of the indexed forms that write it back.
abbrev pub indexed_update_address : CpuState → DecodedInstruction → ℕ
indexed_update_address s i = u32 (s.gpr i.base + s.gpr i.source)

-- `std::byteswap`.
abbrev pub byteswap16 : ℕ → ℕ
byteswap16 v = v % 2 ^ 8 * 2 ^ 8 + v / 2 ^ 8 % 2 ^ 8

abbrev pub byteswap32 : ℕ → ℕ
byteswap32 v = byteswap16 (v % 2 ^ 16) * 2 ^ 16 + byteswap16 (v / 2 ^ 16)

-- A halfword with its sign copied upwards.
abbrev pub algebraic : ℕ → ℕ
algebraic halfword = bit_or halfword (if has_bits halfword 0x8000 then 0xFFFF0000 else 0)

-- A value read goes to the destination register.
abbrev pub load_gpr : CpuState → GuestMemory → DecodedInstruction → Result ℕ → Outcome
load_gpr s m i read = read >>= λ value. ok (write_gpr s i.destination value, m)

-- A value read goes to the destination register, and then the address to the base register.
abbrev pub load_update : CpuState → GuestMemory → DecodedInstruction → ℕ → Result ℕ → Outcome
load_update s m i address read =
    read >>= λ value. ok (write_gpr (write_gpr s i.destination value) i.base address, m)

abbrev pub store_memory : CpuState → Result GuestMemory → Outcome
store_memory s written = written >>= λ memory. ok (s, memory)

abbrev pub store_update : CpuState → DecodedInstruction → ℕ → Result GuestMemory → Outcome
store_update s i address written = written >>= λ memory. ok (write_gpr s i.base address, memory)

unfoldable pub load_word_zero : CpuState → GuestMemory → DecodedInstruction → Outcome
load_word_zero s m i = load_gpr s m i (read32_be m (effective_address s i.base i.immediate))

-- The loop over the registers from `reg` on.
unfoldable pub load_words : GuestMemory → ℕ → ℕ → ℕ → CpuState → Result CpuState
load_words m reg address zero s = ok s
load_words m reg address (suc left) s = do
  value ← read32_be m address
  load_words m (reg + 1) (u32 (address + 4)) left (write_gpr s reg value)

unfoldable pub load_multiple_word : CpuState → GuestMemory → DecodedInstruction → Outcome
load_multiple_word s m i = do
  loaded ←
      load_words m i.destination (effective_address s i.base i.immediate) (32 - i.destination) s
  ok (loaded, m)

-- The indexed loads, and the load of a word with update.
unfoldable pub execute_load : Opcode → CpuState → GuestMemory → DecodedInstruction → Outcome
execute_load Opcode.load_word_indexed s m i = load_gpr s m i (read32_be m (indexed_address s i))
execute_load Opcode.load_word_indexed_update s m i =
    let address = indexed_update_address s i in load_update s m i address (read32_be m address)
execute_load Opcode.load_word_byte_reverse_indexed s m i =
    load_gpr s m i (read32_be m (indexed_address s i) >>= λ value. ok (byteswap32 value))
execute_load Opcode.load_halfword_byte_reverse_indexed s m i =
    load_gpr s m i (read16_be m (indexed_address s i) >>= λ value. ok (byteswap16 value))
execute_load Opcode.load_byte_zero_indexed s m i = load_gpr s m i (read8 m (indexed_address s i))
execute_load Opcode.load_byte_zero_indexed_update s m i =
    let address = indexed_update_address s i in load_update s m i address (read8 m address)
execute_load Opcode.load_halfword_zero_indexed s m i =
    load_gpr s m i (read16_be m (indexed_address s i))
execute_load Opcode.load_halfword_zero_indexed_update s m i =
    let address = indexed_update_address s i in load_update s m i address (read16_be m address)
execute_load Opcode.load_halfword_algebraic_indexed s m i =
    load_gpr s m i (read16_be m (indexed_address s i) >>= λ value. ok (algebraic value))
execute_load Opcode.load_halfword_algebraic_indexed_update s m i =
    let address = indexed_update_address s i in
    load_update s m i address (read16_be m address >>= λ value. ok (algebraic value))
execute_load _ s m i =
    let address = effective_address s i.base i.immediate in
    load_update s m i address (read32_be m address)

unfoldable pub load_word_reserve_indexed : CpuState → GuestMemory → DecodedInstruction → Outcome
load_word_reserve_indexed s m i =
    let address = indexed_address s i in
    do
      throw_if (has_bits address 3) (memory_fault address 4 Access.read)
      value ← read32_be m address
      ok (
        record (write_gpr s i.destination value) {
          reservation_address = reservation_address m address;
          reservation_valid = true;
        },
        m,
      )

unfoldable pub store_word : CpuState → GuestMemory → DecodedInstruction → Outcome
store_word s m i =
    store_memory s (write32_be m (effective_address s i.base i.immediate) (s.gpr i.destination))

unfoldable pub store_words : CpuState → ℕ → ℕ → ℕ → GuestMemory → Result GuestMemory
store_words s reg address zero m = ok m
store_words s reg address (suc left) m = do
  stored ← write32_be m address (s.gpr reg)
  store_words s (reg + 1) (u32 (address + 4)) left stored

unfoldable pub store_multiple_word : CpuState → GuestMemory → DecodedInstruction → Outcome
store_multiple_word s m i =
    store_memory s
      (store_words s i.source (effective_address s i.base i.immediate) (32 - i.source) m)

-- The reservation is consumed whether or not it matched.
unfoldable pub finish_conditional : CpuState → Bool → CpuState
finish_conditional s success =
    let cr0 =
      bit_or (if success then cr_equal else 0)
        (if has_bits s.xer xer_summary_overflow_mask then 1 else 0) in
    record s { reservation_valid = false; cr = bit_or (bit_and s.cr 0x0FFFFFFF) (cr0 <<< 28) }

abbrev pub reserved : CpuState → GuestMemory → ℕ → Bool
reserved s m address =
    s.reservation_valid && (s.reservation_address == reservation_address m address)

unfoldable pub store_word_conditional_indexed :
    CpuState → GuestMemory → DecodedInstruction → Outcome
store_word_conditional_indexed s m i =
    let address = indexed_address s i in
    let success = reserved s m address in
    do
      throw_if (has_bits address 3) (memory_fault address 4 Access.write)
      stored ← (if success then write32_be m address (s.gpr i.destination) else ok m)
      ok (finish_conditional s success, stored)

-- The other indexed stores, and those of a word with update.
unfoldable pub execute_store : Opcode → CpuState → GuestMemory → DecodedInstruction → Outcome
execute_store Opcode.store_word_indexed s m i =
    store_memory s (write32_be m (indexed_address s i) (s.gpr i.destination))
execute_store Opcode.store_word_indexed_update s m i =
    let address = indexed_update_address s i in
    store_update s i address (write32_be m address (s.gpr i.destination))
execute_store Opcode.store_word_byte_reverse_indexed s m i =
    store_memory s (write32_be m (indexed_address s i) (byteswap32 (s.gpr i.destination)))
execute_store Opcode.store_byte_indexed s m i =
    store_memory s (write8 m (indexed_address s i) (u8 (s.gpr i.destination)))
execute_store Opcode.store_byte_indexed_update s m i =
    let address = indexed_update_address s i in
    store_update s i address (write8 m address (u8 (s.gpr i.destination)))
execute_store Opcode.store_halfword_indexed s m i =
    store_memory s (write16_be m (indexed_address s i) (u16 (s.gpr i.destination)))
execute_store Opcode.store_halfword_indexed_update s m i =
    let address = indexed_update_address s i in
    store_update s i address (write16_be m address (u16 (s.gpr i.destination)))
execute_store Opcode.store_halfword_byte_reverse_indexed s m i =
    store_memory s (write16_be m (indexed_address s i) (byteswap16 (u16 (s.gpr i.destination))))
execute_store Opcode.store_floating_as_integer_word_indexed s m i =
    store_memory s (write32_be m (indexed_address s i) (u32 (s.fpr i.fp_register)))
execute_store _ s m i =
    let address = effective_address s i.base i.immediate in
    store_update s i address (write32_be m address (s.gpr i.destination))

-- `espresso_data_cache_block_size` bytes of zero.
unfoldable pub data_cache_block_zero : CpuState → GuestMemory → DecodedInstruction → Outcome
data_cache_block_zero s m i =
    store_memory s (write_bytes m (bit_and (indexed_address s i) (not32 (32 - 1))) (replicate 32 0))

-- `dcbst` and `dcbf`: the addressed byte is validated by reading it.
unfoldable pub touch_block : CpuState → GuestMemory → DecodedInstruction → Outcome
touch_block s m i = read8 m (indexed_address s i) >>= λ byte. ok (s, m)

-- The loads of bytes and halfwords at a displacement.
unfoldable pub execute_load_displaced :
    Opcode → CpuState → GuestMemory → DecodedInstruction → Outcome
execute_load_displaced op s m i =
    let address = effective_address s i.base i.immediate in displaced op address
  where
    displaced : Opcode → ℕ → Outcome
    displaced Opcode.load_byte_zero address = load_gpr s m i (read8 m address)
    displaced Opcode.load_byte_update address = load_update s m i address (read8 m address)
    displaced Opcode.load_halfword_zero address = load_gpr s m i (read16_be m address)
    displaced Opcode.load_halfword_zero_update address =
        load_update s m i address (read16_be m address)
    displaced _ address = load_gpr s m i (read16_be m address >>= λ value. ok (algebraic value))

-- The stores of bytes and halfwords at a displacement.
unfoldable pub execute_store_displaced :
    Opcode → CpuState → GuestMemory → DecodedInstruction → Outcome
execute_store_displaced op s m i =
    let address = effective_address s i.base i.immediate in displaced op address
  where
    displaced : Opcode → ℕ → Outcome
    displaced Opcode.store_byte address =
        store_memory s (write8 m address (u8 (s.gpr i.destination)))
    displaced Opcode.store_byte_update address =
        store_update s i address (write8 m address (u8 (s.gpr i.destination)))
    displaced Opcode.store_halfword address =
        store_memory s (write16_be m address (u16 (s.gpr i.destination)))
    displaced _ address =
        store_update s i address (write16_be m address (u16 (s.gpr i.destination)))
