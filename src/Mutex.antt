-- ===== src/Mutex.antt =====
-- src/cpu/espresso/guest_mutex.hpp and guest_mutex.cpp: the recursive OSMutex in guest memory. An
-- operation takes the core and gives the core, or the exception that it throws.
pub mod Laws
pub mod Schedule
use affogato.Base.{
  ℕ, ◌+◌, ◌-◌, ◌^◌, Bool, true, false, not, ◌||◌, Result, ok, err, hle_error, ◌>>=◌, ◌>>◌, throw_if,
  u32, ◌==◌, if◌then◌else◌,
}
use affogato.Memory.State.{GuestMemory}
use affogato.Memory.Read.{read32_be}
use affogato.Memory.Write.{write32_be, zero_fill}
use affogato.Core.{EspressoCore}
use affogato.Core.Heap.{allocate_guest_memory}

abbrev pub os_mutex_size : ℕ
os_mutex_size = 0x2C

abbrev pub os_mutex_tag : ℕ
os_mutex_tag = 0x6D557458

abbrev pub name_offset : ℕ
name_offset = 0x04

abbrev pub owner_offset : ℕ
owner_offset = 0x1C

abbrev pub count_offset : ℕ
count_offset = 0x20

-- `address + offset` of 32 bits.
abbrev pub member : ℕ → ℕ → ℕ
member address offset = u32 (address + offset)

unfoldable pub validate_mutex : EspressoCore → ℕ → Result (Unit {0})
validate_mutex core address =
    if address == 0
    then err hle_error
    else do tag ← read32_be core.memory address; throw_if (not (tag == os_mutex_tag)) hle_error

-- A write to the memory of the core.
abbrev pub write_word : EspressoCore → ℕ → ℕ → Result EspressoCore
write_word core address value = do
  memory ← write32_be core.memory address value
  ok (record core { memory = memory })

unfoldable pub initialize_guest_os_mutex : EspressoCore → ℕ → ℕ → Result EspressoCore
initialize_guest_os_mutex core address name = if address == 0 then err hle_error else do
  memory ← zero_fill core.memory address os_mutex_size
  tagged ← write_word (record core { memory = memory }) address os_mutex_tag
  write_word tagged (member address name_offset) name

unfoldable pub allocate_guest_os_mutex : EspressoCore → ℕ → Result (EspressoCore × ℕ)
allocate_guest_os_mutex core name =
    let (core', address) = allocate_guest_memory core os_mutex_size 8 in
    if address == 0
    then ok (core', 0)
    else do initialized ← initialize_guest_os_mutex core' address name; ok (initialized, address)

-- The writes of the owner word and then of the count word.
unfoldable pub set_words : EspressoCore → ℕ → ℕ → ℕ → Result EspressoCore
set_words core address owner count = do
  owned ← write_word core (member address owner_offset) owner
  write_word owned (member address count_offset) count

-- `return true` after the writes.
abbrev pub locked : Result EspressoCore → Result (EspressoCore × Bool)
locked r = r >>= λ core. ok (core, true)

-- What `lock` does once the mutex and the thread are known to be there.
unfoldable pub lock_known : EspressoCore → ℕ → ℕ → ℕ → Result (EspressoCore × Bool)
lock_known core address owner count =
    if owner == 0
    then if not (count == 0)
      then err hle_error
      else locked (set_words core address core.current_thread_address 1)
    else if not (owner == core.current_thread_address)
    then ok (core, false)
    else if count == 0 || count == 2 ^ 32 - 1
    then err hle_error
    else locked (write_word core (member address count_offset) (u32 (count + 1)))

unfoldable pub lock_guest_os_mutex : EspressoCore → ℕ → Result (EspressoCore × Bool)
lock_guest_os_mutex core address = do
  validate_mutex core address
  throw_if (core.current_thread_address == 0) hle_error
  owner ← read32_be core.memory (member address owner_offset)
  count ← read32_be core.memory (member address count_offset)
  lock_known core address owner count

unfoldable pub unlock_known : EspressoCore → ℕ → ℕ → ℕ → Result EspressoCore
unlock_known core address owner count =
    if not (owner == core.current_thread_address) || count == 0
    then err hle_error
    else if count == 1
    then set_words core address 0 0
    else write_word core (member address count_offset) (count - 1)

unfoldable pub unlock_guest_os_mutex : EspressoCore → ℕ → Result EspressoCore
unlock_guest_os_mutex core address = do
  validate_mutex core address
  throw_if (core.current_thread_address == 0) hle_error
  owner ← read32_be core.memory (member address owner_offset)
  count ← read32_be core.memory (member address count_offset)
  unlock_known core address owner count
