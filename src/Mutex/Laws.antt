-- ===== src/Mutex/Laws.antt =====
-- The OSMutex of guest_mutex.cpp against an abstract recursive lock: nobody holds it, or one thread
-- does, some number of times.
use affogato.Base.{
  ℕ, ◌+◌, ◌-◌, ◌^◌, ◌≤◌, ◌<◌, ◌≡◌, ◌≢◌, refl, ◌∙◌, inl, inr, Bool, true, false, Result, ok, err,
  hle_error, arith, u32, length, ◌==◌, if◌then◌else◌, Bool-cases,
}
use affogato.Memory.State.{GuestMemory}
use affogato.Memory.Read.{read32_be}
use affogato.Memory.Bytes.{IsWellFormed}
use affogato.Memory.Words.{write32_be-ShowsWord}
use affogato.Core.{EspressoCore}
use affogato.Mutex.{
  os_mutex_size, os_mutex_tag, owner_offset, count_offset, validate_mutex, write_word, set_words,
  lock_known, lock_guest_os_mutex, unlock_known, unlock_guest_os_mutex,
}

-- A mutex in flat memory with its tag, and what its owner and count words hold.
pub record IsMutex (core : EspressoCore) (address owner count : ℕ) : Type 0 where
  pub well_formed : IsWellFormed core.memory
  pub not_null : address ≢ 0
  pub inside : address + os_mutex_size ≤ length core.memory.bytes
  pub addressable : length core.memory.bytes ≤ 2 ^ 32
  pub tagged : read32_be core.memory address ≡ ok os_mutex_tag
  pub owner_word : read32_be core.memory (address + owner_offset) ≡ ok owner
  pub count_word : read32_be core.memory (address + count_offset) ≡ ok count

-- The core with another memory.
abbrev pub with_memory : EspressoCore → GuestMemory → EspressoCore
with_memory core memory = record core { memory = memory }

module _ {core : EspressoCore} {address owner count : ℕ}
    (x : IsMutex core address owner count) where
  validate_mutex-IsMutex : validate_mutex core address ≡ ok tt
  unfolding validate_mutex
  validate_mutex-IsMutex = ground (arith, x.tagged, x.not_null)

  owner_address : u32 (address + owner_offset) ≡ address + owner_offset
  owner_address = omega (arith, x.inside, x.addressable)

  count_address : u32 (address + count_offset) ≡ address + count_offset
  count_address = omega (arith, x.inside, x.addressable)

  -- Past its checks, `lock` decides on the two words.
  lock_by_words :
      core.current_thread_address ≢ 0
      → lock_guest_os_mutex core address ≡ lock_known core address owner count
  unfolding lock_guest_os_mutex
  lock_by_words thread =
      ground
        (arith, validate_mutex-IsMutex, owner_address, count_address, x.owner_word, x.count_word)

  unlock_by_words :
      core.current_thread_address ≢ 0
      → unlock_guest_os_mutex core address ≡ unlock_known core address owner count
  unfolding unlock_guest_os_mutex
  unlock_by_words thread =
      ground
        (arith, validate_mutex-IsMutex, owner_address, count_address, x.owner_word, x.count_word)

  -- A write to the owner word, and one to the count word.
  set_owner :
      (v : ℕ)
      → v < 2 ^ 32
      → (m : GuestMemory) × (write_word core (u32 (address + owner_offset)) v
          ≡ ok (with_memory core m))
        × IsMutex (with_memory core m) address v count
  set_owner v small =
      let (m, done, s) =
        write32_be-ShowsWord core.memory (address + owner_offset) v x.well_formed
          (omega (arith, x.inside, x.addressable)) small in
      (
        m,
        rw (owner_address, done) refl,
        record {
          well_formed = s.well_formed;
          not_null = x.not_null;
          inside = rw s.same_size x.inside;
          addressable = rw s.same_size x.addressable;
          tagged =
              s.others_kept address (omega (arith, x.inside, x.addressable)) (inl (omega arith))
              ∙ x.tagged;
          owner_word = s.reads_back;
          count_word =
              s.others_kept (address + count_offset) (omega (arith, x.inside)) (inr (omega arith))
              ∙ x.count_word;
        },
      )

  set_count :
      (v : ℕ)
      → v < 2 ^ 32
      → (m : GuestMemory) × (write_word core (u32 (address + count_offset)) v
          ≡ ok (with_memory core m))
        × IsMutex (with_memory core m) address owner v
  set_count v small =
      let (m, done, s) =
        write32_be-ShowsWord core.memory (address + count_offset) v x.well_formed
          (omega (arith, x.inside, x.addressable)) small in
      (
        m,
        rw (count_address, done) refl,
        record {
          well_formed = s.well_formed;
          not_null = x.not_null;
          inside = rw s.same_size x.inside;
          addressable = rw s.same_size x.addressable;
          tagged =
              s.others_kept address (omega (arith, x.inside, x.addressable)) (inl (omega arith))
              ∙ x.tagged;
          owner_word =
              s.others_kept (address + owner_offset) (omega (arith, x.inside, x.addressable))
                (inl (omega arith))
              ∙ x.owner_word;
          count_word = s.reads_back;
        },
      )

module _ {core : EspressoCore} {address owner count : ℕ}
    (x : IsMutex core address owner count) where
  both_words :
      (o c : ℕ)
      → o < 2 ^ 32
      → c < 2 ^ 32
      → (m : GuestMemory) × (set_words core address o c ≡ ok (with_memory core m))
        × IsMutex (with_memory core m) address o c
  unfolding set_words
  both_words o c small_o small_c =
      let (m, done, y) = set_owner x o small_o in
      let (m', done', z) = set_count y c small_c in (m', rw (done, done') refl, z)

-- The lock that the mutex implements: the depth counts the locks not yet undone.
pub data RecursiveLock : Type 0 where
  free : RecursiveLock
  held : ℕ → ℕ → RecursiveLock

pub data Answer : Type 0 where
  becomes : RecursiveLock → Answer
  busy refused : Answer

unfoldable pub acquire : ℕ → RecursiveLock → Answer
acquire thread free = becomes (held thread 1)
acquire thread (held owner depth) =
    if owner == thread
    then if depth == 2 ^ 32 - 1 then refused else becomes (held owner (depth + 1))
    else busy

unfoldable pub release : ℕ → RecursiveLock → Answer
release thread free = refused
release thread (held owner depth) =
    if owner == thread
    then becomes (if depth == 1 then free else held owner (depth - 1))
    else refused

abbrev pub IsLock : RecursiveLock → Type 0
IsLock free = Unit
IsLock (held owner depth) = (owner ≢ 0) × (owner < 2 ^ 32) × (0 < depth) × (depth < 2 ^ 32)

-- The mutex at an address stands for the abstract lock.
abbrev pub StandsFor : EspressoCore → ℕ → RecursiveLock → Type 0
StandsFor core address free = IsMutex core address 0 0
StandsFor core address (held owner depth) = IsMutex core address owner depth

-- The call of the source answers as the abstract lock does, and leaves the mutex standing for what
-- the abstract lock becomes.
abbrev pub LockAnswers : EspressoCore → ℕ → Answer → Result (EspressoCore × Bool) → Type 0
LockAnswers core address (becomes lock) result =
    (m : GuestMemory) × (result ≡ ok (with_memory core m, true))
    × StandsFor (with_memory core m) address lock
    × IsLock lock
LockAnswers core address busy result = result ≡ ok (core, false)
LockAnswers core address refused result = result ≡ err hle_error

abbrev pub UnlockAnswers : EspressoCore → ℕ → Answer → Result EspressoCore → Type 0
UnlockAnswers core address (becomes lock) result =
    (m : GuestMemory) × (result ≡ ok (with_memory core m))
    × StandsFor (with_memory core m) address lock
    × IsLock lock
UnlockAnswers core address busy result = ⊥
UnlockAnswers core address refused result = result ≡ err hle_error

module _ (core : EspressoCore) (address : ℕ) (thread : core.current_thread_address ≢ 0)
    (small : core.current_thread_address < 2 ^ 32) where
  -- For a current thread whose address is a word and not 0, `lock_guest_os_mutex` on a mutex in
  -- flat memory that stands for a recursive lock implements `acquire`: it takes a free mutex,
  -- deepens one that the thread holds, answers false for one that another thread holds, and
  -- throws when the depth is exhausted; the mutex then stands for the lock acquired.
  pub lock-answers-acquire :
      (lock : RecursiveLock)
      → IsLock lock
      → StandsFor core address lock
      → LockAnswers core address
          (acquire core.current_thread_address lock)
          (lock_guest_os_mutex core address)
  unfolding acquire lock_known
  lock-answers-acquire free valid x =
      let (m, done, y) = both_words x core.current_thread_address 1 small (omega arith) in
      (
        m,
        rw (lock_by_words x thread, lock_known, done) refl,
        y,
        (thread, small, omega arith, omega arith),
      )
  lock-answers-acquire (held owner depth) valid x =
      elim (Bool-cases (owner == core.current_thread_address)) [
        | inl own ↦ elim (Bool-cases (depth == 2 ^ 32 - 1)) [
          | inl full ↦ rw (own, full) (lock_by_words x thread ∙ ground arith)
          | inr room ↦
              let (m, done, y) = set_count x (depth + 1) (ground arith) in
              let wrap : u32 (depth + 1) ≡ depth + 1 = ground arith in
              rw (own, room)
                (m, lock_by_words x thread ∙ ground (arith, done, wrap), y, ground arith)
        ]
        | inr foreign ↦ rw foreign (lock_by_words x thread ∙ ground arith)
      ]

  -- For a current thread whose address is a word and not 0, `unlock_guest_os_mutex` on a mutex in
  -- flat memory that stands for a recursive lock implements `release`: it undoes one lock of the
  -- owner, frees the mutex at the last one, and throws for any other thread and for a free mutex;
  -- the mutex then stands for the lock released.
  pub unlock-answers-release :
      (lock : RecursiveLock)
      → IsLock lock
      → StandsFor core address lock
      → UnlockAnswers core address
          (release core.current_thread_address lock)
          (unlock_guest_os_mutex core address)
  unfolding release unlock_known
  unlock-answers-release free valid x = unlock_by_words x thread ∙ ground arith
  unlock-answers-release (held owner depth) valid x =
      elim (Bool-cases (owner == core.current_thread_address)) [
        | inl own ↦ elim (Bool-cases (depth == 1)) [
          | inl last ↦
              let (m, done, y) = both_words x 0 0 (omega arith) (omega arith) in
              rw (own, last) (m, unlock_by_words x thread ∙ ground (arith, done), y, tt)
          | inr more ↦
              let (m, done, y) = set_count x (depth - 1) (omega (arith, valid)) in
              rw (own, more)
                (
                  m,
                  unlock_by_words x thread ∙ ground (arith, done, count_address x),
                  y,
                  ground arith,
                )
        ]
        | inr foreign ↦ rw foreign (unlock_by_words x thread ∙ ground arith)
      ]
