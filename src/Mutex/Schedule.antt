-- ===== src/Mutex/Schedule.antt =====
-- Runs of calls to the OSMutex of guest_mutex.cpp: nested locking by one thread, and threads that
-- meet a mutex held by another.
use affogato.Base.{
  ℕ, zero, suc, ◌+◌, ◌^◌, ◌<◌, ◌≡◌, ◌≢◌, refl, true, not, Result, ok, hle_error, ◌>>=◌, ◌>>◌,
  throw_if, arith,
}
use native.Mathlib.Nat.{add-zero}
use affogato.Memory.State.{GuestMemory}
use affogato.Core.{EspressoCore}
use affogato.Mutex.{lock_guest_os_mutex, unlock_guest_os_mutex}
use affogato.Mutex.Laws.{
  Answer, with_memory, RecursiveLock, free, held, acquire, release, IsLock, StandsFor,
  lock-answers-acquire, unlock-answers-release,
}

-- The calls of one thread, which stop at the first that fails.
unfoldable pub lock_times : ℕ → EspressoCore → ℕ → Result EspressoCore
lock_times zero core address = ok core
lock_times (suc n) core address = do
  answer ← lock_guest_os_mutex core address
  throw_if (not answer.1) hle_error
  lock_times n answer.0 address

unfoldable pub unlock_times : ℕ → EspressoCore → ℕ → Result EspressoCore
unlock_times zero core address = ok core
unlock_times (suc n) core address = do
  unlocked ← unlock_guest_os_mutex core address
  unlock_times n unlocked address

-- The lock that a thread holds so many times.
abbrev pub at_depth : ℕ → ℕ → RecursiveLock
at_depth thread zero = free
at_depth thread (suc depth) = held thread (suc depth)

abbrev Ends : EspressoCore → ℕ → RecursiveLock → Result EspressoCore → Type 0
Ends core address lock result =
    (m : GuestMemory) × (result ≡ ok (with_memory core m))
    × StandsFor (with_memory core m) address lock

acquire-at_depth :
    (t d : ℕ) → suc d < 2 ^ 32 → acquire t (at_depth t d) ≡ Answer.becomes (at_depth t (suc d))
unfolding acquire
acquire-at_depth t zero h = refl
acquire-at_depth t (suc d) h = ground arith

release-at_depth : (t d : ℕ) → release t (at_depth t (suc d)) ≡ Answer.becomes (at_depth t d)
unfolding release
release-at_depth t zero = ground arith
release-at_depth t (suc d) = ground arith

at_depth-IsLock : (t d : ℕ) → t ≢ 0 → t < 2 ^ 32 → d < 2 ^ 32 → IsLock (at_depth t d)
at_depth-IsLock t zero p q h = tt
at_depth-IsLock t (suc d) p q h = (p, q, omega arith, h)

lock_once :
    (core : EspressoCore) (address depth : ℕ)
    → core.current_thread_address ≢ 0
    → core.current_thread_address < 2 ^ 32
    → suc depth < 2 ^ 32
    → StandsFor core address (at_depth core.current_thread_address depth)
    → (m : GuestMemory) × (lock_guest_os_mutex core address ≡ ok (with_memory core m, true))
      × StandsFor (with_memory core m) address (at_depth core.current_thread_address (suc depth))
lock_once core address depth p q room x =
    let answers = rw (acquire-at_depth core.current_thread_address depth room) at (
      lock-answers-acquire core address p q (at_depth core.current_thread_address depth)
        (at_depth-IsLock core.current_thread_address depth p q (omega arith)) x) in
    (answers.0, answers.1, answers.2)

unlock_once :
    (core : EspressoCore) (address depth : ℕ)
    → core.current_thread_address ≢ 0
    → core.current_thread_address < 2 ^ 32
    → suc depth < 2 ^ 32
    → StandsFor core address (at_depth core.current_thread_address (suc depth))
    → Ends core address
        (at_depth core.current_thread_address depth)
        (unlock_guest_os_mutex core address)
unlock_once core address depth p q room x =
    let answers = rw (release-at_depth core.current_thread_address depth) at (
      unlock-answers-release core address p q (at_depth core.current_thread_address (suc depth))
        (at_depth-IsLock core.current_thread_address (suc depth) p q room) x) in
    (answers.0, answers.1, answers.2)

lock_times-Ends :
    (n : ℕ) (core : EspressoCore) (address depth : ℕ)
    → core.current_thread_address ≢ 0
    → core.current_thread_address < 2 ^ 32
    → depth + n < 2 ^ 32
    → StandsFor core address (at_depth core.current_thread_address depth)
    → Ends core address
        (at_depth core.current_thread_address (depth + n))
        (lock_times n core address)
unfolding lock_times
lock_times-Ends zero core address depth p q room x = (core.memory, refl, rw (add-zero depth) x)
lock_times-Ends (suc n) core address depth p q room x =
    let (m, done, y) = lock_once core address depth p q (omega arith) x in
    let (m', done', z) =
      lock_times-Ends n (with_memory core m) address (suc depth) p q (omega arith) y in
    let e : suc depth + n ≡ depth + suc n = omega arith in
    (m', ground (arith, done, done'), rw (← e) z)

unlock_times-Ends :
    (n : ℕ) (core : EspressoCore) (address depth : ℕ)
    → core.current_thread_address ≢ 0
    → core.current_thread_address < 2 ^ 32
    → depth + n < 2 ^ 32
    → StandsFor core address (at_depth core.current_thread_address (depth + n))
    → Ends core address (at_depth core.current_thread_address depth) (unlock_times n core address)
unfolding unlock_times
unlock_times-Ends zero core address depth p q room x = (core.memory, refl, rw (add-zero depth) at x)
unlock_times-Ends (suc n) core address depth p q room x =
    let e : depth + suc n ≡ suc (depth + n) = omega arith in
    let (m, done, y) = unlock_once core address (depth + n) p q (omega arith) (rw e at x) in
    let (m', done', z) =
      unlock_times-Ends n (with_memory core m) address depth p q (omega arith) y in
    (m', ground (arith, done, done'), z)

-- A current thread whose address is a word and not 0 that locks a free mutex in flat memory `n`
-- times, fewer than 2^32, holds it `n` times, and after as many unlocks it is free again; no call
-- in between fails.
pub unlock_times-lock_times :
    (n : ℕ) (core : EspressoCore) (address : ℕ)
    → core.current_thread_address ≢ 0
    → core.current_thread_address < 2 ^ 32
    → n < 2 ^ 32
    → StandsFor core address free
    → (m : GuestMemory) × (lock_times n core address ≡ ok (with_memory core m))
      × StandsFor (with_memory core m) address (at_depth core.current_thread_address n)
      × Ends core address free (unlock_times n (with_memory core m) address)
unlock_times-lock_times n core address p q room x =
    let (m, done, y) = lock_times-Ends n core address 0 p q (omega arith) x in
    let e : 0 + n ≡ n = omega arith in
    let back = unlock_times-Ends n (with_memory core m) address 0 p q (omega arith) y in
    (m, done, rw e at y, back)
