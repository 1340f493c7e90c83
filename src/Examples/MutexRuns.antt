-- ===== src/Examples/MutexRuns.antt =====
-- The theorems on guest_mutex.cpp and the guest heap, at a core with one mutex at address 8.
use affogato.Base.{ℕ, ◌≡◌, refl, ◌⊎◌, List, [], ◌∷◌, ◌++◌, ok, arith, replicate}
use affogato.Memory.State.{GuestMemory, new}
use affogato.Memory.Access.{is_flat_range}
use affogato.Memory.Read.{read32_be}
use affogato.Memory.Bytes.{IsWellFormed}
use affogato.Memory.Layout.{layout, extents}
use affogato.Cpu.State.{zeroed}
use affogato.Hle.Register.{initial}
use affogato.Core.{EspressoCore}
use affogato.Core.Heap.{allocate_guest_memory, Allocates, allocate_guest_memory-Allocates}
use affogato.Mutex.{lock_guest_os_mutex, unlock_guest_os_mutex}
use affogato.Mutex.Laws.{
  IsMutex, with_memory, free, held, acquire, release, LockAnswers, UnlockAnswers, StandsFor,
  lock-answers-acquire, unlock-answers-release,
}
use affogato.Mutex.Schedule.{lock_times, unlock_times, at_depth, unlock_times-lock_times}

-- The tag, the owner word and the count word at their offsets.
abbrev mutex_bytes : ℕ → ℕ → List ℕ
mutex_bytes owner count =
    replicate 8 0
    ++ (0x6D ∷ 0x55 ∷ 0x74 ∷ 0x58 ∷ [])
    ++ replicate 24 0
    ++ (0 ∷ 0 ∷ 0 ∷ owner ∷ [])
    ++ (0 ∷ 0 ∷ 0 ∷ count ∷ [])
    ++ replicate 20 0

abbrev mutex_core : ℕ → ℕ → EspressoCore
mutex_core owner count = record {
  state = zeroed;
  memory = record (new 64) { bytes = mutex_bytes owner count };
  hle = initial;
  current_thread_address = 5;
  guest_heap_cursor = 0x1001;
  guest_heap_limit = 0x2000;
}

memory-IsWellFormed : (owner count : ℕ) → IsWellFormed (mutex_core owner count).memory
unfolding new layout extents
memory-IsWellFormed owner count = record {
  laid_out = record {
    extents_fit = tt;
    aliases_fit = tt;
    extents_apart = tt;
    aliases_apart = tt;
    aliases_clear = tt;
  };
  watch_fits = tt;
}

free-IsMutex : IsMutex (mutex_core 0 0) 8 0 0
unfolding read32_be is_flat_range new
free-IsMutex = record {
  well_formed = memory-IsWellFormed 0 0;
  not_null = omega arith;
  inside = omega arith;
  addressable = omega arith;
  tagged = refl;
  owner_word = refl;
  count_word = refl;
}

held-IsMutex : IsMutex (mutex_core 5 2) 8 5 2
unfolding read32_be is_flat_range new
held-IsMutex = record {
  well_formed = memory-IsWellFormed 5 2;
  not_null = omega arith;
  inside = omega arith;
  addressable = omega arith;
  tagged = refl;
  owner_word = refl;
  count_word = refl;
}

lock-answers-acquire_example :
    LockAnswers (mutex_core 5 2) 8 (acquire 5 (held 5 2)) (lock_guest_os_mutex (mutex_core 5 2) 8)
lock-answers-acquire_example =
    lock-answers-acquire (mutex_core 5 2) 8 (omega arith) (omega arith) (held 5 2)
      (omega arith, omega arith, omega arith, omega arith) held-IsMutex

unlock-answers-release_example :
    UnlockAnswers
      (mutex_core 5 2)
      8
      (release 5 (held 5 2))
      (unlock_guest_os_mutex (mutex_core 5 2) 8)
unlock-answers-release_example =
    unlock-answers-release (mutex_core 5 2) 8 (omega arith) (omega arith) (held 5 2)
      (omega arith, omega arith, omega arith, omega arith) held-IsMutex

unlock_times-lock_times_example :
    (m : GuestMemory) × (lock_times 3 (mutex_core 0 0) 8 ≡ ok (with_memory (mutex_core 0 0) m))
    × StandsFor (with_memory (mutex_core 0 0) m) 8 (at_depth 5 3)
    × ((m' : GuestMemory) × (unlock_times 3 (with_memory (mutex_core 0 0) m) 8
          ≡ ok (with_memory (mutex_core 0 0) m'))
        × StandsFor (with_memory (mutex_core 0 0) m') 8 free)
unlock_times-lock_times_example =
    unlock_times-lock_times 3 (mutex_core 0 0) 8 (omega arith) (omega arith) (omega arith)
      free-IsMutex

allocate_guest_memory-Allocates_example :
    let (core', address) = allocate_guest_memory (mutex_core 0 0) 0x2C 8 in
    ((core' ≡ mutex_core 0 0) × (address ≡ 0)) ⊎ Allocates (mutex_core 0 0) 0x2C 8 address core'
allocate_guest_memory-Allocates_example =
    allocate_guest_memory-Allocates (mutex_core 0 0) 0x2C 8 (omega arith) (omega arith)
      (omega arith)
