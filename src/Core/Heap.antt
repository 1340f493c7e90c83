-- ===== src/Core/Heap.antt =====
-- `configure_guest_heap` and `allocate_guest_memory` (src/cpu/espresso/interpreter.hpp).
use affogato.Base.{
  ℕ, ◌+◌, ◌-◌, ◌*◌, ◌/◌, ◌%◌, ◌^◌, ◌≤◌, ◌<◌, ◌≡◌, ◌≢◌, ◌⊎◌, not, ◌||◌, arith, bit_and, u32, ltb,
  ◌==◌, if◌then◌else◌, power_of_two, and_not_mask, pow-le-pow, dec_lt,
}
use native.Mathlib.Nat.{div-add-mod, mul-mod_right}
use affogato.Core.{EspressoCore}

unfoldable pub configure_guest_heap : EspressoCore → ℕ → ℕ → EspressoCore
configure_guest_heap core begin end = record core {
  guest_heap_cursor = begin;
  guest_heap_limit = end;
}

-- `(cursor + alignment - 1) & ~(alignment - 1)` in 64 bits.
unfoldable pub align_up : ℕ → ℕ → ℕ
align_up cursor alignment = bit_and (cursor + alignment - 1) (2 ^ 64 - 1 - (alignment - 1))

-- The address, 0 where the allocation fails.
unfoldable pub allocate_guest_memory : EspressoCore → ℕ → ℕ → EspressoCore × ℕ
allocate_guest_memory core size alignment =
    let aligned = align_up core.guest_heap_cursor alignment in
    if size == 0 || (alignment == 0 || not (bit_and alignment (alignment - 1) == 0))
    then (core, 0)
    else if ltb core.guest_heap_limit aligned || ltb core.guest_heap_limit (aligned + size)
    then (core, 0)
    else (record core { guest_heap_cursor = u32 (aligned + size) }, u32 aligned)

-- Rounding up to a power of two.
align_up-power :
    (cursor k : ℕ)
    → cursor < 2 ^ 32
    → 2 ^ k ≤ 2 ^ 32
    → k ≤ 64
    → align_up cursor (2 ^ k) ≡ cursor + 2 ^ k - 1 - (cursor + 2 ^ k - 1) % 2 ^ k
unfolding align_up
align_up-power cursor k small fits le = and_not_mask 64 k (cursor + 2 ^ k - 1) (omega arith) le

exponent-le : (k : ℕ) → 2 ^ k < 2 ^ 32 → k ≤ 64
exponent-le k h = elim (dec_lt 64 k) [
  | yes big ↦ absurd (omega (arith, pow-le-pow 64 k (omega arith)))
  | no small ↦ omega arith
]

round_down-mod : (x d : ℕ) → (x - x % d) % d ≡ 0
round_down-mod x d =
    let e : x - x % d ≡ d * (x / d) = omega (arith, div-add-mod x d) in
    rw e (mul-mod_right d (x / d))

-- For a cursor below 2^32 and an alignment below 2^32 that is not 0 and passes the source's test
-- for a power of two, the rounded cursor is a multiple of the alignment, not below the cursor and
-- less than the alignment above it.
align_up_bounds :
    (cursor alignment : ℕ)
    → cursor < 2 ^ 32
    → alignment < 2 ^ 32
    → alignment ≢ 0
    → bit_and alignment (alignment - 1) ≡ 0
    → (cursor ≤ align_up cursor alignment)
      × (align_up cursor alignment < cursor + alignment)
      × (align_up cursor alignment % alignment ≡ 0)
align_up_bounds cursor alignment small fits pos power =
    let (k, e) = power_of_two alignment pos power in
    let le = exponent-le k (rw (← e) fits) in
    let up = align_up-power cursor k small (rw (← e) (omega arith)) le in
    let at : align_up cursor alignment
        ≡ cursor + alignment - 1 - (cursor + alignment - 1) % alignment =
      rw e up in
    (
      grind (arith, at, pos),
      grind (arith, at, pos),
      rw at (round_down-mod (cursor + alignment - 1) alignment),
    )

-- The block at an address was cut from the free part of the heap, and nothing else changed.
pub record Allocates (core : EspressoCore) (size alignment address : ℕ) (core' : EspressoCore)
    : Type 0 where
  pub above : core.guest_heap_cursor ≤ address
  pub close : address < core.guest_heap_cursor + alignment
  pub aligned : address % alignment ≡ 0
  pub inside : address + size ≤ core.guest_heap_limit
  pub result : core' ≡ record core { guest_heap_cursor = address + size }

-- With the heap's bounds and the alignment below 2^32, `allocate_guest_memory` either changes
-- nothing and gives 0, or cuts a block of the size asked for from the free part of the heap,
-- aligned and less than the alignment above its start.
pub allocate_guest_memory-Allocates :
    (core : EspressoCore) (size alignment : ℕ)
    → core.guest_heap_cursor < 2 ^ 32
    → core.guest_heap_limit < 2 ^ 32
    → alignment < 2 ^ 32
    → let (core', address) = allocate_guest_memory core size alignment in
      ((core' ≡ core) × (address ≡ 0)) ⊎ Allocates core size alignment address core'
unfolding allocate_guest_memory
allocate_guest_memory-Allocates core size alignment small limit fits =
    ground (arith, align_up_bounds core.guest_heap_cursor alignment small fits)
