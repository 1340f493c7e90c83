-- ===== src/Base/Errors.antt =====
-- The exceptions of the source as values, and the monad of code that may throw.
use Prim.Native.Nat.{ℕ}
use mathlib.Core.Logic.{◌⊎◌, inl, inr}
use mathlib.Core.Bool.{Bool, true, false}
use mathlib.Core.Path.{◌≡◌, refl}

-- `GuestMemoryAccess`.
pub data Access : Type 0 where
  read write : Access

-- `memory_fault` is `GuestMemoryFault`; the others are the standard exceptions and
-- `HleExecutionError`.
pub data Error : Type 0 where
  memory_fault : ℕ → ℕ → Access → Error
  invalid_argument logic_error length_error out_of_range hle_error : Error

-- A value, or the exception that was thrown.
pub data Result {ℓ} (A : Type ℓ) : Type ℓ where
  err : Error → Result A
  ok : A → Result A

-- `if (bad) throw e;`
abbrev pub throw_if : Bool → Error → Result (Unit {0})
throw_if true e = err e
throw_if false e = ok tt

-- The first exception ends the code.
infixl 5 ◌>>=◌ ◌>>◌
abbrev pub ◌>>=◌ {ℓ κ} : {A : Type ℓ} {B : Type κ} → Result A → (A → Result B) → Result B
err thrown >>= next = err thrown
ok value >>= next = next value

-- `done` gives nothing that the rest of the code uses.
abbrev pub ◌>>◌ {ℓ} : {B : Type ℓ} → Result (Unit {0}) → Result B → Result B
err thrown >> rest = err thrown
ok done >> rest = rest

pub Result-cases {ℓ} :
    {A : Type ℓ} (r : Result A) → ((a : A) × (r ≡ ok a)) ⊎ ((e : Error) × (r ≡ err e))
Result-cases (ok a) = inl (a, refl)
Result-cases (err e) = inr (e, refl)
