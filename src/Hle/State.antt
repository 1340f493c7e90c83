-- ===== src/Hle/State.antt =====
-- The state of `HleDispatcher` (src/cpu/espresso/hle_dispatcher.hpp). A `std::map` is a list of
-- entries, the newest first. Handlers and initializers are known by number; what they do is a
-- parameter of the operations that call them.
use Prim.Native.String.{String}
use text.Mathlib.Text.{◌==◌ as str_eq}
use text.Mathlib.TextEquality.{eq_iff}
use affogato.Base.{
  ℕ, ◌≡◌, ◌↔◌, Bool, true, ◌&&◌, List, [], ◌∷◌, Option, none, some, arith, ◌==◌, if◌then◌else◌,
}

pub record ImportName : Type 0 where
  pub library : String
  pub symbol : String

abbrev pub name_eq : ImportName → ImportName → Bool
name_eq a b = str_eq a.library b.library && str_eq a.symbol b.symbol

pub name_eq_iff : (a b : ImportName) → (name_eq a b ≡ true) ↔ (a ≡ b)
name_eq_iff a b = ground (arith, eq_iff a.library b.library, eq_iff a.symbol b.symbol)

-- `none` is an empty `std::function`.
pub record BoundImport : Type 0 where
  pub name : ImportName
  pub handler : Option ℕ

pub record DataExport : Type 0 where
  pub size : ℕ
  pub alignment : ℕ
  pub initializer : Option ℕ

pub record CallTraceEntry : Type 0 where
  pub import_address : ℕ
  pub return_address : ℕ
  pub name : String
  pub arguments : List ℕ
  pub results : List ℕ
  pub implemented : Bool
  pub completed : Bool

pub record HleDispatcher : Type 0 where
  pub functions : List (ImportName × ℕ)
  pub data_exports : List (ImportName × DataExport)
  pub addresses : List (ImportName × ℕ)
  pub data_addresses : List (ImportName × ℕ)
  pub bound_imports : List (ℕ × BoundImport)
  pub call_counts : ImportName → ℕ
  pub recent_calls : List CallTraceEntry
  pub recent_call_count : ℕ
  pub next_recent_call : ℕ
  pub recent_call_trace_enabled : Bool
  pub recent_call_trace_filter : String
  pub data_range_begin : ℕ
  pub data_range_end : ℕ
  pub import_range_begin : ℕ
  pub import_range_end : ℕ
  pub next_import_address : ℕ
  pub next_data_address : ℕ
  pub last_unimplemented_call : String

abbrev pub first_data_address : ℕ
first_data_address = 0x03E00000

abbrev pub data_address_limit : ℕ
data_address_limit = 0x03F00000

abbrev pub first_import_address : ℕ
first_import_address = 0x03F00000

abbrev pub import_address_limit : ℕ
import_address_limit = 0x04000000

abbrev pub trace_capacity : ℕ
trace_capacity = 512

-- `map.find`.
unfoldable pub find_name {ℓ} : {A : Type ℓ} → ImportName → List (ImportName × A) → Option A
find_name name [] = none
find_name name ((n, a) ∷ rest) = if name_eq n name then some a else find_name name rest

unfoldable pub find_address {ℓ} : {A : Type ℓ} → ℕ → List (ℕ × A) → Option A
find_address address [] = none
find_address address ((k, a) ∷ rest) = if k == address then some a else find_address address rest
