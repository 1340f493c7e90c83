-- ===== src/Hle/Register.antt =====
-- Configuration and registration (src/cpu/espresso/hle_dispatcher.cpp), and the queries of
-- hle_dispatcher.hpp.
use Prim.Native.String.{String, ◌++◌}
use text.Mathlib.Text.{◌==◌ as str_eq}
use affogato.Base.{
  ℕ, ◌+◌, ◌-◌, ◌*◌, ◌^◌, Bool, not, ◌&&◌, ◌||◌, List, [], ◌∷◌, Option, none, some, Result, ok, err,
  invalid_argument, logic_error, bit_and, u32, ltb, leb, ◌==◌, if◌then◌else◌,
}
use affogato.Hle.State.{
  ImportName, HleDispatcher, DataExport, find_name, find_address, first_data_address,
  data_address_limit, first_import_address, import_address_limit,
}

-- A dispatcher at construction.
abbrev pub initial : HleDispatcher
initial = record {
  functions = [];
  data_exports = [];
  addresses = [];
  data_addresses = [];
  bound_imports = [];
  call_counts = λ name. 0;
  recent_calls = [];
  recent_call_count = 0;
  next_recent_call = 0;
  recent_call_trace_enabled = Bool.false;
  recent_call_trace_filter = "";
  data_range_begin = first_data_address;
  data_range_end = data_address_limit;
  import_range_begin = first_import_address;
  import_range_end = import_address_limit;
  next_import_address = first_import_address;
  next_data_address = first_data_address;
  last_unimplemented_call = "";
}

abbrev pub contains {ℓ} : {A : Type ℓ} → ImportName → List (ImportName × A) → Bool
contains name entries = elim (find_name name entries) [ none ↦ Bool.false | some a ↦ Bool.true ]

abbrev pub is_empty {ℓ} : {A : Type ℓ} → List A → Bool
is_empty [] = Bool.true
is_empty (x ∷ xs) = Bool.false

abbrev pub range_size : ℕ
range_size = 0x00100000

-- The ranges that a base gives.
unfoldable pub configured : HleDispatcher → ℕ → HleDispatcher
configured d data_base = record d {
  data_range_begin = data_base;
  data_range_end = u32 (data_base + range_size);
  import_range_begin = u32 (data_base + range_size);
  import_range_end = u32 (data_base + 2 * range_size);
  next_data_address = data_base;
  next_import_address = u32 (data_base + range_size);
}

unfoldable pub configure_guest_address_base : HleDispatcher → ℕ → Result HleDispatcher
configure_guest_address_base d data_base =
    if not (bit_and data_base (range_size - 1) == 0) || ltb (2 ^ 32) (data_base + 2 * range_size)
    then err invalid_argument
    else if not (is_empty d.addresses) || not (is_empty d.data_addresses)
    then err logic_error
    else ok (configured d data_base)

unfoldable pub is_import_address : HleDispatcher → ℕ → Bool
is_import_address d address = leb d.import_range_begin address && ltb address d.import_range_end

unfoldable pub register_function : HleDispatcher → ImportName → Option ℕ → Result HleDispatcher
register_function d name none = err invalid_argument
register_function d name (some handler) =
    if str_eq name.library "" || str_eq name.symbol ""
    then err invalid_argument
    else if contains name d.addresses
        || (contains name d.data_exports || contains name d.data_addresses)
    then err logic_error
    else if contains name d.functions
    then err logic_error
    else ok (record d { functions = (name, handler) ∷ d.functions })

unfoldable pub register_data : HleDispatcher → ImportName → DataExport → Result HleDispatcher
register_data d name data_export =
    if str_eq name.library ""
      || (str_eq name.symbol ""
          || (data_export.size == 0
              || (data_export.alignment == 0
                  || not (bit_and data_export.alignment (data_export.alignment - 1) == 0))))
    then err invalid_argument
    else if contains name d.functions
        || (contains name d.addresses || contains name d.data_addresses)
    then err logic_error
    else if contains name d.data_exports
    then err logic_error
    else ok (record d { data_exports = (name, data_export) ∷ d.data_exports })

unfoldable pub data_address : HleDispatcher → ImportName → Option ℕ
data_address d name = find_name name d.data_addresses

abbrev pub full_name : ImportName → String
full_name name = name.library ++ "::" ++ name.symbol

unfoldable pub import_name : HleDispatcher → ℕ → Option String
import_name d address = elim (find_address address d.bound_imports) [
  | none ↦ none
  | some binding ↦ some (full_name binding.name)
]
