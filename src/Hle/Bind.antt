-- ===== src/Hle/Bind.antt =====
-- `bind_import` and `bind_data_import` (src/cpu/espresso/hle_dispatcher.cpp).

pub mod Laws
use affogato.Base.{
  ℕ, ◌+◌, ◌-◌, ◌^◌, max, ◌||◌, List, [], ◌∷◌, Option, none, some, Result, ok, err, ◌>>=◌,
  length_error, bit_and, u32, ltb, if◌then◌else◌, length,
}
use affogato.Memory.State.{GuestMemory}
use affogato.Memory.Map.{map_region}
use affogato.Memory.Write.{zero_fill}
use affogato.Hle.State.{ImportName, HleDispatcher, DataExport, BoundImport, find_name, find_address}

-- `x - y` of 32 bits.
abbrev pub sub32 : ℕ → ℕ → ℕ
sub32 x y = u32 (x + 2 ^ 32 - y)

-- `bound_imports_.emplace`, which keeps an entry that is there.
unfoldable pub emplace_bound : ℕ → BoundImport → List (ℕ × BoundImport) → List (ℕ × BoundImport)
emplace_bound address binding bindings = elim (find_address address bindings) [
  | none ↦ (address, binding) ∷ bindings
  | some present ↦ bindings
]

-- A new trampoline for a name.
unfoldable pub bind_new : HleDispatcher → ImportName → HleDispatcher
bind_new d name = record d {
  next_import_address = u32 (d.next_import_address + 4);
  addresses = (name, d.next_import_address) ∷ d.addresses;
  bound_imports =
      emplace_bound d.next_import_address
        (record { name = name; handler = find_name name d.functions }) d.bound_imports;
}

unfoldable pub bind_import : HleDispatcher → ImportName → Result (HleDispatcher × ℕ)
bind_import d name = elim (find_name name d.addresses) [
  | some address ↦ ok (d, address)
  | none ↦
      if ltb (sub32 d.import_range_end 4) d.next_import_address
      then err length_error
      else ok (bind_new d name, d.next_import_address)
]

-- The address of the next data export, aligned in 64 bits.
abbrev pub aligned_address : HleDispatcher → DataExport → ℕ
aligned_address d data_export =
    bit_and (d.next_data_address + data_export.alignment - 1)
      (2 ^ 64 - 1 - (data_export.alignment - 1))

-- The part of a data export past the flat memory gets a region of its own.
unfoldable pub back_data : GuestMemory → ℕ → ℕ → Result GuestMemory
back_data memory address end =
    let sparse_begin = max address (length memory.bytes) in
    if ltb (length memory.bytes) end
    then map_region memory (u32 sparse_begin) (end - sparse_begin)
    else ok memory

-- What the initializers do is a parameter.
module _ (initialize : ℕ → GuestMemory → ℕ → Result GuestMemory) where
  unfoldable pub run_initializer : Option ℕ → GuestMemory → ℕ → Result GuestMemory
  run_initializer none memory address = ok memory
  run_initializer (some id) memory address = initialize id memory address

  unfoldable pub bind_data :
      HleDispatcher
      → ImportName
      → DataExport
      → GuestMemory
      → Result (HleDispatcher × GuestMemory × Option ℕ)
  bind_data d name data_export memory =
      let address = aligned_address d data_export in
      let end = address + data_export.size in
      if ltb address d.data_range_begin || ltb d.data_range_end end then err length_error else do
        backed ← back_data memory address end
        zeroed ← zero_fill backed (u32 address) data_export.size
        initialized ← run_initializer data_export.initializer zeroed (u32 address)
        let bound = (record d {
          data_addresses = (name, u32 address) ∷ d.data_addresses;
          next_data_address = u32 end;
        })
        ok (bound, initialized, some (u32 address))

  unfoldable pub bind_data_import :
      HleDispatcher → ImportName → GuestMemory → Result (HleDispatcher × GuestMemory × Option ℕ)
  bind_data_import d name memory = elim (find_name name d.data_addresses) [
    | some address ↦ ok (d, memory, some address)
    | none ↦ elim (find_name name d.data_exports) [
      | none ↦ ok (d, memory, none)
      | some data_export ↦ bind_data d name data_export memory
    ]
  ]
