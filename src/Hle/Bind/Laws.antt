-- ===== src/Hle/Bind/Laws.antt =====
-- The trampolines that `bind_import` of hle_dispatcher.cpp hands out.
use affogato.Base.{
  ℕ, ◌+◌, ◌*◌, ◌%◌, ◌^◌, ◌≤◌, ◌<◌, ◌≡◌, ◌≢◌, refl, sym, ap, ◌∙◌, ◌⊎◌, inl, inr, true, false, List,
  [], ◌∷◌, none, some, ok, err, length_error, arith, and_mask, u32, ltb, Option-cases, Bool-cases,
}
use affogato.Hle.State.{
  ImportName, name_eq, name_eq_iff, BoundImport, HleDispatcher, find_name, find_address,
}
use affogato.Hle.Register.{
  configured, configure_guest_address_base, is_import_address, range_size, is_empty,
}
use affogato.Hle.Bind.{emplace_bound, sub32, bind_new, bind_import}

-- The entries take consecutive words from the start of the range up to the next address.
abbrev pub Stacked : ℕ → ℕ → List (ℕ × BoundImport) → Type 0
Stacked begin next [] = next ≡ begin
Stacked begin next ((address, binding) ∷ rest) = (next ≡ address + 4) × Stacked begin address rest

-- The two maps hold the same bindings, in the same order.
abbrev pub Paired : List (ImportName × ℕ) → List (ℕ × BoundImport) → Type 0
Paired [] [] = Unit
Paired [] (b ∷ bs) = ⊥
Paired (a ∷ as') [] = ⊥
Paired ((name, address) ∷ names) ((bound, binding) ∷ bindings) =
    (binding.name ≡ name) × (bound ≡ address) × Paired names bindings

pub record HasTrampolines (d : HleDispatcher) : Type 0 where
  pub stacked : Stacked d.import_range_begin d.next_import_address d.bound_imports
  pub paired : Paired d.addresses d.bound_imports
  pub begin_aligned : d.import_range_begin % 4 ≡ 0
  pub end_aligned : d.import_range_end % 4 ≡ 0
  pub next_aligned : d.next_import_address % 4 ≡ 0
  pub room : d.next_import_address ≤ d.import_range_end
  pub nonempty : 4 ≤ d.import_range_end
  pub words : d.import_range_end < 2 ^ 32

Stacked-le : (begin next : ℕ) (l : List (ℕ × BoundImport)) → Stacked begin next l → begin ≤ next
Stacked-le begin next [] s = omega arith
Stacked-le begin next ((a, b) ∷ rest) s = omega (arith, Stacked-le begin a rest s.1)

pub find_address-lt :
    (begin next : ℕ) (l : List (ℕ × BoundImport)) (address : ℕ) (binding : BoundImport)
    → Stacked begin next l
    → find_address address l ≡ some binding
    → (begin ≤ address) × (address < next)
unfolding find_address
find_address-lt begin next [] address binding s e = absurd (cc)
find_address-lt begin next ((a, b) ∷ rest) address binding s e =
    ground (arith, Stacked-le begin a rest s.1, find_address-lt begin a rest address binding s.1)

-- The binding of the address that a name has is that of the name.
find_address-of_name :
    (begin next : ℕ) (names : List (ImportName × ℕ)) (l : List (ℕ × BoundImport))
    (name : ImportName) (address : ℕ)
    → Stacked begin next l
    → Paired names l
    → find_name name names ≡ some address
    → (binding : BoundImport) × (find_address address l ≡ some binding) × (binding.name ≡ name)
unfolding find_name find_address
find_address-of_name begin next [] l name address s p e = absurd (cc)
find_address-of_name begin next ((n, a) ∷ names) [] name address s p e = absurd p
find_address-of_name begin next ((n, a) ∷ names) ((a', b) ∷ rest) name address s p e =
    elim (Bool-cases (name_eq n name)) [
      | inl same ↦ (b, ground arith, p.0 ∙ (name_eq_iff n name).0 same)
      | inr other ↦
          let (binding, found, named) =
            find_address-of_name begin a' names rest name address s.1 p.2 (ground arith) in
          (
            binding,
            ground (arith, found, find_address-lt begin a' rest address binding s.1 found),
            named,
          )
    ]

find_name-bind_new :
    (d : HleDispatcher) (name : ImportName)
    → find_name name (bind_new d name).addresses ≡ some d.next_import_address
unfolding bind_new find_name
find_name-bind_new d name = ground (arith, name_eq_iff name name)

is_empty-nil : {A : Type 0} (l : List A) → is_empty l ≡ true → l ≡ []
is_empty-nil [] e = refl
is_empty-nil (x ∷ l) e = absurd (cc)

configure-checks :
    (d : HleDispatcher) (data_base : ℕ) (d' : HleDispatcher)
    → configure_guest_address_base d data_base ≡ ok d'
    → (d' ≡ configured d data_base) × (data_base % 2 ^ 20 ≡ 0) × (d.addresses ≡ [])
unfolding configure_guest_address_base
configure-checks d data_base d' e =
    (ground arith, ground (arith, and_mask 20 data_base), is_empty-nil d.addresses (ground arith))

configured-HasTrampolines :
    (d : HleDispatcher) (data_base : ℕ)
    → data_base % 2 ^ 20 ≡ 0
    → data_base + 2 * range_size < 2 ^ 32
    → d.addresses ≡ []
    → d.bound_imports ≡ []
    → HasTrampolines (configured d data_base)
unfolding configured
configured-HasTrampolines d data_base aligned below unbound fresh = record {
  stacked = rw fresh refl;
  paired = rw (fresh, unbound) tt;
  begin_aligned = omega arith;
  end_aligned = omega arith;
  next_aligned = omega arith;
  room = omega arith;
  nonempty = omega arith;
  words = omega arith;
}

-- A successful `configure_guest_address_base` of a dispatcher without bound imports, at a base
-- whose ranges end below 2^32, leaves well-formed trampolines.
pub configure-HasTrampolines :
    (d : HleDispatcher) (data_base : ℕ) (d' : HleDispatcher)
    → configure_guest_address_base d data_base ≡ ok d'
    → data_base + 2 * range_size < 2 ^ 32
    → d.bound_imports ≡ []
    → HasTrampolines d'
configure-HasTrampolines d data_base d' e below fresh =
    let (result, aligned, unbound) = configure-checks d data_base d' e in
    let ready = configured-HasTrampolines d data_base aligned below unbound fresh in rw result ready

-- After a successful `configure_guest_address_base` at a base whose ranges end at 2^32, no
-- address is recognised as an import: the end of the range has wrapped to 0.
pub configure_top_no_imports :
    (d : HleDispatcher) (data_base : ℕ) (d' : HleDispatcher)
    → configure_guest_address_base d data_base ≡ ok d'
    → data_base + 2 * range_size ≡ 2 ^ 32
    → (address : ℕ) → is_import_address d' address ≡ false
unfolding configure_guest_address_base configured is_import_address
configure_top_no_imports d data_base d' e top address = ground arith

-- What binding a name gives: a word of the import range that is dispatched to the name.
pub record Binds (d : HleDispatcher) (name : ImportName) (d' : HleDispatcher) (address : ℕ)
    : Type 0 where
  pub still : HasTrampolines d'
  pub same_begin : d'.import_range_begin ≡ d.import_range_begin
  pub same_end : d'.import_range_end ≡ d.import_range_end
  pub recorded : find_name name d'.addresses ≡ some address
  pub imported : is_import_address d' address ≡ true
  pub binding : BoundImport
  pub dispatched : find_address address d'.bound_imports ≡ some binding
  pub named : binding.name ≡ name

Binds-recorded :
    (d : HleDispatcher) (name : ImportName) (address : ℕ)
    → HasTrampolines d
    → find_name name d.addresses ≡ some address
    → Binds d name d address
unfolding is_import_address
Binds-recorded d name address h found =
    let (binding, bound, named) =
      find_address-of_name d.import_range_begin d.next_import_address d.addresses d.bound_imports
        name address h.stacked h.paired found in
    let range =
      find_address-lt d.import_range_begin d.next_import_address d.bound_imports address binding
        h.stacked bound in
    record {
      still = h;
      same_begin = refl;
      same_end = refl;
      recorded = found;
      imported = ground (arith, h.room);
      binding = binding;
      dispatched = bound;
      named = named;
    }

-- The next address is not bound, so that the entry is made.
pub emplace_bound-next :
    (d : HleDispatcher) (binding : BoundImport)
    → HasTrampolines d
    → emplace_bound d.next_import_address binding d.bound_imports
      ≡ (d.next_import_address, binding) ∷ d.bound_imports
unfolding emplace_bound
emplace_bound-next d binding h =
    elim (Option-cases (find_address d.next_import_address d.bound_imports)) [
      | inl missing ↦ rw (emplace_bound, missing) refl
      | inr (present, found) ↦
          let range =
            find_address-lt d.import_range_begin d.next_import_address d.bound_imports
              d.next_import_address present h.stacked found in
          absurd (omega arith)
    ]

pub bind_new-HasTrampolines :
    (d : HleDispatcher) (name : ImportName)
    → HasTrampolines d
    → d.next_import_address + 4 ≤ d.import_range_end
    → HasTrampolines (bind_new d name)
unfolding bind_new
bind_new-HasTrampolines d name h room =
    let wrap : u32 (d.next_import_address + 4) ≡ d.next_import_address + 4 =
      omega (arith, h.words) in
    let made =
      emplace_bound-next d (record { name = name; handler = find_name name d.functions }) h in
    record {
      stacked = rw made (wrap, h.stacked);
      paired = rw made (refl, refl, h.paired);
      begin_aligned = h.begin_aligned;
      end_aligned = h.end_aligned;
      next_aligned = omega (arith, wrap, h.next_aligned);
      room = omega (arith, wrap);
      nonempty = h.nonempty;
      words = h.words;
    }

Binds-bind_new :
    (d : HleDispatcher) (name : ImportName)
    → HasTrampolines d
    → d.next_import_address + 4 ≤ d.import_range_end
    → Binds d name (bind_new d name) d.next_import_address
Binds-bind_new d name h room =
    let b =
      Binds-recorded (bind_new d name) name d.next_import_address
        (bind_new-HasTrampolines d name h room) (find_name-bind_new d name) in
    record {
      still = b.still;
      same_begin = unfold bind_new in refl;
      same_end = unfold bind_new in refl;
      recorded = b.recorded;
      imported = b.imported;
      binding = b.binding;
      dispatched = b.dispatched;
      named = b.named;
    }

-- The name has an address, and binding it again gives the same.
abbrev pub IsBound : HleDispatcher → ImportName → Type 0
IsBound d name =
    (d' : HleDispatcher) × (address : ℕ) × (bind_import d name ≡ ok (d', address))
    × Binds d name d' address
    × (bind_import d' name ≡ ok (d', address))

bind_import-recorded :
    (d : HleDispatcher) (name : ImportName) (address : ℕ)
    → find_name name d.addresses ≡ some address
    → bind_import d name ≡ ok (d, address)
unfolding bind_import
bind_import-recorded d name address found = ground arith

-- In a dispatcher whose trampolines are well formed, `bind_import` throws for a name without an
-- address when the range is used up; otherwise it succeeds, the trampolines stay well formed in
-- the same range, the name has an address of the import range that is dispatched to that name,
-- and binding it again gives the same.
pub bind_import-Binds :
    (d : HleDispatcher) (name : ImportName)
    → HasTrampolines d
    → ((bind_import d name ≡ err length_error)
        × (find_name name d.addresses ≡ none)
        × (d.next_import_address ≡ d.import_range_end))
      ⊎ IsBound d name
unfolding bind_import
bind_import-Binds d name h = elim (Option-cases (find_name name d.addresses)) [
  | inl fresh ↦ elim (Bool-cases (ltb (sub32 d.import_range_end 4) d.next_import_address)) [
    | inl full ↦ inl (
      ground arith,
      fresh,
      ground (arith, h.words, h.nonempty, h.room, h.next_aligned, h.end_aligned),
    )
    | inr free ↦
        let room : d.next_import_address + 4 ≤ d.import_range_end =
          ground (arith, h.words, h.nonempty) in
        inr (
          bind_new d name,
          d.next_import_address,
          ground arith,
          Binds-bind_new d name h room,
          bind_import-recorded (bind_new d name) name d.next_import_address
              (find_name-bind_new d name),
        )
  ]
  | inr (a, found) ↦ inr (
    d,
    a,
    bind_import-recorded d name a found,
    Binds-recorded d name a h found,
    bind_import-recorded d name a found,
  )
]

-- One address is that of one name.
name-of_address :
    (d : HleDispatcher) (name other : ImportName) (address : ℕ)
    → HasTrampolines d
    → find_name name d.addresses ≡ some address
    → find_name other d.addresses ≡ some address
    → name ≡ other
name-of_address d name other address h found found' =
    let b = Binds-recorded d name address h found in
    let c = Binds-recorded d other address h found' in
    let same : b.binding ≡ c.binding = cc (b.dispatched, c.dispatched) in
    sym b.named ∙ ap (λ (x : BoundImport). x.name) same ∙ c.named

-- Binding another name keeps the address of a name.
find_name-bind_import :
    (d d' : HleDispatcher) (name other : ImportName) (address address' : ℕ)
    → name ≢ other
    → find_name name d.addresses ≡ some address
    → bind_import d other ≡ ok (d', address')
    → find_name name d'.addresses ≡ some address
unfolding bind_import bind_new find_name
find_name-bind_import d d' name other address address' apart found bound =
    ground (arith, name_eq_iff other name, λ (e : other ≡ name). apart (sym e))

-- What a successful `bind_import` of a dispatcher with well-formed trampolines gives.
bind_import-ok :
    (d d' : HleDispatcher) (name : ImportName) (address : ℕ)
    → HasTrampolines d
    → bind_import d name ≡ ok (d', address)
    → Binds d name d' address
bind_import-ok d d' name address h bound = elim (bind_import-Binds d name h) [
  | inl full ↦ absurd (let clash = full.0 in ground arith)
  | inr (d'', address'', done, binds, again) ↦
      let same : d'' ≡ d' = ground arith in
      let there : address'' ≡ address = ground arith in rw (← same, ← there) binds
]

-- In a dispatcher whose trampolines are well formed, if `bind_import` succeeds for a name and then
-- for a different name, it gives them different addresses, and the first keeps its own.
pub bind_import-injective :
    (d d' d'' : HleDispatcher) (name other : ImportName) (address address' : ℕ)
    → HasTrampolines d
    → name ≢ other
    → bind_import d name ≡ ok (d', address)
    → bind_import d' other ≡ ok (d'', address')
    → (address ≢ address') × (find_name name d''.addresses ≡ some address)
bind_import-injective d d' d'' name other address address' h apart first second =
    let b = bind_import-ok d d' name address h first in
    let c = bind_import-ok d' d'' other address' b.still second in
    let kept = find_name-bind_import d' d'' name other address address' apart b.recorded second in
    (λ same. apart (name-of_address d'' name other address c.still kept (rw same c.recorded)), kept)
