-- ===== src/Machinery/Relay.antt =====
-- src/machinery/relay.h and relay.cpp: the registry of the runtime's stubs. An address is a number,
-- with 0 for `nullptr`, and so is a name, of which only the equality matters.
use arc_jit.Prelude.{
  ℕ, ◌≡◌, refl, sym, ap, ◌∙◌, inl, inr, Bool, true, false, ◌==◌, ==_iff, if◌then◌else◌, Bool-cases,
  Option, none, some, List, [], arith, length, find, find-put_ne, find-put_self, put,
}
use mathlib.Core.Path.{subst}

pub data StubKind : Type 0 where
  ic_miss deopt_entry allocation_slow shape_transition osr_entry ffi_transition : StubKind
  exception_throw type_check_fail bounds_check_fail stack_overflow gc_entry : StubKind

abbrev pub stub_number : StubKind → ℕ
stub_number ic_miss = 0
stub_number deopt_entry = 1
stub_number allocation_slow = 2
stub_number shape_transition = 3
stub_number osr_entry = 4
stub_number ffi_transition = 5
stub_number exception_throw = 6
stub_number type_check_fail = 7
stub_number bounds_check_fail = 8
stub_number stack_overflow = 9
stub_number gc_entry = 10

pub record StubEntry : Type 0 where
  pub kind : StubKind
  pub address : ℕ
  pub size : ℕ
  pub name : ℕ

pub record Relay : Type 0 where
  pub stubs : List (ℕ × StubEntry)
  pub name_index : List (ℕ × ℕ)

abbrev pub new_relay : Relay
new_relay = record { stubs = []; name_index = [] }

abbrev pub register_stub : StubKind → ℕ → ℕ → ℕ → Relay → Relay
register_stub kind address size name r = record {
  stubs =
      put (stub_number kind) (record { kind = kind; address = address; size = size; name = name })
        r.stubs;
  name_index = put name address r.name_index;
}

abbrev pub address_of : Option StubEntry → ℕ
address_of none = 0
address_of (some e) = e.address

abbrev pub get_stub : StubKind → Relay → ℕ
get_stub kind r = address_of (find (stub_number kind) r.stubs)

abbrev pub or_null : Option ℕ → ℕ
or_null none = 0
or_null (some a) = a

abbrev pub get_stub_by_name : ℕ → Relay → ℕ
get_stub_by_name name r = or_null (find name r.name_index)

abbrev pub is_some : Option StubEntry → Bool
is_some none = false
is_some (some _) = true

abbrev pub has_stub : StubKind → Relay → Bool
has_stub kind r = is_some (find (stub_number kind) r.stubs)

abbrev pub stub_count : Relay → ℕ
stub_count r = length r.stubs

find-put :
    {A : Type 0} (j k : ℕ) (v : A) (m : List (ℕ × A))
    → find j (put k v m) ≡ (if j == k then some v else find j m)
find-put j k v m = elim (Bool-cases (j == k)) [
  | inl same ↦
      rw same
        (subst (λ x. find x (put k v m) ≡ some v) (sym ((==_iff j k).0 same)) (find-put_self k v m))
  | inr other ↦ rw other (find-put_ne k j v m (ground arith))
]

address_of-if :
    (b : Bool) (e : StubEntry) (o : Option StubEntry)
    → address_of (if b then some e else o) ≡ (if b then e.address else address_of o)
address_of-if true e o = refl
address_of-if false e o = refl

is_some-if :
    (b : Bool) (e : StubEntry) (o : Option StubEntry)
    → is_some (if b then some e else o) ≡ (if b then true else is_some o)
is_some-if true e o = refl
is_some-if false e o = refl

or_null-if :
    (b : Bool) (a : ℕ) (o : Option ℕ)
    → or_null (if b then some a else o) ≡ (if b then a else or_null o)
or_null-if true a o = refl
or_null-if false a o = refl

-- A stub that is registered answers under its kind and under its name; every other kind and name
-- answers as before.
register_stub_lem :
    (kind asked : StubKind) (address size name wanted : ℕ) (r : Relay)
    → (get_stub asked (register_stub kind address size name r)
        ≡ (if stub_number asked == stub_number kind then address else get_stub asked r))
      × (has_stub asked (register_stub kind address size name r)
          ≡ (if stub_number asked == stub_number kind then true else has_stub asked r))
      × (get_stub_by_name wanted (register_stub kind address size name r)
          ≡ (if wanted == name then address else get_stub_by_name wanted r))
register_stub_lem kind asked address size name wanted r =
    let entry : StubEntry = record { kind = kind; address = address; size = size; name = name } in
    let found = find-put (stub_number asked) (stub_number kind) entry r.stubs in
    let named = find-put wanted name address r.name_index in
    (
      ap address_of found ∙ address_of-if _ entry (find (stub_number asked) r.stubs),
      ap is_some found ∙ is_some-if _ entry (find (stub_number asked) r.stubs),
      ap or_null named ∙ or_null-if _ address (find wanted r.name_index),
    )
