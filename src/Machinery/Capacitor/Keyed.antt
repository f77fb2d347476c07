-- ===== src/Machinery/Capacitor/Keyed.antt =====
-- src/machinery/capacitor.h, `allocations_`: a map from each base to its allocation.
use arc_jit.Machinery.Capacitor.{
  Capacitor, CodeAllocation, Eviction, Sort, age_all, age_each, candidates, colder, erase_key,
  evict, evict_cold, evict_one, hit, hit_found, record_hit, register_allocation,
}
use arc_jit.Prelude.{
  ℕ, ◌≡◌, ◌≢◌, refl, sym, ap, ◌∙◌, inl, inr, Bool, false, ◌==◌, ==_iff, leb, Bool-cases, Option,
  none, some, List, [], ◌∷◌, arith, find, find-put_ne, put,
}
use mathlib.Core.Option.{some-injective}

pub find-erase_self : (k : ℕ) (m : List (ℕ × CodeAllocation)) → find k (erase_key k m) ≡ none
find-erase_self k [] = refl
find-erase_self k ((j, a) ∷ m) = elim (Bool-cases (k == j)) [
  | inl same ↦ rw same (find-erase_self k m)
  | inr other ↦ rw (other, other) (find-erase_self k m)
]

pub find-erase_ne :
    (k i : ℕ) (m : List (ℕ × CodeAllocation)) → (i == k) ≡ false → find i (erase_key k m) ≡ find i m
find-erase_ne k i [] ne = refl
find-erase_ne k i ((j, a) ∷ m) ne = elim (Bool-cases (k == j)) [
  | inl same ↦
      let away : (i == j) ≡ false = ground arith in rw (same, away) (find-erase_ne k i m ne)
  | inr other ↦ rw other (elim (Bool-cases (i == j)) [
    | inl here ↦ rw here
    | inr there ↦ rw there (find-erase_ne k i m ne)
  ])
]

-- Each key is the base of its allocation and occurs once.
abbrev pub IsMap : List (ℕ × CodeAllocation) → Type 0
IsMap [] = Unit
IsMap ((k, a) ∷ m) = (a.base ≡ k) × (find k m ≡ none) × IsMap m

put-IsMap :
    (k : ℕ) (a : CodeAllocation) (m : List (ℕ × CodeAllocation))
    → a.base ≡ k
    → IsMap m
    → IsMap (put k a m)
put-IsMap k a [] base keyed = (base, refl, tt)
put-IsMap k a ((j, b) ∷ m) base (own, only, keyed) = elim (Bool-cases (k == j)) [
  | inl same ↦ rw same (base, ap (λ x. find x m) ((==_iff k j).0 same) ∙ only, keyed)
  | inr other ↦
      let apart : j ≢ k = λ q. ground arith in
      rw other (own, find-put_ne k j a m apart ∙ only, put-IsMap k a m base keyed)
]

erase-none :
    (k j : ℕ) (m : List (ℕ × CodeAllocation)) → find j m ≡ none → find j (erase_key k m) ≡ none
erase-none k j m e = elim (Bool-cases (j == k)) [
  | inl same ↦ ap (λ x. find x (erase_key k m)) ((==_iff j k).0 same) ∙ find-erase_self k m
  | inr other ↦ find-erase_ne k j m other ∙ e
]

erase-IsMap : (k : ℕ) (m : List (ℕ × CodeAllocation)) → IsMap m → IsMap (erase_key k m)
erase-IsMap k [] keyed = tt
erase-IsMap k ((j, a) ∷ m) (own, only, keyed) = elim (Bool-cases (k == j)) [
  | inl same ↦ rw same (erase-IsMap k m keyed)
  | inr other ↦ rw other (own, erase-none k j m only, erase-IsMap k m keyed)
]

age_each-none :
    (k : ℕ) (m : List (ℕ × CodeAllocation)) → find k m ≡ none → find k (age_each m) ≡ none
age_each-none k [] e = refl
age_each-none k ((j, a) ∷ m) e = elim (Bool-cases (k == j)) [
  | inl same ↦ let out : some a ≡ none = rw same at e in absurd (cc out)
  | inr other ↦ rw other (age_each-none k m (rw other at e))
]

age_each-IsMap : (m : List (ℕ × CodeAllocation)) → IsMap m → IsMap (age_each m)
age_each-IsMap [] keyed = tt
age_each-IsMap ((k, a) ∷ m) (own, only, keyed) =
    (own, age_each-none k m only, age_each-IsMap m keyed)

find-base :
    (k : ℕ) (m : List (ℕ × CodeAllocation)) (a : CodeAllocation)
    → IsMap m
    → find k m ≡ some a
    → a.base ≡ k
find-base k [] a keyed e = absurd (cc e)
find-base k ((j, b) ∷ m) a (own, only, keyed) e = elim (Bool-cases (k == j)) [
  | inl same ↦
      let found : some b ≡ some a = rw same at e in
      ap (λ (x : CodeAllocation). x.base) (sym (some-injective _ _ found))
      ∙ own
      ∙ sym ((==_iff k j).0 same)
  | inr other ↦ find-base k m a keyed (rw other at e)
]

hit_found-IsMap :
    (k : ℕ) (o : Option CodeAllocation) (c : Capacitor)
    → find k c.allocations ≡ o
    → IsMap c.allocations
    → IsMap (hit_found k o c).allocations
hit_found-IsMap k none c e keyed = keyed
hit_found-IsMap k (some a) c e keyed =
    put-IsMap k (hit a) c.allocations (find-base k c.allocations a keyed e) keyed

evict-IsMap :
    (target : ℕ) (xs : List CodeAllocation) (v : Eviction)
    → IsMap v.capacitor.allocations
    → IsMap (evict target xs v).capacitor.allocations
unfolding evict
evict-IsMap target [] v keyed = keyed
evict-IsMap target (a ∷ xs) v keyed = elim (Bool-cases (leb target v.freed)) [
  | inl enough ↦ rw enough keyed
  | inr more ↦ rw more (evict-IsMap target xs (evict_one a v) (erase-IsMap a.base _ keyed))
]

-- An operation on the manager.
pub data Action : Type 0 where
  register : ℕ → ℕ → Bool → Action
  called evicts : ℕ → Action
  ages : Action

abbrev pub act : Sort → Action → Capacitor → Capacitor
act sort (register base size evictable) c = register_allocation base size evictable c
act sort (called base) c = record_hit base c
act sort (evicts target) c = (evict_cold sort target c).capacitor
act sort ages c = age_all c

unfoldable pub run : Sort → List Action → Capacitor → Capacitor
run sort [] c = c
run sort (x ∷ xs) c = run sort xs (act sort x c)

act-IsMap :
    (sort : Sort) (x : Action) (c : Capacitor)
    → IsMap c.allocations
    → IsMap (act sort x c).allocations
act-IsMap sort (register base size evictable) c keyed = put-IsMap base _ c.allocations refl keyed
act-IsMap sort (called base) c keyed = hit_found-IsMap base (find base c.allocations) c refl keyed
act-IsMap sort (evicts target) c keyed =
    evict-IsMap target (sort colder (candidates c.allocations)) _ keyed
act-IsMap sort ages c keyed = age_each-IsMap c.allocations keyed

-- Every operation keeps the map.
pub run-IsMap :
    (sort : Sort) (xs : List Action) (c : Capacitor)
    → IsMap c.allocations
    → IsMap (run sort xs c).allocations
unfolding run
run-IsMap sort [] c keyed = keyed
run-IsMap sort (x ∷ xs) c keyed = run-IsMap sort xs (act sort x c) (act-IsMap sort x c keyed)
