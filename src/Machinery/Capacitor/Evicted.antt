-- ===== src/Machinery/Capacitor/Evicted.antt =====
-- src/machinery/capacitor.cpp, `Capacitor::evict_cold`.
use arc_jit.Machinery.Capacitor.{
  Capacitor, CodeAllocation, Eviction, Sort, candidates, colder, evict, evict_cold, evict_one,
  new_capacitor,
}
use arc_jit.Machinery.Capacitor.Keyed.{
  Action, IsMap, find-erase_ne, find-erase_self, run, run-IsMap,
}
use arc_jit.Machinery.Meter.{u64}
use mathlib.Core.Bool.{not}
use arc_jit.Prelude.{
  sym, Option, some, ◌&&◌, ap, ==_iff, ℕ, ◌+◌, ◌≤◌, ◌≡◌, ◌⊎◌, refl, ◌∙◌, inl, inr, Bool, true,
  false, ◌||◌, ◌==◌, leb, Bool-cases, none, List, [], ◌∷◌, arith, contains, find,
}

-- The bases of the allocations in a list.
abbrev pub bases : List CodeAllocation → List ℕ
bases [] = []
bases (a ∷ xs) = a.base ∷ bases xs

left_false : (a b : Bool) → (a || b) ≡ false → (a ≡ false) × (b ≡ false)
left_false a b h = ground arith

evict-kept :
    (target b : ℕ) (xs : List CodeAllocation) (v : Eviction)
    → contains b (bases xs) ≡ false
    → find b (evict target xs v).capacitor.allocations ≡ find b v.capacitor.allocations
unfolding evict
evict-kept target b [] v away = refl
evict-kept target b (a ∷ xs) v away = elim (Bool-cases (leb target v.freed)) [
  | inl enough ↦ rw enough
  | inr more ↦
      let (here, later) = left_false _ _ away in
      rw more (
        evict-kept target b xs (evict_one a v) later
        ∙ find-erase_ne a.base b v.capacitor.allocations here)
]

evict-gone :
    (target b : ℕ) (xs : List CodeAllocation) (v : Eviction)
    → find b v.capacitor.allocations ≡ none
    → find b (evict target xs v).capacitor.allocations ≡ none
unfolding evict
evict-gone target b [] v gone = gone
evict-gone target b (a ∷ xs) v gone = elim (Bool-cases (leb target v.freed)) [
  | inl enough ↦ rw enough gone
  | inr more ↦ rw more (
      evict-gone target b xs (evict_one a v) (elim (Bool-cases (b == a.base)) [
        | inl same ↦ rw ((==_iff b a.base).0 same) (find-erase_self a.base v.capacitor.allocations)
        | inr other ↦ find-erase_ne a.base b v.capacitor.allocations other ∙ gone
      ]))
]

-- The loop stops early only with enough bytes freed.
evict-all :
    (target : ℕ) (xs : List CodeAllocation) (v : Eviction)
    → (target ≤ (evict target xs v).freed)
      ⊎ ((b : ℕ)
          → contains b (bases xs) ≡ true
          → find b (evict target xs v).capacitor.allocations ≡ none)
unfolding evict
evict-all target [] v = inr (λ b h. absurd (cc h))
evict-all target (a ∷ xs) v = elim (Bool-cases (leb target v.freed)) [
  | inl enough ↦ inl (rw enough (ground arith))
  | inr more ↦ rw more (elim (evict-all target xs (evict_one a v)) [
    | inl freed ↦ inl freed
    | inr rest ↦ inr (λ b h. elim (Bool-cases (b == a.base)) [
      | inl same ↦
          evict-gone target b xs (evict_one a v)
            (rw ((==_iff b a.base).0 same) (find-erase_self a.base v.capacitor.allocations))
      | inr other ↦ rest b (rw other at h)
    ])
  ])
]

evict-total :
    (target : ℕ) (xs : List CodeAllocation) (v : Eviction)
    → u64 ((evict target xs v).capacitor.total_allocated + (evict target xs v).freed)
      ≡ u64 (v.capacitor.total_allocated + v.freed)
unfolding evict
evict-total target [] v = refl
evict-total target (a ∷ xs) v = elim (Bool-cases (leb target v.freed)) [
  | inl enough ↦ rw enough
  | inr more ↦ rw more (evict-total target xs (evict_one a v) ∙ omega arith)
]

abbrev is_cold : Option CodeAllocation → Bool
is_cold none = false
is_cold (some a) = a.is_evictable && not a.is_hot

-- The candidates are the allocations that are evictable and not hot.
candidates-is_cold :
    (b : ℕ) (m : List (ℕ × CodeAllocation))
    → IsMap m
    → contains b (bases (candidates m)) ≡ is_cold (find b m)
candidates-is_cold b [] keyed = refl
candidates-is_cold b ((k, a) ∷ m) (base, only, keyed) =
    let rest = candidates-is_cold b m keyed in
    elim (Bool-cases (a.is_evictable && not a.is_hot)) [
      | inl cold ↦
          rw (cold, base)
            (elim (Bool-cases (b == k)) [
              | inl here ↦ rw here (sym cold)
              | inr there ↦ rw there rest
            ])
      | inr warm ↦ rw warm (elim (Bool-cases (b == k)) [
        | inl here ↦
            let gone : find b m ≡ none = ap (λ x. find x m) ((==_iff b k).0 here) ∙ only in
            rw (here, rest, gone) (sym warm)
        | inr there ↦ rw there rest
      ])
    ]

-- What an eviction with the target `target` does.
pub record IsEvicted (target : ℕ) (c : Capacitor) (v : Eviction) : Type 0 where
  pub balance : u64 (v.capacitor.total_allocated + v.freed) ≡ u64 c.total_allocated
  pub complete :
      (target ≤ v.freed)
      ⊎ ((b : ℕ) (a : CodeAllocation)
          → find b c.allocations ≡ some a
          → a.is_evictable ≡ true
          → a.is_hot ≡ false
          → find b v.capacitor.allocations ≡ none)
  pub kept :
      (b : ℕ) (a : CodeAllocation)
      → find b c.allocations ≡ some a
      → (a.is_hot ≡ true) ⊎ (a.is_evictable ≡ false)
      → find b v.capacitor.allocations ≡ some a
  pub fresh : (b : ℕ) → find b c.allocations ≡ none → find b v.capacitor.allocations ≡ none

cold_entry :
    (a : CodeAllocation) → a.is_evictable ≡ true → a.is_hot ≡ false → is_cold (some a) ≡ true
cold_entry a e h = rw (e, h) refl

warm_entry :
    (a : CodeAllocation) → (a.is_hot ≡ true) ⊎ (a.is_evictable ≡ false) → is_cold (some a) ≡ false
warm_entry a (inl hot) = ground arith
warm_entry a (inr fixed) = rw fixed refl

-- Where the sort keeps the bases of its list, an eviction, after any operations on an empty manager,
-- takes from the total the bytes that it returns as freed, modulo 2 ^ 64; it frees as many as it was
-- asked for or leaves no allocation that is evictable and not hot; it keeps every allocation that is
-- hot or not evictable as it is; and no address gets an entry.
pub evict_cold-IsEvicted :
    (sort : Sort)
    → ((xs : List CodeAllocation) (b : ℕ)
        → contains b (bases (sort colder xs)) ≡ contains b (bases xs))
    → (target : ℕ) (acts : List Action)
    → IsEvicted target
        (run sort acts new_capacitor)
        (evict_cold sort target (run sort acts new_capacitor))
evict_cold-IsEvicted sort same_bases target acts =
    let c = run sort acts new_capacitor in
    let keyed = run-IsMap sort acts new_capacitor tt in
    let cold = candidates c.allocations in
    let sorted = sort colder cold in
    let start : Eviction = record { freed = 0; capacitor = c } in
    let of_entry : (b : ℕ) (o : Option CodeAllocation)
        → find b c.allocations ≡ o
        → contains b (bases sorted) ≡ is_cold o =
      λ b o e. same_bases cold b ∙ candidates-is_cold b c.allocations keyed ∙ ap is_cold e in
    record {
      balance = evict-total target sorted start ∙ omega arith;
      complete = elim (evict-all target sorted start) [
        | inl enough ↦ inl enough
        | inr gone ↦ inr (λ b a e ev hot. gone b (of_entry b (some a) e ∙ cold_entry a ev hot))
      ];
      kept = λ b a e spared.
          evict-kept target b sorted start (of_entry b (some a) e ∙ warm_entry a spared) ∙ e;
      fresh = λ b e. evict-kept target b sorted start (of_entry b none e) ∙ e;
    }
