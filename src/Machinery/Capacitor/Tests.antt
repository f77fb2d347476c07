-- ===== src/Machinery/Capacitor/Tests.antt =====
-- Four allocations, sorted by insertion: one of them is hot and one is not evictable.
use arc_jit.Machinery.Capacitor.Evicted.{IsEvicted, bases, evict_cold-IsEvicted}
use arc_jit.Machinery.Capacitor.Keyed.{Action, called, register, run}
use arc_jit.Machinery.Capacitor.{
  Capacitor, CodeAllocation, Sort, candidates, colder, evict, evict_cold, new_capacitor,
}
use arc_jit.Prelude.{
  ℕ, zero, suc, ◌≡◌, refl, ap, ◌∙◌, inl, inr, Bool, true, false, ◌||◌, ◌==◌, if◌then◌else◌,
  Bool-cases, List, [], ◌∷◌, arith, contains,
}

abbrev insert :
    (CodeAllocation → CodeAllocation → Bool)
    → CodeAllocation
    → List CodeAllocation
    → List CodeAllocation
insert lt a [] = a ∷ []
insert lt a (b ∷ xs) = if lt b a then b ∷ insert lt a xs else a ∷ b ∷ xs

abbrev insertion_sort : Sort
insertion_sort lt [] = []
insertion_sort lt (a ∷ xs) = insert lt a (insertion_sort lt xs)

swapped : (a b c : Bool) → (a || (b || c)) ≡ (b || (a || c))
swapped a b c = ground arith

insert-bases :
    (lt : CodeAllocation → CodeAllocation → Bool) (a : CodeAllocation) (xs : List CodeAllocation)
    (n : ℕ)
    → contains n (bases (insert lt a xs)) ≡ ((n == a.base) || contains n (bases xs))
insert-bases lt a [] n = refl
insert-bases lt a (b ∷ xs) n = elim (Bool-cases (lt b a)) [
  | inl before ↦ rw before (
      ap (λ x. (n == b.base) || x) (insert-bases lt a xs n)
      ∙ swapped (n == b.base) (n == a.base) (contains n (bases xs)))
  | inr after ↦ rw after
]

sort-bases :
    (xs : List CodeAllocation) (n : ℕ)
    → contains n (bases (insertion_sort colder xs)) ≡ contains n (bases xs)
sort-bases [] n = refl
sort-bases (a ∷ xs) n =
    insert-bases colder a (insertion_sort colder xs) n
    ∙ ap (λ x. (n == a.base) || x) (sort-bases xs n)

hits : ℕ → ℕ → List Action → List Action
hits zero base xs = xs
hits (suc n) base xs = called base ∷ hits n base xs

abbrev used : List Action
unfolding hits
used =
    register 3 32 true
    ∷ register 5 64 true
    ∷ register 7 128 false
    ∷ register 9 256 true
    ∷ hits 3 9 (hits 101 5 [])

abbrev cache : Capacitor
unfolding used run
cache = run insertion_sort used new_capacitor

evict_cold-IsEvicted_example :
    IsEvicted 1000
      (run insertion_sort used new_capacitor)
      (evict_cold insertion_sort 1000 (run insertion_sort used new_capacitor))
evict_cold-IsEvicted_example = evict_cold-IsEvicted insertion_sort sort-bases 1000 used

-- The coldest goes first, and only the two candidates go.
first_test :
    (bases (insertion_sort colder (candidates cache.allocations)) ≡ 3 ∷ 9 ∷ [])
    × ((evict_cold insertion_sort 1 cache).freed ≡ 32)
    × ((evict_cold insertion_sort 1000 cache).freed ≡ 288)
unfolding evict hits cache used run
first_test = (refl, refl, refl)
