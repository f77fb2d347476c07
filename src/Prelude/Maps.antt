-- ===== src/Prelude/Maps.antt =====
-- Maps from numbers, as association lists (`std::unordered_map` with its `operator[]` and `find`), and
-- membership in a list.
use Prim.Native.Nat.{ℕ, ◌+◌}
use arc_jit.Prelude.Tests.{◌==◌, if◌then◌else◌, Bool-cases}
use mathlib.Core.Bool.{Bool, false, ◌||◌}
use mathlib.Core.List.{List, [], ◌∷◌, ◌++◌}
use mathlib.Core.Logic.{inl, inr, ◌≢◌}
use mathlib.Core.Option.{Option, none, some}
use mathlib.Core.Path.{◌≡◌}
use native.Mathlib.Omega.{arith}

module _ {ℓ} {A : Type ℓ} where
  abbrev pub find : ℕ → List (ℕ × A) → Option A
  find k [] = none
  find k ((j, v) ∷ m) = if k == j then some v else find k m

  abbrev pub put : ℕ → A → List (ℕ × A) → List (ℕ × A)
  put k v [] = (k, v) ∷ []
  put k v ((j, w) ∷ m) = if k == j then (k, v) ∷ m else (j, w) ∷ put k v m

  -- `m[k]`, with the value that a missing key reads.
  abbrev pub find_or : A → ℕ → List (ℕ × A) → A
  find_or d k [] = d
  find_or d k ((j, v) ∷ m) = if k == j then v else find_or d k m

  pub find-put_self : (k : ℕ) (v : A) (m : List (ℕ × A)) → find k (put k v m) ≡ some v
  find-put_self k v [] = ground arith
  find-put_self k v ((j, w) ∷ m) = elim (Bool-cases (k == j)) [
    | inl same ↦ rw same (ground arith)
    | inr other ↦ rw (other, other) (find-put_self k v m)
  ]

  pub find-put_ne : (k i : ℕ) (v : A) (m : List (ℕ × A)) → i ≢ k → find i (put k v m) ≡ find i m
  find-put_ne k i v [] h = ground arith
  find-put_ne k i v ((j, w) ∷ m) h = elim (Bool-cases (k == j)) [
    | inl same ↦ rw same (ground arith)
    | inr other ↦ rw other (elim (Bool-cases (i == j)) [
      | inl here ↦ rw here
      | inr there ↦ rw there (find-put_ne k i v m h)
    ])
  ]

  pub find_or-put_self : (d : A) (k : ℕ) (v : A) (m : List (ℕ × A)) → find_or d k (put k v m) ≡ v
  find_or-put_self d k v [] = ground arith
  find_or-put_self d k v ((j, w) ∷ m) = elim (Bool-cases (k == j)) [
    | inl same ↦ rw same (ground arith)
    | inr other ↦ rw (other, other) (find_or-put_self d k v m)
  ]

  pub find_or-put_ne :
      (d : A) (k i : ℕ) (v : A) (m : List (ℕ × A)) → i ≢ k → find_or d i (put k v m) ≡ find_or d i m
  find_or-put_ne d k i v [] h = ground arith
  find_or-put_ne d k i v ((j, w) ∷ m) h = elim (Bool-cases (k == j)) [
    | inl same ↦ rw same (ground arith)
    | inr other ↦ rw other (elim (Bool-cases (i == j)) [
      | inl here ↦ rw here
      | inr there ↦ rw there (find_or-put_ne d k i v m h)
    ])
  ]

-- The sum of the values.
abbrev pub sum_values : List (ℕ × ℕ) → ℕ
sum_values [] = 0
sum_values ((j, v) ∷ m) = v + sum_values m

pub sum_values-put :
    (k v : ℕ) (m : List (ℕ × ℕ)) → sum_values (put k v m) + find_or 0 k m ≡ sum_values m + v
sum_values-put k v [] = omega arith
sum_values-put k v ((j, w) ∷ m) = elim (Bool-cases (k == j)) [
  | inl same ↦ rw same (omega arith)
  | inr other ↦ rw other (omega (arith, sum_values-put k v m))
]

-- Membership in a list of numbers.
abbrev pub contains : ℕ → List ℕ → Bool
contains x [] = false
contains x (y ∷ ys) = x == y || contains x ys

pub contains-append :
    (x y : ℕ) (xs : List ℕ) → contains x (xs ++ y ∷ []) ≡ (contains x xs || x == y)
contains-append x y [] = ground arith
contains-append x y (z ∷ xs) = ground (arith, contains-append x y xs)
