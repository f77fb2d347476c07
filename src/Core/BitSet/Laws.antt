-- ===== src/Core/BitSet/Laws.antt =====
-- src/core/bitmask.h, `NodeBitSet`: the operations are those of sets of numbers.
use arc_jit.Core.BitSet.{
  NodeBitSet, Word, clear, clear_all, grow, insert, intersection, new_bit_set, test, union, word_at,
  zero_word,
}
use arc_jit.Prelude.{
  ℕ, zero, suc, ◌+◌, ◌-◌, ◌/◌, ◌%◌, ◌<◌, ◌≡◌, ◌≢◌, refl, ap, ◌∙◌, inl, inr, false, ◌&&◌, ◌||◌, ◌==◌,
  ltb, leb, if◌then◌else◌, Bool-cases, [], ◌∷◌, length, length-append, length-replicate,
  get_or-out_of_range, get_or-padded, get_or-set_self, get_or-set_ne, map, replicate, set, arith,
}

-- The test in range and out of range reads the bit of the word.
test_lem : (s : NodeBitSet) (i : ℕ) → test s i ≡ word_at s (i / 64) (i % 64)
unfolding test
test_lem s i = elim (Bool-cases (ltb (i / 64) (length s))) [
  | inl inside ↦ rw inside refl
  | inr outside ↦ rw (outside, get_or-out_of_range s (i / 64) zero_word (ground arith)) refl
]

-- A number is its word and its bit.
same_place : (i j : ℕ) → i / 64 ≡ j / 64 → i % 64 ≡ j % 64 → i ≡ j
same_place i j h k = omega arith

same_bit : (i j : ℕ) → j / 64 ≡ i / 64 → (j % 64 == i % 64) ≡ (j == i)
same_bit i j h = elim (Bool-cases (j == i)) [
  | inl same ↦ let e : j ≡ i = ground arith in rw e (ground arith)
  | inr other ↦
      let differ : j ≢ i = λ p. ground arith in rw other (ground (arith, same_place i j, differ))
]

other_bit : (i j : ℕ) → (j / 64 == i / 64) ≡ false → (j == i) ≡ false
other_bit i j h = elim (Bool-cases (j == i)) [
  | inr other ↦ other
  | inl same ↦ let e : j ≡ i = ground arith in absurd (ground (arith, ap (λ (x : ℕ). x / 64) e))
]

word_at-set :
    (s : NodeBitSet) (n m : ℕ) (w : Word)
    → n < length s
    → word_at (set s n w) m ≡ (if m == n then w else word_at s m)
word_at-set s n m w h = elim (Bool-cases (m == n)) [
  | inl same ↦
      let e : m ≡ n = ground arith in
      rw same (ap (word_at (set s n w)) e ∙ get_or-set_self s n w zero_word h)
  | inr other ↦ rw other (get_or-set_ne s n m w zero_word (λ p. ground arith))
]

word_at-union :
    (s t : NodeBitSet) (n j : ℕ) → word_at (union s t) n j ≡ (word_at s n j || word_at t n j)
unfolding union
word_at-union [] [] n j = refl
word_at-union (w ∷ ws) [] n j = ground arith
word_at-union [] (v ∷ vs) zero j = refl
word_at-union [] (v ∷ vs) (suc n) j = word_at-union [] vs n j
word_at-union (w ∷ ws) (v ∷ vs) zero j = refl
word_at-union (w ∷ ws) (v ∷ vs) (suc n) j = word_at-union ws vs n j

word_at-intersection :
    (s t : NodeBitSet) (n j : ℕ) → word_at (intersection s t) n j ≡ (word_at s n j && word_at t n j)
unfolding intersection
word_at-intersection [] t n j = refl
word_at-intersection (w ∷ ws) [] zero j = ground arith
word_at-intersection (w ∷ ws) [] (suc n) j = word_at-intersection ws [] n j
word_at-intersection (w ∷ ws) (v ∷ vs) zero j = refl
word_at-intersection (w ∷ ws) (v ∷ vs) (suc n) j = word_at-intersection ws vs n j

-- The vector that an insertion writes to reaches the word and reads as before.
grown_lem :
    (s : NodeBitSet) (n m : ℕ)
    → (n < length (if leb (length s) n then grow (n + 1) s else s))
      × (word_at (if leb (length s) n then grow (n + 1) s else s) m ≡ word_at s m)
grown_lem s n m = elim (Bool-cases (leb (length s) n)) [
  | inr inside ↦ rw inside (ground arith, refl)
  | inl outside ↦ rw outside (
    ground (
      arith,
      length-append s (replicate (n + 1 - length s) zero_word),
      length-replicate (n + 1 - length s) zero_word,
    ),
    get_or-padded s (n + 1 - length s) m zero_word,
  )
]

test-insert : (i j : ℕ) (s : NodeBitSet) → test (insert i s) j ≡ (test s j || j == i)
unfolding insert
test-insert i j s =
    let n = i / 64 in
    let m = j / 64 in
    let g = if leb (length s) n then grow (n + 1) s else s in
    let w : Word = λ b. word_at g n b || b == i % 64 in
    test_lem (insert i s) j
    ∙ ap (λ (x : Word). x (j % 64)) (word_at-set g n m w (grown_lem s n n).0)
    ∙ elim (Bool-cases (m == n)) [
      | inl same ↦
          let e : m ≡ n = ground arith in
          rw (same, test_lem s j, e, (grown_lem s n n).1, same_bit i j e) refl
      | inr other ↦
          rw (other, test_lem s j, (grown_lem s n m).1, other_bit i j other) (ground arith)
    ]

test-clear : (i j : ℕ) (s : NodeBitSet) → test (clear i s) j ≡ (if j == i then false else test s j)
unfolding clear
test-clear i j s =
    let n = i / 64 in
    let m = j / 64 in
    let w : Word = λ b. if b == i % 64 then false else word_at s n b in
    elim (Bool-cases (ltb n (length s))) [
      | inr outside ↦
          let zero_here = get_or-out_of_range s n zero_word (ground arith) in
          rw (outside, test_lem s j)
            (elim (Bool-cases (j == i)) [
              | inl same ↦
                  let e : j ≡ i = ground arith in
                  rw (same, e) (ap (λ (x : Word). x (i % 64)) zero_here)
              | inr other ↦ rw other refl
            ])
      | inl inside ↦ rw inside (
          test_lem (set s n w) j
          ∙ ap (λ (x : Word). x (j % 64)) (word_at-set s n m w (ground arith))
          ∙ elim (Bool-cases (m == n)) [
            | inl same ↦
                let e : m ≡ n = ground arith in rw (same, test_lem s j, e, same_bit i j e) refl
            | inr other ↦ rw (other, test_lem s j, other_bit i j other) refl
          ])
    ]

test-union : (i : ℕ) (s t : NodeBitSet) → test (union s t) i ≡ (test s i || test t i)
test-union i s t =
    test_lem (union s t) i
    ∙ word_at-union s t (i / 64) (i % 64)
    ∙ rw (test_lem s i, test_lem t i) refl

test-intersection : (i : ℕ) (s t : NodeBitSet) → test (intersection s t) i ≡ (test s i && test t i)
test-intersection i s t =
    test_lem (intersection s t) i
    ∙ word_at-intersection s t (i / 64) (i % 64)
    ∙ rw (test_lem s i, test_lem t i) refl

word_at-zeros : (s : NodeBitSet) (n : ℕ) → word_at (map (λ w. zero_word) s) n ≡ zero_word
word_at-zeros [] n = refl
word_at-zeros (w ∷ ws) zero = refl
word_at-zeros (w ∷ ws) (suc n) = word_at-zeros ws n

test-clear_all : (i : ℕ) (s : NodeBitSet) → test (clear_all s) i ≡ false
unfolding clear_all
test-clear_all i s =
    test_lem (map (λ w. zero_word) s) i ∙ ap (λ (x : Word). x (i % 64)) (word_at-zeros s (i / 64))

test-new : (i n : ℕ) → test (new_bit_set n) i ≡ false
unfolding new_bit_set
test-new i n =
    test_lem (replicate ((n + 63) / 64) zero_word) i
    ∙ ap (λ (x : Word). x (i % 64)) (get_or-padded [] ((n + 63) / 64) (i / 64) zero_word)

-- The bit set behaves as the set of the numbers that it tests true for: a new and a cleared one are
-- empty, insertion adds and clearing removes exactly one number, also past the end of the vector, and
-- the two combinations are union and intersection, also for vectors of different lengths.
pub bit_set_lem :
    (i j n : ℕ) (s t : NodeBitSet)
    → (test (new_bit_set n) j ≡ false)
      × (test (clear_all s) j ≡ false)
      × (test (insert i s) j ≡ (test s j || j == i))
      × (test (clear i s) j ≡ (if j == i then false else test s j))
      × (test (union s t) j ≡ (test s j || test t j))
      × (test (intersection s t) j ≡ (test s j && test t j))
bit_set_lem i j n s t = (
  test-new j n,
  test-clear_all j s,
  test-insert i j s,
  test-clear i j s,
  test-union j s t,
  test-intersection j s t,
)
