-- ===== src/Bytecode/SymbolTable/Room.antt =====
-- src/bytecode/symbol_table.h: a probe of a table with an empty slot ends, and a growth leaves one.
use Prim.Native.Nat.{bit_and}
use arc_jit.Bytecode.SymbolTable.{Bucket, empty_bucket, empty_hash, probe, tombstone_hash}
use arc_jit.Bytecode.SymbolTable.Probe.{NoTombs, ends_at, probe_round}
use arc_jit.Prelude.{
  ℕ, zero, suc, ◌+◌, ◌-◌, ◌^◌, ◌/◌, ◌%◌, ◌≤◌, ◌<◌, ◌≡◌, ◌≢◌, ◌⊎◌, refl, sym, ap, ◌∙◌, inl, inr,
  true, Bool-cases, none, some, List, arith, length, get_or, bit_and_halves, ltb,
}

pow_positive : (k : ℕ) → 1 ≤ 2 ^ k
pow_positive zero = omega arith
pow_positive (suc k) = omega (arith, pow_positive k)

mask_below : (k x : ℕ) → x < 2 ^ k → bit_and x (2 ^ k - 1) ≡ x
mask_below zero x h = let none_left : x ≡ 0 = omega arith in rw none_left refl
mask_below (suc k) x h =
    let half : (2 ^ suc k - 1) / 2 ≡ 2 ^ k - 1 = omega (arith, pow_positive k) in
    let odd : (2 ^ suc k - 1) % 2 ≡ 1 = omega (arith, pow_positive k) in
    let below : bit_and (x / 2) (2 ^ k - 1) ≡ x / 2 = mask_below k (x / 2) (omega arith) in
    bit_and_halves x (2 ^ suc k - 1) ∙ rw (half, odd, below) (omega arith)

mask_self : (k : ℕ) → bit_and (2 ^ k) (2 ^ k - 1) ≡ 0
mask_self zero = refl
mask_self (suc k) =
    let half : (2 ^ suc k - 1) / 2 ≡ 2 ^ k - 1 = omega (arith, pow_positive k) in
    let all : (2 ^ suc k) / 2 ≡ 2 ^ k = omega (arith, pow_positive k) in
    let even : (2 ^ suc k) % 2 ≡ 0 = omega (arith, pow_positive k) in
    bit_and_halves (2 ^ suc k) (2 ^ suc k - 1) ∙ rw (half, all, even, mask_self k) (omega arith)

-- The slot that comes after `i` in a table of `2 ^ k` slots.
next_slot :
    (k i : ℕ)
    → i < 2 ^ k
    → ((i + 1 < 2 ^ k) × (bit_and (i + 1) (2 ^ k - 1) ≡ i + 1))
      ⊎ ((i + 1 ≡ 2 ^ k) × (bit_and (i + 1) (2 ^ k - 1) ≡ 0))
next_slot k i h = elim (Bool-cases (ltb (i + 1) (2 ^ k))) [
  | inl inside ↦ inl (ground arith, mask_below k (i + 1) (ground arith))
  | inr out ↦
      let last : i + 1 ≡ 2 ^ k = ground arith in
      inr (last, ap (λ x. bit_and x (2 ^ k - 1)) last ∙ mask_self k)
]

-- A probe of a table without tombstones in which the slot `j` is empty finds a slot.
module _ (h : ℕ) (key : List ℕ) (real : h ≢ empty_hash) (alive : h ≢ tombstone_hash)
    (bs : List Bucket) (k j : ℕ) (size : length bs ≡ 2 ^ k) (clean : NoTombs bs)
    (inside : j < 2 ^ k) (empty : (get_or bs j empty_bucket).hash ≡ empty_hash) where
  abbrev pub Finds : ℕ → ℕ → Type 0
  Finds f i = (r : ℕ) × (probe f bs h key i none ≡ some r)

  -- One round: the probe ends here, not at `j`, or goes on at the slot `next`.
  round-Finds :
      (f i next : ℕ) → bit_and (i + 1) (2 ^ k - 1) ≡ next → (i ≢ j → Finds f next) → Finds (suc f) i
  round-Finds f i next after go = elim (Bool-cases (ends_at (get_or bs i empty_bucket) h key)) [
    | inl ends ↦ (i, probe_round h key real alive f bs i (clean i) ∙ rw ends refl)
    | inr on ↦
        let apart : i ≢ j = λ p.
          let at_end : ends_at (get_or bs j empty_bucket) h key ≡ true = rw empty refl in
          absurd (cc (sym (ap (λ x. ends_at (get_or bs x empty_bucket) h key) p ∙ at_end) ∙ on)) in
        let (r, found) = go apart in
        (r, probe_round h key real alive f bs i (clean i) ∙ rw (on, size, after) found)
  ]

  ahead-Finds : (f i : ℕ) → i ≤ j → j < i + f → Finds f i
  ahead-Finds zero i lo hi = absurd (omega arith)
  ahead-Finds (suc f) i lo hi = elim (next_slot k i (omega arith)) [
    | inl (below, next) ↦
        round-Finds f i (i + 1) next (λ apart. ahead-Finds f (i + 1) (omega arith) (omega arith))
    | inr (last, next) ↦ round-Finds f i 0 next (λ apart. absurd (apart (omega arith)))
  ]

  around-Finds : (f i : ℕ) → i < 2 ^ k → 2 ^ k + j < i + f → Finds f i
  around-Finds zero i lo hi = absurd (omega arith)
  around-Finds (suc f) i lo hi = elim (next_slot k i lo) [
    | inl (below, next) ↦
        round-Finds f i (i + 1) next (λ apart. around-Finds f (i + 1) below (omega arith))
    | inr (last, next) ↦
        round-Finds f i 0 next (λ apart. ahead-Finds f 0 (omega arith) (omega arith))
  ]

  pub probe-Finds : (i : ℕ) → i < 2 ^ k → Finds (length bs) i
  probe-Finds i lo = elim (Bool-cases (ltb j i)) [
    | inr before ↦ ahead-Finds (length bs) i (ground arith) (omega arith)
    | inl past ↦ around-Finds (length bs) i lo (ground arith)
  ]
