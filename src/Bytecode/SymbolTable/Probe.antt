-- ===== src/Bytecode/SymbolTable/Probe.antt =====
-- src/bytecode/symbol_table.h, `find_slot`: where a probe ends, before and after a change of its slot.
use Prim.Native.Nat.{bit_and}
use arc_jit.Bytecode.SymbolTable.{
  Bucket, empty_bucket, empty_hash, holds, probe, same_key, tombstone_hash,
}
use mathlib.Core.Option.{some-injective}
use arc_jit.Prelude.{
  ℕ, zero, suc, ◌+◌, ◌-◌, ◌<◌, ◌≡◌, ◌≢◌, refl, sym, ap, ◌∙◌, inl, inr, Bool, true, false, ◌||◌,
  ◌==◌, ==_iff, if◌then◌else◌, Bool-cases, none, some, List, [], ◌∷◌, arith, length, length-set,
  get_or, get_or-set_self, get_or-set_ne, set, bit_and_le,
}

-- No slot is a tombstone: nothing was removed.
abbrev pub NoTombs : List Bucket → Type 0
NoTombs bs = (j : ℕ) → (get_or bs j empty_bucket).hash ≢ tombstone_hash

-- Where a probe ends.
abbrev pub ends_at : Bucket → ℕ → List ℕ → Bool
ends_at b h key = b.hash == empty_hash || holds b h key

pub same_key_refl : (key : List ℕ) → same_key key key ≡ true
same_key_refl [] = refl
same_key_refl (a ∷ key) = rw (same_key_refl key) (ground arith)

module _ (h : ℕ) (key : List ℕ) (real : h ≢ empty_hash) (alive : h ≢ tombstone_hash) where
  -- Without tombstones, one round of the probe.
  pub probe_round :
      (f : ℕ) (bs : List Bucket) (i : ℕ)
      → (get_or bs i empty_bucket).hash ≢ tombstone_hash
      → probe (suc f) bs h key i none ≡ (
          if ends_at (get_or bs i empty_bucket) h key
          then some i
          else probe f bs h key (bit_and (i + 1) (length bs - 1)) none)
  unfolding probe
  probe_round f bs i alive_slot = ground arith

  true-ne-false : true ≢ false
  true-ne-false e = absurd (cc e)

  pub probe-ends_at :
      (f : ℕ) (bs : List Bucket) (i r : ℕ)
      → NoTombs bs
      → probe f bs h key i none ≡ some r
      → ends_at (get_or bs r empty_bucket) h key ≡ true
  probe-ends_at zero bs i r clean e = let out : none ≡ some r = unfold probe in e in absurd (cc out)
  probe-ends_at (suc f) bs i r clean e =
      elim (Bool-cases (ends_at (get_or bs i empty_bucket) h key)) [
        | inl ends ↦
            let hit : i ≡ r =
              some-injective _ _ (sym (probe_round f bs i (clean i) ∙ rw ends refl) ∙ e) in
            ap (λ j. ends_at (get_or bs j empty_bucket) h key) (sym hit) ∙ ends
        | inr on ↦
            probe-ends_at f bs (bit_and (i + 1) (length bs - 1)) r clean
              (sym (probe_round f bs i (clean i) ∙ rw on refl) ∙ e)
      ]

  -- A write that still ends the probe leaves the slot found.
  pub probe-set :
      (f : ℕ) (bs : List Bucket) (i r : ℕ) (b : Bucket)
      → NoTombs bs
      → r < length bs
      → ends_at b h key ≡ true
      → b.hash ≢ tombstone_hash
      → probe f bs h key i none ≡ some r
      → probe f (set bs r b) h key i none ≡ some r
  probe-set zero bs i r b clean inside ends_here live e =
      let out : none ≡ some r = unfold probe in e in absurd (cc out)
  probe-set (suc f) bs i r b clean inside ends_here live e =
      elim (Bool-cases (ends_at (get_or bs i empty_bucket) h key)) [
        | inl ends ↦
            let hit : i ≡ r =
              some-injective _ _ (sym (probe_round f bs i (clean i) ∙ rw ends refl) ∙ e) in
            let self = get_or-set_self bs r b empty_bucket inside in
            rw hit (probe_round f (set bs r b) r (rw self live) ∙ rw (self, ends_here) refl)
        | inr on ↦
            let after = bit_and (i + 1) (length bs - 1) in
            let past : probe f bs h key after none ≡ some r =
              sym (probe_round f bs i (clean i) ∙ rw on refl) ∙ e in
            let ends : ends_at (get_or bs r empty_bucket) h key ≡ true =
              probe-ends_at f bs after r clean past in
            let apart : r ≢ i = λ q.
              true-ne-false
                (sym ends ∙ ap (λ j. ends_at (get_or bs j empty_bucket) h key) q ∙ on) in
            let other = get_or-set_ne bs r i b empty_bucket apart in
            probe_round f (set bs r b) i (rw other (clean i))
            ∙ rw (other, on, length-set bs r b)
                (probe-set f bs (bit_and (i + 1) (length bs - 1)) r b clean inside ends_here live
                  past)
      ]

  -- A write to another slot, which ends the probe only where its old bucket did, changes nothing.
  pub probe-set_other :
      (f : ℕ) (bs : List Bucket) (i q r : ℕ) (b : Bucket)
      → NoTombs bs
      → r < length bs
      → r ≢ q
      → b.hash ≢ tombstone_hash
      → (ends_at (get_or bs r empty_bucket) h key ≡ false → ends_at b h key ≡ false)
      → probe f bs h key i none ≡ some q
      → probe f (set bs r b) h key i none ≡ some q
  probe-set_other zero bs i q r b clean inside apart live ends e =
      let out : none ≡ some q = unfold probe in e in absurd (cc out)
  probe-set_other (suc f) bs i q r b clean inside apart live ends e =
      let after = bit_and (i + 1) (length bs - 1) in
      let slot = get_or (set bs r b) i empty_bucket in
      let live_slot : slot.hash ≢ tombstone_hash = elim (Bool-cases (r == i)) [
        | inl here ↦ rw (← (==_iff r i).0 here, get_or-set_self bs r b empty_bucket inside) live
        | inr away ↦ rw (get_or-set_ne bs r i b empty_bucket (λ p. ground arith)) (clean i)
      ] in
      elim (Bool-cases (ends_at (get_or bs i empty_bucket) h key)) [
        | inl hit ↦
            let found : i ≡ q =
              some-injective _ _ (sym (probe_round f bs i (clean i) ∙ rw hit refl) ∙ e) in
            let other = get_or-set_ne bs r i b empty_bucket (λ p. apart (p ∙ found)) in
            probe_round f (set bs r b) i live_slot ∙ rw (other, hit) (ap some found)
        | inr on ↦
            let past : probe f bs h key after none ≡ some q =
              sym (probe_round f bs i (clean i) ∙ rw on refl) ∙ e in
            let still_on : ends_at slot h key ≡ false = elim (Bool-cases (r == i)) [
              | inl here ↦
                  let same : r ≡ i = (==_iff r i).0 here in
                  rw (← same, get_or-set_self bs r b empty_bucket inside)
                    (ends (ap (λ j. ends_at (get_or bs j empty_bucket) h key) same ∙ on))
              | inr away ↦ rw (get_or-set_ne bs r i b empty_bucket (λ p. ground arith)) on
            ] in
            probe_round f (set bs r b) i live_slot
            ∙ rw (still_on, length-set bs r b)
                (probe-set_other f bs after q r b clean inside apart live ends past)
      ]

  -- The slot found lies in the table.
  pub probe_inside :
      (f : ℕ) (bs : List Bucket) (i r : ℕ)
      → NoTombs bs
      → i < length bs
      → probe f bs h key i none ≡ some r
      → r < length bs
  probe_inside zero bs i r clean inside e =
      let out : none ≡ some r = unfold probe in e in absurd (cc out)
  probe_inside (suc f) bs i r clean inside e =
      elim (Bool-cases (ends_at (get_or bs i empty_bucket) h key)) [
        | inl ends ↦
            let hit : i ≡ r =
              some-injective _ _ (sym (probe_round f bs i (clean i) ∙ rw ends refl) ∙ e) in
            omega (arith, hit)
        | inr on ↦
            probe_inside f bs (bit_and (i + 1) (length bs - 1)) r clean
              (omega (arith, bit_and_le (i + 1) (length bs - 1)))
              (sym (probe_round f bs i (clean i) ∙ rw on refl) ∙ e)
      ]

  -- A probe past a tombstone that meets the key nowhere returns to the tombstone.
  probe_past :
      (f : ℕ) (bs : List Bucket) (i t : ℕ)
      → ((j : ℕ) → holds (get_or bs j empty_bucket) h key ≡ false)
      → probe f bs h key i (some t) ≡ some t
  unfolding probe
  probe_past zero bs i t nowhere = refl
  probe_past (suc f) bs i t nowhere =
      let rest = probe_past f bs (bit_and (i + 1) (length bs - 1)) t nowhere in
      rw (nowhere i, rest) (ground arith)

  probe_tomb :
      (f : ℕ) (bs : List Bucket) (i : ℕ)
      → (get_or bs i empty_bucket).hash ≡ tombstone_hash
      → probe (suc f) bs h key i none ≡ probe f bs h key (bit_and (i + 1) (length bs - 1)) (some i)
  unfolding probe
  probe_tomb f bs i tomb = rw tomb refl

  not_held : (b : Bucket) → b.hash ≡ tombstone_hash → holds b h key ≡ false
  not_held b tomb = ground arith

  -- Where only slot `r` held the key, no slot holds it after its burial.
  buried :
      (bs : List Bucket) (r : ℕ) (b : Bucket)
      → r < length bs
      → b.hash ≡ tombstone_hash
      → ((j : ℕ) → r ≢ j → holds (get_or bs j empty_bucket) h key ≡ false)
      → (j : ℕ) → holds (get_or (set bs r b) j empty_bucket) h key ≡ false
  buried bs r b inside tomb only j = elim (Bool-cases (r == j)) [
    | inl here ↦
        let q : r ≡ j = (==_iff r j).0 here in
        rw (← q, get_or-set_self bs r b empty_bucket inside) (not_held b tomb)
    | inr away ↦
        let apart : r ≢ j = λ q. ground arith in
        rw (get_or-set_ne bs r j b empty_bucket apart) (only j apart)
  ]

  pub probe-bury :
      (f : ℕ) (bs : List Bucket) (i r : ℕ) (b : Bucket)
      → NoTombs bs
      → r < length bs
      → b.hash ≡ tombstone_hash
      → ((j : ℕ) → r ≢ j → holds (get_or bs j empty_bucket) h key ≡ false)
      → probe f bs h key i none ≡ some r
      → probe f (set bs r b) h key i none ≡ some r
  probe-bury zero bs i r b clean inside tomb only e =
      let out : none ≡ some r = unfold probe in e in absurd (cc out)
  probe-bury (suc f) bs i r b clean inside tomb only e =
      let after = bit_and (i + 1) (length bs - 1) in
      let self = get_or-set_self bs r b empty_bucket inside in
      elim (Bool-cases (r == i)) [
        | inl here ↦
            let q : r ≡ i = (==_iff r i).0 here in
            rw (← q) (
              probe_tomb f (set bs r b) r (rw self tomb)
              ∙ probe_past f (set bs r b) _ r (buried bs r b inside tomb only))
        | inr away ↦
            let apart : r ≢ i = λ q. ground arith in
            let other = get_or-set_ne bs r i b empty_bucket apart in
            let round = probe_round f (set bs r b) i (rw other (clean i)) in
            elim (Bool-cases (ends_at (get_or bs i empty_bucket) h key)) [
              | inl ends ↦
                  let hit : i ≡ r =
                    some-injective _ _ (sym (probe_round f bs i (clean i) ∙ rw ends refl) ∙ e) in
                  absurd (apart (sym hit))
              | inr on ↦
                  let past : probe f bs h key after none ≡ some r =
                    sym (probe_round f bs i (clean i) ∙ rw on refl) ∙ e in
                  round
                  ∙ rw (other, on, length-set bs r b)
                      (probe-bury f bs after r b clean inside tomb only past)
            ]
      ]
