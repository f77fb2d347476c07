-- ===== src/Bytecode/SymbolTable/Lookup.antt =====
-- src/bytecode/symbol_table.h: what a lookup finds after a write, and after a removal.
use Prim.Native.Nat.{bit_and}
use arc_jit.Bytecode.SymbolTable.{
  Bucket, SymbolTable, empty_bucket, empty_hash, find_slot, fnv1a64, get, grow_with, holds, probe,
  ready_table, remove, same_key, set_depth, set_key, tombstone_hash, value_at, write, write_found,
  written,
}
use arc_jit.Bytecode.SymbolTable.Growth.{IsHashed, IsPlainHash, IsSized, ready_table-find_slot}
use arc_jit.Interp.Value.{Value}
use arc_jit.Prelude.{
  ℕ, ◌-◌, ◌<◌, ◌≡◌, ◌≢◌, refl, sym, ap, ◌∙◌, inl, inr, true, false, ◌==◌, ==_iff, Bool-cases, none,
  some, ◌∷◌, get_or-set_ne, List, [], arith, length, length-set, get_or, get_or-set_self,
  bit_and_le,
}
use arc_jit.Bytecode.SymbolTable.Probe.{
  NoTombs, ends_at, probe-bury, probe-ends_at, probe-set, probe-set_other, probe_inside,
  same_key_refl,
}
use mathlib.Core.Path.{subst}

start_inside :
    (t : SymbolTable) (key : List ℕ) (r : ℕ)
    → NoTombs t.buckets
    → IsPlainHash key
    → find_slot t key ≡ some r
    → r < length t.buckets
unfolding find_slot probe
start_inside t key r clean (real, alive) e = elim (Bool-cases (length t.buckets == 0)) [
  | inl none_left ↦
      let size : length t.buckets ≡ 0 = (==_iff _ 0).0 none_left in
      let out : none ≡ some r =
        ap
          (λ n.
            probe n t.buckets (fnv1a64 key) key (bit_and (fnv1a64 key) (length t.buckets - 1)) none)
          (sym size)
        ∙ e in
      absurd (cc out)
  | inr some_left ↦
      probe_inside (fnv1a64 key) key real alive (length t.buckets) t.buckets _ r clean
        (ground (arith, bit_and_le (fnv1a64 key) (length t.buckets - 1))) e
]

written-value : (b : Bucket) (key : List ℕ) (v : Value) → (written b key v).value ≡ v
written-value b key v = elim (Bool-cases (b.hash == empty_hash)) [
  | inl e ↦ rw e refl
  | inr f ↦ rw f refl
]

-- What a write leaves ends the probe of its key, and is no tombstone.
written-ends_at :
    (b : Bucket) (key : List ℕ) (v : Value)
    → IsPlainHash key
    → b.hash ≢ tombstone_hash
    → ends_at b (fnv1a64 key) key ≡ true
    → (ends_at (written b key v) (fnv1a64 key) key ≡ true)
      × ((written b key v).hash ≢ tombstone_hash)
written-ends_at b key v (real, alive) live ends = elim (Bool-cases (b.hash == empty_hash)) [
  | inl e ↦ rw (e, same_key_refl key) (ground arith, alive)
  | inr f ↦ rw f (ends, live)
]

find_slot-write :
    (t : SymbolTable) (key : List ℕ) (v : Value) (r : ℕ)
    → NoTombs t.buckets
    → IsPlainHash key
    → find_slot t key ≡ some r
    → find_slot (write t r key v) key ≡ some r
unfolding write find_slot
find_slot-write t key v r clean (real, alive) e =
    let h = fnv1a64 key in
    let bs = t.buckets in
    let b = get_or bs r empty_bucket in
    let inside = start_inside t key r clean (real, alive) e in
    let ends = probe-ends_at h key real alive (length bs) bs _ r clean e in
    let (ends', live') = written-ends_at b key v (real, alive) (clean r) ends in
    rw (length-set bs r (written b key v))
      (probe-set h key real alive (length bs) bs _ r (written b key v) clean inside ends' live' e)

get-write :
    (t : SymbolTable) (key : List ℕ) (v : Value) (r : ℕ)
    → NoTombs t.buckets
    → IsPlainHash key
    → find_slot t key ≡ some r
    → get (write t r key v) key ≡ v
unfolding get
get-write t key v r clean plain e =
    let inside = start_inside t key r clean plain e in
    ap (value_at (write t r key v)) (find_slot-write t key v r clean plain e)
    ∙ unfold write in
      (ap (λ (b : Bucket). b.value)
          (get_or-set_self t.buckets r (written (get_or t.buckets r empty_bucket) key v)
            empty_bucket inside)
        ∙ written-value (get_or t.buckets r empty_bucket) key v)

-- The table that `set` writes to.
unfoldable pub target_table : SymbolTable → List ℕ → SymbolTable
unfolding set_depth
target_table t key = ready_table (grow_with (set_depth 0)) t (find_slot t key)

same_key-eq : (a b : List ℕ) → same_key a b ≡ true → a ≡ b
same_key-eq [] [] h = refl
same_key-eq [] (y ∷ ys) h = absurd (cc h)
same_key-eq (x ∷ xs) [] h = absurd (cc h)
same_key-eq (x ∷ xs) (y ∷ ys) h =
    rw ((==_iff x y).0 (ground arith), same_key-eq xs ys (ground arith)) refl

-- What a write leaves holds its key.
written-holds :
    (b : Bucket) (key : List ℕ) (v : Value)
    → ends_at b (fnv1a64 key) key ≡ true
    → holds (written b key v) (fnv1a64 key) key ≡ true
written-holds b key v ends = elim (Bool-cases (b.hash == empty_hash)) [
  | inl e ↦ rw (e, same_key_refl key) (ground arith)
  | inr f ↦ rw f (ground arith)
]

-- A bucket that holds a key is no end for the probe of another.
holds-other :
    (b : Bucket) (key k : List ℕ)
    → IsPlainHash k
    → k ≢ key
    → ends_at b (fnv1a64 key) key ≡ true
    → holds b (fnv1a64 k) k ≡ false
holds-other b key k (real, alive) differs ends = elim (Bool-cases (holds b (fnv1a64 k) k)) [
  | inr no_key ↦ no_key
  | inl found ↦
      let hash : b.hash ≡ fnv1a64 k = (==_iff b.hash (fnv1a64 k)).0 (ground arith) in
      let own : b.key ≡ k = same_key-eq b.key k (ground arith) in
      let old : (b.hash == empty_hash) ≡ false = rw hash (ground arith) in
      let its : b.key ≡ key = same_key-eq b.key key (ground arith) in
      absurd (differs (sym own ∙ its))
]

written-other :
    (b : Bucket) (key k : List ℕ) (v : Value)
    → ends_at b (fnv1a64 k) k ≡ false
    → ends_at (written b key v) (fnv1a64 k) k ≡ false
written-other b key k v on = let old : (b.hash == empty_hash) ≡ false = ground arith in rw old on

entry-write :
    (t : SymbolTable) (key : List ℕ) (v : Value) (r : ℕ)
    → NoTombs t.buckets
    → IsPlainHash key
    → find_slot t key ≡ some r
    → holds (get_or (write t r key v).buckets r empty_bucket) (fnv1a64 key) key ≡ true
unfolding write find_slot
entry-write t key v r clean (real, alive) e =
    let bs = t.buckets in
    let b = get_or bs r empty_bucket in
    let inside = start_inside t key r clean (real, alive) e in
    let ends = probe-ends_at (fnv1a64 key) key real alive (length bs) bs _ r clean e in
    ap (λ x. holds x (fnv1a64 key) key) (get_or-set_self bs r (written b key v) empty_bucket inside)
    ∙ written-holds b key v ends

-- What `set` makes of the table that takes the entry, in the slot `r`.
pub record HoldsEntry (t u : SymbolTable) (key : List ℕ) (v : Value) (r : ℕ) : Type 0 where
  pub value : get u key ≡ v
  pub entry : holds (get_or u.buckets r empty_bucket) (fnv1a64 key) key ≡ true
  pub others :
      (k : List ℕ) (q : ℕ)
      → IsPlainHash k
      → k ≢ key
      → find_slot t k ≡ some q
      → holds (get_or t.buckets q empty_bucket) (fnv1a64 k) k ≡ true
      → (find_slot u k ≡ some q) × (get u k ≡ get t k)

get-write_other :
    (t : SymbolTable) (key k : List ℕ) (v : Value) (r q : ℕ)
    → NoTombs t.buckets
    → IsPlainHash key
    → find_slot t key ≡ some r
    → IsPlainHash k
    → k ≢ key
    → find_slot t k ≡ some q
    → holds (get_or t.buckets q empty_bucket) (fnv1a64 k) k ≡ true
    → (find_slot (write t r key v) k ≡ some q) × (get (write t r key v) k ≡ get t k)
unfolding write find_slot get
get-write_other t key k v r q clean (real, alive) e (real_k, alive_k) differs ek held =
    let bs = t.buckets in
    let b = get_or bs r empty_bucket in
    let w = written b key v in
    let inside = start_inside t key r clean (real, alive) e in
    let ends = probe-ends_at (fnv1a64 key) key real alive (length bs) bs _ r clean e in
    let apart : r ≢ q = λ p.
      let free = holds-other b key k (real_k, alive_k) differs ends in
      let kept : holds b (fnv1a64 k) k ≡ true =
        ap (λ j. holds (get_or bs j empty_bucket) (fnv1a64 k) k) p ∙ held in
      absurd (cc (sym kept ∙ free)) in
    let live = (written-ends_at b key v (real, alive) (clean r) ends).1 in
    let still =
      probe-set_other (fnv1a64 k) k real_k alive_k (length bs) bs _ q r w clean inside apart live
        (written-other b key k v) ek in
    rw (length-set bs r w, still, ek)
      (refl, ap (λ (x : Bucket). x.value) (get_or-set_ne bs r q w empty_bucket apart))

-- Where the table that takes the entry has a slot for the key.
set_key-at :
    (t : SymbolTable) (key : List ℕ) (v : Value) (r : ℕ)
    → NoTombs (target_table t key).buckets
    → IsPlainHash key
    → find_slot (target_table t key) key ≡ some r
    → HoldsEntry (target_table t key) (set_key t key v) key v r
unfolding set_depth target_table
set_key-at t key v r clean plain e =
    let u = target_table t key in
    let wrote : set_key t key v ≡ write u r key v = ap (λ o. write_found o u key v) e in
    subst (λ x. HoldsEntry u x key v r) (sym wrote)
      (record {
        value = get-write u key v r clean plain e;
        entry = entry-write u key v r clean plain e;
        others = λ k q plain_k differs ek held.
            get-write_other u key k v r q clean plain e plain_k differs ek held;
      })

-- After a value is set under a key, growth included, a lookup of the key finds the value, the slot of
-- the key holds the key with its hash, and every other key that the table that takes the entry held
-- (the table itself, or the grown one if no slot was found) keeps its slot and its value; where the
-- table has no tombstone, no slots or a power of two of them, and the hash of its key in each bucket
-- that is not empty, and the keys hash to neither 0 nor 1.
pub set_key-HoldsEntry :
    (t : SymbolTable) (key : List ℕ) (v : Value)
    → IsSized t.buckets
    → IsHashed t.buckets
    → NoTombs t.buckets
    → IsPlainHash key
    → (r : ℕ) × HoldsEntry (target_table t key) (set_key t key v) key v r
unfolding target_table
set_key-HoldsEntry t key v sized hashed clean plain =
    let (clean', (r, e)) =
      ready_table-find_slot t key (find_slot t key) refl plain sized hashed clean in
    (r, set_key-at t key v r clean' plain e)

-- A removal does not take the value away: in a table without tombstones in which one slot holds the
-- key, a lookup of the key finds after its removal the value that it found before.
pub get-remove :
    (t : SymbolTable) (key : List ℕ) (r : ℕ)
    → NoTombs t.buckets
    → IsPlainHash key
    → find_slot t key ≡ some r
    → ((j : ℕ) → r ≢ j → holds (get_or t.buckets j empty_bucket) (fnv1a64 key) key ≡ false)
    → get (remove t key) key ≡ get t key
unfolding get find_slot remove
get-remove t key r clean (real, alive) e only =
    let h = fnv1a64 key in
    let bs = t.buckets in
    let tomb : Bucket = record (get_or bs r empty_bucket) { hash = tombstone_hash; key = [] } in
    let inside = start_inside t key r clean (real, alive) e in
    let found = probe-bury h key real alive (length bs) bs _ r tomb clean inside refl only e in
    rw (e, length-set bs r tomb, found)
      (ap (λ (b : Bucket). b.value) (get_or-set_self bs r tomb empty_bucket inside))
