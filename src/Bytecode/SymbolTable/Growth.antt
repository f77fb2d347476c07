-- ===== src/Bytecode/SymbolTable/Growth.antt =====
-- src/bytecode/symbol_table.h, `set` and `grow`: the table that takes an entry has a slot for it.
use Prim.Native.Nat.{bit_and}
use arc_jit.Bytecode.SymbolTable.{
  Bucket, SymbolTable, empty_bucket, empty_hash, find_slot, fnv1a64, grow_with, new_capacity,
  set_all, set_depth, tombstone_hash, write, write_found, written, ready_table,
}
use arc_jit.Bytecode.SymbolTable.Probe.{NoTombs}
use arc_jit.Bytecode.SymbolTable.Room.{probe-Finds}
use arc_jit.Interp.Value.{Value}
use arc_jit.Prelude.{
  ℕ, zero, suc, ◌+◌, ◌-◌, ◌^◌, ◌≤◌, ◌<◌, ◌≡◌, ◌≢◌, ◌⊎◌, refl, ◌∙◌, inl, inr, false, ◌||◌, ◌==◌,
  ==_iff, if◌then◌else◌, Bool-cases, Option, none, some, List, [], ◌∷◌, arith, length, length-set,
  length-replicate, get_or, get_or-set_either, set, replicate, bit_and_le,
}

abbrev pub IsPlainHash : List ℕ → Type 0
IsPlainHash key = (fnv1a64 key ≢ empty_hash) × (fnv1a64 key ≢ tombstone_hash)

-- How many slots are in use.
abbrev used : List Bucket → ℕ
used [] = 0
used (b ∷ bs) = if b.hash == empty_hash then used bs else suc (used bs)

used-set : (bs : List Bucket) (i : ℕ) (b : Bucket) → used (set bs i b) ≤ used bs + 1
used-set [] i b = omega arith
used-set (x ∷ bs) zero b = ground arith
used-set (x ∷ bs) (suc i) b = ground (arith, used-set bs i b)

-- A table that is not used up has an empty slot.
empty_slot :
    (bs : List Bucket)
    → used bs < length bs
    → (j : ℕ) × (j < length bs) × ((get_or bs j empty_bucket).hash ≡ empty_hash)
empty_slot [] h = absurd (omega arith)
empty_slot (b ∷ bs) h = elim (Bool-cases (b.hash == empty_hash)) [
  | inl free ↦ (0, omega arith, (==_iff b.hash empty_hash).0 free)
  | inr taken ↦
      let less : suc (used bs) < suc (length bs) = rw taken at h in
      let (j, inside, free) = empty_slot bs (omega arith) in (suc j, omega arith, free)
]

-- A table of `2 ^ k` slots without tombstones, of which at most `n` are in use.
record IsRoomy (k n : ℕ) (t : SymbolTable) : Type 0 where
  size : length t.buckets ≡ 2 ^ k
  clean : NoTombs t.buckets
  few : used t.buckets ≤ n

written-hash :
    (b : Bucket) (key : List ℕ) (v : Value)
    → fnv1a64 key ≢ tombstone_hash
    → b.hash ≢ tombstone_hash
    → (written b key v).hash ≢ tombstone_hash
written-hash b key v alive live = elim (Bool-cases (b.hash == empty_hash)) [
  | inl e ↦ rw e alive
  | inr f ↦ rw f live
]

write_found-IsRoomy :
    (k n : ℕ) (o : Option ℕ) (t : SymbolTable) (key : List ℕ) (v : Value)
    → fnv1a64 key ≢ tombstone_hash
    → IsRoomy k n t
    → IsRoomy k (n + 1) (write_found o t key v)
unfolding write
write_found-IsRoomy k n none t key v alive q = record {
  size = q.size;
  clean = q.clean;
  few = omega (arith, q.few);
}
write_found-IsRoomy k n (some i) t key v alive q =
    let b = written (get_or t.buckets i empty_bucket) key v in
    record {
      size = length-set t.buckets i b ∙ q.size;
      clean = λ j. elim (get_or-set_either t.buckets i j b empty_bucket) [
        | inl same ↦ rw same (q.clean j)
        | inr (here, new) ↦
            rw new (written-hash (get_or t.buckets i empty_bucket) key v alive (q.clean i))
      ];
      few = omega (arith, q.few, used-set t.buckets i b);
    }

-- Every bucket holds the hash of its key, or none.
abbrev pub IsHashed : List Bucket → Type 0
IsHashed [] = Unit
IsHashed (b ∷ bs) =
    ((b.hash ≡ empty_hash) ⊎ (b.hash ≡ tombstone_hash) ⊎ (b.hash ≡ fnv1a64 b.key)) × IsHashed bs

live_hash :
    (b : Bucket)
    → (b.hash ≡ empty_hash) ⊎ (b.hash ≡ tombstone_hash) ⊎ (b.hash ≡ fnv1a64 b.key)
    → (b.hash == empty_hash || b.hash == tombstone_hash) ≡ false
    → fnv1a64 b.key ≢ tombstone_hash
live_hash b hashed live e = grind arith

set_all-IsRoomy :
    (k n : ℕ) (bs : List Bucket) (t : SymbolTable)
    → IsHashed bs
    → IsRoomy k n t
    → IsRoomy k (n + length bs) (set_all (set_depth 0) bs t)
unfolding set_depth
set_all-IsRoomy k n [] t hashed q = record {
  size = q.size;
  clean = q.clean;
  few = omega (arith, q.few);
}
set_all-IsRoomy k n (b ∷ bs) t (own, hashed) q =
    elim (Bool-cases (b.hash == empty_hash || b.hash == tombstone_hash)) [
      | inl gone ↦
          let r = set_all-IsRoomy k n bs t hashed q in
          rw gone (record { size = r.size; clean = r.clean; few = omega (arith, r.few) })
      | inr live ↦
          let one =
            write_found-IsRoomy k n (find_slot t b.key) t b.key b.value (live_hash b own live) q in
          let r = set_all-IsRoomy k (n + 1) bs (set_depth 0 t b.key b.value) hashed one in
          rw live (record { size = r.size; clean = r.clean; few = omega (arith, r.few) })
    ]

used-replicate : (n : ℕ) → used (replicate n empty_bucket) ≡ 0
used-replicate zero = refl
used-replicate (suc n) = used-replicate n

replicate-NoTombs : (n : ℕ) → NoTombs (replicate n empty_bucket)
replicate-NoTombs zero j e = absurd (omega (arith, e))
replicate-NoTombs (suc n) zero e = absurd (omega (arith, e))
replicate-NoTombs (suc n) (suc j) e = replicate-NoTombs n j e

-- The slots of a table: none, or a power of two.
abbrev pub IsSized : List Bucket → Type 0
IsSized bs = (length bs ≡ 0) ⊎ ((k : ℕ) × (length bs ≡ 2 ^ k))

new_capacity-pow2 :
    (bs : List Bucket)
    → IsSized bs
    → (k : ℕ) × (new_capacity bs ≡ 2 ^ k) × (length bs < new_capacity bs)
new_capacity-pow2 [] sized = (4, refl, omega arith)
new_capacity-pow2 (b ∷ bs) (inl none_left) = absurd (omega arith)
new_capacity-pow2 (b ∷ bs) (inr (k, size)) = (suc k, omega arith, omega arith)

-- A roomy table has a slot for every key.
find_slot-room :
    (k n : ℕ) (t : SymbolTable) (key : List ℕ)
    → IsPlainHash key
    → IsRoomy k n t
    → n < 2 ^ k
    → (r : ℕ) × (find_slot t key ≡ some r)
unfolding find_slot
find_slot-room k n t key (real, alive) q room =
    let (j, inside, free) = empty_slot t.buckets (omega (arith, q.size, q.few)) in
    probe-Finds (fnv1a64 key) key real alive t.buckets k j q.size q.clean (omega (arith, q.size))
      free (bit_and (fnv1a64 key) (length t.buckets - 1))
      (omega (arith, q.size, bit_and_le (fnv1a64 key) (length t.buckets - 1)))

grow-find_slot :
    (t : SymbolTable) (key : List ℕ)
    → IsPlainHash key
    → IsSized t.buckets
    → IsHashed t.buckets
    → NoTombs (grow_with (set_depth 0) t).buckets
      × ((r : ℕ) × (find_slot (grow_with (set_depth 0) t) key ≡ some r))
grow-find_slot t key plain sized hashed =
    let (k, size, room) = new_capacity-pow2 t.buckets sized in
    let fresh : IsRoomy k 0
        (record { buckets = replicate (new_capacity t.buckets) empty_bucket; count = 0 }) =
      record {
        size = length-replicate (new_capacity t.buckets) empty_bucket ∙ size;
        clean = replicate-NoTombs (new_capacity t.buckets);
        few = omega (arith, used-replicate (new_capacity t.buckets));
      } in
    let grown = set_all-IsRoomy k 0 t.buckets _ hashed fresh in
    (grown.clean, find_slot-room k (0 + length t.buckets) _ key plain grown (omega arith))

-- A table without tombstones, of a power of two slots or none, in which each bucket has the hash of
-- its key takes each key that hashes to neither 0 nor 1 in a table that has a slot for it and no
-- tombstone.
pub ready_table-find_slot :
    (t : SymbolTable) (key : List ℕ) (o : Option ℕ)
    → find_slot t key ≡ o
    → IsPlainHash key
    → IsSized t.buckets
    → IsHashed t.buckets
    → NoTombs t.buckets
    → NoTombs (ready_table (grow_with (set_depth 0)) t o).buckets
      × ((r : ℕ) × (find_slot (ready_table (grow_with (set_depth 0)) t o) key ≡ some r))
ready_table-find_slot t key none e plain sized hashed clean =
    grow-find_slot t key plain sized hashed
ready_table-find_slot t key (some r) e plain sized hashed clean = (clean, (r, e))
