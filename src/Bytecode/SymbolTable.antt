-- ===== src/Bytecode/SymbolTable.antt =====
-- src/bytecode/symbol_table.h: an open-addressing table from names to values.
pub mod Probe
pub mod Room
pub mod Growth
pub mod Lookup
use Prim.Native.Nat.{bit_and, bit_xor}
use arc_jit.Interp.Value.{Value, undef}
use arc_jit.Prelude.{
  ℕ, zero, suc, ◌+◌, ◌-◌, ◌*◌, ◌%◌, ◌^◌, Bool, true, false, ◌&&◌, ◌||◌, ◌==◌, if◌then◌else◌, Option,
  none, some, List, [], ◌∷◌, length, get_or, set, replicate, map,
}

-- A character as its byte.
unfoldable pub fnv_from : ℕ → List ℕ → ℕ
fnv_from h [] = h
fnv_from h (c ∷ s) = fnv_from ((bit_xor h c * 1099511628211) % 2 ^ 64) s

abbrev pub fnv1a64 : List ℕ → ℕ
fnv1a64 s = fnv_from 1469598103934665603 s

pub record Bucket : Type 0 where
  pub hash : ℕ
  pub key : List ℕ
  pub value : Value

abbrev pub empty_hash : ℕ
empty_hash = 0

abbrev pub tombstone_hash : ℕ
tombstone_hash = 1

abbrev pub empty_bucket : Bucket
empty_bucket = record { hash = empty_hash; key = []; value = undef }

pub record SymbolTable : Type 0 where
  pub buckets : List Bucket
  pub count : ℕ

abbrev pub new_table : SymbolTable
new_table = record { buckets = []; count = 0 }

abbrev pub same_key : List ℕ → List ℕ → Bool
same_key [] [] = true
same_key (a ∷ xs) (b ∷ ys) = a == b && same_key xs ys
same_key _ _ = false

-- `b.hash == h && b.key == key`
abbrev pub holds : Bucket → ℕ → List ℕ → Bool
holds b h key = b.hash == h && same_key b.key key

abbrev pub or_tomb : Option ℕ → ℕ → Option ℕ
or_tomb (some t) i = some t
or_tomb none i = some i

-- The probe from slot `i`, for the probes that are left, past the tombstone `tomb`.
unfoldable pub probe : ℕ → List Bucket → ℕ → List ℕ → ℕ → Option ℕ → Option ℕ
probe zero bs h key i tomb = tomb
probe (suc f) bs h key i tomb =
    let b = get_or bs i empty_bucket in
    let after = bit_and (i + 1) (length bs - 1) in
    let past = probe f bs h key after (or_tomb tomb i) in
    let rest = probe f bs h key after tomb in
    if b.hash == empty_hash
    then or_tomb tomb i
    else if b.hash == tombstone_hash
    then past
    else if holds b h key
    then some i
    else rest

unfoldable pub find_slot : SymbolTable → List ℕ → Option ℕ
find_slot t key =
    let h = fnv1a64 key in
    probe (length t.buckets) t.buckets h key (bit_and h (length t.buckets - 1)) none

abbrev pub value_at : SymbolTable → Option ℕ → Value
value_at t none = undef
value_at t (some i) = (get_or t.buckets i empty_bucket).value

unfoldable pub get : SymbolTable → List ℕ → Value
get t key = value_at t (find_slot t key)

abbrev pub is_found : Option ℕ → Bool
is_found none = false
is_found (some i) = true

unfoldable pub has : SymbolTable → List ℕ → Bool
has t key = is_found (find_slot t key)

-- A new entry where the slot is empty; the value in any case.
abbrev pub written : Bucket → List ℕ → Value → Bucket
written b key v =
    if b.hash == empty_hash
    then record { hash = fnv1a64 key; key = key; value = v }
    else record b { value = v }

unfoldable pub write : SymbolTable → ℕ → List ℕ → Value → SymbolTable
write t i key v =
    let b = get_or t.buckets i empty_bucket in
    record {
      buckets = set t.buckets i (written b key v);
      count = if b.hash == empty_hash then t.count + 1 else t.count;
    }

-- Where no slot is found the source writes outside the table: here it stays as it is.
abbrev pub write_found : Option ℕ → SymbolTable → List ℕ → Value → SymbolTable
write_found none t key v = t
write_found (some i) t key v = write t i key v

-- The live entries are set again in a table of twice the size.
abbrev pub set_all :
    (SymbolTable → List ℕ → Value → SymbolTable) → List Bucket → SymbolTable → SymbolTable
set_all put [] t = t
set_all put (b ∷ bs) t =
    if b.hash == empty_hash || b.hash == tombstone_hash
    then set_all put bs t
    else set_all put bs (put t b.key b.value)

abbrev pub new_capacity : List Bucket → ℕ
new_capacity [] = 16
new_capacity bs = length bs * 2

abbrev pub grow_with : (SymbolTable → List ℕ → Value → SymbolTable) → SymbolTable → SymbolTable
grow_with put t =
    set_all put t.buckets
      (record { buckets = replicate (new_capacity t.buckets) empty_bucket; count = 0 })

-- The table that takes the entry: grown where it is empty or where no slot is found.
abbrev pub ready_table : (SymbolTable → SymbolTable) → SymbolTable → Option ℕ → SymbolTable
ready_table grow t none = grow t
ready_table grow t (some i) = t

-- `set` and `grow` call each other; `depth` bounds the nesting of growths.
unfoldable pub set_depth : ℕ → SymbolTable → List ℕ → Value → SymbolTable
set_depth zero t key v = write_found (find_slot t key) t key v
set_depth (suc depth) t key v =
    let r = ready_table (grow_with (set_depth depth)) t (find_slot t key) in
    write_found (find_slot r key) r key v

-- Within a growth the new table has room, where its size is a power of two: one growth is enough.
abbrev pub set_key : SymbolTable → List ℕ → Value → SymbolTable
set_key t key v = set_depth 1 t key v

abbrev pub bury : Option ℕ → SymbolTable → SymbolTable
bury none t = t
bury (some i) t =
    let b = get_or t.buckets i empty_bucket in
    record {
      buckets = set t.buckets i (record b { hash = tombstone_hash; key = [] });
      count = (t.count + 2 ^ 64 - 1) % 2 ^ 64;
    }

unfoldable pub remove : SymbolTable → List ℕ → SymbolTable
remove t key = bury (find_slot t key) t
