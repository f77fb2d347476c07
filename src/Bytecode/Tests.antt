-- ===== src/Bytecode/Tests.antt =====
-- A short chunk, written, patched and read, and a table with one entry.
use arc_jit.Bytecode.Chunk.Patch.{patch_short-emit_all}
use arc_jit.Bytecode.Chunk.RoundTrip.{
  Item, const_idx, emit_all, op, read_all, read_all-emit_all, short,
}
use arc_jit.Bytecode.Chunk.{OpCode, emit_short, new_chunk, patch_short}
use arc_jit.Bytecode.SymbolTable.Growth.{IsHashed, IsPlainHash}
use arc_jit.Bytecode.SymbolTable.Lookup.{get-remove, set_key-HoldsEntry, HoldsEntry, target_table}
use arc_jit.Bytecode.SymbolTable.Probe.{NoTombs}
use arc_jit.Bytecode.SymbolTable.{
  SymbolTable, empty_bucket, find_slot, fnv1a64, fnv_from, get, has, holds, probe, remove, set_key,
}
use arc_jit.Interp.Value.{int}
use arc_jit.Prelude.{
  ℕ, zero, suc, ◌≡◌, ◌≢◌, refl, inl, inr, true, false, [], ◌∷◌, ◌++◌, List, arith, length, get_or,
  some,
}

abbrev items : List Item
items = op OpCode.load_const ∷ const_idx 70000 ∷ op OpCode.jump ∷ short 65530 ∷ op OpCode.halt ∷ []

read_all-emit_all_example :
    read_all items (record { bytes = (emit_all items new_chunk).code ++ (7 ∷ []); ip = 0 })
    ≡ some (
      items,
      record {
        bytes = (emit_all items new_chunk).code ++ (7 ∷ []);
        ip = length (emit_all items new_chunk).code;
      },
    )
read_all-emit_all_example =
    read_all-emit_all items new_chunk (7 ∷ []) (tt, (omega arith, (tt, (omega arith, (tt, tt)))))

patch_short-emit_all_example :
    patch_short 0 300 (emit_all items (emit_short 0 new_chunk))
    ≡ emit_all items (emit_short 300 new_chunk)
patch_short-emit_all_example = patch_short-emit_all items 0 300 new_chunk

-- A table of four slots, with the key "x" in the slot that its hash names.
abbrev key_x : List ℕ
key_x = 120 ∷ []

abbrev table : SymbolTable
table = record {
  buckets =
      empty_bucket
      ∷ (record { hash = 4953295298048672641; key = key_x; value = int 7 })
      ∷ empty_bucket
      ∷ empty_bucket
      ∷ [];
  count = 1;
}

key_x-IsPlainHash : IsPlainHash key_x
unfolding fnv_from
key_x-IsPlainHash = (λ e. omega (arith, e), λ e. omega (arith, e))

table-NoTombs : NoTombs table.buckets
table-NoTombs zero = λ e. omega (arith, e)
table-NoTombs (suc zero) = λ e. omega (arith, e)
table-NoTombs (suc (suc zero)) = λ e. omega (arith, e)
table-NoTombs (suc (suc (suc zero))) = λ e. omega (arith, e)
table-NoTombs (suc (suc (suc (suc j)))) = λ e. omega (arith, e)

table-IsHashed : IsHashed table.buckets
unfolding fnv_from
table-IsHashed = (inl refl, (inr (inr refl), (inl refl, (inl refl, tt))))

find_slot_test : find_slot table key_x ≡ some 1
unfolding fnv_from find_slot probe
find_slot_test = refl

-- The other slots do not hold the key.
elsewhere :
    (j : ℕ) → 1 ≢ j → holds (get_or table.buckets j empty_bucket) (fnv1a64 key_x) key_x ≡ false
unfolding fnv_from
elsewhere zero n = refl
elsewhere (suc zero) n = absurd (n refl)
elsewhere (suc (suc zero)) n = refl
elsewhere (suc (suc (suc zero))) n = refl
elsewhere (suc (suc (suc (suc j)))) n = refl

set_key-HoldsEntry_example :
    (r : ℕ) × HoldsEntry (target_table table key_x) (set_key table key_x (int 8)) key_x (int 8) r
set_key-HoldsEntry_example =
    set_key-HoldsEntry table key_x (int 8) (inr (2, refl)) table-IsHashed table-NoTombs
      key_x-IsPlainHash

get-remove_example : get (remove table key_x) key_x ≡ get table key_x
get-remove_example =
    get-remove table key_x 1 table-NoTombs key_x-IsPlainHash find_slot_test elsewhere

-- The key "y" is in no slot, but `has` finds it.
has_missing : has table (121 ∷ []) ≡ true
unfolding has fnv_from find_slot probe
has_missing = refl
