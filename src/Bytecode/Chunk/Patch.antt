-- ===== src/Bytecode/Chunk/Patch.antt =====
-- src/bytecode/chunk.h, `patch_short`: a jump offset written later.
use arc_jit.Bytecode.Chunk.RoundTrip.{Item, all_bytes, emit_all, emit_all_lem, short}
use arc_jit.Bytecode.Chunk.{Chunk, emit_short, patch_short}
use native.Mathlib.Nat.{suc-add}
use arc_jit.Prelude.{
  ℕ, ◌+◌, ◌/◌, ◌%◌, ◌^◌, ◌<◌, ◌≡◌, refl, sym, ap, ◌∙◌, List, [], ◌∷◌, ◌++◌, arith, length,
  length-append, set, lt→ltb,
}

set-append :
    (xs : List ℕ) (a b v w : ℕ) (ys : List ℕ)
    → set (set (xs ++ a ∷ b ∷ ys) (length xs) v) (length xs + 1) w ≡ xs ++ v ∷ w ∷ ys
set-append [] a b v w ys = refl
set-append (x ∷ xs) a b v w ys = rw suc-add (ap (λ zs. x ∷ zs) (set-append xs a b v w ys))

-- A jump offset that is emitted with any value and patched after any further emissions leaves the
-- chunk that emitting the patched offset at first gives.
pub patch_short-emit_all :
    (is : List Item) (old new : ℕ) (c : Chunk)
    → patch_short (length c.code) new (emit_all is (emit_short old c))
      ≡ emit_all is (emit_short new c)
unfolding patch_short
patch_short-emit_all is old new c =
    let bytes = all_bytes is in
    let wide : length c.code + 1 < length (c.code ++ old / 2 ^ 8 % 2 ^ 8 ∷ old % 2 ^ 8 ∷ bytes) =
      omega (arith, length-append c.code (old / 2 ^ 8 % 2 ^ 8 ∷ old % 2 ^ 8 ∷ bytes)) in
    ap (patch_short (length c.code) new) (emit_all_lem (short old ∷ is) c)
    ∙ rw
        (
          lt→ltb _ _ wide,
          set-append c.code (old / 2 ^ 8 % 2 ^ 8) (old % 2 ^ 8) (new / 2 ^ 8 % 2 ^ 8) (new % 2 ^ 8)
              bytes,
        )
        refl
    ∙ sym (emit_all_lem (short new ∷ is) c)
