-- ===== src/Interp/Machine/Iteration.antt =====
-- src/interp/interpreter.h, `OpCode::ForIter`: what one round of a loop leaves for the next.
use arc_jit.Interp.Arith.{int_add, int_lt}
use arc_jit.Interp.Machine.{Machine, Outcome, item_of, iterate, iterate_ints, next, undefined}
use arc_jit.Interp.Value.{Value, int}
use mathlib.Core.Path.{subst}
use arc_jit.Prelude.{ℕ, ◌≡◌, refl, sym, ap, ◌∙◌, inl, inr, true, Option-cases, List, [], ◌∷◌, drop}

abbrev stack_of : Outcome → List Value
stack_of (next m) = m.stack
stack_of _ = []

-- A round that yields an item keeps the index and puts the next index in the place of the
-- iterable: once the body has popped the item, the next round has no item to give.
pub iterate-iterate :
    (off i n : ℕ) (iter : Value) (rest : List Value) (m m' after : Machine)
    → int_lt i n ≡ true
    → iterate off (int i ∷ int n ∷ iter ∷ rest) m ≡ next m'
    → iterate off (drop 1 m'.stack) after ≡ undefined
unfolding iterate iterate_ints
iterate-iterate off i n iter rest m m' after more e = elim (Option-cases (item_of m.heap iter i)) [
  | inl no_item ↦
      let stuck : iterate off (int i ∷ int n ∷ iter ∷ rest) m ≡ undefined =
        rw (more, no_item) refl in
      absurd (cc (stuck, e))
  | inr ((v, h), item) ↦
      let yields : stack_of (iterate off (int i ∷ int n ∷ iter ∷ rest) m)
          ≡ v ∷ int i ∷ int n ∷ int (int_add i 1) ∷ rest =
        rw (more, item) refl in
      let stack : m'.stack ≡ v ∷ int i ∷ int n ∷ int (int_add i 1) ∷ rest =
        ap stack_of (sym e) ∙ yields in
      subst (λ xs. iterate off (drop 1 xs) after ≡ undefined) (sym stack) (rw more refl)
]
