-- ===== src/Interp/Arith/Agree.antt =====
-- src/interp/interpreter.h and src/tier2/tier2.cpp: on two integers the interpreter and the
-- compiled code give the same integer.
use arc_jit.Bytecode.Chunk.{OpCode}
use arc_jit.Core.Node.{NodeKind}
use arc_jit.Interp.Arith.{
  FloatOps, binary_op, bit, int_add, int_lt, int_mul, int_sub, is_truthy, ok,
}
use arc_jit.Interp.Value.{Heap, int}
use arc_jit.Prelude.{
  ℕ, ◌<◌, ◌≡◌, refl, sym, ap, ◌∙◌, Bool, true, false, ltb, leb, Option, none, some, arith, [], ◌∷◌,
}
use arc_jit.Tier1.Alu.{
  word_mod, add64, and64, bias, eq64, flag, gt64, gte64, lt64, lte64, mul64, ne64, or64, sub64,
}
use arc_jit.Tier2.Apply.{apply, apply_binary, apply_const, apply_unary}
use mathlib.Core.Bool.{not}
use mathlib.Core.Path.{subst}

-- The node that an operation on two integers becomes, but for `Div` and `Pow`, which give a double
-- in the interpreter.
abbrev pub node_of : OpCode → Option NodeKind
node_of OpCode.add = some NodeKind.add
node_of OpCode.sub = some NodeKind.sub
node_of OpCode.mul = some NodeKind.mul
node_of OpCode.eq = some NodeKind.eq
node_of OpCode.ne = some NodeKind.ne
node_of OpCode.lt = some NodeKind.lt
node_of OpCode.gt = some NodeKind.gt
node_of OpCode.lte = some NodeKind.lte
node_of OpCode.gte = some NodeKind.gte
node_of OpCode.and = some NodeKind.and
node_of OpCode.or = some NodeKind.or
node_of _ = none

flag-bit : (b : Bool) → flag b ≡ bit b
flag-bit true = refl
flag-bit false = refl

int_lt-bias : (a b : ℕ) → a < word_mod → b < word_mod → ltb (bias a) (bias b) ≡ int_lt a b
unfolding int_lt
int_lt-bias a b p q = ground arith

leb_not_lt : (x y : ℕ) → leb x y ≡ not (ltb y x)
leb_not_lt x y = ground arith

abbrev Agrees : FloatOps → OpCode → ℕ → ℕ → Heap → Option NodeKind → Type 0
Agrees f op a b h none = Unit
Agrees f op a b h (some k) =
    (v : ℕ) × (apply k 0 (a ∷ b ∷ []) ≡ some v) × (binary_op f op (int a) (int b) h ≡ ok (int v) h)

-- The interpreter's bit is the flag of the machine.
as_flag : (h : Heap) (x y : Bool) → y ≡ x → ok (int (bit x)) h ≡ ok (int (flag y)) h
as_flag h x y e = rw e (ap (λ v. ok (int v) h) (sym (flag-bit x)))

module _ (f : FloatOps) (a b : ℕ) (h : Heap) (p : a < word_mod) (q : b < word_mod) where
  binary_op-Agrees : (op : OpCode) → Agrees f op a b h (node_of op)
  unfolding binary_op is_truthy apply apply_binary apply_const apply_unary add64 sub64 mul64 eq64
      ne64 lt64 gt64 lte64 gte64 and64 or64 int_add int_sub int_mul
  binary_op-Agrees OpCode.add = (add64 a b, refl, refl)
  binary_op-Agrees OpCode.sub = (sub64 a b, refl, ap (λ v. ok (int v) h) (omega arith))
  binary_op-Agrees OpCode.mul = (mul64 a b, refl, refl)
  binary_op-Agrees OpCode.eq = (eq64 a b, refl, as_flag h _ _ refl)
  binary_op-Agrees OpCode.ne = (ne64 a b, refl, as_flag h _ _ refl)
  binary_op-Agrees OpCode.lt = (lt64 a b, refl, as_flag h _ _ (int_lt-bias a b p q))
  binary_op-Agrees OpCode.gt = (gt64 a b, refl, as_flag h _ _ (int_lt-bias b a q p))
  binary_op-Agrees OpCode.lte =
      (lte64 a b, refl, as_flag h _ _ (leb_not_lt (bias a) (bias b) ∙ ap not (int_lt-bias b a q p)))
  binary_op-Agrees OpCode.gte =
      (gte64 a b, refl, as_flag h _ _ (leb_not_lt (bias b) (bias a) ∙ ap not (int_lt-bias a b p q)))
  binary_op-Agrees OpCode.and = (and64 a b, refl, as_flag h _ _ refl)
  binary_op-Agrees OpCode.or = (or64 a b, refl, as_flag h _ _ refl)
  binary_op-Agrees _ = tt

-- On two 64-bit integers, addition, subtraction, multiplication, the six comparisons and the two
-- connectives give in the interpreter the integer that the compiled node computes from the same
-- registers.
pub binary_op-apply :
    (f : FloatOps) (op : OpCode) (k : NodeKind) (a b : ℕ) (h : Heap)
    → a < word_mod
    → b < word_mod
    → node_of op ≡ some k
    → (v : ℕ) × (apply k 0 (a ∷ b ∷ []) ≡ some v)
      × (binary_op f op (int a) (int b) h ≡ ok (int v) h)
binary_op-apply f op k a b h p q e = subst (Agrees f op a b h) e (binary_op-Agrees f a b h p q op)
