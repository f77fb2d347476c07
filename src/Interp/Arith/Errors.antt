-- ===== src/Interp/Arith/Errors.antt =====
-- src/interp/interpreter.h: which operations on two operands throw, and what `Ne` says beside `Eq`.
use arc_jit.Bytecode.Chunk.{OpCode}
use arc_jit.Interp.Arith.{
  FloatOps, InterpError, Message, Result, divide, binary_op, bit, both_numbers, div_by_zero,
  division_by_zero, ok, thrown,
}
use arc_jit.Interp.Value.{Heap, Value, float, int, null, obj, undef}
use arc_jit.Prelude.{
  ℕ, ◌≡◌, refl, ap, Bool, true, false, ◌||◌, ◌==◌, ◌!=◌, if◌then◌else◌, Option, none, some, inl,
  inr, arith, Bool-cases,
}
use mathlib.Core.Bool.{not}

-- The error of a result that is one.
abbrev pub error_of : Result → Option (InterpError × Message)
error_of (ok v h) = none
error_of (thrown e m) = some (e, m)

-- The opcodes that take two operands and give one.
abbrev pub is_binary : OpCode → Bool
is_binary OpCode.add = true
is_binary OpCode.sub = true
is_binary OpCode.mul = true
is_binary OpCode.div = true
is_binary OpCode.pow = true
is_binary OpCode.eq = true
is_binary OpCode.ne = true
is_binary OpCode.lt = true
is_binary OpCode.gt = true
is_binary OpCode.lte = true
is_binary OpCode.gte = true
is_binary OpCode.and = true
is_binary OpCode.or = true
is_binary _ = false

abbrev pub is_number : Value → Bool
is_number (int _) = true
is_number (float _) = true
is_number _ = false

module _ (f : FloatOps) where
  -- A division by the integer 0 of an integer, or by a number that is 0.0 as a double.
  abbrev pub divides_by_zero : OpCode → Value → Value → Bool
  divides_by_zero OpCode.div (int a) (int b) = b == 0
  divides_by_zero OpCode.div a (int b) = f.feq (f.of_int b) 0
  divides_by_zero OpCode.div a (float b) = f.feq b 0
  divides_by_zero _ a b = false

  divide-error :
      (a b : ℕ) (h : Heap)
      → error_of (divide f a b h)
        ≡ (if f.feq b 0 then some (div_by_zero, division_by_zero) else none)
  divide-error a b h = elim (Bool-cases (f.feq b 0)) [ inl z ↦ rw z refl | inr n ↦ rw n refl ]

  -- On two numbers, each of the thirteen binary operations either gives a value or throws, and it
  -- throws exactly where it is a division whose divisor is 0; the error is then `DivByZero`.
  pub binary_op-error :
      (op : OpCode) (a b : Value) (h : Heap)
      → is_binary op ≡ true
      → is_number a ≡ true
      → is_number b ≡ true
      → error_of (binary_op f op a b h)
        ≡ (if divides_by_zero op a b then some (div_by_zero, division_by_zero) else none)
  unfolding binary_op both_numbers
  binary_op-error OpCode.div (int a) (int b) h p q r = elim (Bool-cases (b == 0)) [
    | inl z ↦ rw z refl
    | inr n ↦ rw n refl
  ]
  binary_op-error OpCode.div (int a) (float b) h p q r = divide-error (f.of_int a) b h
  binary_op-error OpCode.div (float a) (int b) h p q r = divide-error a (f.of_int b) h
  binary_op-error OpCode.div (float a) (float b) h p q r = divide-error a b h
  binary_op-error _ (int a) (int b) h p q r = cc
  binary_op-error _ (int a) (float b) h p q r = cc
  binary_op-error _ (float a) (int b) h p q r = cc
  binary_op-error _ (float a) (float b) h p q r = cc
  binary_op-error _ undef b h p q r = absurd (cc q)
  binary_op-error _ null b h p q r = absurd (cc q)
  binary_op-error _ (obj a) b h p q r = absurd (cc q)
  binary_op-error _ _ undef h p q r = absurd (cc r)
  binary_op-error _ _ null h p q r = absurd (cc r)
  binary_op-error _ _ (obj b) h p q r = absurd (cc r)

  -- Both null, or the same object.
  abbrev pub identical : Value → Value → Bool
  identical null null = true
  identical (obj p) (obj q) = p == q
  identical _ _ = false

  ne_not : (a b : ℕ) → (a != b) ≡ not (a == b)
  ne_not a b = ground arith

  either : (b : Bool) → true ≡ (b || not b)
  either true = refl
  either false = refl

  -- `Eq` and `Ne` never throw, and `Ne` is the negation of `Eq`, but on two nulls and on an object
  -- and itself, where both give 1.
  pub binary_op-eq_ne :
      (a b : Value) (h : Heap)
      → (same : Bool) × (binary_op f OpCode.eq a b h ≡ ok (int (bit same)) h)
        × (binary_op f OpCode.ne a b h ≡ ok (int (bit (identical a b || not same))) h)
  unfolding binary_op both_numbers
  binary_op-eq_ne (int a) (int b) h = (a == b, refl, ap (λ t. ok (int (bit t)) h) (ne_not a b))
  binary_op-eq_ne (int a) (float b) h = (f.feq (f.of_int a) b, refl, refl)
  binary_op-eq_ne (float a) (int b) h = (f.feq a (f.of_int b), refl, refl)
  binary_op-eq_ne (float a) (float b) h = (f.feq a b, refl, refl)
  binary_op-eq_ne null null h = (true, refl, refl)
  binary_op-eq_ne (obj p) (obj q) h = (p == q, refl, ap (λ t. ok (int (bit t)) h) (either (p == q)))
  binary_op-eq_ne undef undef h = (false, refl, refl)
  binary_op-eq_ne undef null h = (false, refl, refl)
  binary_op-eq_ne undef (int b) h = (false, refl, refl)
  binary_op-eq_ne undef (float b) h = (false, refl, refl)
  binary_op-eq_ne undef (obj b) h = (false, refl, refl)
  binary_op-eq_ne null undef h = (false, refl, refl)
  binary_op-eq_ne null (int b) h = (false, refl, refl)
  binary_op-eq_ne null (float b) h = (false, refl, refl)
  binary_op-eq_ne null (obj b) h = (false, refl, refl)
  binary_op-eq_ne (int a) undef h = (false, refl, refl)
  binary_op-eq_ne (int a) null h = (false, refl, refl)
  binary_op-eq_ne (int a) (obj b) h = (false, refl, refl)
  binary_op-eq_ne (float a) undef h = (false, refl, refl)
  binary_op-eq_ne (float a) null h = (false, refl, refl)
  binary_op-eq_ne (float a) (obj b) h = (false, refl, refl)
  binary_op-eq_ne (obj a) undef h = (false, refl, refl)
  binary_op-eq_ne (obj a) null h = (false, refl, refl)
  binary_op-eq_ne (obj a) (int b) h = (false, refl, refl)
  binary_op-eq_ne (obj a) (float b) h = (false, refl, refl)
