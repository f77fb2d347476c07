-- ===== src/Interp/Arith.antt =====
-- src/interp/interpreter.h: the arithmetic, the comparisons and the logic of `dispatch_loop_`, and
-- `do_arith_slow_`. The operations on doubles are those of the machine and of libm: parameters.
pub mod Errors
pub mod Agree
use arc_jit.Bytecode.Chunk.{OpCode}
use arc_jit.Interp.Value.{
  Heap, Object, Value, alloc_string, int, float, is_null, null, number_float, number_int, list,
  null_object, obj, object_at, other_object, string, undef,
}
use arc_jit.Prelude.{
  ℕ, zero, suc, ◌+◌, ◌-◌, ◌*◌, ◌%◌, ◌^◌, Bool, true, false, ◌&&◌, ◌||◌, ltb, ◌==◌, ◌!=◌,
  if◌then◌else◌, Option, none, some, List, [], ◌∷◌, ◌++◌, length,
}
use mathlib.Core.Bool.{not}

-- On the 64 bits of a double: `of_int` and `to_int` are the casts from and to `int64_t`, and 0 is
-- the double 0.0.
pub record FloatOps : Type 0 where
  pub of_int : ℕ → ℕ
  pub to_int : ℕ → ℕ
  pub fadd : ℕ → ℕ → ℕ
  pub fsub : ℕ → ℕ → ℕ
  pub fmul : ℕ → ℕ → ℕ
  pub fdiv : ℕ → ℕ → ℕ
  pub fpow : ℕ → ℕ → ℕ
  pub fneg : ℕ → ℕ
  pub feq : ℕ → ℕ → Bool
  pub flt : ℕ → ℕ → Bool
  pub fle : ℕ → ℕ → Bool

pub data InterpError : Type 0 where
  div_by_zero type_error name_error value_error stack_overflow : InterpError
  unknown_opcode index_error property_error : InterpError

-- The texts of the messages.
pub data Message : Type 0 where
  division_by_zero incompatible_types cannot_negate slot_out_of_range : Message
  used_before_assignment cannot_iterate cannot_iterate_type try_overflow : Message
  unknown_op no_message : Message

pub data Result : Type 0 where
  ok : Value → Heap → Result
  thrown : InterpError → Message → Result

abbrev pub bit : Bool → ℕ
bit true = 1
bit false = 0

-- `int64_t` in two's complement. The source leaves an overflow undefined: here it wraps.
unfoldable pub int_add : ℕ → ℕ → ℕ
int_add a b = (a + b) % 2 ^ 64

unfoldable pub int_sub : ℕ → ℕ → ℕ
int_sub a b = (a + (2 ^ 64 - b)) % 2 ^ 64

unfoldable pub int_mul : ℕ → ℕ → ℕ
int_mul a b = (a * b) % 2 ^ 64

unfoldable pub int_neg : ℕ → ℕ
int_neg a = (2 ^ 64 - a) % 2 ^ 64

-- A number with the top bit set is negative, hence below every other.
unfoldable pub int_lt : ℕ → ℕ → Bool
int_lt a b =
    let a_negative = ltb (2 ^ 63 - 1) a in
    let b_negative = ltb (2 ^ 63 - 1) b in
    if a_negative && not b_negative
    then true
    else if b_negative && not a_negative
    then false
    else ltb a b

module _ (f : FloatOps) where
  -- The operands as doubles, where both are numbers.
  abbrev pub as_double : Value → Option ℕ
  as_double (int a) = some (f.of_int a)
  as_double (float a) = some a
  as_double _ = none

  abbrev pub both_doubles : Option ℕ → Option ℕ → Option (ℕ × ℕ)
  both_doubles (some a) (some b) = some (a, b)
  both_doubles _ _ = none

  unfoldable pub both_numbers : Value → Value → Option (ℕ × ℕ)
  both_numbers a b = both_doubles (as_double a) (as_double b)

  abbrev pub divide : ℕ → ℕ → Heap → Result
  divide a b h =
      if f.feq b 0 then thrown div_by_zero division_by_zero else ok (float (f.fdiv a b)) h

  -- The operation on two doubles; `none` where the switch has no case.
  abbrev pub number_op : OpCode → ℕ → ℕ → Heap → Option Result
  number_op OpCode.add a b h = some (ok (float (f.fadd a b)) h)
  number_op OpCode.sub a b h = some (ok (float (f.fsub a b)) h)
  number_op OpCode.mul a b h = some (ok (float (f.fmul a b)) h)
  number_op OpCode.div a b h = some (divide a b h)
  number_op OpCode.pow a b h = some (ok (float (f.fpow a b)) h)
  number_op OpCode.eq a b h = some (ok (int (bit (f.feq a b))) h)
  number_op OpCode.ne a b h = some (ok (int (bit (not (f.feq a b)))) h)
  number_op OpCode.lt a b h = some (ok (int (bit (f.flt a b))) h)
  number_op OpCode.gt a b h = some (ok (int (bit (f.flt b a))) h)
  number_op OpCode.lte a b h = some (ok (int (bit (f.fle a b))) h)
  number_op OpCode.gte a b h = some (ok (int (bit (f.fle b a))) h)
  number_op OpCode.and a b h = some (ok (int (bit (f.to_int a != 0 && f.to_int b != 0))) h)
  number_op OpCode.or a b h = some (ok (int (bit (f.to_int a != 0 || f.to_int b != 0))) h)
  number_op _ a b h = none

  abbrev pub string_at : Heap → Value → Option (List ℕ)
  string_at h (obj p) = text_of (object_at h p)
    where
      text_of : Option Object → Option (List ℕ)
      text_of (some (string s)) = some s
      text_of _ = none
  string_at h _ = none

  -- Two strings are joined; anything else is an error.
  abbrev pub joined : OpCode → Option (List ℕ) → Option (List ℕ) → Heap → Result
  joined OpCode.add (some s) (some t) h = let (v, h') = alloc_string (s ++ t) h in ok v h'
  joined _ _ _ h = thrown type_error incompatible_types

  abbrev pub or_joined : OpCode → Value → Value → Heap → Option Result → Result
  or_joined op a b h (some r) = r
  or_joined op a b h none = joined op (string_at h a) (string_at h b) h

  abbrev pub number_case : OpCode → Option (ℕ × ℕ) → Heap → Option Result
  number_case op none h = none
  number_case op (some (a, b)) h = number_op op a b h

  unfoldable pub do_arith_slow : OpCode → Value → Value → Heap → Result
  do_arith_slow op a b h = or_joined op a b h (number_case op (both_numbers a b) h)

  -- The case of two integers, in the opcodes that have one.
  abbrev pub int_op : OpCode → ℕ → ℕ → Heap → Option Result
  int_op OpCode.add a b h = some (ok (int (int_add a b)) h)
  int_op OpCode.sub a b h = some (ok (int (int_sub a b)) h)
  int_op OpCode.mul a b h = some (ok (int (int_mul a b)) h)
  int_op OpCode.div a b h = some (
      if b == 0
      then thrown div_by_zero division_by_zero
      else ok (float (f.fdiv (f.of_int a) (f.of_int b))) h)
  int_op OpCode.pow a b h = some (ok (float (f.fpow (f.of_int a) (f.of_int b))) h)
  int_op OpCode.eq a b h = some (ok (int (bit (a == b))) h)
  int_op OpCode.ne a b h = some (ok (int (bit (a != b))) h)
  int_op OpCode.lt a b h = some (ok (int (bit (int_lt a b))) h)
  int_op OpCode.gt a b h = some (ok (int (bit (int_lt b a))) h)
  int_op OpCode.lte a b h = some (ok (int (bit (not (int_lt b a)))) h)
  int_op OpCode.gte a b h = some (ok (int (bit (not (int_lt a b)))) h)
  int_op _ a b h = none

  abbrev pub int_case : OpCode → Value → Value → Heap → Option Result
  int_case op (int a) (int b) h = int_op op a b h
  int_case op _ _ h = none

  -- `a.is_null() && b.is_null()` where one of them is null, then the numbers, then identity.
  abbrev pub eq_rest : Value → Value → Heap → Option (ℕ × ℕ) → Result
  eq_rest a b h (some (x, y)) = ok (int (bit (f.feq x y))) h
  eq_rest (obj p) (obj q) h none = ok (int (bit (p == q))) h
  eq_rest _ _ h none = ok (int 0) h

  abbrev pub eq_slow : Value → Value → Heap → Result
  eq_slow a b h =
      if is_null a || is_null b
      then ok (int (bit (is_null a && is_null b))) h
      else eq_rest a b h (both_numbers a b)

  -- Without a case for null and for objects.
  abbrev pub ne_slow : Option (ℕ × ℕ) → Heap → Result
  ne_slow (some (x, y)) h = ok (int (bit (not (f.feq x y)))) h
  ne_slow none h = ok (int 1) h

  -- A comparison of anything else is an error without a message.
  abbrev pub or_type_error : Option Result → Result
  or_type_error (some r) = r
  or_type_error none = thrown type_error no_message

  -- What follows the case of two integers.
  abbrev pub other_case : OpCode → Value → Value → Heap → Result
  other_case OpCode.eq a b h = eq_slow a b h
  other_case OpCode.ne a b h = ne_slow (both_numbers a b) h
  other_case OpCode.lt a b h = or_type_error (number_case OpCode.lt (both_numbers a b) h)
  other_case OpCode.gt a b h = or_type_error (number_case OpCode.gt (both_numbers a b) h)
  other_case OpCode.lte a b h = or_type_error (number_case OpCode.lte (both_numbers a b) h)
  other_case OpCode.gte a b h = or_type_error (number_case OpCode.gte (both_numbers a b) h)
  other_case op a b h = or_joined op a b h (number_case op (both_numbers a b) h)

  abbrev pub or_other : OpCode → Value → Value → Heap → Option Result → Result
  or_other op a b h (some r) = r
  or_other op a b h none = other_case op a b h

  -- `isTruthy`
  abbrev pub object_truthy : Option Object → Bool
  object_truthy none = false
  object_truthy (some (string s)) = ltb 0 (length s)
  object_truthy (some (list xs)) = ltb 0 (length xs)
  object_truthy (some (number_int a)) = a != 0
  object_truthy (some (number_float a)) = not (f.feq a 0)
  object_truthy (some _) = true

  unfoldable pub is_truthy : Heap → Value → Bool
  is_truthy h (int a) = a != 0
  is_truthy h (float a) = not (f.feq a 0)
  is_truthy h undef = false
  is_truthy h null = false
  is_truthy h (obj p) = object_truthy (object_at h p)

  -- The opcodes on two operands, `b` on top of the stack.
  unfoldable pub binary_op : OpCode → Value → Value → Heap → Result
  unfolding both_numbers
  binary_op OpCode.and a b h = ok (int (bit (is_truthy h a && is_truthy h b))) h
  binary_op OpCode.or a b h = ok (int (bit (is_truthy h a || is_truthy h b))) h
  binary_op op a b h = or_other op a b h (int_case op a b h)

  unfoldable pub neg_op : Value → Heap → Result
  neg_op (int a) h = ok (int (int_neg a)) h
  neg_op (float a) h = ok (float (f.fneg a)) h
  neg_op _ h = thrown type_error cannot_negate

  unfoldable pub not_op : Value → Heap → Result
  not_op a h = ok (int (bit (not (is_truthy h a)))) h
