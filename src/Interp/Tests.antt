-- ===== src/Interp/Tests.antt =====
-- A machine that divides 1 by 0 under a handler, and a loop over a list of one element.
use arc_jit.Bytecode.Chunk.{OpCode, read_byte}
use arc_jit.Core.Node.{NodeKind}
use arc_jit.Interp.Arith.Agree.{binary_op-apply}
use arc_jit.Interp.Arith.Errors.{
  binary_op-eq_ne, binary_op-error, divides_by_zero, error_of, identical,
}
use arc_jit.Interp.Arith.{
  FloatOps, binary_op, bit, both_numbers, div_by_zero, division_by_zero, int_add, int_lt, ok,
}
use arc_jit.Interp.Machine.Bounded.{step-Follows}
use arc_jit.Interp.Machine.Handlers.{
  caught, dispatch_loop, dispatch_loop-set_handler, message_text, handle_error, resume,
}
use arc_jit.Interp.Machine.Iteration.{iterate-iterate}
use arc_jit.Interp.Machine.{
  Machine, TryEntry, exec_byte, exec_op, iterate, iterate_ints, next, step, throws, try_max,
  undefined,
}
use arc_jit.Interp.Value.{alloc_string, int, list, null, number_int, obj, object_at}
use arc_jit.Interp.Machine.{jump_target}
use arc_jit.Prelude.{
  ℕ, ◌+◌, ◌-◌, ◌*◌, ◌/◌, ◌≤◌, ◌≡◌, refl, Bool, true, false, ◌||◌, ltb, leb, ◌==◌, if◌then◌else◌,
  none, some, [], ◌∷◌, drop, length, arith,
}
use arc_jit.Tier2.Apply.{apply}
use mathlib.Core.Bool.{not}

-- Whole numbers in the place of doubles.
abbrev whole_numbers : FloatOps
whole_numbers = record {
  of_int = λ a. a;
  to_int = λ a. a;
  fadd = λ a b. a + b;
  fsub = λ a b. a - b;
  fmul = λ a b. a * b;
  fdiv = λ a b. a / b;
  fpow = λ a b. a;
  fneg = λ a. a;
  feq = λ a b. a == b;
  flt = λ a b. ltb a b;
  fle = λ a b. leb a b;
}

binary_op-error_example : error_of (binary_op whole_numbers OpCode.div (int 1) (int 0) []) ≡ (
    if divides_by_zero whole_numbers OpCode.div (int 1) (int 0)
    then some (div_by_zero, division_by_zero)
    else none)
binary_op-error_example = binary_op-error whole_numbers OpCode.div (int 1) (int 0) [] refl refl refl

binary_op-eq_ne_example :
    (same : Bool) × (binary_op whole_numbers OpCode.eq null null [] ≡ ok (int (bit same)) [])
    × (binary_op whole_numbers OpCode.ne null null []
        ≡ ok (int (bit (identical whole_numbers null null || not same))) [])
binary_op-eq_ne_example = binary_op-eq_ne whole_numbers null null []

binary_op-apply_example :
    (v : ℕ) × (apply NodeKind.lt 0 (3 ∷ 5 ∷ []) ≡ some v)
    × (binary_op whole_numbers OpCode.lt (int 3) (int 5) [] ≡ ok (int v) [])
binary_op-apply_example =
    binary_op-apply whole_numbers OpCode.lt NodeKind.lt 3 5 [] (omega arith) (omega arith) refl

abbrev handler : TryEntry
handler = record { reader_ip = 9; stack_top = 1 }

abbrev dividing : Machine
dividing = record {
  reader = record { bytes = 8 ∷ 37 ∷ []; ip = 0 };
  constants = [];
  stack = int 0 ∷ int 1 ∷ int 5 ∷ [];
  locals = [];
  tries = handler ∷ [];
  heap = [];
}

abbrev divided : Machine
divided = record dividing { reader = record { bytes = 8 ∷ 37 ∷ []; ip = 1 }; stack = int 5 ∷ [] }

step_test : step whole_numbers dividing ≡ throws div_by_zero division_by_zero divided
unfolding step exec_byte exec_op read_byte binary_op both_numbers
step_test = refl

-- The machine at which the handler is set, by a jump by 2 from address 7.
abbrev guarded : Machine
guarded = record dividing {
  reader = record { bytes = 8 ∷ 37 ∷ []; ip = 7 };
  stack = int 5 ∷ [];
  tries = [];
}

abbrev handler_set : Machine
handler_set = record guarded { tries = handler ∷ [] }

dispatch_loop-set_handler_example :
    (after : Machine) × (dispatch_loop whole_numbers 5 dividing
      ≡ dispatch_loop whole_numbers 4 after)
    × (after.reader.ip ≡ 9)
    × (after.stack ≡ (alloc_string (message_text division_by_zero) divided.heap).0 ∷ guarded.stack)
    × (after.tries ≡ guarded.tries)
    × (after.locals ≡ divided.locals)
unfolding jump_target
dispatch_loop-set_handler_example =
    dispatch_loop-set_handler whole_numbers 4 2 guarded handler_set dividing divided div_by_zero
      division_by_zero [] refl refl step_test refl refl

abbrev resumed : Machine
unfolding resume alloc_string
resumed = resume handler [] division_by_zero divided

caught_test : caught (step whole_numbers dividing) ≡ next resumed
unfolding step exec_byte exec_op read_byte binary_op both_numbers caught handle_error resume
    alloc_string resumed
caught_test = refl

step-Follows_example :
    (resumed.reader.bytes ≡ dividing.reader.bytes)
    × (resumed.constants ≡ dividing.constants)
    × (length resumed.locals ≡ length dividing.locals)
    × (length resumed.tries ≤ try_max)
step-Follows_example = step-Follows whole_numbers dividing resumed (omega arith) caught_test

-- The list of the number 7, at address 2.
abbrev looping : Machine
looping = record dividing {
  stack = int 0 ∷ int 1 ∷ obj 2 ∷ [];
  heap = (number_int 7, false) ∷ (list (1 ∷ []), false) ∷ [];
}

abbrev looped : Machine
looped = record looping { stack = int 7 ∷ int 0 ∷ int 1 ∷ int 1 ∷ [] }

iterate_test : iterate 4 (int 0 ∷ int 1 ∷ obj 2 ∷ []) looping ≡ next looped
unfolding iterate iterate_ints int_lt int_add object_at
iterate_test = refl

int_lt_test : int_lt 0 1 ≡ true
unfolding int_lt
int_lt_test = refl

iterate-iterate_example : iterate 4 (drop 1 looped.stack) looped ≡ undefined
iterate-iterate_example =
    iterate-iterate 4 0 1 (obj 2) [] looping looped looped int_lt_test iterate_test
