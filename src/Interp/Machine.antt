-- ===== src/Interp/Machine.antt =====
-- src/interp/interpreter.h, `dispatch_loop_` and its `handle_error`, within one frame: the stack, the
-- locals of the frame, its code and the handlers it has set. The opcodes on variables, calls,
-- collections and properties are outcomes of their own, with nothing said of what they do.
pub mod Handlers
pub mod Bounded
pub mod Iteration
use arc_jit.Bytecode.Chunk.{
  BytecodeReader, OpCode, at_end, op_of_byte, read_byte, read_const_idx, read_short,
}
use arc_jit.Interp.Arith.{
  FloatOps, InterpError, Message, Result, binary_op, cannot_iterate, cannot_iterate_type, int_lt,
  is_truthy, name_error, neg_op, no_message, not_op, ok, slot_out_of_range, stack_overflow, thrown,
  try_overflow, type_error, unknown_op, unknown_opcode, used_before_assignment, int_add,
}
use arc_jit.Interp.Value.{
  Heap, Object, Value, alloc_string, float, int, is_undef, list, null, null_object, number_float,
  number_int, obj, object_at, other_object, string, undef,
}
use arc_jit.Prelude.{
  ℕ, zero, suc, ◌+◌, ◌-◌, ◌%◌, ◌^◌, Bool, true, false, ◌&&◌, ◌||◌, ltb, leb, ◌==◌, if◌then◌else◌,
  Option, ◌>>=◌, none, some, List, [], ◌∷◌, ◌++◌, length, drop, get_elem?, set,
}

-- What a handler restores; its frame is this one.
pub record TryEntry : Type 0 where
  pub reader_ip : ℕ
  pub stack_top : ℕ

-- The stack stands with its top first. A constant is the address of its object.
pub record Machine : Type 0 where
  pub reader : BytecodeReader
  pub constants : List ℕ
  pub stack : List Value
  pub locals : List Value
  pub tries : List TryEntry
  pub heap : Heap

-- `undefined` is what the source leaves undefined: a read past the code, or a pop off an empty stack.
pub data Outcome : Type 0 where
  next : Machine → Outcome
  throws : InterpError → Message → Machine → Outcome
  returns halts : Value → Outcome
  breaks continues undefined : Outcome
  elsewhere : OpCode → Outcome

abbrev pub try_max : ℕ
try_max = 256

-- `push_`
abbrev pub push : Value → Machine → Machine
push v m = record m { stack = v ∷ m.stack }

-- The target of a jump by a signed 16-bit offset.
unfoldable pub jump_target : ℕ → ℕ → ℕ
jump_target ip off = if ltb off (2 ^ 15) then ip + off else (ip + 2 ^ 64 - (2 ^ 16 - off)) % 2 ^ 64

abbrev pub jump_by : ℕ → Machine → Machine
jump_by off m = record m { reader = record m.reader { ip = jump_target m.reader.ip off } }

-- The value of an object: a number is unboxed, and a copy of a reference is the same reference.
abbrev pub constant_value : ℕ → Option Object → Value
constant_value p none = null
constant_value p (some (number_int a)) = int a
constant_value p (some (number_float a)) = float a
constant_value p (some null_object) = null
constant_value p (some _) = obj p

abbrev pub constant_of : Machine → Option ℕ → Value
constant_of m none = null
constant_of m (some p) = constant_value p (object_at m.heap p)

abbrev pub load_slot : Option Value → Machine → Outcome
load_slot none m = throws name_error slot_out_of_range m
load_slot (some v) m =
    if is_undef v then throws name_error used_before_assignment m else next (push v m)

abbrev pub store_slot : ℕ → List Value → Machine → Outcome
store_slot slot stack m =
    if ltb slot (length m.locals) then store stack else throws name_error slot_out_of_range m
  where
    store : List Value → Outcome
    store [] = undefined
    store (v ∷ _) = next (record m { locals = set m.locals slot v })

abbrev pub finish_op : Machine → Result → Outcome
finish_op m (ok v h) = next (record m { stack = v ∷ m.stack; heap = h })
finish_op m (thrown e msg) = throws e msg m

abbrev pub pop_one : List Value → (Value → List Value → Outcome) → Outcome
pop_one [] k = undefined
pop_one (a ∷ rest) k = k a rest

abbrev pub pop_two : List Value → (Value → Value → List Value → Outcome) → Outcome
pop_two (b ∷ a ∷ rest) k = k a b rest
pop_two _ k = undefined

-- The length of a list or of a string.
abbrev pub iterable_length : Option Object → Option ℕ
iterable_length (some (list xs)) = some (length xs)
iterable_length (some (string s)) = some (length s)
iterable_length _ = none

abbrev pub prepare_length : Option ℕ → Machine → Outcome
prepare_length none m = throws type_error cannot_iterate_type m
prepare_length (some n) m = next (push (int 0) (push (int n) m))

abbrev pub prepare : Value → Machine → Outcome
prepare (obj p) m =
    if p == 0
    then throws type_error cannot_iterate m
    else prepare_length (iterable_length (object_at m.heap p)) m
prepare _ m = throws type_error cannot_iterate m

-- The element of a list, or the string of one character of a string; anything else leaves the
-- item without a value.
abbrev pub item_at : Heap → Option Object → ℕ → Option (Value × Heap)
item_at h (some (list xs)) i = do p ← get_elem? xs i; some (constant_value p (object_at h p), h)
item_at h (some (string s)) i = do c ← get_elem? s i; some (alloc_string (c ∷ []) h)
item_at h _ i = none

abbrev pub item_of : Heap → Value → ℕ → Option (Value × Heap)
item_of h (obj p) i = item_at h (object_at h p) i
item_of h _ i = none

-- The item is pushed; the write of the next index at `stack_.size() - 4` then falls on the iterable.
abbrev pub push_item : Option (Value × Heap) → Value → Value → ℕ → List Value → Machine → Outcome
push_item none index len i rest m = undefined
push_item (some (v, h)) index len i rest m =
    next (record m { stack = v ∷ index ∷ len ∷ int (int_add i 1) ∷ rest; heap = h })

abbrev pub as_int : Value → Option ℕ
as_int (int a) = some a
as_int _ = none

-- With the index and the length, where they are integers.
unfoldable pub iterate_ints : ℕ → Option ℕ → Option ℕ → Value → List Value → Machine → Outcome
iterate_ints off (some i) (some n) iter rest m =
    if int_lt i n
    then push_item (item_of m.heap iter i) (int i) (int n) i rest m
    else next (jump_by off (record m { stack = rest }))
iterate_ints off _ _ iter rest m = throws type_error no_message m

unfoldable pub iterate : ℕ → List Value → Machine → Outcome
unfolding iterate_ints
iterate off (index ∷ len ∷ iter ∷ rest) m = iterate_ints off (as_int index) (as_int len) iter rest m
iterate off _ m = undefined

abbrev pub set_handler : ℕ → Machine → Outcome
set_handler off m =
    if leb try_max (length m.tries)
    then throws stack_overflow try_overflow m
    else next (record m {
      tries =
          (record { reader_ip = jump_target m.reader.ip off; stack_top = length m.stack })
          ∷ m.tries;
    })

abbrev pub drop_handler : Machine → Machine
drop_handler m = record m { tries = drop 1 m.tries }

abbrev pub with_operand : Option (ℕ × BytecodeReader) → Machine → (ℕ → Machine → Outcome) → Outcome
with_operand none m k = undefined
with_operand (some (n, r)) m k = k n (record m { reader = r })

-- The value of a chunk that ends.
abbrev pub top_or_undef : List Value → Value
top_or_undef [] = undef
top_or_undef (v ∷ _) = v

module _ (f : FloatOps) where
  abbrev pub run_binary : OpCode → Machine → Outcome
  run_binary op m =
      pop_two m.stack
        (λ a b rest. finish_op (record m { stack = rest }) (binary_op f op a b m.heap))

  -- One opcode, which the reader has passed.
  unfoldable pub exec_op : OpCode → Machine → Outcome
  exec_op OpCode.load_const m =
      with_operand (read_const_idx m.reader) m
        (λ i n. next (push (constant_of n (get_elem? n.constants i)) n))
  exec_op OpCode.load_local m =
      with_operand (read_byte m.reader) m (λ slot n. load_slot (get_elem? n.locals slot) n)
  exec_op OpCode.store_local m =
      with_operand (read_byte m.reader) m (λ slot n. store_slot slot n.stack n)
  exec_op OpCode.pop m = pop_one m.stack (λ a rest. next (record m { stack = rest }))
  exec_op OpCode.neg m =
      pop_one m.stack (λ a rest. finish_op (record m { stack = rest }) (neg_op f a m.heap))
  exec_op OpCode.not m =
      pop_one m.stack (λ a rest. finish_op (record m { stack = rest }) (not_op f a m.heap))
  exec_op OpCode.jump m = with_operand (read_short m.reader) m (λ off n. next (jump_by off n))
  exec_op OpCode.jump_if_false m = with_operand (read_short m.reader) m (λ off n.
      pop_one n.stack (λ c rest.
        let popped : Machine = record n { stack = rest } in
        next (if is_truthy f n.heap c then popped else jump_by off popped)))
  exec_op OpCode.for_prep m = pop_one m.stack (λ iter rest. prepare iter m)
  exec_op OpCode.for_iter m = with_operand (read_short m.reader) m (λ off n. iterate off n.stack n)
  exec_op OpCode.break_op m = breaks
  exec_op OpCode.continue_op m = continues
  exec_op OpCode.return_op m = pop_one m.stack (λ a rest. returns a)
  exec_op OpCode.try_push m = with_operand (read_short m.reader) m set_handler
  exec_op OpCode.try_pop m = next (drop_handler m)
  exec_op OpCode.import_op m = with_operand (read_const_idx m.reader) m (λ i n. next n)
  exec_op OpCode.halt m = halts (top_or_undef m.stack)
  exec_op OpCode.add m = run_binary OpCode.add m
  exec_op OpCode.sub m = run_binary OpCode.sub m
  exec_op OpCode.mul m = run_binary OpCode.mul m
  exec_op OpCode.div m = run_binary OpCode.div m
  exec_op OpCode.pow m = run_binary OpCode.pow m
  exec_op OpCode.eq m = run_binary OpCode.eq m
  exec_op OpCode.ne m = run_binary OpCode.ne m
  exec_op OpCode.lt m = run_binary OpCode.lt m
  exec_op OpCode.gt m = run_binary OpCode.gt m
  exec_op OpCode.lte m = run_binary OpCode.lte m
  exec_op OpCode.gte m = run_binary OpCode.gte m
  exec_op OpCode.and m = run_binary OpCode.and m
  exec_op OpCode.or m = run_binary OpCode.or m
  exec_op op m = elsewhere op

  unfoldable pub exec_byte : Option OpCode → Machine → Outcome
  unfolding exec_op
  exec_byte none m = throws unknown_opcode unknown_op m
  exec_byte (some op) m = exec_op op m

  -- One round of the loop: the opcode is read, then run.
  unfoldable pub step : Machine → Outcome
  unfolding exec_byte
  step m = with_operand (read_byte m.reader) m (λ b n. exec_byte (op_of_byte b) n)
