-- ===== src/Interp/Machine/Bounded.antt =====
-- src/interp/interpreter.h: what every round of the loop keeps of the machine.
use arc_jit.Bytecode.Chunk.{
  BytecodeReader, OpCode, op_of_byte, read_byte, read_const_idx, read_short,
}
use arc_jit.Interp.Arith.{
  FloatOps, InterpError, Message, Result, binary_op, is_truthy, neg_op, not_op, ok, thrown, int_lt,
}
use arc_jit.Interp.Machine.Handlers.{caught, handle_error, resume}
use arc_jit.Interp.Machine.{
  Machine, Outcome, TryEntry, constant_of, exec_byte, exec_op, finish_op, as_int, item_of,
  iterable_length, iterate, iterate_ints, load_slot, next, pop_one, pop_two, prepare,
  prepare_length, push_item, run_binary, set_handler, step, store_slot, throws, try_max,
  with_operand, drop_handler,
}
use arc_jit.Interp.Value.{Heap, Value, int, obj, is_undef, object_at}
use mathlib.Core.Path.{subst}
use arc_jit.Prelude.{
  ℕ, ◌+◌, ◌≤◌, ◌≡◌, refl, ap, ◌∙◌, inl, inr, Option, none, some, List, [], ◌∷◌, length, length-set,
  length-drop, set, ltb, leb, arith, Bool-cases, Option-cases, get_elem?, ◌==◌,
}

-- `n` came from `m`: the same code and constants, as many locals, and no more handlers than the
-- greater of before and the limit.
record Follows (m n : Machine) : Type 0 where
  code : n.reader.bytes ≡ m.reader.bytes
  pool : n.constants ≡ m.constants
  slots : length n.locals ≡ length m.locals
  handlers : length m.tries ≤ try_max → length n.tries ≤ try_max

abbrev Keeps : Machine → Outcome → Type 0
Keeps m (next n) = Follows m n
Keeps m (throws e msg n) = Follows m n
Keeps m _ = Unit

Follows-refl : (m : Machine) → Follows m m
Follows-refl m = record { code = refl; pool = refl; slots = refl; handlers = λ h. h }

-- A machine that differs in its stack, its heap and its address only.
same_frame :
    (m : Machine) (ip : ℕ) (stack : List Value) (h : Heap)
    → Follows m (record m { reader = record m.reader { ip = ip }; stack = stack; heap = h })
same_frame m ip stack h = record { code = refl; pool = refl; slots = refl; handlers = λ h. h }

abbrev SameBytes : Machine → Option (ℕ × BytecodeReader) → Type 0
SameBytes m none = Unit
SameBytes m (some (v, r)) = r.bytes ≡ m.reader.bytes

Follows-trans : {m n k : Machine} → Follows m n → Follows n k → Follows m k
Follows-trans p q = record {
  code = q.code ∙ p.code;
  pool = q.pool ∙ p.pool;
  slots = q.slots ∙ p.slots;
  handlers = λ h. q.handlers (p.handlers h);
}

Keeps-trans : (m n : Machine) (o : Outcome) → Follows m n → Keeps n o → Keeps m o
Keeps-trans m n (next k) p q = Follows-trans p q
Keeps-trans m n (throws e msg k) p q = Follows-trans p q
Keeps-trans m n _ p q = tt

with_operand-Keeps :
    (o : Option (ℕ × BytecodeReader)) (m : Machine) (k : ℕ → Machine → Outcome)
    → SameBytes m o
    → ((v : ℕ) (n : Machine) → Keeps n (k v n))
    → Keeps m (with_operand o m k)
with_operand-Keeps none m k same keeps = tt
with_operand-Keeps (some (v, r)) m k same keeps =
    Keeps-trans m (record m { reader = r }) (k v (record m { reader = r }))
      (record { code = same; pool = refl; slots = refl; handlers = λ h. h }) (keeps v _)

pop_one-Keeps :
    (xs : List Value) (m : Machine) (k : Value → List Value → Outcome)
    → ((a : Value) (rest : List Value) → Keeps m (k a rest))
    → Keeps m (pop_one xs k)
pop_one-Keeps [] m k keeps = tt
pop_one-Keeps (a ∷ rest) m k keeps = keeps a rest

pop_two-Keeps :
    (xs : List Value) (m : Machine) (k : Value → Value → List Value → Outcome)
    → ((a b : Value) (rest : List Value) → Keeps m (k a b rest))
    → Keeps m (pop_two xs k)
pop_two-Keeps [] m k keeps = tt
pop_two-Keeps (a ∷ []) m k keeps = tt
pop_two-Keeps (b ∷ a ∷ rest) m k keeps = keeps a b rest

finish_op-Keeps :
    (m : Machine) (rest : List Value) (r : Result)
    → Keeps m (finish_op (record m { stack = rest }) r)
finish_op-Keeps m rest (ok v h) = same_frame m m.reader.ip (v ∷ rest) h
finish_op-Keeps m rest (thrown e msg) = same_frame m m.reader.ip rest m.heap

load_slot-Keeps : (o : Option Value) (m : Machine) → Keeps m (load_slot o m)
load_slot-Keeps none m = Follows-refl m
load_slot-Keeps (some v) m = elim (Bool-cases (is_undef v)) [
  | inl u ↦ rw u (Follows-refl m)
  | inr d ↦ rw d (same_frame m m.reader.ip (v ∷ m.stack) m.heap)
]

stored-Follows :
    (m : Machine) (slot : ℕ) (v : Value) → Follows m (record m { locals = set m.locals slot v })
stored-Follows m slot v = record {
  code = refl;
  pool = refl;
  slots = length-set m.locals slot v;
  handlers = λ h. h;
}

store_slot-Keeps : (slot : ℕ) (xs : List Value) (m : Machine) → Keeps m (store_slot slot xs m)
store_slot-Keeps slot [] m = elim (Bool-cases (ltb slot (length m.locals))) [
  | inl t ↦ rw t tt
  | inr f ↦ rw f (Follows-refl m)
]
store_slot-Keeps slot (v ∷ _) m = elim (Bool-cases (ltb slot (length m.locals))) [
  | inl t ↦ rw t (stored-Follows m slot v)
  | inr f ↦ rw f (Follows-refl m)
]

prepare_length-Keeps : (o : Option ℕ) (m : Machine) → Keeps m (prepare_length o m)
prepare_length-Keeps none m = Follows-refl m
prepare_length-Keeps (some n) m = same_frame m m.reader.ip (int 0 ∷ int n ∷ m.stack) m.heap

prepare-Keeps : (v : Value) (m : Machine) → Keeps m (prepare v m)
prepare-Keeps (obj p) m = elim (Bool-cases (p == 0)) [
  | inl t ↦ rw t (Follows-refl m)
  | inr f ↦ rw f (prepare_length-Keeps (iterable_length (object_at m.heap p)) m)
]
prepare-Keeps _ m = Follows-refl m

push_item-Keeps :
    (o : Option (Value × Heap)) (a b : Value) (i : ℕ) (rest : List Value) (m : Machine)
    → Keeps m (push_item o a b i rest m)
push_item-Keeps none a b i rest m = tt
push_item-Keeps (some (v, h)) a b i rest m = same_frame m m.reader.ip _ h

iterate_ints-Keeps :
    (off : ℕ) (a b : Option ℕ) (iter : Value) (rest : List Value) (m : Machine)
    → Keeps m (iterate_ints off a b iter rest m)
unfolding iterate_ints
iterate_ints-Keeps off (some i) (some n) iter rest m = elim (Bool-cases (int_lt i n)) [
  | inl t ↦ rw t (push_item-Keeps (item_of m.heap iter i) _ _ i rest m)
  | inr f ↦ rw f (same_frame m _ rest m.heap)
]
iterate_ints-Keeps off none b iter rest m = Follows-refl m
iterate_ints-Keeps off (some i) none iter rest m = Follows-refl m

iterate-Keeps : (off : ℕ) (xs : List Value) (m : Machine) → Keeps m (iterate off xs m)
unfolding iterate
iterate-Keeps off [] m = tt
iterate-Keeps off (a ∷ []) m = tt
iterate-Keeps off (a ∷ b ∷ []) m = tt
iterate-Keeps off (a ∷ b ∷ iter ∷ rest) m = iterate_ints-Keeps off (as_int a) (as_int b) iter rest m

set_handler-Keeps : (off : ℕ) (m : Machine) → Keeps m (set_handler off m)
set_handler-Keeps off m = elim (Bool-cases (leb try_max (length m.tries))) [
  | inl t ↦ rw t (Follows-refl m)
  | inr f ↦ rw f (record { code = refl; pool = refl; slots = refl; handlers = λ h. ground arith })
]

drop_handler-Follows : (m : Machine) → Follows m (drop_handler m)
drop_handler-Follows m = record {
  code = refl;
  pool = refl;
  slots = refl;
  handlers = λ h. omega (arith, length-drop 1 m.tries);
}

read_byte-SameBytes : (m : Machine) → SameBytes m (read_byte m.reader)
unfolding read_byte
read_byte-SameBytes m = elim (Option-cases (get_elem? m.reader.bytes m.reader.ip)) [
  | inl out ↦ rw out tt
  | inr (b, inside) ↦ rw inside refl
]

read_short-SameBytes : (m : Machine) → SameBytes m (read_short m.reader)
unfolding read_short
read_short-SameBytes m = elim (Option-cases (get_elem? m.reader.bytes m.reader.ip)) [
  | inl out ↦ rw out tt
  | inr (a, first) ↦ elim (Option-cases (get_elem? m.reader.bytes (m.reader.ip + 1))) [
    | inl out ↦ rw (first, out) tt
    | inr (b, second) ↦ rw (first, second) refl
  ]
]

read_const_idx-SameBytes : (m : Machine) → SameBytes m (read_const_idx m.reader)
unfolding read_const_idx
read_const_idx-SameBytes m = elim (Option-cases (get_elem? m.reader.bytes m.reader.ip)) [
  | inl out ↦ rw out tt
  | inr (a, first) ↦ elim (Option-cases (get_elem? m.reader.bytes (m.reader.ip + 1))) [
    | inl out ↦ rw (first, out) tt
    | inr (b, second) ↦ elim (Option-cases (get_elem? m.reader.bytes (m.reader.ip + 2))) [
      | inl out ↦ rw (first, second, out) tt
      | inr (c, third) ↦ rw (first, second, third) refl
    ]
  ]
]

module _ (f : FloatOps) where
  run_binary-Keeps : (op : OpCode) (m : Machine) → Keeps m (run_binary f op m)
  run_binary-Keeps op m =
      pop_two-Keeps m.stack m _ (λ a b rest. finish_op-Keeps m rest (binary_op f op a b m.heap))

  exec_op-Keeps : (op : OpCode) (m : Machine) → Keeps m (exec_op f op m)
  unfolding exec_op
  exec_op-Keeps OpCode.load_const m =
      with_operand-Keeps _ m _ (read_const_idx-SameBytes m)
        (λ i n. same_frame n n.reader.ip (constant_of n (get_elem? n.constants i) ∷ n.stack) n.heap)
  exec_op-Keeps OpCode.load_local m =
      with_operand-Keeps _ m _ (read_byte-SameBytes m)
        (λ slot n. load_slot-Keeps (get_elem? n.locals slot) n)
  exec_op-Keeps OpCode.store_local m =
      with_operand-Keeps _ m _ (read_byte-SameBytes m) (λ slot n. store_slot-Keeps slot n.stack n)
  exec_op-Keeps OpCode.pop m =
      pop_one-Keeps m.stack m _ (λ a rest. same_frame m m.reader.ip rest m.heap)
  exec_op-Keeps OpCode.neg m =
      pop_one-Keeps m.stack m _ (λ a rest. finish_op-Keeps m rest (neg_op f a m.heap))
  exec_op-Keeps OpCode.not m =
      pop_one-Keeps m.stack m _ (λ a rest. finish_op-Keeps m rest (not_op f a m.heap))
  exec_op-Keeps OpCode.jump m =
      with_operand-Keeps _ m _ (read_short-SameBytes m) (λ off n. same_frame n _ n.stack n.heap)
  exec_op-Keeps OpCode.jump_if_false m = with_operand-Keeps _ m _ (read_short-SameBytes m) (λ off n.
      pop_one-Keeps n.stack n _ (λ c rest. elim (Bool-cases (is_truthy f n.heap c)) [
        | inl t ↦ rw t (same_frame n n.reader.ip rest n.heap)
        | inr e ↦ rw e (same_frame n _ rest n.heap)
      ]))
  exec_op-Keeps OpCode.for_prep m = pop_one-Keeps m.stack m _ (λ iter rest. prepare-Keeps iter m)
  exec_op-Keeps OpCode.for_iter m =
      with_operand-Keeps _ m _ (read_short-SameBytes m) (λ off n. iterate-Keeps off n.stack n)
  exec_op-Keeps OpCode.return_op m = pop_one-Keeps m.stack m _ (λ a rest. tt)
  exec_op-Keeps OpCode.try_push m =
      with_operand-Keeps _ m _ (read_short-SameBytes m) set_handler-Keeps
  exec_op-Keeps OpCode.try_pop m = drop_handler-Follows m
  exec_op-Keeps OpCode.import_op m =
      with_operand-Keeps _ m _ (read_const_idx-SameBytes m) (λ i n. Follows-refl n)
  exec_op-Keeps OpCode.add m = run_binary-Keeps OpCode.add m
  exec_op-Keeps OpCode.sub m = run_binary-Keeps OpCode.sub m
  exec_op-Keeps OpCode.mul m = run_binary-Keeps OpCode.mul m
  exec_op-Keeps OpCode.div m = run_binary-Keeps OpCode.div m
  exec_op-Keeps OpCode.pow m = run_binary-Keeps OpCode.pow m
  exec_op-Keeps OpCode.eq m = run_binary-Keeps OpCode.eq m
  exec_op-Keeps OpCode.ne m = run_binary-Keeps OpCode.ne m
  exec_op-Keeps OpCode.lt m = run_binary-Keeps OpCode.lt m
  exec_op-Keeps OpCode.gt m = run_binary-Keeps OpCode.gt m
  exec_op-Keeps OpCode.lte m = run_binary-Keeps OpCode.lte m
  exec_op-Keeps OpCode.gte m = run_binary-Keeps OpCode.gte m
  exec_op-Keeps OpCode.and m = run_binary-Keeps OpCode.and m
  exec_op-Keeps OpCode.or m = run_binary-Keeps OpCode.or m
  exec_op-Keeps _ m = tt

  exec_byte-Keeps : (o : Option OpCode) (m : Machine) → Keeps m (exec_byte f o m)
  unfolding exec_byte
  exec_byte-Keeps none m = Follows-refl m
  exec_byte-Keeps (some op) m = exec_op-Keeps op m

  handle_error-Keeps :
      (ts : List TryEntry) (e : InterpError) (msg : Message) (m n : Machine)
      → n.tries ≡ ts
      → Follows m n
      → Keeps m (handle_error ts e msg n)
  unfolding handle_error resume
  handle_error-Keeps [] e msg m n same p = p
  handle_error-Keeps (t ∷ rest) e msg m n same p = record {
    code = p.code;
    pool = p.pool;
    slots = p.slots;
    handlers = λ h. omega (arith, p.handlers h, ap length same);
  }

  caught-Keeps : (m : Machine) (o : Outcome) → Keeps m o → Keeps m (caught o)
  unfolding caught
  caught-Keeps m (throws e msg n) p = handle_error-Keeps n.tries e msg m n refl p
  caught-Keeps m (next n) p = p
  caught-Keeps m _ p = tt

  -- A round of the loop, the jump to a handler included, keeps the code, the constants and the
  -- number of locals of the frame, and keeps the handlers within their limit of 256.
  pub step-Follows :
      (m n : Machine)
      → length m.tries ≤ try_max
      → caught (step f m) ≡ next n
      → (n.reader.bytes ≡ m.reader.bytes)
        × (n.constants ≡ m.constants)
        × (length n.locals ≡ length m.locals)
        × (length n.tries ≤ try_max)
  unfolding step
  step-Follows m n few e =
      let round =
        with_operand-Keeps _ m _ (read_byte-SameBytes m)
          (λ b k. exec_byte-Keeps (op_of_byte b) k) in
      let p : Follows m n = subst (Keeps m) e (caught-Keeps m (step f m) round) in
      (p.code, p.pool, p.slots, p.handlers few)
