-- ===== src/Interp/Machine/Handlers.antt =====
-- src/interp/interpreter.h, `handle_error` and the loop around the opcodes, and what they promise of
-- the handlers.
use Prim.Native.Char.{code}
use Prim.Native.String.{String}
use arc_jit.Bytecode.Chunk.{at_end}
use arc_jit.Interp.Arith.{
  FloatOps, InterpError, stack_overflow, Message, cannot_iterate, cannot_iterate_type,
  cannot_negate, division_by_zero, incompatible_types, no_message, slot_out_of_range, try_overflow,
  unknown_op, used_before_assignment,
}
use mathlib.Core.Option.{some-injective}
use mathlib.Core.Path.{subst}
use arc_jit.Interp.Machine.{
  breaks, continues, elsewhere, returns, undefined, jump_target, set_handler, try_max, Machine,
  Outcome, TryEntry, halts, next, step, throws, top_or_undef,
}
use arc_jit.Interp.Value.{Value, alloc_string}
use arc_jit.Prelude.{
  ℕ, zero, suc, ◌-◌, ◌≡◌, refl, true, false, sym, ap, ◌∙◌, inl, inr, ◌++◌, Bool-cases, leb,
  length-append, if◌then◌else◌, Option, none, some, List, [], ◌∷◌, length, drop, arith,
}

abbrev codes : String → List ℕ
codes String.[] = []
codes (String.◌∷◌ c s) = code c ∷ codes s

-- The texts of the errors; an empty one becomes "Unknown error".
abbrev pub message_text : Message → List ℕ
message_text division_by_zero = codes "Division by zero."
message_text incompatible_types = codes "Incompatible types for operation."
message_text cannot_negate = codes "Cannot negate non-number."
message_text slot_out_of_range = codes "Local slot out of range."
message_text used_before_assignment = codes "Variable used before assignment."
message_text cannot_iterate = codes "ForPrep: cannot iterate non-iterable."
message_text cannot_iterate_type = codes "ForPrep: cannot iterate this type."
message_text try_overflow = codes "Try stack overflow."
message_text unknown_op = codes "Unknown opcode"
message_text no_message = codes "Unknown error"

-- The jump to the handler `t`, with `rest` of the handlers left.
unfoldable pub resume : TryEntry → List TryEntry → Message → Machine → Machine
resume t rest msg m =
    let (text, h) = alloc_string (message_text msg) m.heap in
    record m {
      reader = record m.reader { ip = t.reader_ip };
      stack = text ∷ drop (length m.stack - t.stack_top) m.stack;
      tries = rest;
      heap = h;
    }

-- The error goes to the innermost handler, or out of the loop.
unfoldable pub handle_error : List TryEntry → InterpError → Message → Machine → Outcome
unfolding resume
handle_error [] e msg m = throws e msg m
handle_error (t ∷ rest) e msg m = next (resume t rest msg m)

unfoldable pub caught : Outcome → Outcome
unfolding handle_error
caught (throws e msg m) = handle_error m.tries e msg m
caught o = o

abbrev tries_of : Outcome → List TryEntry
tries_of (next m) = m.tries
tries_of o = []

set_handler-room :
    (off : ℕ) (m : Machine)
    → leb try_max (length m.tries) ≡ false
    → set_handler off m
      ≡ next (record m {
        tries =
            (record { reader_ip = jump_target m.reader.ip off; stack_top = length m.stack })
            ∷ m.tries;
      })
set_handler-room off m room = rw room refl

drop_count : {A : Type 0} (pushed xs : List A) → length (pushed ++ xs) - length xs ≡ length pushed
drop_count pushed xs = omega (arith, length-append pushed xs)

drop_all : {A : Type 0} (pushed xs : List A) → drop (length pushed) (pushed ++ xs) ≡ xs
drop_all [] xs = refl
drop_all (x ∷ pushed) xs = drop_all pushed xs

set_handler-tries :
    (off : ℕ) (m set_at : Machine)
    → set_handler off m ≡ next set_at
    → set_at.tries
      ≡ record { reader_ip = jump_target m.reader.ip off; stack_top = length m.stack } ∷ m.tries
set_handler-tries off m set_at h = elim (Bool-cases (leb try_max (length m.tries))) [
  | inl full ↦
      let out : throws stack_overflow try_overflow m ≡ next set_at = rw full at h in absurd (cc out)
  | inr room ↦ sym (ap tries_of (sym (set_handler-room off m room) ∙ h))
]

drop-pushed :
    {A : Type 0} (pushed xs : List A) → drop (length (pushed ++ xs) - length xs) (pushed ++ xs) ≡ xs
drop-pushed pushed xs = rw (drop_count pushed xs) (drop_all pushed xs)

module _ (f : FloatOps) where
  abbrev pub go_on : (Machine → Option Outcome) → Outcome → Option Outcome
  go_on k (next m) = k m
  go_on k o = some o

  -- The loop: `none` where the fuel ends first.
  unfoldable pub dispatch_loop : ℕ → Machine → Option Outcome
  dispatch_loop zero m = none
  dispatch_loop (suc n) m =
      let round = go_on (dispatch_loop n) (caught (step f m)) in
      if at_end m.reader then some (halts (top_or_undef m.stack)) else round

  -- How the loop may end: not in the middle, and with an error only where no handler is set.
  abbrev Ended : Outcome → Type 0
  Ended (next m) = false ≡ true
  Ended (throws e msg m) = m.tries ≡ []
  Ended o = Unit

  handle_error-uncaught :
      (ts : List TryEntry) (e : InterpError) (msg : Message) (m : Machine)
      → ts ≡ m.tries
      → (k : Machine → Option Outcome) → ((m' : Machine) (o : Outcome) → k m' ≡ some o → Ended o)
      → (o : Outcome) → go_on k (handle_error ts e msg m) ≡ some o
      → Ended o
  unfolding handle_error
  handle_error-uncaught [] e msg m same k ends o h = subst Ended (some-injective _ _ h) (sym same)
  handle_error-uncaught (t ∷ rest) e msg m same k ends o h = ends _ o h

  caught-Ended :
      (x : Outcome) (k : Machine → Option Outcome)
      → ((m' : Machine) (o : Outcome) → k m' ≡ some o → Ended o)
      → (o : Outcome) → go_on k (caught x) ≡ some o
      → Ended o
  unfolding caught
  caught-Ended (next m) k ends o h = ends m o h
  caught-Ended (throws e msg m) k ends o h = handle_error-uncaught m.tries e msg m refl k ends o h
  caught-Ended (returns v) k ends o h = subst Ended (some-injective _ _ h) tt
  caught-Ended (halts v) k ends o h = subst Ended (some-injective _ _ h) tt
  caught-Ended breaks k ends o h = subst Ended (some-injective _ _ h) tt
  caught-Ended continues k ends o h = subst Ended (some-injective _ _ h) tt
  caught-Ended undefined k ends o h = subst Ended (some-injective _ _ h) tt
  caught-Ended (elsewhere op) k ends o h = subst Ended (some-injective _ _ h) tt

  -- An error leaves the loop only where no handler is set.
  dispatch_loop-Ended : (n : ℕ) (m : Machine) (o : Outcome) → dispatch_loop n m ≡ some o → Ended o
  unfolding dispatch_loop
  dispatch_loop-Ended zero m o h = absurd (cc h)
  dispatch_loop-Ended (suc n) m o h = elim (Bool-cases (at_end m.reader)) [
    | inl done ↦
        let value : some (halts (top_or_undef m.stack)) ≡ some o = rw done at h in
        subst Ended (some-injective _ _ value) tt
    | inr more ↦ caught-Ended (step f m) (dispatch_loop n) (dispatch_loop-Ended n) o (rw more at h)
  ]

  -- After `set_handler` at the machine `m`, an error that is thrown while its handler is the
  -- innermost one and with the stack of `m` under any values takes the loop to the handler's
  -- address, with the stack of `m` under the text of the error and with the handlers of `m`.
  pub dispatch_loop-set_handler :
      (n off : ℕ) (m set_at thrower thrown : Machine) (e : InterpError) (msg : Message)
      (pushed : List Value)
      → set_handler off m ≡ next set_at
      → at_end thrower.reader ≡ false
      → step f thrower ≡ throws e msg thrown
      → thrown.tries ≡ set_at.tries
      → thrown.stack ≡ pushed ++ m.stack
      → (after : Machine) × (dispatch_loop (suc n) thrower ≡ dispatch_loop n after)
        × (after.reader.ip ≡ jump_target m.reader.ip off)
        × (after.stack ≡ (alloc_string (message_text msg) thrown.heap).0 ∷ m.stack)
        × (after.tries ≡ m.tries)
        × (after.locals ≡ thrown.locals)
  unfolding dispatch_loop resume caught handle_error
  dispatch_loop-set_handler n off m set_at thrower thrown e msg pushed set more error same_tries
        stack =
      let t : TryEntry = record {
        reader_ip = jump_target m.reader.ip off;
        stack_top = length m.stack;
      } in
      let tries : thrown.tries ≡ t ∷ m.tries = same_tries ∙ set_handler-tries off m set_at set in
      (
        resume t m.tries msg thrown,
        rw (more, error, tries) refl,
        refl,
        rw stack (
            ap (λ xs. (alloc_string (message_text msg) thrown.heap).0 ∷ xs)
              (drop-pushed pushed m.stack)),
        refl,
        refl,
      )
