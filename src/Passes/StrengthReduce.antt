-- ===== src/Passes/StrengthReduce.antt =====
-- src/passman/pass.cpp, `StrengthReductionPass::run`.
pub mod Shift
pub mod Choice
pub mod Sound
use Prim.Native.Nat.{bit_and}
use arc_jit.Core.Graph.{Edge, Graph, add_node, at, data_edge, inputs_of_kind, next_id}
use arc_jit.Core.Node.{NodeId, NodeKind, NodeFlags, TypeId, ◌∪◌, dead, pure_flag, gvnable_flag}
use arc_jit.Passes.{
  PassState, count_change, run_pass, two_valid, is_const_int, replace_node, add_const,
}
use arc_jit.Prelude.{
  ℕ, zero, suc, ◌+◌, ◌-◌, ◌/◌, ltb, Bool, true, false, ◌&&◌, ◌||◌, ◌==◌, if◌then◌else◌, Option,
  none, some, List, [], ◌∷◌,
}
use arc_jit.Tier1.Alu.{sign_bit}

-- `bv > 0 && (bv & (bv - 1)) == 0`, on the payload as a signed number.
unfoldable pub is_positive_pow2 : ℕ → Bool
is_positive_pow2 bv = ltb 0 bv && ltb bv sign_bit && bit_and bv (bv - 1) == 0

-- `while (tmp > 1) { tmp >>= 1; shift_amount++; }`
unfoldable pub shift_loop : ℕ → ℕ → ℕ → ℕ
shift_loop zero tmp amount = amount
shift_loop (suc f) tmp amount =
    let rest = shift_loop f (tmp / 2) (amount + 1) in if ltb 1 tmp then rest else amount

-- A 64-bit number is shifted down to one in at most 63 rounds.
abbrev pub shift_amount : ℕ → ℕ
shift_amount bv = shift_loop 64 bv 0

-- The shift that takes the place of an operation.
abbrev pub shift_kind : NodeKind → Option NodeKind
shift_kind NodeKind.mul = some NodeKind.shl
shift_kind NodeKind.div = some NodeKind.shr
shift_kind _ = none

-- A shift of a node by an amount.
abbrev pub Shift : Type 0
Shift = NodeKind × NodeId × ℕ

abbrev pub shift_of : Graph → NodeId → NodeId → NodeKind → Option Shift
shift_of g a b k =
    if is_const_int (at g b).kind && is_positive_pow2 (at g b).payload
    then some (k, a, shift_amount (at g b).payload)
    else none

abbrev pub shift_if : Graph → NodeId → NodeId → Option NodeKind → Option Shift
shift_if g a b none = none
shift_if g a b (some k) = shift_of g a b k

abbrev pub reduce_pair : Graph → NodeKind → Option (NodeId × NodeId) → Option Shift
reduce_pair g k none = none
reduce_pair g k (some (a, b)) = shift_if g a b (shift_kind k)

unfoldable pub reduction : Graph → NodeId → Option Shift
reduction g id =
    if dead (at g id)
    then none
    else reduce_pair g (at g id).kind (two_valid (inputs_of_kind g id data_edge))

abbrev pub shift_flags : NodeFlags
unfolding ◌∪◌
shift_flags = pure_flag ∪ gvnable_flag

abbrev pub shift_inputs : NodeId → NodeId → List Edge
shift_inputs a b =
    record { target = a; kind = data_edge } ∷ record { target = b; kind = data_edge } ∷ []

-- The constant comes first, then the shift that reads it.
abbrev pub replace_by_shift : Shift → NodeId → Graph → Graph
replace_by_shift (k, a, amount) id g =
    let g1 = add_const shift_flags amount g in
    replace_node id (next_id g1)
      (add_node k shift_flags TypeId.int 0 (shift_inputs a (next_id g)) g1)

unfoldable pub apply_reduction : Option Shift → NodeId → PassState → PassState
apply_reduction none id s = s
apply_reduction (some shift) id s = record {
  graph = replace_by_shift shift id s.graph;
  result = count_change 1 2 s.result;
}

unfoldable pub strength_step : NodeId → PassState → PassState
strength_step id s = apply_reduction (reduction s.graph id) id s

unfoldable pub strength_reduction : Graph → PassState
strength_reduction = run_pass strength_step
