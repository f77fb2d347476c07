-- ===== src/Passes/AlgebraicSimp.antt =====
-- src/passman/pass.cpp, `AlgebraicSimplificationPass::run`.
pub mod Sound
use arc_jit.Core.Graph.{Graph, at, data_edge, inputs_of_kind, next_id}
use arc_jit.Core.Node.{NodeId, NodeKind, NodeFlags, ◌∪◌, dead, valid, pure_flag, gvnable_flag}
use arc_jit.Passes.{
  PassState, count_change, run_pass, two_valid, is_const_int, replace_node, add_const,
}
use arc_jit.Prelude.{
  ℕ, Bool, true, false, ◌&&◌, ◌||◌, ◌==◌, if◌then◌else◌, none, some, List, [], ◌∷◌,
}

-- What becomes of a node: nothing, another node in its place, or a new constant 0.
pub data Simplification : Type 0 where
  keep use_zero : Simplification
  use_node : NodeId → Simplification

abbrev pub is_const : Graph → NodeId → ℕ → Bool
is_const g a v = is_const_int (at g a).kind && ((at g a).payload == v)

abbrev pub is_not : NodeKind → Bool
is_not NodeKind.not = true
is_not _ = false

-- The first data input of the inner `Not`, if there is one.
abbrev pub first_input : List NodeId → Simplification
first_input [] = keep
first_input (t ∷ ts) = use_node t

-- The `switch` over the kind and the test for `Not(Not(x))` after it.
unfoldable pub simplify_pair : Graph → NodeKind → NodeId → NodeId → Simplification
simplify_pair g NodeKind.add a b =
    if is_const g b 0 then use_node a else if is_const g a 0 then use_node b else keep
simplify_pair g NodeKind.sub a b =
    if is_const g b 0 then use_node a else if a == b then use_zero else keep
simplify_pair g NodeKind.mul a b =
    if is_const g a 0 || is_const g b 0
    then use_zero
    else if is_const g b 1
    then use_node a
    else if is_const g a 1
    then use_node b
    else keep
simplify_pair g NodeKind.div a b = if is_const g b 1 then use_node a else keep
simplify_pair g NodeKind.not a b =
    if is_not (at g a).kind then first_input (inputs_of_kind g a data_edge) else keep
simplify_pair g _ a b = keep

unfoldable pub simplification : Graph → NodeId → Simplification
simplification g id =
    if dead (at g id) then keep else elim (two_valid (inputs_of_kind g id data_edge)) [
      | none ↦ keep
      | some (a, b) ↦ simplify_pair g (at g id).kind a b
    ]

abbrev pub zero_flags : NodeFlags
unfolding ◌∪◌
zero_flags = pure_flag ∪ gvnable_flag

-- `if (replaced && replacement.valid())`
unfoldable pub apply_simplification : Simplification → NodeId → PassState → PassState
apply_simplification keep id s = s
apply_simplification use_zero id s = record {
  graph = replace_node id (next_id s.graph) (add_const zero_flags 0 s.graph);
  result = count_change 1 0 s.result;
}
apply_simplification (use_node t) id s =
    if valid t
    then record { graph = replace_node id t s.graph; result = count_change 1 0 s.result }
    else s

unfoldable pub algebraic_step : NodeId → PassState → PassState
algebraic_step id s = apply_simplification (simplification s.graph id) id s

unfoldable pub algebraic_simplification : Graph → PassState
algebraic_simplification = run_pass algebraic_step
