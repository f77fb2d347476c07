-- ===== src/Passes/CompareFold.antt =====
-- src/passman/pass.cpp, `ComparisonFoldingPass::run`.
pub mod Sound
use arc_jit.Core.Graph.{Edge, Graph, add_node, at, data_edge, inputs_of_kind, next_id}
use arc_jit.Core.Node.{
  NodeId, NodeKind, NodeFlags, TypeId, ◌∪◌, dead, pure_flag, gvnable_flag, commutative_flag,
}
use arc_jit.Passes.{PassState, count_change, run_pass, replace_node, add_const}
use arc_jit.Prelude.{
  ℕ, Bool, true, false, ◌&&◌, ◌==◌, if◌then◌else◌, Option, none, some, List, [], ◌∷◌,
}

-- What becomes of a node: nothing, a new constant, or a new comparison of two nodes.
pub data Folding : Type 0 where
  keep : Folding
  use_const : ℕ → Folding
  use_compare : NodeKind → NodeId → NodeId → Folding

-- `data_count == 2 && data_inputs[0] == data_inputs[1]`
abbrev pub same_operands : List NodeId → Bool
same_operands (a ∷ b ∷ []) = a == b
same_operands _ = false

abbrev pub is_eq : NodeKind → Bool
is_eq NodeKind.eq = true
is_eq _ = false

abbrev pub is_ne : NodeKind → Bool
is_ne NodeKind.ne = true
is_ne _ = false

abbrev pub is_not : NodeKind → Bool
is_not NodeKind.not = true
is_not _ = false

-- The comparison that holds where the given one fails.
unfoldable pub inverted : NodeKind → Option NodeKind
inverted NodeKind.eq = some NodeKind.ne
inverted NodeKind.ne = some NodeKind.eq
inverted NodeKind.lt = some NodeKind.gte
inverted NodeKind.gt = some NodeKind.lte
inverted NodeKind.lte = some NodeKind.gt
inverted NodeKind.gte = some NodeKind.lt
inverted _ = none

-- The inner comparison must have exactly two data inputs.
abbrev pub compare_of : NodeKind → List NodeId → Folding
compare_of k (a ∷ b ∷ []) = use_compare k a b
compare_of k _ = keep

abbrev pub invert_kind : Option NodeKind → List NodeId → Folding
invert_kind none ts = keep
invert_kind (some k) ts = compare_of k ts

abbrev pub invert_inner : Graph → List NodeId → Folding
invert_inner g (d ∷ []) = invert_kind (inverted (at g d).kind) (inputs_of_kind g d data_edge)
invert_inner g _ = keep

unfoldable pub folding : Graph → NodeId → Folding
folding g id =
    let k = (at g id).kind in
    let ts = inputs_of_kind g id data_edge in
    if dead (at g id)
    then keep
    else if same_operands ts && is_eq k
    then use_const 1
    else if same_operands ts && is_ne k
    then use_const 0
    else if is_not k
    then invert_inner g ts
    else keep

abbrev pub const_flags : NodeFlags
unfolding ◌∪◌
const_flags = pure_flag ∪ gvnable_flag

-- The new comparison is flagged as commutative, whatever its kind.
abbrev pub compare_flags : NodeFlags
unfolding ◌∪◌
compare_flags = pure_flag ∪ gvnable_flag ∪ commutative_flag

abbrev pub two_inputs : NodeId → NodeId → List Edge
two_inputs a b =
    record { target = a; kind = data_edge } ∷ record { target = b; kind = data_edge } ∷ []

unfoldable pub apply_folding : Folding → NodeId → PassState → PassState
apply_folding keep id s = s
apply_folding (use_const v) id s = record {
  graph = replace_node id (next_id s.graph) (add_const const_flags v s.graph);
  result = count_change 1 0 s.result;
}
apply_folding (use_compare k a b) id s = record {
  graph =
      replace_node id (next_id s.graph)
        (add_node k compare_flags TypeId.bool 0 (two_inputs a b) s.graph);
  result = count_change 1 1 s.result;
}

unfoldable pub compare_fold_step : NodeId → PassState → PassState
compare_fold_step id s = apply_folding (folding s.graph id) id s

unfoldable pub compare_fold : Graph → PassState
compare_fold = run_pass compare_fold_step
