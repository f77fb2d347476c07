-- ===== src/Passes/Branch.antt =====
-- src/passman/pass.cpp, `BranchFoldingPass::run`.
pub mod Taken
use arc_jit.Core.Graph.{Edge, Graph, at, data_edge, inputs_of, inputs_of_kind, mark_dead}
use arc_jit.Core.Node.{NodeId, NodeKind, dead}
use arc_jit.Passes.{PassState, count_change, is_const_int, pass_loop, run_pass}
use arc_jit.Prelude.{
  ℕ, Bool, true, false, ◌&&◌, ◌||◌, ◌==◌, ◌!=◌, if◌then◌else◌, List, [], ◌∷◌, length,
}
use mathlib.Core.Bool.{not}

abbrev pub is_if : NodeKind → Bool
is_if NodeKind.if_kind = true
is_if _ = false

-- The branch that is not taken under the condition.
abbrev pub untaken : Bool → NodeKind → Bool
untaken cond NodeKind.if_false = cond
untaken cond NodeKind.if_true = not cond
untaken cond _ = false

abbrev pub only_input : NodeId → List Edge → Bool
only_input id (e ∷ []) = e.target == id
only_input id _ = false

-- A live projection of the node `id`, its only input, that is not taken.
unfoldable pub folds_away : NodeId → Bool → Graph → NodeId → Bool
folds_away id cond g j =
    not (dead (at g j)) && only_input id (inputs_of g j) && untaken cond (at g j).kind

unfoldable pub branch_step : NodeId → Bool → NodeId → PassState → PassState
branch_step id cond j s =
    if folds_away id cond s.graph j
    then record { graph = mark_dead j s.graph; result = count_change 1 0 s.result }
    else s

-- The walk over the nodes for the branches of `id`; it adds no node.
abbrev pub fold_branches : NodeId → Bool → PassState → PassState
fold_branches id cond s = pass_loop (branch_step id cond) (length s.graph.nodes) 1 s

-- The first data input is the condition.
abbrev pub fold_on : NodeId → List NodeId → PassState → PassState
fold_on id [] s = s
fold_on id (c ∷ _) s =
    if is_const_int (at s.graph c).kind then fold_branches id ((at s.graph c).payload != 0) s else s

unfoldable pub branch_fold_step : NodeId → PassState → PassState
branch_fold_step id s =
    if not (dead (at s.graph id)) && is_if (at s.graph id).kind
    then fold_on id (inputs_of_kind s.graph id data_edge) s
    else s

abbrev pub branch_folding : Graph → PassState
branch_folding g = run_pass branch_fold_step g
