-- ===== src/Passes/ConstFold.antt =====
-- src/passman/pass.cpp, `ConstantFoldingPass::run`.
pub mod Sound
pub mod Step
use arc_jit.Core.Graph.{Graph, at, data_edge, inputs_of_kind, next_id}
use arc_jit.Core.Node.{
  NodeId, NodeKind, NodeFlags, ◌∪◌, dead, pure_flag, cseable_flag, gvnable_flag,
}
use arc_jit.Passes.{
  PassState, count_change, run_pass, two_valid, is_const_int, replace_node, add_const,
}
use arc_jit.Prelude.{ℕ, ◌&&◌, if◌then◌else◌, Option, none, some}
use arc_jit.Tier1.Alu.{add64, sub64, mul64}

-- The `switch`; other kinds are skipped. A signed overflow, undefined in the source, wraps here.
unfoldable pub fold_value : NodeKind → ℕ → ℕ → Option ℕ
fold_value NodeKind.add a b = some (add64 a b)
fold_value NodeKind.sub a b = some (sub64 a b)
fold_value NodeKind.mul a b = some (mul64 a b)
fold_value _ a b = none

-- The value that replaces the node, if the pass folds it.
unfoldable pub folded : Graph → NodeId → Option ℕ
folded g id =
    let n = at g id in
    if dead n then none else elim (two_valid (inputs_of_kind g id data_edge)) [
      | none ↦ none
      | some (a, b) ↦
          if is_const_int (at g a).kind && is_const_int (at g b).kind
          then fold_value n.kind (at g a).payload (at g b).payload
          else none
    ]

abbrev pub const_flags : NodeFlags
unfolding ◌∪◌
const_flags = pure_flag ∪ cseable_flag ∪ gvnable_flag

unfoldable pub const_fold_step : NodeId → PassState → PassState
const_fold_step id s = elim (folded s.graph id) [
  | none ↦ s
  | some v ↦ record {
    graph = replace_node id (next_id s.graph) (add_const const_flags v s.graph);
    result = count_change 1 1 s.result;
  }
]

unfoldable pub const_fold : Graph → PassState
const_fold = run_pass const_fold_step
