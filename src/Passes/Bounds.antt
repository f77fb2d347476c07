-- ===== src/Passes/Bounds.antt =====
-- src/passman/pass.cpp, `BoundsCheckEliminationPass::run`.
pub mod Removed
use arc_jit.Core.Graph.{Graph, at, data_edge, inputs_of_kind}
use arc_jit.Core.Node.{NodeId, NodeKind, dead}
use arc_jit.Passes.{PassState, count_change, is_const_int, replace_node, run_pass}
use arc_jit.Prelude.{ℕ, Bool, true, false, ◌&&◌, ltb, ◌==◌, if◌then◌else◌, List, [], ◌∷◌}
use arc_jit.Tier1.Alu.{bias, sign_bit}
use mathlib.Core.Bool.{not}

abbrev pub is_check_bounds : NodeKind → Bool
is_check_bounds NodeKind.check_bounds = true
is_check_bounds _ = false

-- `idx >= 0 && idx < len` on the payloads read as signed words.
unfoldable pub in_bounds : ℕ → ℕ → Bool
in_bounds index len = ltb index sign_bit && ltb (bias index) (bias len)

-- `g.replace_all_uses_with(id, data[0]); g.mark_dead(id);`
abbrev pub remove_check : NodeId → NodeId → PassState → PassState
remove_check id index s = record {
  graph = replace_node id index s.graph;
  result = count_change 1 0 s.result;
}

-- Case 1: both are constants. The references to the nodes stay good while the graph changes.
unfoldable pub prove_constant : NodeId → NodeId → NodeId → PassState → PassState
prove_constant id index len s =
    let i = at s.graph index in
    let l = at s.graph len in
    if is_const_int i.kind && is_const_int l.kind && in_bounds i.payload l.payload
    then remove_check id index s
    else s

-- Case 2: the index is 0.
unfoldable pub assume_zero : NodeId → NodeId → PassState → PassState
assume_zero id index s =
    let i = at s.graph index in
    if is_const_int i.kind && i.payload == 0 then remove_check id index s else s

abbrev pub visit_check : NodeId → List NodeId → PassState → PassState
visit_check id (index ∷ len ∷ _) s = assume_zero id index (prove_constant id index len s)
visit_check id _ s = s

unfoldable pub bounds_step : NodeId → PassState → PassState
bounds_step id s =
    if not (dead (at s.graph id)) && is_check_bounds (at s.graph id).kind
    then visit_check id (inputs_of_kind s.graph id data_edge) s
    else s

abbrev pub bounds_check_elimination : Graph → PassState
bounds_check_elimination g = run_pass bounds_step g
