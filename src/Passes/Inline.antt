-- ===== src/Passes/Inline.antt =====
-- src/passman/pass.cpp, `CallInliningPass::run`.
pub mod Known
use arc_jit.Core.Graph.{Graph, at, data_edge, inputs_of_kind}
use arc_jit.Core.Node.{Node, NodeId, NodeKind, dead}
use arc_jit.Passes.{PassState, report_change, run_pass, set_node}
use arc_jit.Prelude.{Bool, true, false, ◌&&◌, ◌||◌, if◌then◌else◌, List, [], ◌∷◌}
use mathlib.Core.Bool.{not}

abbrev pub is_call : NodeKind → Bool
is_call NodeKind.call = true
is_call _ = false

abbrev pub is_call_known : NodeKind → Bool
is_call_known NodeKind.call_known = true
is_call_known _ = false

abbrev pub is_const_func : NodeKind → Bool
is_const_func NodeKind.const_func = true
is_const_func _ = false

-- The first data input is the callee.
abbrev pub callee_known : Graph → List NodeId → Bool
callee_known g [] = false
callee_known g (callee ∷ _) = is_const_func (at g callee).kind

abbrev pub resolves : Graph → NodeId → Bool
resolves g id =
    not (dead (at g id))
    && (is_call (at g id).kind || is_call_known (at g id).kind)
    && callee_known g (inputs_of_kind g id data_edge)
    && is_call (at g id).kind

abbrev pub resolve : Node → Node
resolve n = record n { kind = NodeKind.call_known }

unfoldable pub inline_step : NodeId → PassState → PassState
inline_step id s =
    if resolves s.graph id
    then record {
      graph = set_node id (resolve (at s.graph id)) s.graph;
      result = report_change s.result;
    }
    else s

abbrev pub call_inlining : Graph → PassState
call_inlining g = run_pass inline_step g
