-- ===== src/Passes/Escape.antt =====
-- src/passman/pass.cpp, `EscapeAnalysisPass::run`.
pub mod Pinned
pub mod Sound
use arc_jit.Core.Graph.{Edge, Graph, at, data_edge, inputs_of, same_kind}
use arc_jit.Core.Node.{Node, NodeId, NodeKind, ◌∪◌, dead, is_pinned_flag}
use arc_jit.Passes.{PassState, report_change, run_pass, set_node}
use arc_jit.Prelude.{
  ℕ, zero, suc, ◌+◌, Bool, true, false, ◌&&◌, ◌||◌, ltb, ◌==◌, if◌then◌else◌, List, [], ◌∷◌, length,
}
use mathlib.Core.Bool.{not}

abbrev pub safe_use : NodeKind → Bool
safe_use NodeKind.load_field = true
safe_use NodeKind.store_field = true
safe_use NodeKind.check_shape = true
safe_use NodeKind.shape_of = true
safe_use _ = false

-- Some data input of a user of kind `k` lets `id` escape.
unfoldable pub input_escapes : NodeId → NodeKind → List Edge → Bool
input_escapes id k [] = false
input_escapes id k (e ∷ es) =
    e.target == id && same_kind e.kind data_edge && not (safe_use k) || input_escapes id k es

abbrev pub user_escapes : Graph → NodeId → NodeId → Bool
user_escapes g id user =
    if dead (at g user) then false else input_escapes id (at g user).kind (inputs_of g user)

-- The loop over the users, from `j` on.
unfoldable pub escapes_from : ℕ → NodeId → Graph → NodeId → Bool
escapes_from zero j g id = false
escapes_from (suc f) j g id =
    let rest = escapes_from f (j + 1) g id in
    if ltb j (length g.nodes) then user_escapes g id j || rest else false

-- The fuel is one round for each node.
abbrev pub escapes : Graph → NodeId → Bool
escapes g id = escapes_from (length g.nodes) 1 g id

abbrev pub is_allocate : NodeKind → Bool
is_allocate NodeKind.allocate = true
is_allocate _ = false

abbrev pub pin : Node → Node
pin n = record n { flags = n.flags ∪ is_pinned_flag }

-- A live allocation that no user lets escape.
abbrev pub stays_local : Graph → NodeId → Bool
stays_local g id = not (dead (at g id)) && is_allocate (at g id).kind && not (escapes g id)

unfoldable pub escape_step : NodeId → PassState → PassState
escape_step id s =
    if stays_local s.graph id
    then record {
      graph = set_node id (pin (at s.graph id)) s.graph;
      result = report_change s.result;
    }
    else s

abbrev pub escape_analysis : Graph → PassState
escape_analysis g = run_pass escape_step g
