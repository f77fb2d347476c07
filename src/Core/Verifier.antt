-- ===== src/Core/Verifier.antt =====
-- src/core/verifier.cpp: the checks of a graph. An error keeps the node and the check; its text, which
-- is only printed, is left out.
pub mod Accepted
mod Tests
use arc_jit.Core.Graph.{
  Edge, EdgeKind, Graph, at, data_edge, effect_edge, inputs_of, inputs_of_kind, same_kind,
}
use arc_jit.Core.Node.{Node, NodeId, NodeKind, dead, has_flag, is_effect_flag, pure_flag, valid}
use arc_jit.Prelude.{
  ℕ, zero, suc, ◌+◌, Bool, true, false, ◌&&◌, ◌||◌, ltb, ◌==◌, ◌!=◌, if◌then◌else◌, Option, none,
  some, List, [], ◌∷◌, ◌++◌, length,
}
use mathlib.Core.Bool.{not}

pub record VerifierOptions : Type 0 where
  pub check_effect_chain : Bool
  pub check_use_def_consistency : Bool
  pub check_no_dead_with_users : Bool
  pub check_guard_has_frame_state : Bool
  pub check_pure_no_effect_edges : Bool
  pub dump_graph_on_failure : Bool

pub data Check : Type 0 where
  no_dead_with_users no_dangling_edges pure_no_effect_edges use_def_consistency : Check
  effect_chain_continuity start_no_inputs stop_one_data_input : Check

pub record VerifierError : Type 0 where
  pub node : NodeId
  pub check : Check

abbrev pub err_if : Bool → NodeId → Check → List VerifierError
err_if true id c = (record { node = id; check = c }) ∷ []
err_if false id c = []

abbrev pub is_effect_edge : EdgeKind → Bool
is_effect_edge k = same_kind k effect_edge

-- An edge with a target in the graph goes on to the other checks.
abbrev pub in_graph : Graph → Edge → Bool
in_graph g e = valid e.target && ltb e.target (length g.nodes)

abbrev pub uses_dead : Graph → Edge → Bool
uses_dead g e = dead (at g e.target) && ltb 0 (at g e.target).use_count

-- One round of the loop over the inputs.
unfoldable pub check_edge : VerifierOptions → Graph → NodeId → Edge → List VerifierError
check_edge opts g id e =
    if in_graph g e
    then err_if
        (is_effect_edge e.kind
          && (opts.check_pure_no_effect_edges && has_flag (at g id).flags pure_flag))
        id pure_no_effect_edges
      ++ err_if (opts.check_use_def_consistency && uses_dead g e) id use_def_consistency
    else err_if true id no_dangling_edges

unfoldable pub check_edges : VerifierOptions → Graph → NodeId → List Edge → List VerifierError
check_edges opts g id [] = []
check_edges opts g id (e ∷ es) = check_edge opts g id e ++ check_edges opts g id es

-- `has_effect_input`
unfoldable pub has_effect_input : Graph → List Edge → Bool
has_effect_input g [] = false
has_effect_input g (e ∷ es) = in_graph g e && is_effect_edge e.kind || has_effect_input g es

abbrev pub is_start : NodeKind → Bool
is_start NodeKind.start = true
is_start _ = false

unfoldable pub check_node : VerifierOptions → Graph → NodeId → List VerifierError
check_node opts g id =
    let n = at g id in
    if dead n
    then err_if (opts.check_no_dead_with_users && ltb 0 n.use_count) id no_dead_with_users
    else check_edges opts g id (inputs_of g id)
      ++ err_if
          (opts.check_effect_chain
            && (has_flag n.flags is_effect_flag
                && (not (is_start n.kind) && not (has_effect_input g (inputs_of g id)))))
          id effect_chain_continuity

-- The walk over the nodes, from `i` on.
unfoldable pub check_nodes : ℕ → VerifierOptions → Graph → NodeId → List VerifierError
check_nodes zero opts g i = []
check_nodes (suc f) opts g i =
    let rest = check_nodes f opts g (i + 1) in
    if ltb i (length g.nodes) then check_node opts g i ++ rest else []

unfoldable pub check_start : Graph → List VerifierError
check_start g = err_if (valid g.start && (at g g.start).input_count != 0) g.start start_no_inputs

unfoldable pub check_stop : Graph → List VerifierError
check_stop g =
    err_if (valid g.stop && length (inputs_of_kind g g.stop data_edge) != 1) g.stop
      stop_one_data_input

-- The fuel is one round for each node.
unfoldable pub verify_graph : VerifierOptions → Graph → List VerifierError
verify_graph opts g = check_nodes (length g.nodes) opts g 1 ++ check_start g ++ check_stop g

-- `verify_graph_strict`: the first error, if there is one.
abbrev pub first_error : List VerifierError → Option VerifierError
first_error [] = none
first_error (e ∷ _) = some e

abbrev pub verify_graph_strict : VerifierOptions → Graph → Option VerifierError
unfolding verify_graph
verify_graph_strict opts g = first_error (verify_graph opts g)
