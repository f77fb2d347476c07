-- ===== src/Core/Verifier/Tests.antt =====
-- The verifier on a small graph: node 1 is the start, node 2 a constant, node 3 a call that reads it
-- after the start, and node 4 the stop with the result of the call.
use arc_jit.Core.Graph.{
  Edge, EdgeKind, Graph, add_node, data_edge, effect_edge, inputs_of, inputs_of_kind, new_graph,
  register_uses, slice, targets_of_kind,
}
use arc_jit.Core.Node.{NodeId, NodeKind, TypeId, is_effect_flag, no_flags, pure_flag}
use arc_jit.Core.Verifier.Accepted.{GraphIsSound, verify_graph-GraphIsSound}
use arc_jit.Core.Verifier.{
  Check, VerifierOptions, check_edge, check_edges, check_node, check_nodes, check_start, check_stop,
  err_if, has_effect_input, verify_graph,
}
use arc_jit.Prelude.{◌≡◌, refl, true, false, [], ◌∷◌, ◌++◌}

abbrev default_options : VerifierOptions
default_options = record {
  check_effect_chain = true;
  check_use_def_consistency = true;
  check_no_dead_with_users = true;
  check_guard_has_frame_state = false;
  check_pure_no_effect_edges = true;
  dump_graph_on_failure = true;
}

abbrev edge : EdgeKind → NodeId → Edge
edge k t = record { target = t; kind = k }

ops : Unit {0}
unfolding add_node register_uses inputs_of_kind inputs_of slice targets_of_kind verify_graph
    check_nodes check_node check_edges check_edge has_effect_input check_start check_stop
ops = tt

abbrev program : Graph
unfolding ops
program =
    record (add_node NodeKind.stop no_flags TypeId.top 0 (edge data_edge 3 ∷ []) (
      add_node NodeKind.call is_effect_flag TypeId.top 0
        (edge effect_edge 1 ∷ edge data_edge 2 ∷ [])
        (add_node NodeKind.const_int pure_flag TypeId.int 7 []
          (add_node NodeKind.start no_flags TypeId.top 0 [] new_graph)))) { start = 1; stop = 4 }

verify_graph-GraphIsSound_example : GraphIsSound default_options program
unfolding ops program
verify_graph-GraphIsSound_example = verify_graph-GraphIsSound default_options program refl

-- A pure node with an effect input, and a call after nothing.
abbrev broken : Graph
unfolding ops
broken = add_node NodeKind.call is_effect_flag TypeId.top 0 [] (
    add_node NodeKind.const_int pure_flag TypeId.int 7 (edge effect_edge 1 ∷ [])
      (add_node NodeKind.start no_flags TypeId.top 0 [] new_graph))

broken_test :
    verify_graph default_options broken
    ≡ err_if true 2 Check.pure_no_effect_edges ++ err_if true 3 Check.effect_chain_continuity
unfolding ops broken
broken_test = refl
