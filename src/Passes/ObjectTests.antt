-- ===== src/Passes/ObjectTests.antt =====
-- The passes that change nodes in place, on a small graph: node 1 is an object whose field node 2
-- reads, node 4 calls the function of node 3, and node 7 checks the index 0 of node 5 against the
-- length 4 of node 6.
use arc_jit.Core.Graph.{
  Edge, Graph, add_node, at, data_edge, inputs_of, inputs_of_kind, mark_dead, new_graph,
  register_uses, slice, targets_of_kind,
}
use arc_jit.Core.Node.{NodeId, NodeKind, TypeId, ◌∪◌, no_flags, pure_flag}
use arc_jit.Passes.Dce.Sweep.{dce-dce}
use arc_jit.Passes.Dce.{dce}
use arc_jit.Passes.Escape.Sound.{IsAnalysed, escape_analysis-IsSound}
use arc_jit.Passes.Escape.{escape_analysis, escape_step, escapes_from, input_escapes}
use arc_jit.Passes.Narrow.Typed.{IsTyped, type_narrowing-IsTyped}
use arc_jit.Passes.Narrow.{type_narrowing}
use arc_jit.Passes.Pipeline.Fresh.{AllFit, KeepsFit, run_to_fixpoint-AllFit}
use arc_jit.Passes.Pipeline.Rounds.{Ends, run_to_fixpoint-Ends}
use arc_jit.Passes.Pipeline.{PassClass, run_to_fixpoint}
use arc_jit.Passes.{PassState, pass_loop, run_pass, count_change, no_result}
use arc_jit.Prelude.{ℕ, ◌≡◌, ◌⊎◌, refl, sym, true, Option, none, some, [], ◌∷◌, length, length-set}

abbrev input : NodeId → Edge
input t = record { target = t; kind = data_edge }

ops : Unit {0}
unfolding add_node register_uses inputs_of_kind inputs_of slice targets_of_kind
ops = tt

abbrev objects : Graph
unfolding ops
objects = add_node NodeKind.check_bounds no_flags TypeId.int 0 (input 5 ∷ input 6 ∷ []) (
    add_node NodeKind.const_int pure_flag TypeId.top 4 [] (
      add_node NodeKind.const_int pure_flag TypeId.top 0 [] (
        add_node NodeKind.call no_flags TypeId.top 0 (input 3 ∷ []) (
          add_node NodeKind.const_func pure_flag TypeId.function 0 [] (
            add_node NodeKind.load_field no_flags TypeId.top 0 (input 1 ∷ [])
              (add_node NodeKind.allocate no_flags TypeId.object 0 [] new_graph))))))

abbrev objects_state : PassState
objects_state = record { graph = objects; result = no_result }

dce-dce_example :
    dce (dce objects).graph ≡ record { graph = (dce objects).graph; result = no_result }
dce-dce_example = dce-dce objects

escape_analysis-IsSound_example : IsAnalysed objects (escape_analysis objects).graph
escape_analysis-IsSound_example = escape_analysis-IsSound objects

-- The object of node 1, whose field is read, is pinned.
pinned_test : (at (escape_analysis objects).graph 1).flags.is_pinned ≡ true
unfolding ops objects run_pass pass_loop escape_step escapes_from input_escapes ◌∪◌
pinned_test = refl

type_narrowing-IsTyped_example :
    (IsTyped (type_narrowing objects).graph) ⊎ ((type_narrowing objects).iterations ≡ 8)
type_narrowing-IsTyped_example = type_narrowing-IsTyped objects

-- A pass that marks node 1 dead and caches the number of nodes.
abbrev Counter : Type 0
Counter = Option ℕ

abbrev counter_class : PassClass Counter
counter_class = record {
  name = λ x. 0;
  run = λ x g. (some (length g.nodes), mark_dead 1 g, count_change 1 0 no_result);
  invalidate = λ x. none;
}

abbrev CountFits : Graph → Counter → Type 0
CountFits g none = Unit
CountFits g (some n) = n ≡ length g.nodes

counter-KeepsFit : KeepsFit counter_class CountFits
unfolding mark_dead
counter-KeepsFit = record {
  cleared = λ g x. tt;
  own_run = λ g x fits. sym (length-set g.nodes 1 _);
  silent = λ g x same. absurd (cc same);
}

run_to_fixpoint-AllFit_example :
    AllFit CountFits (run_to_fixpoint counter_class 3 (some 8 ∷ none ∷ []) objects [])
unfolding ops objects
run_to_fixpoint-AllFit_example =
    run_to_fixpoint-AllFit counter_class CountFits counter-KeepsFit 3 (some 8 ∷ none ∷ []) objects
      [] (refl, (tt, tt))

run_to_fixpoint-Ends_example :
    Ends counter_class 3
      (none ∷ [], record { graph = objects; total = no_result; events = [] })
      (run_to_fixpoint counter_class 3 (none ∷ []) objects [])
run_to_fixpoint-Ends_example = run_to_fixpoint-Ends counter_class 3 (none ∷ []) objects []
