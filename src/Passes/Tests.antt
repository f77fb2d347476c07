-- ===== src/Passes/Tests.antt =====
-- The passes on a small graph: node 3 adds the constants 1 and 0, node 4 multiplies by 1, node 6
-- negates the comparison of node 5, and node 8 multiplies by 4.
use arc_jit.Core.Graph.{
  Graph, Edge, data_edge, new_graph, add_node, edge_at, register_uses, at, inputs_of_kind,
  inputs_of, slice, targets_of_kind,
}
use arc_jit.Core.Graph.Layout.{IsLaidOut}
use arc_jit.Core.Node.{NodeId, NodeKind, TypeId, no_index, pure_flag, dead}
use arc_jit.Passes.AlgebraicSimp.Sound.{NotIsUnary, algebraic_simplification-Preserves}
use arc_jit.Passes.AlgebraicSimp.{algebraic_simplification, algebraic_step}
use arc_jit.Passes.CompareFold.Sound.{compare_fold-Preserves}
use arc_jit.Passes.CompareFold.{compare_fold, compare_fold_step}
use arc_jit.Passes.ConstFold.Step.{const_fold_step_lem}
use arc_jit.Passes.ConstFold.Sound.{const_fold-Preserves}
use arc_jit.Passes.ConstFold.{const_fold, const_fold_step, folded, fold_value}
use arc_jit.Passes.Meaning.{node_value, Models, Preserves}
use arc_jit.Passes.StrengthReduce.Choice.{DividesNonneg}
use arc_jit.Passes.StrengthReduce.Sound.{strength_reduction-Preserves}
use arc_jit.Passes.StrengthReduce.{strength_reduction, strength_step}
use arc_jit.Passes.Terminate.Frugal.{passes-Terminate}
use arc_jit.Passes.Terminate.{Terminates}
use arc_jit.Passes.{PassState, no_result}
use arc_jit.Prelude.{
  refl, true, ℕ, zero, suc, ◌+◌, ◌≤◌, ◌<◌, ◌≡◌, inl, ◌⊎◌, [], ◌∷◌, arith, length, some,
}
use arc_jit.Tier1.Alu.{word_mod, add64, mul64, lt64, not64}
use arc_jit.Tier2.Apply.{apply, apply_const, apply_binary, apply_unary}

abbrev input : NodeId → Edge
input t = record { target = t; kind = data_edge }

graph_ops : Unit {0}
unfolding add_node register_uses inputs_of_kind inputs_of slice targets_of_kind node_value apply
    apply_const apply_binary apply_unary add64 mul64 lt64 not64
graph_ops = tt

abbrev sample : Graph
unfolding graph_ops
sample = add_node NodeKind.mul pure_flag TypeId.int 0 (input 3 ∷ input 7 ∷ []) (
    add_node NodeKind.const_int pure_flag TypeId.int 4 [] (
      add_node NodeKind.not pure_flag TypeId.bool 0 (input 5 ∷ []) (
        add_node NodeKind.lt pure_flag TypeId.bool 0 (input 2 ∷ input 1 ∷ []) (
          add_node NodeKind.mul pure_flag TypeId.int 0 (input 3 ∷ input 1 ∷ []) (
            add_node NodeKind.add pure_flag TypeId.int 0 (input 1 ∷ input 2 ∷ []) (
              add_node NodeKind.const_int pure_flag TypeId.int 0 []
                (add_node NodeKind.const_int pure_flag TypeId.int 1 [] new_graph)))))))

abbrev sample_values : NodeId → ℕ
sample_values zero = 0
sample_values (suc zero) = 1
sample_values (suc (suc zero)) = 0
sample_values (suc (suc (suc zero))) = 1
sample_values (suc (suc (suc (suc zero)))) = 1
sample_values (suc (suc (suc (suc (suc zero))))) = 1
sample_values (suc (suc (suc (suc (suc (suc zero)))))) = 0
sample_values (suc (suc (suc (suc (suc (suc (suc zero))))))) = 4
sample_values (suc (suc (suc (suc (suc (suc (suc (suc zero)))))))) = 4
sample_values (suc (suc (suc (suc (suc (suc (suc (suc (suc i))))))))) = 0

sample-IsLaidOut : IsLaidOut sample
unfolding graph_ops
sample-IsLaidOut = record { inside = inside; scoped = scoped }
  where
    inside :
        (i : ℕ)
        → i < 9
        → (at sample i).first_input + (at sample i).input_count ≤ length sample.edges
    inside zero h = omega arith
    inside (suc zero) h = omega arith
    inside (suc (suc zero)) h = omega arith
    inside (suc (suc (suc zero))) h = omega arith
    inside (suc (suc (suc (suc zero)))) h = omega arith
    inside (suc (suc (suc (suc (suc zero))))) h = omega arith
    inside (suc (suc (suc (suc (suc (suc zero)))))) h = omega arith
    inside (suc (suc (suc (suc (suc (suc (suc zero))))))) h = omega arith
    inside (suc (suc (suc (suc (suc (suc (suc (suc zero)))))))) h = omega arith
    inside (suc (suc (suc (suc (suc (suc (suc (suc (suc i))))))))) h = absurd (omega arith)

    scoped :
        (e : ℕ) → e < 9 → ((edge_at sample e).target < 9) ⊎ ((edge_at sample e).target ≡ no_index)
    scoped zero h = inl (omega arith)
    scoped (suc zero) h = inl (omega arith)
    scoped (suc (suc zero)) h = inl (omega arith)
    scoped (suc (suc (suc zero))) h = inl (omega arith)
    scoped (suc (suc (suc (suc zero)))) h = inl (omega arith)
    scoped (suc (suc (suc (suc (suc zero))))) h = inl (omega arith)
    scoped (suc (suc (suc (suc (suc (suc zero)))))) h = inl (omega arith)
    scoped (suc (suc (suc (suc (suc (suc (suc zero))))))) h = inl (omega arith)
    scoped (suc (suc (suc (suc (suc (suc (suc (suc zero)))))))) h = inl (omega arith)
    scoped (suc (suc (suc (suc (suc (suc (suc (suc (suc e))))))))) h = absurd (omega arith)

sample-Models : Models sample sample_values
unfolding graph_ops
sample-Models = record { word = word; computed = computed }
  where
    word : (i : ℕ) → sample_values i < word_mod
    word zero = omega arith
    word (suc zero) = omega arith
    word (suc (suc zero)) = omega arith
    word (suc (suc (suc zero))) = omega arith
    word (suc (suc (suc (suc zero)))) = omega arith
    word (suc (suc (suc (suc (suc zero))))) = omega arith
    word (suc (suc (suc (suc (suc (suc zero)))))) = omega arith
    word (suc (suc (suc (suc (suc (suc (suc zero))))))) = omega arith
    word (suc (suc (suc (suc (suc (suc (suc (suc zero)))))))) = omega arith
    word (suc (suc (suc (suc (suc (suc (suc (suc (suc i))))))))) = omega arith

    computed : (i v : ℕ) → i < 9 → node_value sample sample_values i ≡ some v → sample_values i ≡ v
    computed zero v h e = cc
    computed (suc zero) v h e = cc
    computed (suc (suc zero)) v h e = cc
    computed (suc (suc (suc zero))) v h e = cc
    computed (suc (suc (suc (suc zero)))) v h e = cc
    computed (suc (suc (suc (suc (suc zero))))) v h e = cc
    computed (suc (suc (suc (suc (suc (suc zero)))))) v h e = cc
    computed (suc (suc (suc (suc (suc (suc (suc zero))))))) v h e = cc
    computed (suc (suc (suc (suc (suc (suc (suc (suc zero)))))))) v h e = cc
    computed (suc (suc (suc (suc (suc (suc (suc (suc (suc i))))))))) v h e = absurd (omega arith)

sample-NotIsUnary : NotIsUnary sample
unfolding graph_ops
sample-NotIsUnary zero h k = cc
sample-NotIsUnary (suc zero) h k = cc
sample-NotIsUnary (suc (suc zero)) h k = cc
sample-NotIsUnary (suc (suc (suc zero))) h k = cc
sample-NotIsUnary (suc (suc (suc (suc zero)))) h k = cc
sample-NotIsUnary (suc (suc (suc (suc (suc zero))))) h k = cc
sample-NotIsUnary (suc (suc (suc (suc (suc (suc zero)))))) h k = λ e. absurd (omega (arith, e))
sample-NotIsUnary (suc (suc (suc (suc (suc (suc (suc zero))))))) h k = cc
sample-NotIsUnary (suc (suc (suc (suc (suc (suc (suc (suc zero)))))))) h k = cc
sample-NotIsUnary (suc (suc (suc (suc (suc (suc (suc (suc (suc i))))))))) h k = absurd (omega arith)

sample-DividesNonneg : DividesNonneg sample sample_values
unfolding graph_ops
sample-DividesNonneg zero x y h k e = cc
sample-DividesNonneg (suc zero) x y h k e = cc
sample-DividesNonneg (suc (suc zero)) x y h k e = cc
sample-DividesNonneg (suc (suc (suc zero))) x y h k e = cc
sample-DividesNonneg (suc (suc (suc (suc zero)))) x y h k e = cc
sample-DividesNonneg (suc (suc (suc (suc (suc zero))))) x y h k e = cc
sample-DividesNonneg (suc (suc (suc (suc (suc (suc zero)))))) x y h k e = cc
sample-DividesNonneg (suc (suc (suc (suc (suc (suc (suc zero))))))) x y h k e = cc
sample-DividesNonneg (suc (suc (suc (suc (suc (suc (suc (suc zero)))))))) x y h k e = cc
sample-DividesNonneg (suc (suc (suc (suc (suc (suc (suc (suc (suc i))))))))) x y h k e =
    absurd (omega arith)

abbrev sample_state : PassState
sample_state = record { graph = sample; result = no_result }

const_fold-Preserves_example :
    (val' : NodeId → ℕ) × Preserves sample sample_values (const_fold sample).graph val'
unfolding graph_ops
const_fold-Preserves_example =
    const_fold-Preserves sample sample_values (omega arith) sample-IsLaidOut sample-Models

algebraic_simplification-Preserves_example :
    (val' : NodeId → ℕ) × Preserves sample sample_values
      (algebraic_simplification sample).graph
      val'
unfolding graph_ops
algebraic_simplification-Preserves_example =
    algebraic_simplification-Preserves sample sample_values (omega arith) sample-IsLaidOut
      sample-Models sample-NotIsUnary

compare_fold-Preserves_example :
    (val' : NodeId → ℕ) × Preserves sample sample_values (compare_fold sample).graph val'
unfolding graph_ops
compare_fold-Preserves_example =
    compare_fold-Preserves sample sample_values (omega arith) sample-IsLaidOut sample-Models

strength_reduction-Preserves_example :
    (val' : NodeId → ℕ) × Preserves sample sample_values (strength_reduction sample).graph val'
unfolding graph_ops
strength_reduction-Preserves_example =
    strength_reduction-Preserves sample sample_values (omega arith) sample-IsLaidOut sample-Models
      sample-DividesNonneg

passes-Terminate_example :
    Terminates const_fold_step sample 5
    × Terminates algebraic_step sample 5
    × Terminates compare_fold_step sample 5
    × Terminates strength_step sample 5
passes-Terminate_example = passes-Terminate sample 5

const_fold_step_example :
    (dead (at (const_fold_step 3 sample_state).graph 3) ≡ true)
    × (length (const_fold_step 3 sample_state).graph.nodes ≡ 9 + 1)
    × ((at (const_fold_step 3 sample_state).graph 9).kind ≡ NodeKind.const_int)
    × ((at (const_fold_step 3 sample_state).graph 9).payload ≡ 1)
    × ((const_fold_step 3 sample_state).result.changed ≡ true)
unfolding graph_ops folded fold_value
const_fold_step_example = const_fold_step_lem 3 1 sample_state (omega arith) refl
