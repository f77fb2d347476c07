-- ===== src/Passes/Gvn/Tests.antt =====
-- Value numbering on a small graph: nodes 1 and 2 are the constant 5, and nodes 3 and 4 add them in
-- either order.
use arc_jit.Core.Graph.{
  Edge, Graph, add_node, at, data_edge, edge_at, inputs_of, inputs_of_kind, new_graph,
  register_uses, slice, targets_of_kind,
}
use arc_jit.Core.Graph.Layout.{IsLaidOut}
use arc_jit.Core.Node.{
  NodeId, NodeFlags, NodeKind, TypeId, ◌∪◌, commutative_flag, gvnable_flag, no_index,
}
use arc_jit.Passes.Gvn.Numbered.{IsNumbered}
use arc_jit.Passes.Gvn.Sound.{gvn-Preserves}
use arc_jit.Passes.Gvn.{gvn}
use arc_jit.Passes.Meaning.{Models, Preserves, node_value}
use arc_jit.Prelude.{ℕ, zero, suc, ◌+◌, ◌≤◌, ◌<◌, ◌≡◌, ◌⊎◌, refl, inl, [], ◌∷◌, arith, length, some}
use arc_jit.Tier1.Alu.{add64, word_mod}
use arc_jit.Tier2.Apply.{apply, apply_binary, apply_const, apply_unary}

abbrev input : NodeId → Edge
input t = record { target = t; kind = data_edge }

ops : Unit {0}
unfolding add_node register_uses inputs_of_kind inputs_of slice targets_of_kind node_value apply
    apply_const apply_binary apply_unary add64 ◌∪◌
ops = tt

abbrev sum_flags : NodeFlags
unfolding ops
sum_flags = gvnable_flag ∪ commutative_flag

abbrev sums : Graph
unfolding ops sum_flags
sums = add_node NodeKind.add sum_flags TypeId.int 0 (input 2 ∷ input 1 ∷ []) (
    add_node NodeKind.add sum_flags TypeId.int 0 (input 1 ∷ input 2 ∷ []) (
      add_node NodeKind.const_int gvnable_flag TypeId.int 5 []
        (add_node NodeKind.const_int gvnable_flag TypeId.int 5 [] new_graph)))

abbrev sum_values : NodeId → ℕ
sum_values (suc zero) = 5
sum_values (suc (suc zero)) = 5
sum_values (suc (suc (suc zero))) = 10
sum_values (suc (suc (suc (suc zero)))) = 10
sum_values _ = 0

sums-IsLaidOut : IsLaidOut sums
unfolding ops sums sum_flags
sums-IsLaidOut = record { inside = inside; scoped = scoped }
  where
    inside : (i : ℕ) → i < 5 → (at sums i).first_input + (at sums i).input_count ≤ length sums.edges
    inside zero h = omega arith
    inside (suc zero) h = omega arith
    inside (suc (suc zero)) h = omega arith
    inside (suc (suc (suc zero))) h = omega arith
    inside (suc (suc (suc (suc zero)))) h = omega arith
    inside (suc (suc (suc (suc (suc i))))) h = absurd (omega arith)

    scoped : (e : ℕ) → e < 4 → ((edge_at sums e).target < 5) ⊎ ((edge_at sums e).target ≡ no_index)
    scoped zero h = inl (omega arith)
    scoped (suc zero) h = inl (omega arith)
    scoped (suc (suc zero)) h = inl (omega arith)
    scoped (suc (suc (suc zero))) h = inl (omega arith)
    scoped (suc (suc (suc (suc e)))) h = absurd (omega arith)

sums-Models : Models sums sum_values
unfolding ops sums sum_flags
sums-Models = record { word = word; computed = computed }
  where
    word : (i : ℕ) → sum_values i < word_mod
    word zero = omega arith
    word (suc zero) = omega arith
    word (suc (suc zero)) = omega arith
    word (suc (suc (suc zero))) = omega arith
    word (suc (suc (suc (suc zero)))) = omega arith
    word (suc (suc (suc (suc (suc i))))) = omega arith

    computed : (i v : ℕ) → i < 5 → node_value sums sum_values i ≡ some v → sum_values i ≡ v
    computed zero v h e = cc
    computed (suc zero) v h e = cc
    computed (suc (suc zero)) v h e = cc
    computed (suc (suc (suc zero))) v h e = cc
    computed (suc (suc (suc (suc zero)))) v h e = cc
    computed (suc (suc (suc (suc (suc i))))) v h e = absurd (omega arith)

sums_data : (e : ℕ) → e < 4 → (edge_at sums e).kind ≡ data_edge
unfolding ops sums sum_flags
sums_data zero h = refl
sums_data (suc zero) h = refl
sums_data (suc (suc zero)) h = refl
sums_data (suc (suc (suc zero))) h = refl
sums_data (suc (suc (suc (suc e)))) h = absurd (omega arith)

sums-IsNumbered : IsNumbered sums sum_values
unfolding ops sums sum_flags
sums-IsNumbered zero h live flagged = absurd (cc flagged)
sums-IsNumbered (suc zero) h live flagged = record {
  no_control = λ e lo hi. absurd (omega arith);
  total = (5, refl);
  ordered = λ c. cc;
}
sums-IsNumbered (suc (suc zero)) h live flagged = record {
  no_control = λ e lo hi. absurd (omega arith);
  total = (5, refl);
  ordered = λ c. cc;
}
sums-IsNumbered (suc (suc (suc zero))) h live flagged = record {
  no_control = λ e lo hi p. cc (sums_data e (omega arith));
  total = (10, refl);
  ordered = λ c. (refl, refl);
}
sums-IsNumbered (suc (suc (suc (suc zero)))) h live flagged = record {
  no_control = λ e lo hi p. cc (sums_data e (omega arith));
  total = (10, refl);
  ordered = λ c. (refl, refl);
}
sums-IsNumbered (suc (suc (suc (suc (suc i))))) h live flagged = absurd (omega arith)

gvn-Preserves_example : Preserves sums sum_values (gvn sums).graph sum_values
gvn-Preserves_example = gvn-Preserves sums sum_values sums-IsLaidOut sums-Models sums-IsNumbered
