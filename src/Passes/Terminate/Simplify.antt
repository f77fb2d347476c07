-- ===== src/Passes/Terminate/Simplify.antt =====
-- src/passman/pass.cpp: constant folding and algebraic simplification put nodes of less weight in the
-- place of nodes.
use arc_jit.Core.Graph.{Graph, at, inputs_of_kind, data_edge, next_id}
use arc_jit.Core.Node.{NodeId, NodeKind, TypeId, dead, valid}
use arc_jit.Passes.AlgebraicSimp
use arc_jit.Passes.AlgebraicSimp.{
  simplify_pair, simplification, apply_simplification, algebraic_step, algebraic_simplification,
}
use arc_jit.Passes.ConstFold.{fold_value, folded, const_fold_step}
use arc_jit.Passes.Terminate.{
  weight, Spends, Spends-refl, Spends-replace_node, Spends-add_node, IsFrugal,
}
use arc_jit.Passes.{PassState, two_valid, is_const_int}
use arc_jit.Prelude.{
  ℕ, ◌+◌, ◌≤◌, ◌<◌, ◌≡◌, ◌&&◌, inl, inr, [], some, Bool-cases, Option-cases, arith, length,
}
use mathlib.Core.Option.{none-ne-some}

fold_value-weight :
    (k : NodeKind) (a b v : ℕ)
    → fold_value k a b ≡ some v
    → weight NodeKind.const_int + 1 ≤ weight k
unfolding fold_value
fold_value-weight NodeKind.add a b v e = omega arith
fold_value-weight NodeKind.sub a b v e = omega arith
fold_value-weight NodeKind.mul a b v e = omega arith
fold_value-weight _ a b v e = cc

folded-weight :
    (g : Graph) (id : NodeId) (v : ℕ)
    → folded g id ≡ some v
    → weight NodeKind.const_int + 1 ≤ weight (at g id).kind
unfolding folded
folded-weight g id v e = elim (Bool-cases (dead (at g id))) [
  | inl is_dead ↦ absurd (none-ne-some _ (rw is_dead at e))
  | inr live ↦ elim (Option-cases (two_valid (inputs_of_kind g id data_edge))) [
    | inl nothing ↦ absurd (none-ne-some _ (rw (live, nothing) at e))
    | inr (p, two) ↦
        elim (Bool-cases (is_const_int (at g p.0).kind && is_const_int (at g p.1).kind)) [
          | inr other ↦ absurd (none-ne-some _ (rw (live, two, other) at e))
          | inl both ↦ fold_value-weight (at g id).kind _ _ v (rw (live, two, both) at e)
        ]
  ]
]

pub const_fold_step-IsFrugal : IsFrugal const_fold_step
unfolding const_fold_step
const_fold_step-IsFrugal i s h = elim (Option-cases (folded s.graph i)) [
  | inl nothing ↦ rw (nothing, const_fold_step) (Spends-refl i s.graph h)
  | inr (v, e) ↦
      rw (e, const_fold_step)
        (Spends-add_node i (next_id s.graph) NodeKind.const_int _ TypeId.int v [] s.graph h
          (folded-weight s.graph i v e))
]

-- What a choice of algebraic simplification needs of the weight of the node.
abbrev LightSimplification : ℕ → AlgebraicSimp.Simplification → Type 0
LightSimplification w AlgebraicSimp.keep = Unit {0}
LightSimplification w AlgebraicSimp.use_zero = 2 ≤ w
LightSimplification w (AlgebraicSimp.use_node t) = Unit {0}

light_simplification : (w : ℕ) (c : AlgebraicSimp.Simplification) → 2 ≤ w → LightSimplification w c
light_simplification w AlgebraicSimp.keep h = tt
light_simplification w AlgebraicSimp.use_zero h = h
light_simplification w (AlgebraicSimp.use_node t) h = tt

module _ (g : Graph) where
  simplify_pair-Light :
      (k : NodeKind) (a b : NodeId) → LightSimplification (weight k) (simplify_pair g k a b)
  unfolding simplify_pair
  simplify_pair-Light NodeKind.add a b = light_simplification 2 _ (omega arith)
  simplify_pair-Light NodeKind.sub a b = light_simplification 2 _ (omega arith)
  simplify_pair-Light NodeKind.mul a b = light_simplification 3 _ (omega arith)
  simplify_pair-Light NodeKind.div a b = light_simplification 3 _ (omega arith)
  simplify_pair-Light NodeKind.not a b = light_simplification 3 _ (omega arith)
  simplify_pair-Light _ a b = tt

  simplification-Light :
      (id : NodeId) → LightSimplification (weight (at g id).kind) (simplification g id)
  unfolding simplification
  simplification-Light id = elim (Bool-cases (dead (at g id))) [
    | inl is_dead ↦ rw is_dead tt
    | inr live ↦ rw live (elim (Option-cases (two_valid (inputs_of_kind g id data_edge))) [
      | inl nothing ↦ rw nothing tt
      | inr (p, two) ↦ rw two (simplify_pair-Light (at g id).kind p.0 p.1)
    ])
  ]

apply_simplification-Spends :
    (c : AlgebraicSimp.Simplification) (i : NodeId) (s : PassState)
    → i < length s.graph.nodes
    → LightSimplification (weight (at s.graph i).kind) c
    → Spends i s.graph (apply_simplification c i s).graph
unfolding apply_simplification
apply_simplification-Spends AlgebraicSimp.keep i s h light = Spends-refl i s.graph h
apply_simplification-Spends AlgebraicSimp.use_zero i s h light =
    Spends-add_node i (next_id s.graph) NodeKind.const_int _ TypeId.int 0 [] s.graph h light
apply_simplification-Spends (AlgebraicSimp.use_node t) i s h light = elim (Bool-cases (valid t)) [
  | inr invalid ↦ rw invalid (Spends-refl i s.graph h)
  | inl is_valid ↦ rw is_valid (Spends-replace_node i t s.graph h)
]

pub algebraic_step-IsFrugal : IsFrugal algebraic_step
unfolding algebraic_step
algebraic_step-IsFrugal i s h =
    apply_simplification-Spends (simplification s.graph i) i s h (simplification-Light s.graph i)
