-- ===== src/Passes/Terminate/Reduce.antt =====
-- src/passman/pass.cpp: strength reduction puts nodes of less weight in the place of nodes.
use arc_jit.Core.Graph.{Graph, at, inputs_of_kind, data_edge}
use arc_jit.Core.Node.{NodeId, NodeKind, TypeId, dead}
use arc_jit.Passes.StrengthReduce
use arc_jit.Passes.StrengthReduce.{
  Shift, shift_kind, shift_if, reduce_pair, reduction, apply_reduction, strength_step,
  strength_reduction,
}
use arc_jit.Passes.Terminate.{weight, Spends, Spends-refl, Spends-add_two, IsFrugal}
use arc_jit.Passes.{PassState, two_valid, is_const_int}
use arc_jit.Prelude.{
  ℕ, ◌+◌, ◌≤◌, ◌<◌, ◌&&◌, inl, inr, [], Option, none, some, Bool-cases, Option-cases, arith, length,
}

-- What a choice of strength reduction needs of the weight of the node.
abbrev LightReduction : ℕ → Option Shift → Type 0
LightReduction w none = Unit {0}
LightReduction w (some (k, a, s)) = weight NodeKind.const_int + weight k + 1 ≤ w

module _ (g : Graph) where
  reduce_pair-Light :
      (k : NodeKind) (a b : NodeId) → LightReduction (weight k) (reduce_pair g k (some (a, b)))
  reduce_pair-Light NodeKind.mul a b =
      elim (Bool-cases
        (is_const_int (at g b).kind && StrengthReduce.is_positive_pow2 (at g b).payload)) [
          | inl good ↦ rw good (omega arith)
          | inr other ↦ rw other tt
        ]
  reduce_pair-Light NodeKind.div a b =
      elim (Bool-cases
        (is_const_int (at g b).kind && StrengthReduce.is_positive_pow2 (at g b).payload)) [
          | inl good ↦ rw good (omega arith)
          | inr other ↦ rw other tt
        ]
  reduce_pair-Light _ a b = tt

  reduction-Light : (id : NodeId) → LightReduction (weight (at g id).kind) (reduction g id)
  unfolding reduction
  reduction-Light id = elim (Bool-cases (dead (at g id))) [
    | inl is_dead ↦ rw is_dead tt
    | inr live ↦ rw live (elim (Option-cases (two_valid (inputs_of_kind g id data_edge))) [
      | inl nothing ↦ rw nothing tt
      | inr (p, two) ↦ rw two (reduce_pair-Light (at g id).kind p.0 p.1)
    ])
  ]

apply_reduction-Spends :
    (c : Option Shift) (i : NodeId) (s : PassState)
    → i < length s.graph.nodes
    → LightReduction (weight (at s.graph i).kind) c
    → Spends i s.graph (apply_reduction c i s).graph
unfolding apply_reduction
apply_reduction-Spends none i s h light = Spends-refl i s.graph h
apply_reduction-Spends (some (k, a, v)) i s h light =
    Spends-add_two i _ NodeKind.const_int k _ _ TypeId.int TypeId.int v 0 [] _ s.graph h light

pub strength_step-IsFrugal : IsFrugal strength_step
unfolding strength_step
strength_step-IsFrugal i s h =
    apply_reduction-Spends (reduction s.graph i) i s h (reduction-Light s.graph i)
