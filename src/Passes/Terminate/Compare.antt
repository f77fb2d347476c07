-- ===== src/Passes/Terminate/Compare.antt =====
-- src/passman/pass.cpp: comparison folding puts nodes of less weight in the place of nodes.
use arc_jit.Core.Graph.{Graph, at, inputs_of_kind, data_edge, next_id}
use arc_jit.Core.Node.{NodeId, NodeKind, TypeId, dead}
use arc_jit.Passes.CompareFold
use arc_jit.Passes.CompareFold.{
  folding, apply_folding, compare_fold_step, compare_fold, inverted, invert_inner, same_operands,
}
use arc_jit.Passes.Terminate.{weight, Spends, Spends-refl, Spends-add_node, IsFrugal}
use arc_jit.Passes.{PassState}
use arc_jit.Prelude.{
  ℕ, ◌+◌, ◌≤◌, ◌<◌, ◌≡◌, ◌&&◌, refl, sym, ap, inl, inr, List, [], ◌∷◌, some, true, Bool-cases,
  Option-cases, arith, length,
}
use mathlib.Core.Option.{some-injective}

-- What a choice of comparison folding needs of the weight of the node.
abbrev LightFolding : ℕ → CompareFold.Folding → Type 0
LightFolding w CompareFold.keep = Unit {0}
LightFolding w (CompareFold.use_const v) = 2 ≤ w
LightFolding w (CompareFold.use_compare k a b) = weight k + 1 ≤ w

heavy_eq : (k : NodeKind) → CompareFold.is_eq k ≡ true → 2 ≤ weight k
heavy_eq NodeKind.eq h = omega arith
heavy_eq _ h = cc

heavy_ne : (k : NodeKind) → CompareFold.is_ne k ≡ true → 2 ≤ weight k
heavy_ne NodeKind.ne h = omega arith
heavy_ne _ h = cc

heavy_not : (k : NodeKind) → CompareFold.is_not k ≡ true → weight k ≡ 3
heavy_not NodeKind.not h = refl
heavy_not _ h = cc

inverted-weight : (k k' : NodeKind) → inverted k ≡ some k' → weight k' ≡ 2
unfolding inverted
inverted-weight NodeKind.eq k' e = ap weight (sym (some-injective _ _ e))
inverted-weight NodeKind.ne k' e = ap weight (sym (some-injective _ _ e))
inverted-weight NodeKind.lt k' e = ap weight (sym (some-injective _ _ e))
inverted-weight NodeKind.gt k' e = ap weight (sym (some-injective _ _ e))
inverted-weight NodeKind.lte k' e = ap weight (sym (some-injective _ _ e))
inverted-weight NodeKind.gte k' e = ap weight (sym (some-injective _ _ e))
inverted-weight _ k' e = cc

compare_of-Light :
    (k : NodeKind) (ts : List NodeId) → weight k ≡ 2 → LightFolding 3 (CompareFold.compare_of k ts)
compare_of-Light k [] h = tt
compare_of-Light k (a ∷ []) h = tt
compare_of-Light k (a ∷ b ∷ []) h = omega arith
compare_of-Light k (a ∷ b ∷ c ∷ ts) h = tt

module _ (g : Graph) where
  invert_inner-Light : (ts : List NodeId) → LightFolding 3 (invert_inner g ts)
  invert_inner-Light [] = tt
  invert_inner-Light (d ∷ []) = elim (Option-cases (inverted (at g d).kind)) [
    | inl nothing ↦ rw nothing tt
    | inr (k', e) ↦
        rw e (compare_of-Light k' (inputs_of_kind g d data_edge) (inverted-weight _ k' e))
  ]
  invert_inner-Light (d ∷ e ∷ ts) = tt

  folding-Light : (id : NodeId) → LightFolding (weight (at g id).kind) (folding g id)
  unfolding folding
  folding-Light id =
      let k = (at g id).kind in
      let ts = inputs_of_kind g id data_edge in
      elim (Bool-cases (dead (at g id))) [
        | inl is_dead ↦ rw is_dead tt
        | inr live ↦ rw live (elim (Bool-cases (same_operands ts && CompareFold.is_eq k)) [
          | inl eq_same ↦ rw eq_same (heavy_eq k (ground arith))
          | inr other ↦ rw other (elim (Bool-cases (same_operands ts && CompareFold.is_ne k)) [
            | inl ne_same ↦ rw ne_same (heavy_ne k (ground arith))
            | inr another ↦ rw another (elim (Bool-cases (CompareFold.is_not k)) [
              | inr no_not ↦ rw no_not tt
              | inl a_not ↦ rw (a_not, heavy_not k a_not) (invert_inner-Light ts)
            ])
          ])
        ])
      ]

apply_folding-Spends :
    (c : CompareFold.Folding) (i : NodeId) (s : PassState)
    → i < length s.graph.nodes
    → LightFolding (weight (at s.graph i).kind) c
    → Spends i s.graph (apply_folding c i s).graph
unfolding apply_folding
apply_folding-Spends CompareFold.keep i s h light = Spends-refl i s.graph h
apply_folding-Spends (CompareFold.use_const v) i s h light =
    Spends-add_node i (next_id s.graph) NodeKind.const_int _ TypeId.int v [] s.graph h light
apply_folding-Spends (CompareFold.use_compare k a b) i s h light =
    Spends-add_node i (next_id s.graph) k _ TypeId.bool 0 _ s.graph h light

pub compare_fold_step-IsFrugal : IsFrugal compare_fold_step
unfolding compare_fold_step
compare_fold_step-IsFrugal i s h =
    apply_folding-Spends (folding s.graph i) i s h (folding-Light s.graph i)
