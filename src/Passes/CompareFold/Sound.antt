-- ===== src/Passes/CompareFold/Sound.antt =====
-- src/passman/pass.cpp, `ComparisonFoldingPass::run`: folded comparisons keep the values of nodes.
use arc_jit.Core.Graph.{Graph, at, data_edge, inputs_of_kind, targets_of_kind}
use arc_jit.Core.Graph.Layout.{IsLaidOut, AllKnown}
use arc_jit.Core.Node.{NodeId, NodeKind, TypeId, Node, dead, no_index, zero_node}
use arc_jit.Passes.CompareFold.{
  Folding, keep, use_const, use_compare, same_operands, is_eq, is_ne, is_not, inverted, compare_of,
  invert_inner, folding, const_flags, compare_flags, two_inputs, apply_folding, compare_fold_step,
  compare_fold,
}
use arc_jit.Passes.Inputs.{IsKnown, inputs-All}
use arc_jit.Passes.Loop.{HasRoom, StepsTo, IsSound, run_pass-Preserves}
use arc_jit.Passes.Meaning.{node_value, Models, Preserves, Preserves-refl, update}
use arc_jit.Passes.Replace.{replace_by_const-StepsTo, replace_by_new-Preserves, replace_by_new_size}
use arc_jit.Passes.{PassState}
use arc_jit.Prelude.{
  ℕ, ◌*◌, ◌≤◌, ◌<◌, ◌≡◌, refl, sym, ap, ◌∙◌, inl, inr, true, ◌&&◌, List, [], ◌∷◌, map, arith, All,
  Bool-cases, Option-cases, length, get_or-out_of_range, some,
}
use arc_jit.Tier1.Alu.{eq64, ne64, lt64, gt64, lte64, gte64, not64}
use arc_jit.Tier2.Apply.{apply, apply_const, apply_binary, apply_unary}
use mathlib.Core.Option.{some-injective, none-ne-some}

-- A comparison computes some `v`, and its inverse the negation of `v`.
inverted-not64 :
    (k k' : NodeKind) (payload a b : ℕ)
    → inverted k ≡ some k'
    → (v : ℕ) × (apply k payload (a ∷ b ∷ []) ≡ some v) × (apply k' 0 (a ∷ b ∷ []) ≡ some (not64 v))
unfolding inverted apply apply_const apply_binary eq64 ne64 lt64 gt64 lte64 gte64 not64
inverted-not64 NodeKind.eq k' payload a b i = (_, refl, ground arith)
inverted-not64 NodeKind.ne k' payload a b i = (_, refl, ground arith)
inverted-not64 NodeKind.lt k' payload a b i = (_, refl, ground arith)
inverted-not64 NodeKind.gt k' payload a b i = (_, refl, ground arith)
inverted-not64 NodeKind.lte k' payload a b i = (_, refl, ground arith)
inverted-not64 NodeKind.gte k' payload a b i = (_, refl, ground arith)
inverted-not64 _ k' payload a b i = cc

is_eq_lem : (k : NodeKind) → is_eq k ≡ true → k ≡ NodeKind.eq
is_eq_lem NodeKind.eq h = refl
is_eq_lem _ h = cc

is_ne_lem : (k : NodeKind) → is_ne k ≡ true → k ≡ NodeKind.ne
is_ne_lem NodeKind.ne h = refl
is_ne_lem _ h = cc

is_not_lem : (k : NodeKind) → is_not k ≡ true → k ≡ NodeKind.not
is_not_lem NodeKind.not h = refl
is_not_lem _ h = cc

same_operands-inv : (ts : List NodeId) → same_operands ts ≡ true → (a : NodeId) × (ts ≡ a ∷ a ∷ [])
same_operands-inv [] h = cc
same_operands-inv (a ∷ []) h = cc
same_operands-inv (a ∷ b ∷ []) h = (a, ground arith)
same_operands-inv (a ∷ b ∷ c ∷ ts) h = cc

apply_same :
    (payload a : ℕ)
    → (apply NodeKind.eq payload (a ∷ a ∷ []) ≡ some 1)
      × (apply NodeKind.ne payload (a ∷ a ∷ []) ≡ some 0)
unfolding apply apply_const apply_binary eq64 ne64
apply_same payload a = (ground arith, ground arith)

apply_not : (payload a : ℕ) → apply NodeKind.not payload (a ∷ []) ≡ some (not64 a)
unfolding apply apply_const apply_unary
apply_not payload a = refl

-- What a choice promises of the value of the node.
abbrev IsRight : Graph → (NodeId → ℕ) → NodeId → Folding → Type 0
IsRight g val id keep = Unit {0}
IsRight g val id (use_const v) = val id ≡ v
IsRight g val id (use_compare k a b) =
    IsKnown (length g.nodes) a
    × IsKnown (length g.nodes) b
    × ((w : ℕ) → apply k 0 (val a ∷ val b ∷ []) ≡ some w → val id ≡ w)

module _ (g : Graph) (val : NodeId → ℕ) (l : IsLaidOut g) (m : Models g val)
    (small : length g.nodes ≤ no_index) where
  compare_of-IsRight :
      (id d : NodeId) (k' : NodeKind) (ts : List NodeId)
      → d < length g.nodes
      → val id ≡ not64 (val d)
      → inverted (at g d).kind ≡ some k'
      → inputs_of_kind g d data_edge ≡ ts
      → All (IsKnown (length g.nodes)) ts
      → IsRight g val id (compare_of k' ts)
  unfolding node_value
  compare_of-IsRight id d k' [] known neg i e h = tt
  compare_of-IsRight id d k' (a ∷ []) known neg i e h = tt
  compare_of-IsRight id d k' (a ∷ b ∷ []) known neg i e h =
      let (v, here, there) = inverted-not64 (at g d).kind k' (at g d).payload (val a) (val b) i in
      let value : val d ≡ v = m.computed d v known (rw e here) in
      (h.0, h.1.0, λ w q. neg ∙ ap not64 value ∙ some-injective _ _ (sym there ∙ q))
  compare_of-IsRight id d k' (a ∷ b ∷ c ∷ ts) known neg i e h = tt

  -- An invalid operand reads as a node of another kind.
  known_of_inverted :
      (d : NodeId) (k' : NodeKind)
      → IsKnown (length g.nodes) d
      → inverted (at g d).kind ≡ some k'
      → d < length g.nodes
  unfolding inverted
  known_of_inverted d k' (inl h) i = h
  known_of_inverted d k' (inr e) i = absurd (
      none-ne-some _ (
        ap (λ (n : Node). inverted n.kind)
          (sym (get_or-out_of_range g.nodes d zero_node (omega arith)))
        ∙ i))

  invert_inner-IsRight :
      (id : NodeId) (ts : List NodeId)
      → All (IsKnown (length g.nodes)) ts
      → ((v : ℕ) → apply NodeKind.not (at g id).payload (map val ts) ≡ some v → val id ≡ v)
      → IsRight g val id (invert_inner g ts)
  invert_inner-IsRight id [] h right = tt
  invert_inner-IsRight id (d ∷ []) h right = elim (Option-cases (inverted (at g d).kind)) [
    | inl no_kind ↦ rw no_kind tt
    | inr (k', i) ↦
        let known = known_of_inverted d k' h.0 i in
        rw i (
          compare_of-IsRight id d k' (inputs_of_kind g d data_edge) known
            (right _ (apply_not _ (val d))) i refl (inputs-All g d l known))
  ]
  invert_inner-IsRight id (d ∷ e ∷ ts) h right = tt

  folding-IsRight : (id : NodeId) → id < length g.nodes → IsRight g val id (folding g id)
  unfolding folding node_value
  folding-IsRight id known =
      let n = at g id in
      let ts = inputs_of_kind g id data_edge in
      elim (Bool-cases (dead n)) [
        | inl is_dead ↦ rw is_dead tt
        | inr live ↦ rw live (elim (Bool-cases (same_operands ts && is_eq n.kind)) [
          | inl eq_same ↦
              let (a, p) = same_operands-inv ts (ground arith) in
              rw eq_same (
                m.computed id 1 known
                  (rw (p, is_eq_lem n.kind (ground arith)) (apply_same n.payload (val a)).0))
          | inr other ↦ rw other (elim (Bool-cases (same_operands ts && is_ne n.kind)) [
            | inl ne_same ↦
                let (a, p) = same_operands-inv ts (ground arith) in
                rw ne_same (
                  m.computed id 0 known
                    (rw (p, is_ne_lem n.kind (ground arith)) (apply_same n.payload (val a)).1))
            | inr another ↦ rw another (elim (Bool-cases (is_not n.kind)) [
              | inr no_not ↦ rw no_not tt
              | inl a_not ↦ rw a_not (
                  invert_inner-IsRight id ts (inputs-All g id l known)
                    (λ v e. m.computed id v known (rw (is_not_lem n.kind a_not) e)))
            ])
          ])
        ])
      ]

apply_folding-IsSound :
    (c : Folding) (i : NodeId) (s : PassState) (val : NodeId → ℕ)
    → i < length s.graph.nodes
    → HasRoom 2 s.graph
    → IsLaidOut s.graph
    → Models s.graph val
    → IsRight s.graph val i c
    → StepsTo s.graph val (apply_folding c i s).graph
unfolding apply_folding targets_of_kind
apply_folding-IsSound keep i s val known room l m r =
    (val, Preserves-refl l m, omega arith, omega arith)
apply_folding-IsSound (use_const v) i s val known room l m r =
    replace_by_const-StepsTo i const_flags v s.graph val l m room known r
apply_folding-IsSound (use_compare k a b) i s val known room l m (ka, kb, right) =
    let below : AllKnown (length s.graph.nodes) (two_inputs a b) = (ka, (kb, tt)) in
    let size =
      replace_by_new_size i k compare_flags TypeId.bool 0 (two_inputs a b) s.graph val l m
        (omega arith) (omega arith) (omega arith) below known right in
    (
      update val (length s.graph.nodes) (val i),
      replace_by_new-Preserves i k compare_flags TypeId.bool 0 (two_inputs a b) s.graph val l m
          (omega arith) (omega arith) (omega arith) below known right,
      omega (arith, size.0),
      omega (arith, size.1),
    )

compare_fold_step-IsSound : IsSound (λ g val. Unit {0}) compare_fold_step
unfolding compare_fold_step
compare_fold_step-IsSound i s val known room l m q = (
  apply_folding-IsSound (folding s.graph i) i s val known room l m
      (folding-IsRight s.graph val l m (omega arith) i known),
  tt,
)

-- Comparison folding keeps the value of every old node and the value that every old edge reads,
-- for every assignment of values that the nodes compute; the graph is laid out and its indices stay
-- in 32 bits.
pub compare_fold-Preserves :
    (g : Graph) (val : NodeId → ℕ)
    → HasRoom (8 * length g.nodes) g
    → IsLaidOut g
    → Models g val
    → (val' : NodeId → ℕ) × Preserves g val (compare_fold g).graph val'
unfolding compare_fold
compare_fold-Preserves g val room l m =
    run_pass-Preserves (λ h _. Unit {0}) compare_fold_step compare_fold_step-IsSound g val room l m
      tt
