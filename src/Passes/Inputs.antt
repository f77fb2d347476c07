-- ===== src/Passes/Inputs.antt =====
-- src/core/graph.h and src/passman/pass.cpp: the data inputs that the passes read.
use arc_jit.Core.Graph.{
  EdgeKind, data_edge, Edge, Graph, at, zero_edge, same_kind, slice, inputs_of, targets_of_kind,
  inputs_of_kind,
}
use arc_jit.Core.Graph.Layout.{IsLaidOut}
use arc_jit.Core.Node.{NodeId, NodeKind, no_index}
use arc_jit.Passes.Meaning.{node_value, Models}
use arc_jit.Passes.{is_const_int, two_valid}
use arc_jit.Prelude.{
  ℕ, zero, suc, ◌+◌, ◌≤◌, ◌<◌, ◌≡◌, refl, ◌⊎◌, inl, inr, true, List, [], ◌∷◌, arith, Bool-cases,
  length, get_or, some, All,
}
use arc_jit.Tier2.Apply.{apply, apply_const}

apply-const_int : (payload : ℕ) (vs : List ℕ) → apply NodeKind.const_int payload vs ≡ some payload
unfolding apply apply_const
apply-const_int payload [] = refl
apply-const_int payload (a ∷ []) = refl
apply-const_int payload (a ∷ b ∷ vs) = refl

is_const_int_lem : (k : NodeKind) → is_const_int k ≡ true → k ≡ NodeKind.const_int
is_const_int_lem NodeKind.const_int h = refl
is_const_int_lem _ h = cc

-- A `ConstInt` node has the value of its payload.
pub const_int-value :
    {g : Graph} {val : NodeId → ℕ} (a : NodeId)
    → Models g val
    → a < length g.nodes
    → is_const_int (at g a).kind ≡ true
    → val a ≡ (at g a).payload
unfolding node_value
const_int-value {g} {val} a m h c =
    m.computed a (at g a).payload h (rw (is_const_int_lem (at g a).kind c) (apply-const_int _ _))

-- Every input names a node or nothing.
abbrev pub IsKnown : ℕ → NodeId → Type 0
IsKnown n t = (t < n) ⊎ (t ≡ no_index)

targets-All :
    (P : NodeId → Type 0) (k : EdgeKind) (es : List Edge) (f c : ℕ)
    → ((e : ℕ) → f ≤ e → e < f + c → P (get_or es e zero_edge).target)
    → All P (targets_of_kind k (slice es f c))
unfolding slice targets_of_kind
targets-All P k es f zero h = tt
targets-All P k es f (suc c) h =
    let rest = targets-All P k es (f + 1) c (λ e lo hi. h e (omega arith) (omega arith)) in
    elim (Bool-cases (same_kind (get_or es f zero_edge).kind k)) [
      | inl same ↦ rw same (h f (omega arith) (omega arith), rest)
      | inr other ↦ rw other rest
    ]

-- The data inputs of a node of a laid-out graph.
pub inputs-All :
    (g : Graph) (id : NodeId)
    → IsLaidOut g
    → id < length g.nodes
    → All (IsKnown (length g.nodes)) (inputs_of_kind g id data_edge)
unfolding inputs_of_kind inputs_of
inputs-All g id l h =
    targets-All (IsKnown (length g.nodes)) data_edge g.edges _ _
      (λ e lo hi. l.scoped e (omega (arith, l.inside id h)))

two_valid-inv :
    (n : ℕ) (ts : List NodeId) (a b : NodeId)
    → All (IsKnown n) ts
    → two_valid ts ≡ some (a, b)
    → (ts ≡ a ∷ b ∷ []) × (a < n) × (b < n)
two_valid-inv n [] a b h e = cc
two_valid-inv n (x ∷ []) a b h e = cc
two_valid-inv n (x ∷ y ∷ []) a b h e = ground arith
two_valid-inv n (x ∷ y ∷ z ∷ ts) a b h e = cc

-- The data inputs of a node with exactly two valid ones.
pub two_valid_lem :
    (g : Graph) (id a b : NodeId)
    → IsLaidOut g
    → id < length g.nodes
    → two_valid (inputs_of_kind g id data_edge) ≡ some (a, b)
    → (inputs_of_kind g id data_edge ≡ a ∷ b ∷ []) × (a < length g.nodes) × (b < length g.nodes)
two_valid_lem g id a b l h e =
    two_valid-inv (length g.nodes) (inputs_of_kind g id data_edge) a b (inputs-All g id l h) e
