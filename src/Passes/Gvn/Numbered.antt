-- ===== src/Passes/Gvn/Numbered.antt =====
-- src/passman/pass.cpp, `GVNPass::run`: the key of a node determines its value.
use arc_jit.Core.Graph.{
  EdgeKind, Edge, Graph, at, inputs_of, inputs_of_kind, targets_of_kind, data_edge, control_edge,
  edge_at, same_kind, slice, zero_edge,
}
use arc_jit.Core.Node.{NodeId, NodeKind, commutative_flag, dead, gvnable_flag, has_flag}
use arc_jit.Passes.Gvn.{in_identity, identity_targets, order_ids, key_of}
use arc_jit.Passes.Meaning.{node_value, Models}
use arc_jit.Prelude.{
  ℕ, zero, suc, ◌+◌, ◌≤◌, ◌<◌, ◌≡◌, ◌≢◌, refl, sym, ap, ◌∙◌, inl, inr, Bool, true, false, leb, some,
  List, [], ◌∷◌, length, map, get_or, arith, Bool-cases,
}
use arc_jit.Tier1.Alu.{add64, mul64, eq64, ne64, and64, or64}
use arc_jit.Tier2.Apply.{apply, apply_const, apply_binary, apply_unary}
use native.Mathlib.Nat.{mul_comm}

abbrev pub commutes : NodeKind → Bool
commutes NodeKind.add = true
commutes NodeKind.mul = true
commutes NodeKind.eq = true
commutes NodeKind.ne = true
commutes NodeKind.and = true
commutes NodeKind.or = true
commutes _ = false

-- What numbering relies on of a live node that is flagged for it.
pub record NumberedNode (g : Graph) (val : NodeId → ℕ) (i : NodeId) : Type 0 where
  pub no_control :
      (e : ℕ)
      → (at g i).first_input ≤ e
      → e < (at g i).first_input + (at g i).input_count
      → (edge_at g e).kind ≢ control_edge
  pub total : (v : ℕ) × (node_value g val i ≡ some v)
  pub ordered :
      has_flag (at g i).flags commutative_flag ≡ true
      → (commutes (at g i).kind ≡ true) × (length (inputs_of_kind g i data_edge) ≡ 2)

abbrev pub IsNumbered : Graph → (NodeId → ℕ) → Type 0
IsNumbered g val =
    (i : ℕ)
    → i < length g.nodes
    → dead (at g i) ≡ false
    → has_flag (at g i).flags gvnable_flag ≡ true
    → NumberedNode g val i

add64_comm : (a b : ℕ) → add64 a b ≡ add64 b a
unfolding add64
add64_comm a b = omega arith

mul64_comm : (a b : ℕ) → mul64 a b ≡ mul64 b a
unfolding mul64
mul64_comm a b = rw (mul_comm a b) refl

apply_comm :
    (k : NodeKind) (payload a b : ℕ)
    → commutes k ≡ true
    → apply k payload (a ∷ b ∷ []) ≡ apply k payload (b ∷ a ∷ [])
unfolding apply apply_const apply_binary apply_unary eq64 ne64 and64 or64
apply_comm NodeKind.add payload a b h = ap some (add64_comm a b)
apply_comm NodeKind.mul payload a b h = ap some (mul64_comm a b)
apply_comm NodeKind.eq payload a b h = ground arith
apply_comm NodeKind.ne payload a b h = ground arith
apply_comm NodeKind.and payload a b h = ground arith
apply_comm NodeKind.or payload a b h = ground arith
apply_comm _ payload a b h = cc

order_ids-apply :
    (k : NodeKind) (payload : ℕ) (val : NodeId → ℕ) (b : Bool) (ids : List ℕ)
    → (b ≡ true → (commutes k ≡ true) × (length ids ≡ 2))
    → apply k payload (map val (order_ids b ids)) ≡ apply k payload (map val ids)
order_ids-apply k payload val false ids h = refl
order_ids-apply k payload val true [] h = refl
order_ids-apply k payload val true (x ∷ []) h = refl
order_ids-apply k payload val true (x ∷ y ∷ []) h = elim (Bool-cases (leb x y)) [
  | inl le ↦ rw le refl
  | inr gt ↦ rw gt (apply_comm k payload (val y) (val x) (h refl).0)
]
order_ids-apply k payload val true (x ∷ y ∷ z ∷ ids) h = absurd (omega (arith, (h refl).1))

-- Without control edges, the inputs of the key are the data inputs.
identity_targets-slice :
    (es : List Edge) (f c : ℕ)
    → ((e : ℕ) → f ≤ e → e < f + c → (get_or es e zero_edge).kind ≢ control_edge)
    → identity_targets (slice es f c) ≡ targets_of_kind data_edge (slice es f c)
unfolding identity_targets targets_of_kind slice
identity_targets-slice es f zero h = refl
identity_targets-slice es f (suc c) h =
    let rest = identity_targets-slice es (f + 1) c (λ e lo hi. h e (omega arith) (omega arith)) in
    let here = same_identity (get_or es f zero_edge).kind (h f (omega arith) (omega arith)) in
    rw (here, rest) refl
  where
    same_identity : (k : EdgeKind) → k ≢ control_edge → in_identity k ≡ same_kind k data_edge
    same_identity data_edge n = refl
    same_identity control_edge n = absurd (n refl)
    same_identity _ n = refl

-- The operation of the key, on the inputs of the key, gives the value of the node.
pub key_of-value :
    (g : Graph) (val : NodeId → ℕ) (i : NodeId)
    → Models g val
    → i < length g.nodes
    → NumberedNode g val i
    → apply (key_of g i).kind (key_of g i).payload (map val (key_of g i).input_ids) ≡ some (val i)
unfolding key_of node_value inputs_of_kind inputs_of
key_of-value g val i m known n =
    let k = (at g i).kind in
    let ids = inputs_of_kind g i data_edge in
    let same =
      identity_targets-slice g.edges (at g i).first_input (at g i).input_count n.no_control in
    rw same (
      order_ids-apply k (at g i).payload val (has_flag (at g i).flags commutative_flag) ids
        n.ordered
      ∙ n.total.1
      ∙ ap some (sym (m.computed i n.total.0 known n.total.1)))
