-- ===== src/Passes/StrengthReduce/Choice.antt =====
-- src/passman/pass.cpp, `StrengthReductionPass::run`: the shift that is chosen for a node computes the
-- value of the node.
use arc_jit.Core.Graph.{Graph, at, data_edge, inputs_of_kind}
use arc_jit.Core.Graph.Layout.{IsLaidOut}
use arc_jit.Core.Node.{NodeId, NodeKind, dead}
use arc_jit.Passes.Inputs.{const_int-value, two_valid_lem}
use arc_jit.Passes.Meaning.{node_value, Models}
use arc_jit.Passes.StrengthReduce.{is_positive_pow2, Shift, shift_of, reduce_pair, reduction}
use arc_jit.Passes.{two_valid, is_const_int}
use arc_jit.Prelude.{
  ℕ, ◌<◌, ◌≡◌, ◌≢◌, refl, sym, ap, ◌∙◌, inl, inr, ◌&&◌, [], ◌∷◌, arith, Bool-cases, Option-cases,
  length, some, none, Option, map,
}
use arc_jit.Tier1.Alu.{sign_bit, mul64, div64}
use mathlib.Core.Option.{some-injective}
use arc_jit.Tier2.Apply.{apply, apply_const, apply_binary}
use arc_jit.Passes.StrengthReduce.Shift.{shift_amount_lem, shl64-mul64, sar64-div64}

-- A division in the graph has a dividend that is not negative.
abbrev pub DividesNonneg : Graph → (NodeId → ℕ) → Type 0
DividesNonneg g val =
    (i x y : ℕ)
    → i < length g.nodes
    → (at g i).kind ≡ NodeKind.div
    → map val (inputs_of_kind g i data_edge) ≡ x ∷ y ∷ []
    → x < sign_bit

-- What a choice promises of the value of the node.
abbrev pub IsRight : Graph → (NodeId → ℕ) → NodeId → Option Shift → Type 0
IsRight g val id none = Unit {0}
IsRight g val id (some (k, a, s)) =
    (a < length g.nodes)
    × (s < 64)
    × (k ≢ NodeKind.div)
    × ((w : ℕ) → apply k 0 (val a ∷ s ∷ []) ≡ some w → val id ≡ w)

module _ (g : Graph) (val : NodeId → ℕ) (m : Models g val) (id a b : NodeId)
    (ka : a < length g.nodes) (kb : b < length g.nodes) where
  mul-IsRight : val id ≡ mul64 (val a) (val b) → IsRight g val id (shift_of g a b NodeKind.shl)
  unfolding apply apply_const apply_binary
  mul-IsRight h =
      let n = at g b in
      elim (Bool-cases (is_const_int n.kind && is_positive_pow2 n.payload)) [
        | inr other ↦ rw other tt
        | inl good ↦
            let vb = const_int-value b m kb (ground arith) in
            let (power, low, pos, small) = shift_amount_lem n.payload (ground arith) in
            rw good (
              ka,
              low,
              (λ e. cc),
              λ w e.
                  h
                  ∙ ap (mul64 (val a)) vb
                  ∙ sym (shl64-mul64 (val a) n.payload _ power low)
                  ∙ some-injective _ _ e,
            )
      ]

  div-IsRight :
      val a < sign_bit
      → val id ≡ div64 (val a) (val b)
      → IsRight g val id (shift_of g a b NodeKind.shr)
  unfolding apply apply_const apply_binary
  div-IsRight nonneg h =
      let n = at g b in
      elim (Bool-cases (is_const_int n.kind && is_positive_pow2 n.payload)) [
        | inr other ↦ rw other tt
        | inl good ↦
            let vb = const_int-value b m kb (ground arith) in
            let (power, low, pos, small) = shift_amount_lem n.payload (ground arith) in
            rw good (
              ka,
              low,
              (λ e. cc),
              λ w e.
                  h
                  ∙ ap (div64 (val a)) vb
                  ∙ sym (sar64-div64 (val a) n.payload _ power low pos small nonneg)
                  ∙ some-injective _ _ e,
            )
      ]

  reduce_pair-IsRight :
      (k : NodeKind) (payload : ℕ)
      → (k ≡ NodeKind.div → val a < sign_bit)
      → ((v : ℕ) → apply k payload (val a ∷ val b ∷ []) ≡ some v → val id ≡ v)
      → IsRight g val id (reduce_pair g k (some (a, b)))
  unfolding apply apply_const apply_binary
  reduce_pair-IsRight NodeKind.mul payload n right = mul-IsRight (right _ refl)
  reduce_pair-IsRight NodeKind.div payload n right = div-IsRight (n refl) (right _ refl)
  reduce_pair-IsRight _ payload n right = tt

pub reduction-IsRight :
    (g : Graph) (val : NodeId → ℕ) (id : NodeId)
    → IsLaidOut g
    → Models g val
    → DividesNonneg g val
    → id < length g.nodes
    → IsRight g val id (reduction g id)
unfolding reduction node_value
reduction-IsRight g val id l m q known = elim (Bool-cases (dead (at g id))) [
  | inl is_dead ↦ rw is_dead tt
  | inr live ↦ rw live (elim (Option-cases (two_valid (inputs_of_kind g id data_edge))) [
    | inl nothing ↦ rw nothing tt
    | inr (p, two) ↦
        let t = two_valid_lem g id p.0 p.1 l known two in
        rw two (
          reduce_pair-IsRight g val m id p.0 p.1 t.1 t.2 (at g id).kind (at g id).payload
            (λ is_div. q id (val p.0) (val p.1) known is_div (ap (map val) t.0))
            (λ v e. m.computed id v known (rw t.0 e)))
  ])
]
