-- ===== src/Passes/ConstFold/Sound.antt =====
-- src/passman/pass.cpp, `ConstantFoldingPass::run`: folding keeps the value of every node.
use arc_jit.Core.Graph.{Graph, at, data_edge, inputs_of_kind}
use arc_jit.Core.Graph.Layout.{IsLaidOut}
use arc_jit.Core.Node.{NodeId, NodeKind}
use arc_jit.Passes.ConstFold.{fold_value, folded, const_flags, const_fold_step, const_fold}
use arc_jit.Passes.Inputs.{const_int-value, two_valid_lem}
use arc_jit.Passes.Loop.{HasRoom, IsSound, run_pass-Preserves}
use arc_jit.Passes.Meaning.{node_value, Models, Preserves, Preserves-refl}
use arc_jit.Passes.Replace.{replace_by_const-StepsTo}
use arc_jit.Passes.{two_valid, is_const_int}
use arc_jit.Prelude.{
  ℕ, ◌*◌, ◌<◌, ◌≡◌, inl, inr, ◌&&◌, [], ◌∷◌, arith, Bool-cases, Option-cases, length, some,
}
use arc_jit.Tier2.Apply.{apply, apply_const, apply_binary}

-- The folded value is the one that the code of the node computes.
fold_value-apply :
    (k : NodeKind) (payload a b v : ℕ)
    → fold_value k a b ≡ some v
    → apply k payload (a ∷ b ∷ []) ≡ some v
unfolding fold_value apply apply_binary apply_const
fold_value-apply NodeKind.add payload a b v e = e
fold_value-apply NodeKind.sub payload a b v e = e
fold_value-apply NodeKind.mul payload a b v e = e
fold_value-apply _ payload a b v e = cc

folded-value :
    (g : Graph) (val : NodeId → ℕ) (id : NodeId) (v : ℕ)
    → IsLaidOut g
    → Models g val
    → id < length g.nodes
    → folded g id ≡ some v
    → val id ≡ v
unfolding folded node_value
folded-value g val id v l m known e =
    elim (Option-cases (two_valid (inputs_of_kind g id data_edge))) [
      | inl none_two ↦ absurd (ground (arith, none_two))
      | inr (p, two) ↦
          let t = two_valid_lem g id p.0 p.1 l known two in
          elim (Bool-cases (is_const_int (at g p.0).kind && is_const_int (at g p.1).kind)) [
            | inr not_both ↦ absurd (ground (arith, two, not_both))
            | inl both ↦ m.computed id v known (
                rw
                  (
                    t.0,
                    const_int-value p.0 m t.1 (ground arith),
                    const_int-value p.1 m t.2 (ground arith),
                  )
                  (fold_value-apply _ _ _ _ v (ground (arith, two, both))))
          ]
    ]

const_fold_step-IsSound : IsSound (λ _ _. Unit {0}) const_fold_step
unfolding const_fold_step
const_fold_step-IsSound i s val known room l m q = elim (Option-cases (folded s.graph i)) [
  | inl nothing ↦
      rw (nothing, const_fold_step) ((val, Preserves-refl l m, omega arith, omega arith), tt)
  | inr (v, e) ↦
      rw (e, const_fold_step)
        (
          replace_by_const-StepsTo i const_flags v s.graph val l m room known
              (folded-value s.graph val i v l m known e),
          tt,
        )
]

-- For every graph whose inputs lie in the edge pool and whose indices stay in 32 bits, and every
-- assignment of values that its nodes compute, there are values of the folded graph that its nodes
-- compute, under which every old node has its old value and every old edge reads the value it read.
pub const_fold-Preserves :
    (g : Graph) (val : NodeId → ℕ)
    → HasRoom (8 * length g.nodes) g
    → IsLaidOut g
    → Models g val
    → (val' : NodeId → ℕ) × Preserves g val (const_fold g).graph val'
unfolding const_fold
const_fold-Preserves g val room l m =
    run_pass-Preserves (λ _ _. Unit {0}) const_fold_step const_fold_step-IsSound g val room l m tt
