-- ===== src/Passes/ConstFold/Step.antt =====
-- src/passman/pass.cpp, `ConstantFoldingPass::run`: what a fold leaves behind.
use arc_jit.Core.Graph.{at, next_id}
use arc_jit.Core.Graph.Layout.{add_node-Adds}
use arc_jit.Core.Node.{Node, NodeId, NodeKind, TypeId, dead}
use arc_jit.Passes.ConstFold.{const_flags, const_fold_step, folded}
use arc_jit.Passes.Replace.{const_size, replace_node-code, replace_node-dead}
use arc_jit.Passes.{PassState, add_const}
use arc_jit.Prelude.{ℕ, ◌+◌, ◌<◌, ◌≡◌, refl, ap, ◌∙◌, true, arith, length, some, []}

-- The visit of a node that folds to `v` marks the node dead, adds exactly one node, which is the
-- constant `v`, and reports a change.
pub const_fold_step_lem :
    (id : NodeId) (v : ℕ) (s : PassState)
    → id < length s.graph.nodes
    → folded s.graph id ≡ some v
    → (dead (at (const_fold_step id s).graph id) ≡ true)
      × (length (const_fold_step id s).graph.nodes ≡ length s.graph.nodes + 1)
      × ((at (const_fold_step id s).graph (length s.graph.nodes)).kind ≡ NodeKind.const_int)
      × ((at (const_fold_step id s).graph (length s.graph.nodes)).payload ≡ v)
      × ((const_fold_step id s).result.changed ≡ true)
unfolding const_fold_step
const_fold_step_lem id v s h e =
    let g' = add_const const_flags v s.graph in
    let a = add_node-Adds NodeKind.const_int const_flags TypeId.int v [] s.graph in
    let new = replace_node-code id (next_id s.graph) g' (length s.graph.nodes) in
    rw (e, const_fold_step)
      (
        replace_node-dead id (next_id s.graph) g' (omega (arith, a.size)),
        const_size id const_flags v s.graph,
        ap (λ (n : Node). n.kind) new ∙ ap (λ (n : Node). n.kind) a.last,
        ap (λ (n : Node). n.payload) new ∙ ap (λ (n : Node). n.payload) a.last,
        refl,
      )
