-- ===== src/Passes/Branch/Taken.antt =====
-- src/passman/pass.cpp, `BranchFoldingPass::run`: only a branch that is not taken is marked dead.
use arc_jit.Core.Graph.{Graph, at, inputs_of, mark_dead}
use arc_jit.Core.Node.{Node, NodeId, ◌∪◌, is_dead_flag}
use arc_jit.Passes.Branch.{branch_step, fold_branches, folds_away}
use arc_jit.Passes.Local.{Visit, set-Visit, stay-Visit, loop-at}
use arc_jit.Passes.{PassState}
use arc_jit.Prelude.{
  ℕ, ◌<◌, ◌≡◌, refl, ap, ◌∙◌, inl, inr, Bool, ◌&&◌, leb, ltb, if◌then◌else◌, Bool-cases, arith,
  length,
}

abbrev mark_node : Node → Node
mark_node n = record n { flags = n.flags ∪ is_dead_flag }

abbrev folded_branch : NodeId → Bool → Graph → NodeId → Node
folded_branch id cond g j = if folds_away id cond g j then mark_node (at g j) else at g j

branch_step-Visit :
    (id : NodeId) (cond : Bool) (g : Graph) (i : NodeId) (s : PassState)
    → s.graph.edges ≡ g.edges
    → i < length s.graph.nodes
    → at s.graph i ≡ at g i
    → Visit g (folded_branch id cond g) (λ h. h.edges ≡ g.edges) (branch_step id cond) i s
unfolding branch_step mark_dead folds_away inputs_of
branch_step-Visit id cond g i s edges inside same =
    let after = folded_branch id cond g in
    let Q = λ (h : Graph). h.edges ≡ g.edges in
    let agree : folds_away id cond s.graph i ≡ folds_away id cond g i = rw (same, edges) refl in
    elim (Bool-cases (folds_away id cond g i)) [
      | inr stays ↦
          stay-Visit g after Q (branch_step id cond) i s edges (rw (agree ∙ stays) refl)
            (same ∙ rw stays refl)
      | inl goes ↦
          set-Visit g after Q (branch_step id cond) i s (mark_node (at s.graph i))
            (rw (agree ∙ goes) edges) (rw (agree ∙ goes) refl) (ap mark_node same ∙ rw goes refl)
            inside
    ]

-- Under a constant condition the walk marks dead exactly the live projections of the branch that
-- have it as their only input and that the condition does not take, and leaves everything else of
-- every node and every edge as it is.
fold_branches-at :
    (id : NodeId) (cond : Bool) (s : PassState)
    → ((fold_branches id cond s).graph.edges ≡ s.graph.edges)
      × (length (fold_branches id cond s).graph.nodes ≡ length s.graph.nodes)
      × ((j : ℕ)
          → at (fold_branches id cond s).graph j ≡ (
              if leb 1 j && ltb j (length s.graph.nodes)
              then folded_branch id cond s.graph j
              else at s.graph j))
fold_branches-at id cond s =
    let (edges, size, nodes) =
      loop-at s.graph (folded_branch id cond s.graph) (λ h. h.edges ≡ s.graph.edges)
        (branch_step id cond) (branch_step-Visit id cond s.graph) (length s.graph.nodes) 1 s refl
        (λ j lo. refl) in
    (edges, size, λ j. nodes j ∙ ground arith)
