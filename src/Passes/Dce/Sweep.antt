-- ===== src/Passes/Dce/Sweep.antt =====
-- src/passman/pass.cpp, `DeadCodeElimPass::run`: which nodes go, and that a second run does nothing.
use arc_jit.Core.Graph.{Graph, at, mark_dead}
use arc_jit.Core.Node.{Node, NodeId, ◌∪◌, is_dead_flag}
use arc_jit.Passes.Dce.{dce, dce_step, removable}
use arc_jit.Passes.Local.{Visit, run_pass-at, set-Visit, stay-Visit}
use arc_jit.Passes.{PassState, pass_loop, run_pass, no_result}
use arc_jit.Prelude.{
  ℕ, zero, suc, ◌+◌, ◌<◌, ◌≤◌, ◌≡◌, refl, ap, ◌∙◌, inl, inr, true, false, ◌&&◌, leb, ltb,
  if◌then◌else◌, ◌*◌, ltb→lt, lt→ltb, Bool-cases, arith, length,
}

abbrev mark_node : Node → Node
mark_node n = record n { flags = n.flags ∪ is_dead_flag }

-- What the pass leaves of a node.
abbrev swept : Node → Node
swept n = if removable n then mark_node n else n

dce_step-Visit :
    (g : Graph) (i : NodeId) (s : PassState)
    → s.graph.edges ≡ g.edges
    → i < length s.graph.nodes
    → at s.graph i ≡ at g i
    → Visit g (λ j. swept (at g j)) (λ h. h.edges ≡ g.edges) dce_step i s
unfolding dce_step mark_dead
dce_step-Visit g i s edges inside same =
    let stay : removable (at s.graph i) ≡ false → at s.graph i ≡ swept (at s.graph i) =
      λ p. rw p refl in
    let mark : removable (at s.graph i) ≡ true → mark_node (at s.graph i) ≡ swept (at s.graph i) =
      λ p. rw p refl in
    let after = λ (j : ℕ). swept (at g j) in
    let Q = λ (h : Graph). h.edges ≡ g.edges in
    elim (Bool-cases (removable (at s.graph i))) [
      | inr stays ↦
          stay-Visit g after Q dce_step i s edges (rw stays refl) (stay stays ∙ ap swept same)
      | inl goes ↦
          set-Visit g after Q dce_step i s (mark_node (at s.graph i)) (rw goes edges) (rw goes refl)
            (mark goes ∙ ap swept same) inside
    ]

-- Dead code elimination marks dead exactly the nodes but the first that have no uses, are pure and
-- are live, and leaves everything else of every node and every edge as it is.
dce-swept :
    (g : Graph)
    → ((dce g).graph.edges ≡ g.edges)
      × (length (dce g).graph.nodes ≡ length g.nodes)
      × ((j : ℕ)
          → at (dce g).graph j
            ≡ (if leb 1 j && ltb j (length g.nodes) then swept (at g j) else at g j))
dce-swept g =
    run_pass-at g (λ j. swept (at g j)) (λ h. h.edges ≡ g.edges) dce_step (dce_step-Visit g) refl

le→leb : (a b : ℕ) → a ≤ b → leb a b ≡ true
le→leb a b h = ground arith

removable-swept : (n : Node) → removable (swept n) ≡ false
unfolding removable ◌∪◌
removable-swept n = ground arith

dce_loop_clean :
    (f i : ℕ) (s : PassState)
    → 1 ≤ i
    → ((j : ℕ) → 1 ≤ j → j < length s.graph.nodes → removable (at s.graph j) ≡ false)
    → pass_loop dce_step f i s ≡ s
unfolding pass_loop dce_step
dce_loop_clean zero i s lo clean = refl
dce_loop_clean (suc f) i s lo clean = elim (Bool-cases (ltb i (length s.graph.nodes))) [
  | inr out ↦ rw out refl
  | inl inside ↦
      rw (inside, clean i lo (ltb→lt _ _ inside)) (dce_loop_clean f (i + 1) s (omega arith) clean)
]

-- Dead code elimination is idempotent: a second run changes nothing and reports no change.
pub dce-dce : (g : Graph) → dce (dce g).graph ≡ record { graph = (dce g).graph; result = no_result }
unfolding run_pass
dce-dce g =
    let (edges, size, nodes) = dce-swept g in
    dce_loop_clean (4 * length (dce g).graph.nodes) 1 _ (omega arith) (λ j lo hi.
      ap removable
        (nodes j ∙ rw (le→leb 1 j lo, lt→ltb j (length g.nodes) (omega (arith, size))) refl)
      ∙ removable-swept (at g j))
