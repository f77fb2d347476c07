-- ===== src/Passes/Escape/Pinned.antt =====
-- src/passman/pass.cpp, `EscapeAnalysisPass::run`: exactly the allocations that stay local are pinned.
use arc_jit.Core.Graph.{Graph, at, inputs_of}
use arc_jit.Core.Node.{Node, NodeId, ◌∪◌, dead, zero_node}
use arc_jit.Passes.Escape.{
  escape_analysis, escape_step, escapes_from, pin, stays_local, user_escapes,
}
use arc_jit.Passes.Local.{Visit, run_pass-at, set-Visit, stay-Visit}
use arc_jit.Passes.{PassState}
use arc_jit.Prelude.{
  ℕ, zero, suc, ◌+◌, ◌<◌, ◌≡◌, refl, ap, ◌∙◌, inl, inr, false, ◌&&◌, leb, ltb, if◌then◌else◌,
  Bool-cases, length, length-set, get_or-set_same,
}

-- A node without the flag that the pass sets.
abbrev unpinned : Node → Node
unpinned n = record n { flags = record n.flags { is_pinned = false } }

-- `h` is `g` but for pins.
record SamePins (g h : Graph) : Type 0 where
  edges : h.edges ≡ g.edges
  size : length h.nodes ≡ length g.nodes
  nodes : (j : ℕ) → unpinned (at h j) ≡ unpinned (at g j)

user_escapes-SamePins :
    {g h : Graph} → SamePins g h → (id j : NodeId) → user_escapes h id j ≡ user_escapes g id j
unfolding inputs_of
user_escapes-SamePins q id j =
    let n = q.nodes j in
    rw
      (
        ap dead n,
        ap (λ (m : Node). m.kind) n,
        ap (λ (m : Node). m.first_input) n,
        ap (λ (m : Node). m.input_count) n,
        q.edges,
      )
      refl

escapes_from-SamePins :
    {g h : Graph}
    → SamePins g h
    → (f : ℕ) (j id : NodeId) → escapes_from f j h id ≡ escapes_from f j g id
unfolding escapes_from
escapes_from-SamePins q zero j id = refl
escapes_from-SamePins q (suc f) j id =
    rw (q.size, user_escapes-SamePins q id j, escapes_from-SamePins q f (j + 1) id) refl

abbrev pub pinned_if_local : Graph → NodeId → Node
pinned_if_local g j = if stays_local g j then pin (at g j) else at g j

escape_step-Visit :
    (g : Graph) (i : NodeId) (s : PassState)
    → SamePins g s.graph
    → i < length s.graph.nodes
    → at s.graph i ≡ at g i
    → Visit g (pinned_if_local g) (SamePins g) escape_step i s
unfolding escape_step ◌∪◌
escape_step-Visit g i s q inside same =
    let agree : stays_local s.graph i ≡ stays_local g i =
      rw (same, q.size, escapes_from-SamePins q (length g.nodes) 1 i) refl in
    elim (Bool-cases (stays_local g i)) [
      | inr stays ↦
          stay-Visit g (pinned_if_local g) (SamePins g) escape_step i s q (rw (agree ∙ stays) refl)
            (rw stays same)
      | inl pins ↦
          set-Visit g (pinned_if_local g) (SamePins g) escape_step i s (pin (at s.graph i))
            (rw (agree ∙ pins) (record {
              edges = q.edges;
              size = length-set s.graph.nodes i _ ∙ q.size;
              nodes = λ j. get_or-set_same unpinned s.graph.nodes i j _ zero_node refl ∙ q.nodes j;
            }))
            (rw (agree ∙ pins) refl) (rw pins (ap pin same)) inside
    ]

-- It pins exactly the live allocations that have, among the live nodes, no data use
-- but field accesses and shape checks, and leaves everything else of every node and every edge as
-- it is.
pub escape_analysis-pinned :
    (g : Graph)
    → ((escape_analysis g).graph.edges ≡ g.edges)
      × (length (escape_analysis g).graph.nodes ≡ length g.nodes)
      × ((j : ℕ)
          → at (escape_analysis g).graph j
            ≡ (if leb 1 j && ltb j (length g.nodes) then pinned_if_local g j else at g j))
escape_analysis-pinned g =
    let (q, size, nodes) =
      run_pass-at g (pinned_if_local g) (SamePins g) escape_step (escape_step-Visit g)
        (record { edges = refl; size = refl; nodes = λ j. refl }) in
    (q.edges, size, nodes)
