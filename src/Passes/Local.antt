-- ===== src/Passes/Local.antt =====
-- src/passman/pass.cpp: a pass that visits each node once and changes no other node.
use arc_jit.Core.Graph.{Graph, at}
use arc_jit.Core.Node.{Node, NodeId, zero_node}
use arc_jit.Passes.{PassState, no_result, pass_loop, run_pass}
use arc_jit.Prelude.{
  ℕ, zero, suc, ◌+◌, ◌*◌, ◌≤◌, ◌<◌, ◌≡◌, refl, sym, ◌∙◌, inl, inr, false, ◌&&◌, leb, ltb, ltb→lt,
  ◌==◌, ==_iff, ap, if◌then◌else◌, Bool-cases, arith, length, get_or, set, length-set,
  get_or-set_self, get_or-set_ne,
}

-- The visit of node `i`, not changed so far, makes it `after i`, and keeps the invariant.
pub record Visit (g : Graph) (after : NodeId → Node) (Q : Graph → Type 0)
    (step : NodeId → PassState → PassState) (i : NodeId) (s : PassState) : Type 0 where
  pub kept : Q (step i s).graph
  pub size : length (step i s).graph.nodes ≡ length s.graph.nodes
  pub here : at (step i s).graph i ≡ after i
  pub others : (j : ℕ) → (i == j) ≡ false → at (step i s).graph j ≡ at s.graph j

module _ (g : Graph) (after : NodeId → Node) (Q : Graph → Type 0)
    (step : NodeId → PassState → PassState) (i : NodeId) (s : PassState) where
  -- The visit changes nothing.
  pub stay-Visit : Q s.graph → step i s ≡ s → at s.graph i ≡ after i → Visit g after Q step i s
  stay-Visit q same here = record {
    kept = rw same q;
    size = rw same refl;
    here = rw same here;
    others = λ j ne. rw same refl;
  }

  -- The visit writes one node.
  pub set-Visit :
      (n : Node)
      → Q (step i s).graph
      → (step i s).graph.nodes ≡ set s.graph.nodes i n
      → n ≡ after i
      → i < length s.graph.nodes
      → Visit g after Q step i s
  set-Visit n q nodes here inside =
      let node = λ (j : ℕ). ap (λ ns. get_or ns j zero_node) nodes in
      record {
        kept = q;
        size = ap length nodes ∙ length-set s.graph.nodes i n;
        here = node i ∙ get_or-set_self s.graph.nodes i n zero_node inside ∙ here;
        others = λ j ne. node j ∙ get_or-set_ne s.graph.nodes i j n zero_node (λ e. ground arith);
      }

-- The nodes from `i` on are merged with the visited one.
merged :
    {A : Type 0} (i f j n : ℕ)
    → i < n
    → (x old mid : A) → (i ≡ j → mid ≡ x)
    → ((i == j) ≡ false → mid ≡ old)
    → (if leb (i + 1) j && ltb j (i + 1 + f) && ltb j n then x else mid)
      ≡ (if leb i j && ltb j (i + suc f) && ltb j n then x else old)
merged i f j n inside x old mid same other = elim (Bool-cases (i == j)) [
  | inl p ↦ rw (same ((==_iff i j).0 p)) (ground arith)
  | inr p ↦ rw (other p) (ground arith)
]

module _ (g : Graph) (after : NodeId → Node) (Q : Graph → Type 0)
    (step : NodeId → PassState → PassState)
    (visit : (i : NodeId) (s : PassState)
      → Q s.graph
      → i < length s.graph.nodes
      → at s.graph i ≡ at g i
      → Visit g after Q step i s) where
  pub loop-at :
      (f i : ℕ) (s : PassState)
      → Q s.graph
      → ((j : ℕ) → i ≤ j → at s.graph j ≡ at g j)
      → Q (pass_loop step f i s).graph
        × (length (pass_loop step f i s).graph.nodes ≡ length s.graph.nodes)
        × ((j : ℕ)
            → at (pass_loop step f i s).graph j ≡ (
                if leb i j && ltb j (i + f) && ltb j (length s.graph.nodes)
                then after j
                else at s.graph j))
  unfolding pass_loop
  loop-at zero i s q same = (q, refl, λ j. ground arith)
  loop-at (suc f) i s q same = elim (Bool-cases (ltb i (length s.graph.nodes))) [
    | inr out ↦ rw out (q, refl, λ j. ground arith)
    | inl inside ↦
        let v = visit i s q (ltb→lt _ _ inside) (same i (omega arith)) in
        let (end, size, rest) =
          loop-at f (i + 1) (step i s) v.kept
            (λ j lo. v.others j (ground arith) ∙ same j (omega arith)) in
        rw inside (
          end,
          size ∙ v.size,
          λ j.
              rest j
              ∙ rw v.size (
                  merged i f j (length s.graph.nodes) (ltb→lt _ _ inside) (after j) (at s.graph j)
                    (at (step i s).graph j)
                    (λ e. ap (at (step i s).graph) (sym e) ∙ v.here ∙ ap after e) (v.others j)),
        )
  ]

  -- Every node but the first is visited once.
  pub run_pass-at :
      Q g
      → Q (run_pass step g).graph
        × (length (run_pass step g).graph.nodes ≡ length g.nodes)
        × ((j : ℕ)
            → at (run_pass step g).graph j
              ≡ (if leb 1 j && ltb j (length g.nodes) then after j else at g j))
  unfolding run_pass
  run_pass-at q =
      let s : PassState = record { graph = g; result = no_result } in
      let (end, size, nodes) = loop-at (4 * length g.nodes) 1 s q (λ j lo. refl) in
      (end, size, λ j. nodes j ∙ ground arith)
