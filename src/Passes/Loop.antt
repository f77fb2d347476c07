-- ===== src/Passes/Loop.antt =====
-- src/passman/pass.cpp: a pass whose every step keeps the values of nodes keeps them.
use arc_jit.Core.Graph.{Graph}
use arc_jit.Core.Graph.Layout.{IsLaidOut}
use arc_jit.Core.Node.{NodeId, no_index}
use arc_jit.Passes.Meaning.{Models, Preserves, Preserves-refl, Preserves-trans}
use arc_jit.Passes.{PassState, no_result, pass_loop, run_pass}
use arc_jit.Prelude.{
  ℕ, zero, suc, ◌+◌, ◌*◌, ◌^◌, ◌≤◌, ◌<◌, ◌≡◌, true, refl, inl, inr, arith, ltb, ltb→lt, Bool-cases,
  length,
}

-- The graph can take `n` more nodes and edges without wrapping an index.
pub record HasRoom (n : ℕ) (g : Graph) : Type 0 where
  pub nodes : length g.nodes + n < no_index
  pub edges : length g.edges + n < 2 ^ 32

-- The values after a step, with the growth that one step may cause.
abbrev pub StepsTo : Graph → (NodeId → ℕ) → Graph → Type 0
StepsTo g val g' =
    (val' : NodeId → ℕ) × Preserves g val g' val'
    × (length g'.nodes ≤ length g.nodes + 2)
    × (length g'.edges ≤ length g.edges + 2)

-- Each step keeps the values, and an invariant that the pass may need of its graph.
abbrev pub IsSound : (Graph → (NodeId → ℕ) → Type 0) → (NodeId → PassState → PassState) → Type 0
IsSound Q step =
    (i : NodeId) (s : PassState) (val : NodeId → ℕ)
    → i < length s.graph.nodes
    → HasRoom 2 s.graph
    → IsLaidOut s.graph
    → Models s.graph val
    → Q s.graph val
    → (t : StepsTo s.graph val (step i s).graph) × Q (step i s).graph t.0

-- One round of the loop.
pub pass_loop-inside :
    (step : NodeId → PassState → PassState) (f : ℕ) (i : NodeId) (s : PassState)
    → ltb i (length s.graph.nodes) ≡ true
    → pass_loop step (suc f) i s ≡ pass_loop step f (i + 1) (step i s)
unfolding pass_loop
pass_loop-inside step f i s inside = rw inside refl

pub pass_loop-Preserves :
    (Q : Graph → (NodeId → ℕ) → Type 0) (step : NodeId → PassState → PassState)
    → IsSound Q step
    → (f : ℕ) (i : NodeId) (s : PassState) (val : NodeId → ℕ) → HasRoom (2 * f) s.graph
    → IsLaidOut s.graph
    → Models s.graph val
    → Q s.graph val
    → (val' : NodeId → ℕ) × Preserves s.graph val (pass_loop step f i s).graph val'
unfolding pass_loop
pass_loop-Preserves Q step sound zero i s val room l m q = (val, Preserves-refl l m)
pass_loop-Preserves Q step sound (suc f) i s val room l m q =
    elim (Bool-cases (ltb i (length s.graph.nodes))) [
      | inr out ↦ rw out (val, Preserves-refl l m)
      | inl inside ↦
          let ((u, p, nodes, edges), q') = sound i s val (ltb→lt _ _ inside) (omega arith) l m q in
          let (w, r) =
            pass_loop-Preserves Q step sound f (i + 1) (step i s) u (omega arith) p.laid_out
              p.models q' in
          rw inside (w, Preserves-trans p r)
    ]

pub run_pass-Preserves :
    (Q : Graph → (NodeId → ℕ) → Type 0) (step : NodeId → PassState → PassState)
    → IsSound Q step
    → (g : Graph) (val : NodeId → ℕ) → HasRoom (8 * length g.nodes) g
    → IsLaidOut g
    → Models g val
    → Q g val
    → (val' : NodeId → ℕ) × Preserves g val (run_pass step g).graph val'
unfolding run_pass
run_pass-Preserves Q step sound g val room l m q =
    pass_loop-Preserves Q step sound (4 * length g.nodes) 1
      (record { graph = g; result = no_result }) val (omega arith) l m q
