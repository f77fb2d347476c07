-- ===== src/Passes/Gvn/Ends.antt =====
-- src/passman/pass.cpp, `GVNPass::run`: as many rounds as there are nodes visit every node.
use arc_jit.Core.Graph.{Graph, at}
use arc_jit.Core.Node.{NodeId, dead, gvnable_flag, has_flag}
use arc_jit.Passes.Gvn.{GvnState, Key, find_key, gvn, gvn_loop, gvn_step, key_of, number_node}
use arc_jit.Passes.Replace.{replace_node_size}
use arc_jit.Passes.{no_result}
use native.Mathlib.Nat.{suc-add, zero-add}
use arc_jit.Prelude.{
  ℕ, zero, suc, ◌+◌, ◌≤◌, ◌≡◌, refl, inl, inr, ltb, Bool-cases, Option, none, some, [], arith,
  length,
}

number_node_size :
    (id : NodeId) (k : Key) (o : Option NodeId) (s : GvnState)
    → length (number_node id k o s).graph.nodes ≡ length s.graph.nodes
number_node_size id k none s = refl
number_node_size id k (some c) s = (replace_node_size id c s.graph).0

gvn_step_size :
    (id : NodeId) (s : GvnState) → length (gvn_step id s).graph.nodes ≡ length s.graph.nodes
unfolding gvn_step
gvn_step_size id s = elim (Bool-cases (dead (at s.graph id))) [
  | inl d ↦ rw d refl
  | inr live ↦ elim (Bool-cases (has_flag (at s.graph id).flags gvnable_flag)) [
    | inr unflagged ↦ rw (live, unflagged) refl
    | inl flagged ↦
        rw (live, flagged)
          (number_node_size id (key_of s.graph id) (find_key (key_of s.graph id) s.seen) s)
  ]
]

gvn_loop-more :
    (f k i : ℕ) (s : GvnState)
    → length s.graph.nodes ≤ i + f
    → gvn_loop (f + k) i s ≡ gvn_loop f i s
unfolding gvn_loop
gvn_loop-more zero zero i s enough = refl
gvn_loop-more zero (suc k) i s enough = elim (Bool-cases (ltb i (length s.graph.nodes))) [
  | inl inside ↦ absurd (ground arith)
  | inr out ↦ rw (zero-add, out) refl
]
gvn_loop-more (suc f) k i s enough =
    let rest = gvn_loop-more f k (i + 1) (gvn_step i s) (omega (arith, gvn_step_size i s)) in
    rw suc-add (rw rest refl)

-- More rounds than there are nodes give the same graph and the same result.
gvn_enough :
    (g : Graph) (k : ℕ)
    → gvn_loop (length g.nodes + k) 1 (record { graph = g; seen = []; result = no_result }) ≡ gvn g
unfolding gvn
gvn_enough g k =
    gvn_loop-more (length g.nodes) k 1 (record { graph = g; seen = []; result = no_result })
      (omega arith)
