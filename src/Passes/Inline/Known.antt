-- ===== src/Passes/Inline/Known.antt =====
-- src/passman/pass.cpp, `CallInliningPass::run`: exactly the calls of known functions are resolved.
use arc_jit.Core.Graph.{Graph, at, data_edge, inputs_of, inputs_of_kind}
use arc_jit.Core.Node.{Node, NodeId, NodeKind, zero_node}
use arc_jit.Passes.Inline.{
  call_inlining, callee_known, inline_step, is_call, is_const_func, resolve, resolves,
}
use arc_jit.Passes.Local.{Visit, run_pass-at, set-Visit, stay-Visit}
use arc_jit.Passes.{PassState, set_node}
use arc_jit.Prelude.{
  ℕ, ◌<◌, ◌≡◌, refl, sym, ap, ◌∙◌, inl, inr, true, ◌&&◌, leb, ltb, if◌then◌else◌, Bool-cases, List,
  [], ◌∷◌, length, length-set, arith, get_or-set_same,
}

-- A node that does not tell a call from a call of a known function.
abbrev blur_kind : NodeKind → NodeKind
blur_kind NodeKind.call_known = NodeKind.call
blur_kind k = k

abbrev blur : Node → Node
blur n = record n { kind = blur_kind n.kind }

record SameCalls (g h : Graph) : Type 0 where
  edges : h.edges ≡ g.edges
  size : length h.nodes ≡ length g.nodes
  nodes : (j : ℕ) → blur (at h j) ≡ blur (at g j)

is_const_func-blur_kind : (k : NodeKind) → is_const_func (blur_kind k) ≡ is_const_func k
is_const_func-blur_kind NodeKind.call_known = refl
is_const_func-blur_kind _ = refl

blur_kind-call : (k : NodeKind) → is_call k ≡ true → blur_kind k ≡ NodeKind.call
blur_kind-call NodeKind.call h = refl
blur_kind-call _ h = cc

callee_known-SameCalls :
    {g h : Graph} (ids : List NodeId) → SameCalls g h → callee_known h ids ≡ callee_known g ids
callee_known-SameCalls [] q = refl
callee_known-SameCalls {g} {h} (c ∷ _) q =
    sym (is_const_func-blur_kind (at h c).kind)
    ∙ ap (λ (n : Node). is_const_func n.kind) (q.nodes c)
    ∙ is_const_func-blur_kind (at g c).kind

resolves-call : (g : Graph) (j : NodeId) → resolves g j ≡ true → is_call (at g j).kind ≡ true
resolves-call g j h = ground arith

-- The kind of a visited node is its own; the callee's is known up to calls.
resolves-SameCalls :
    {g h : Graph} (j : NodeId) → SameCalls g h → at h j ≡ at g j → resolves h j ≡ resolves g j
unfolding inputs_of_kind inputs_of
resolves-SameCalls {g} {h} j q same =
    rw (same, q.edges, callee_known-SameCalls (inputs_of_kind g j data_edge) q) refl

abbrev resolved_if_known : Graph → NodeId → Node
resolved_if_known g j = if resolves g j then resolve (at g j) else at g j

set_call-SameCalls :
    (g : Graph) (i : NodeId) (s : PassState)
    → SameCalls g s.graph
    → is_call (at s.graph i).kind ≡ true
    → SameCalls g (set_node i (resolve (at s.graph i)) s.graph)
set_call-SameCalls g i s q call = record {
  edges = q.edges;
  size = length-set s.graph.nodes i _ ∙ q.size;
  nodes = λ j.
      get_or-set_same blur s.graph.nodes i j (resolve (at s.graph i)) zero_node (
        ap (λ k. record (at s.graph i) { kind = k })
          (sym (blur_kind-call (at s.graph i).kind call)))
      ∙ q.nodes j;
}

inline_step-Visit :
    (g : Graph) (i : NodeId) (s : PassState)
    → SameCalls g s.graph
    → i < length s.graph.nodes
    → at s.graph i ≡ at g i
    → Visit g (resolved_if_known g) (SameCalls g) inline_step i s
unfolding inline_step
inline_step-Visit g i s q inside same =
    let agree = resolves-SameCalls i q same in
    elim (Bool-cases (resolves g i)) [
      | inr stays ↦
          stay-Visit g (resolved_if_known g) (SameCalls g) inline_step i s q
            (rw (agree ∙ stays) refl) (rw stays same)
      | inl known ↦
          set-Visit g (resolved_if_known g) (SameCalls g) inline_step i s (resolve (at s.graph i))
            (rw (agree ∙ known)
              (set_call-SameCalls g i s q (resolves-call s.graph i (agree ∙ known))))
            (rw (agree ∙ known) refl) (rw known (ap resolve same)) inside
    ]

-- Call inlining makes exactly the live calls whose callee is a constant function calls of a known
-- function, and leaves everything else of every node and every edge as it is.
call_inlining-resolved :
    (g : Graph)
    → ((call_inlining g).graph.edges ≡ g.edges)
      × (length (call_inlining g).graph.nodes ≡ length g.nodes)
      × ((j : ℕ)
          → at (call_inlining g).graph j
            ≡ (if leb 1 j && ltb j (length g.nodes) then resolved_if_known g j else at g j))
call_inlining-resolved g =
    let (q, size, nodes) =
      run_pass-at g (resolved_if_known g) (SameCalls g) inline_step (inline_step-Visit g)
        (record { edges = refl; size = refl; nodes = λ j. refl }) in
    (q.edges, size, nodes)
