-- ===== src/Core/Graph/Redirect.antt =====
-- src/core/graph.h, `replace_all_uses_with`: what it may do to edges and nodes of any graph.
use arc_jit.Core.Graph.{
  Edge, Graph, at, zero_edge, zero_use, add_uses, patch_edge, Splice, splice_round, splice_loop,
  finish_splice, replace_all_uses_with,
}
use arc_jit.Core.Graph.Layout.{core}
use arc_jit.Core.Node.{NodeId, Node, zero_node, no_index, valid}
use arc_jit.Prelude.{
  ℕ, zero, suc, ◌≡◌, refl, sym, ap, ◌∙◌, ◌⊎◌, inl, inr, Bool, true, false, ◌&&◌, List, arith, ltb,
  ◌==◌, ==_iff, if◌then◌else◌, Bool-cases, length, get_or, length-set, get_or-out_of_range,
  get_or-set_same, get_or-set_self, get_or-set_ne,
}

-- Every edge keeps its kind, and its target unless that goes from `old` to `new`.
pub record RedirectsEdges (old new : NodeId) (es es' : List Edge) : Type 0 where
  pub width : length es' ≡ length es
  pub kinds : (i : ℕ) → (get_or es' i zero_edge).kind ≡ (get_or es i zero_edge).kind
  pub targets :
      (i : ℕ)
      → ((get_or es' i zero_edge).target ≡ (get_or es i zero_edge).target)
        ⊎ (((get_or es i zero_edge).target ≡ old) × ((get_or es' i zero_edge).target ≡ new))

RedirectsEdges-refl : (old new : NodeId) (es : List Edge) → RedirectsEdges old new es es
RedirectsEdges-refl old new es = record { width = refl; kinds = λ i. refl; targets = λ i. inl refl }

RedirectsEdges-trans :
    {old new : NodeId} {es fs ks : List Edge}
    → RedirectsEdges old new es fs
    → RedirectsEdges old new fs ks
    → RedirectsEdges old new es ks
RedirectsEdges-trans p q = record {
  width = q.width ∙ p.width;
  kinds = λ i. q.kinds i ∙ p.kinds i;
  targets = λ i. ground (arith, p.targets i, q.targets i);
}

patch_edge-RedirectsEdges :
    (old new : NodeId) (eid : ℕ) (es : List Edge)
    → (get_or es eid zero_edge).target ≡ old
    → RedirectsEdges old new es (patch_edge eid new es)
patch_edge-RedirectsEdges old new eid es was = record {
  width = length-set es eid _;
  kinds = λ i. get_or-set_same (λ (e : Edge). e.kind) es eid i _ zero_edge refl;
  targets = λ i. elim (Bool-cases (eid == i)) [
    | inr other ↦
        inl (ap (λ (e : Edge). e.target) (get_or-set_ne es eid i _ zero_edge (λ e. ground arith)))
    | inl same ↦
        let e : eid ≡ i = (==_iff eid i).0 same in
        elim (Bool-cases (ltb eid (length es))) [
          | inl inside ↦ inr (
            rw (← e) was,
            rw (← e)
                (ap (λ (e : Edge). e.target) (get_or-set_self es eid _ zero_edge (ground arith))),
          )
          | inr outside ↦ inl (
              ap (λ (e : Edge). e.target)
                (get_or-out_of_range (patch_edge eid new es) i zero_edge
                    (rw length-set (ground arith))
                  ∙ sym (get_or-out_of_range es i zero_edge (ground arith))))
        ]
  ];
}

splice_round-RedirectsEdges :
    (old new : NodeId) (use_idx : ℕ) (s : Splice)
    → RedirectsEdges old new s.edges (splice_round old new use_idx s).edges
unfolding splice_round
splice_round-RedirectsEdges old new use_idx s =
    let eid = (get_or s.uses use_idx zero_use).edge_idx in
    elim (Bool-cases (ltb eid (length s.edges) && ((get_or s.edges eid zero_edge).target == old))) [
      | inr no_match ↦ rw no_match (RedirectsEdges-refl old new s.edges)
      | inl match ↦ rw match (patch_edge-RedirectsEdges old new eid s.edges (ground arith))
    ]

splice_loop-RedirectsEdges :
    (old new : NodeId) (f use_idx : ℕ) (s : Splice)
    → RedirectsEdges old new s.edges (splice_loop old new f use_idx s).edges
unfolding splice_loop
splice_loop-RedirectsEdges old new zero use_idx s = RedirectsEdges-refl old new s.edges
splice_loop-RedirectsEdges old new (suc f) use_idx s = elim (Bool-cases (use_idx == no_index)) [
  | inl done ↦ rw done (RedirectsEdges-refl old new s.edges)
  | inr more ↦ rw more (
      RedirectsEdges-trans (splice_round-RedirectsEdges old new use_idx s)
        (splice_loop-RedirectsEdges old new f _ (splice_round old new use_idx s)))
]

-- The nodes are kept up to their counts of uses.
pub record Redirects (old new : NodeId) (g g' : Graph) : Type 0 where
  pub edges : RedirectsEdges old new g.edges g'.edges
  pub size : length g'.nodes ≡ length g.nodes
  pub nodes : (i : ℕ) → core (at g' i) ≡ core (at g i)

counted-core :
    (b : Bool) (n : ℕ) (id : NodeId) (ns : List Node) (i : ℕ)
    → (length (if b then add_uses n id ns else ns) ≡ length ns)
      × (core (get_or (if b then add_uses n id ns else ns) i zero_node)
          ≡ core (get_or ns i zero_node))
counted-core false n id ns i = (refl, refl)
counted-core true n id ns i = (length-set ns id _, get_or-set_same core ns id i _ zero_node refl)

pub replace_all_uses_with-Redirects :
    (old new : NodeId) (g : Graph) → Redirects old new g (replace_all_uses_with old new g)
unfolding replace_all_uses_with finish_splice
replace_all_uses_with-Redirects old new g = record {
  edges = splice_loop-RedirectsEdges old new _ _ _;
  size = length-set _ old _ ∙ (counted-core (valid new) _ new g.nodes 0).0;
  nodes = λ i.
      get_or-set_same core _ old i _ zero_node refl ∙ (counted-core (valid new) _ new g.nodes i).1;
}
