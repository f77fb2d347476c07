-- ===== src/Passes/Rewrite.antt =====
-- src/core/graph.h: the three mutations that the passes are made of keep the values of nodes.
use arc_jit.Core.Graph.{
  data_edge, Edge, Graph, at, edge_at, zero_edge, inputs_of, targets_of_kind, inputs_of_kind,
  add_node, u32, u16, replace_all_uses_with, mark_dead,
}
use arc_jit.Core.Graph.Layout.{
  code, IsLaidOut, Adds, add_node-Adds, fresh_node, AllKnown, get_or-AllKnown,
}
use arc_jit.Core.Graph.Redirect.{Redirects, replace_all_uses_with-Redirects}
use arc_jit.Core.Node.{NodeId, NodeKind, NodeFlags, TypeId, Node, zero_node, no_index}
use arc_jit.Passes.Meaning.{
  node_value, Models, Preserves, Preserves-trans, node_value_congr, update, update_self, update_ne,
  slice-append, map-update,
}
use arc_jit.Passes.{replace_node}
use arc_jit.Prelude.{
  ℕ, ◌+◌, ◌-◌, ◌^◌, ◌≤◌, ◌<◌, ◌≡◌, ◌≢◌, refl, sym, ap, ◌∙◌, ◌⊎◌, inl, inr, List, map, arith, ltb,
  Bool-cases, length, some, get_or-append_left, get_or-append_right, length-append, length-set,
  get_or-set_same, ltb→lt,
}
use arc_jit.Tier1.Alu.{word_mod}
use arc_jit.Tier2.Apply.{apply}

lt-cases : (i n : ℕ) → i < n + 1 → (i < n) ⊎ (i ≡ n)
lt-cases i n h = elim (Bool-cases (ltb i n)) [
  | inl t ↦ inl (ltb→lt i n t)
  | inr f ↦ inr (ground arith)
]

module _ (k : NodeKind) (flags : NodeFlags) (type : TypeId) (payload : ℕ) (inputs : List Edge)
    (g : Graph) (val : NodeId → ℕ) (l : IsLaidOut g) (m : Models g val)
    (few_nodes : length g.nodes + 1 < no_index)
    (few_edges : length g.edges + length inputs < 2 ^ 32) (few_inputs : length inputs < 2 ^ 16)
    (below : AllKnown (length g.nodes) inputs) where
  after : Graph
  after = add_node k flags type payload inputs g

  added : Adds (fresh_node k flags type payload inputs g) inputs g after
  unfolding after
  added = add_node-Adds k flags type payload inputs g

  old_edge : (e : ℕ) → e < length g.edges → edge_at after e ≡ edge_at g e
  old_edge e h = rw added.edges (get_or-append_left g.edges inputs e zero_edge h)

  new_edge :
      (e : ℕ)
      → length g.edges ≤ e
      → e < length g.edges + length inputs
      → ((edge_at after e).target < length g.nodes) ⊎ ((edge_at after e).target ≡ no_index)
  new_edge e lo hi =
      let j = e - length g.edges in
      let split : e ≡ length g.edges + j = omega arith in
      rw added.edges (
        rw split (
          rw (get_or-append_right g.edges inputs j zero_edge)
            (get_or-AllKnown (length g.nodes) inputs j below (omega arith))))

  -- Old inputs never name the new node.
  old_target : (e : ℕ) → e < length g.edges → (edge_at g e).target ≢ length g.nodes
  old_target e h p = ground (arith, l.scoped e h)

  add-IsLaidOut : IsLaidOut after
  add-IsLaidOut = record {
    inside = λ i h. elim (lt-cases i (length g.nodes) (rw (← added.size) h)) [
      | inl old ↦
          rw
            (
              ap (λ (n : Node). n.first_input) (added.olds i old),
              ap (λ (n : Node). n.input_count) (added.olds i old),
              added.edges,
              length-append,
            )
            (omega (arith, l.inside i old))
      | inr last ↦ rw last (
          rw
            (
              ap (λ (n : Node). n.first_input) added.last,
              ap (λ (n : Node). n.input_count) added.last,
              added.edges,
              length-append,
            )
            (omega arith))
    ];
    scoped = λ e h. elim (Bool-cases (ltb e (length g.edges))) [
      | inl old ↦
          rw (old_edge e (ltb→lt _ _ old), added.size) (ground (arith, l.scoped e (ltb→lt _ _ old)))
      | inr new ↦
          let q : length after.edges ≡ length g.edges + length inputs =
            ap length added.edges ∙ length-append g.edges inputs in
          let hi : e < length g.edges + length inputs = omega (arith, q) in
          rw added.size (ground (arith, new_edge e (ground arith) hi))
    ];
  }

  module _ (v : ℕ) (small : v < word_mod)
      (right : (w : ℕ)
        → apply k payload (map val (targets_of_kind data_edge inputs)) ≡ some w
        → v ≡ w) where
    -- The added node takes the value `v`.
    valued : NodeId → ℕ
    valued = update val (length g.nodes) v

    old_value : (i : ℕ) → i < length g.nodes → node_value after valued i ≡ node_value g val i
    unfolding valued
    old_value i h = node_value_congr g after val valued i i (ap code (added.olds i h)) (λ e lo hi.
        let inside : e < length g.edges = omega (arith, l.inside i h) in
        (
          ap (λ (x : Edge). x.kind) (old_edge e inside),
          rw (old_edge e inside) (update_ne val (length g.nodes) v _ (old_target e inside)),
        ))

    new_value :
        node_value after valued (length g.nodes)
        ≡ apply k payload (map val (targets_of_kind data_edge inputs))
    unfolding node_value inputs_of_kind inputs_of valued
    new_value =
        rw
          (
            ap (λ (n : Node). n.kind) added.last,
            ap (λ (n : Node). n.payload) added.last,
            ap (λ (n : Node). n.first_input) added.last,
            ap (λ (n : Node). n.input_count) added.last,
            added.edges,
          )
          (let first : u32 (length g.edges) ≡ length g.edges = omega arith in
            let count : u16 (length inputs) ≡ length inputs = omega arith in
            rw (
              first,
              count,
              slice-append g.edges inputs (length g.edges) refl,
              map-update data_edge val (length g.nodes) v inputs (λ e. omega arith) below,
            ))

    add-Models : Models after valued
    unfolding valued
    add-Models = record {
      word = λ i. ground (arith, m.word i);
      computed = λ i w h e. elim (lt-cases i (length g.nodes) (rw (← added.size) h)) [
        | inr last ↦
            rw last (update_self val (length g.nodes) v ∙ right w (sym new_value ∙ rw last at e))
        | inl old ↦
            rw (update_ne val (length g.nodes) v i (λ p. omega arith))
              (m.computed i w old (sym (old_value i old) ∙ e))
      ];
    }

    pub add_node-Preserves :
        Preserves g val (add_node k flags type payload inputs g) (update val (length g.nodes) v)
    unfolding after valued
    add_node-Preserves = record {
      laid_out = add-IsLaidOut;
      models = add-Models;
      keeps = λ i h. update_ne val (length g.nodes) v i (λ p. ground arith);
      reads = λ e h. rw (old_edge e h) (update_ne val (length g.nodes) v _ (old_target e h));
      codes = λ i h. ap code (added.olds i h);
      kinds = λ e h. ap (λ (x : Edge). x.kind) (old_edge e h);
      more_nodes = omega (arith, added.size);
      more_edges = rw (added.edges, length-append) (omega arith);
    }

-- Redirecting the uses of a node to one of the same value changes nothing that any node reads.
module _ (old new : NodeId) (g : Graph) (val : NodeId → ℕ) (l : IsLaidOut g) (m : Models g val)
    (same : val old ≡ val new) (known : new < length g.nodes) where
  redirected : Graph
  redirected = replace_all_uses_with old new g

  redirect : Redirects old new g redirected
  unfolding redirected
  redirect = replace_all_uses_with-Redirects old new g

  same_read : (e : ℕ) → val (edge_at redirected e).target ≡ val (edge_at g e).target
  same_read e = elim (redirect.edges.targets e) [
    | inl kept ↦ ap val kept
    | inr moved ↦ ap val moved.1 ∙ sym same ∙ ap val (sym moved.0)
  ]

  same_value : (i : ℕ) → node_value redirected val i ≡ node_value g val i
  same_value i =
      node_value_congr g redirected val val i i (ap code (redirect.nodes i))
        (λ e lo hi. (redirect.edges.kinds e, same_read e))

  pub replace_all_uses_with-Preserves : Preserves g val (replace_all_uses_with old new g) val
  unfolding redirected
  replace_all_uses_with-Preserves = record {
    laid_out = record {
      inside = λ i h.
          rw
            (
              ap (λ (n : Node). n.first_input) (redirect.nodes i),
              ap (λ (n : Node). n.input_count) (redirect.nodes i),
              redirect.edges.width,
            )
            (l.inside i (rw (← redirect.size) h));
      scoped = λ e h. ground (
        arith,
        redirect.size,
        redirect.edges.targets e,
        l.scoped e (rw (← redirect.edges.width) h),
      );
    };
    models = record {
      word = m.word;
      computed = λ i v h e. m.computed i v (rw (← redirect.size) h) (sym (same_value i) ∙ e);
    };
    keeps = λ i h. refl;
    reads = λ e h. same_read e;
    codes = λ i h. ap code (redirect.nodes i);
    kinds = λ e h. redirect.edges.kinds e;
    more_nodes = rw redirect.size (omega arith);
    more_edges = rw redirect.edges.width (omega arith);
  }

pub mark_dead-code :
    (id : NodeId) (g : Graph) (i : ℕ) → code (at (mark_dead id g) i) ≡ code (at g i)
unfolding mark_dead
mark_dead-code id g i = get_or-set_same code g.nodes id i _ zero_node refl

-- A node that is marked dead keeps its code and its value.
pub mark_dead-Preserves :
    (id : NodeId) {g : Graph} {val : NodeId → ℕ}
    → IsLaidOut g
    → Models g val
    → Preserves g val (mark_dead id g) val
mark_dead-Preserves id {g} {val} l m =
    let same_value = λ (i : ℕ).
      node_value_congr g (mark_dead id g) val val i i (mark_dead-code id g i) (λ e lo hi.
        (ap (λ (x : Edge). x.kind) (kept_edge e), ap (λ (x : Edge). val x.target) (kept_edge e))) in
    record {
      laid_out = record {
        inside = λ i h.
            rw
              (
                ap (λ (n : Node). n.first_input) (mark_dead-code id g i),
                ap (λ (n : Node). n.input_count) (mark_dead-code id g i),
                edges,
              )
              (l.inside i (rw (← size) h));
        scoped = λ e h. rw (kept_edge e, size) (l.scoped e (rw edges at h));
      };
      models = record {
        word = m.word;
        computed = λ i v h e. m.computed i v (rw (← size) h) (sym (same_value i) ∙ e);
      };
      keeps = λ i h. refl;
      reads = λ e h. ap (λ (x : Edge). val x.target) (kept_edge e);
      codes = λ i h. mark_dead-code id g i;
      kinds = λ e h. ap (λ (x : Edge). x.kind) (kept_edge e);
      more_nodes = rw size (omega arith);
      more_edges = rw edges (omega arith);
    }
  where
    edges : (mark_dead id g).edges ≡ g.edges
    edges = unfold mark_dead in refl

    size : length (mark_dead id g).nodes ≡ length g.nodes
    size = unfold mark_dead in length-set g.nodes id _

    kept_edge : (e : ℕ) → edge_at (mark_dead id g) e ≡ edge_at g e
    kept_edge e = unfold mark_dead in refl

pub replace_node-Preserves :
    (old new : NodeId) {g : Graph} {val : NodeId → ℕ}
    → IsLaidOut g
    → Models g val
    → val old ≡ val new
    → new < length g.nodes
    → Preserves g val (replace_node old new g) val
replace_node-Preserves old new {g} {val} l m same known =
    let p = replace_all_uses_with-Preserves old new g val l m same known in
    Preserves-trans p (mark_dead-Preserves old p.laid_out p.models)
