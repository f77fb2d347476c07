-- ===== src/Core/Graph/Layout.antt =====
-- src/core/graph.h: the layout of a graph, and what each mutation keeps of nodes and edges.
use arc_jit.Core.Graph.{
  Edge, Graph, at, edge_at, zero_edge, u32, u16, add_uses, register_use, register_uses, append_node,
  add_node, next_id,
}
use arc_jit.Core.Node.{
  NodeId, NodeKind, NodeFlags, TypeId, Node, zero_node, no_flags, no_index, valid,
}
use arc_jit.Prelude.{
  ℕ, zero, suc, ◌+◌, ◌≤◌, ◌<◌, ◌≡◌, refl, ap, ◌∙◌, ◌⊎◌, inl, inr, List, [], ◌∷◌, ◌++◌, arith, leb,
  Bool-cases, length, get_or, length-append, length-set, get_or-append_left, get_or-append_last,
  get_or-set_same,
}

-- A node without its count of uses.
abbrev pub core : Node → Node
core n = record n { use_count = 0 }

-- A node without its flags as well.
abbrev pub code : Node → Node
code n = record n { use_count = 0; flags = no_flags }

-- Every node's inputs lie in the edge pool, and every edge points at a node or at nothing.
pub record IsLaidOut (g : Graph) : Type 0 where
  pub inside :
      (i : ℕ) → i < length g.nodes → (at g i).first_input + (at g i).input_count ≤ length g.edges
  pub scoped :
      (e : ℕ)
      → e < length g.edges
      → ((edge_at g e).target < length g.nodes) ⊎ ((edge_at g e).target ≡ no_index)

-- `g'` has the nodes and the edges of `g`, up to the counts of uses.
pub record SameNodes (g g' : Graph) : Type 0 where
  pub edges : g'.edges ≡ g.edges
  pub size : length g'.nodes ≡ length g.nodes
  pub nodes : (i : ℕ) → core (at g' i) ≡ core (at g i)

core-add_uses :
    (n : ℕ) (id : NodeId) (ns : List Node) (i : ℕ)
    → core (get_or (add_uses n id ns) i zero_node) ≡ core (get_or ns i zero_node)
core-add_uses n id ns i = get_or-set_same core ns id i _ zero_node refl

register_use-SameNodes :
    (user : NodeId) (eid : ℕ) (e : Edge) (g : Graph) → SameNodes g (register_use user eid e g)
register_use-SameNodes user eid e g = elim (Bool-cases (valid e.target)) [
  | inr no_target ↦ rw no_target (record { edges = refl; size = refl; nodes = λ i. refl })
  | inl some_target ↦ rw some_target elim (Bool-cases (leb (length g.nodes) e.target)) [
    | inl out ↦ rw out (record { edges = refl; size = refl; nodes = λ i. refl })
    | inr here ↦ rw here (record {
      edges = refl;
      size = length-set g.nodes _ _;
      nodes = λ i. core-add_uses 1 e.target g.nodes i;
    })
  ]
]

SameNodes-trans : {g h k : Graph} → SameNodes g h → SameNodes h k → SameNodes g k
SameNodes-trans p q = record {
  edges = q.edges ∙ p.edges;
  size = q.size ∙ p.size;
  nodes = λ i. q.nodes i ∙ p.nodes i;
}

pub register_uses-SameNodes :
    (user : NodeId) (eid : ℕ) (es : List Edge) (g : Graph)
    → SameNodes g (register_uses user eid es g)
unfolding register_uses
register_uses-SameNodes user eid [] g = record { edges = refl; size = refl; nodes = λ i. refl }
register_uses-SameNodes user eid (e ∷ es) g =
    SameNodes-trans (register_use-SameNodes user eid e g)
      (register_uses-SameNodes user (eid + 1) es (register_use user eid e g))

-- `g'` is `g` with one more node at its end, over the given inputs.
pub record Adds (n : Node) (inputs : List Edge) (g g' : Graph) : Type 0 where
  pub size : length g'.nodes ≡ length g.nodes + 1
  pub edges : g'.edges ≡ g.edges ++ inputs
  pub olds : (i : ℕ) → i < length g.nodes → core (at g' i) ≡ core (at g i)
  pub last : core (at g' (length g.nodes)) ≡ core n

-- The node that `add_node` makes where nothing wraps.
abbrev pub fresh_node : NodeKind → NodeFlags → TypeId → ℕ → List Edge → Graph → Node
fresh_node k flags type payload inputs g = record {
  kind = k;
  type = type;
  flags = flags;
  payload = payload;
  first_input = u32 (length g.edges);
  first_use = no_index;
  input_count = u16 (length inputs);
  use_count = 0;
}

pub add_node-Adds :
    (k : NodeKind) (flags : NodeFlags) (type : TypeId) (payload : ℕ) (inputs : List Edge)
    (g : Graph)
    → Adds
        (fresh_node k flags type payload inputs g)
        inputs
        g
        (add_node k flags type payload inputs g)
unfolding add_node
add_node-Adds k flags type payload inputs g =
    let g₁ = append_node k flags type payload inputs g in
    let n = fresh_node k flags type payload inputs g in
    let s = register_uses-SameNodes (next_id g) (u32 (length g.edges)) inputs g₁ in
    record {
      size = s.size ∙ length-append g.nodes (n ∷ []) ∙ omega arith;
      edges = s.edges;
      olds = λ i h. s.nodes i ∙ ap core (get_or-append_left g.nodes (n ∷ []) i zero_node h);
      last =
          s.nodes (length g.nodes)
          ∙ ap core (get_or-append_last g.nodes n zero_node (length g.nodes) refl);
    }

-- Every edge of the list points at one of the first `n` nodes, or at nothing.
abbrev pub AllKnown : ℕ → List Edge → Type 0
AllKnown n [] = Unit
AllKnown n (e ∷ es) = ((e.target < n) ⊎ (e.target ≡ no_index)) × AllKnown n es

pub get_or-AllKnown :
    (n : ℕ) (es : List Edge) (i : ℕ)
    → AllKnown n es
    → i < length es
    → ((get_or es i zero_edge).target < n) ⊎ ((get_or es i zero_edge).target ≡ no_index)
get_or-AllKnown n [] i h lt = elim lt [ ]
get_or-AllKnown n (e ∷ es) zero h lt = h.0
get_or-AllKnown n (e ∷ es) (suc i) h lt = get_or-AllKnown n es i h.1 (omega arith)
