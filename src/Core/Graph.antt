-- ===== src/Core/Graph.antt =====
-- src/core/graph.h: the node vector, the edge pool and the intrusive use lists.
-- A read outside a vector is undefined in the source; here it gives a default, and the theorems
-- state the ranges that they need.
pub mod Layout
pub mod Redirect
use arc_jit.Core.Node.{
  NodeId, NodeKind, TypeId, NodeFlags, Node, ◌∪◌, is_dead_flag, zero_node, no_index, valid,
}
use arc_jit.Prelude.{
  ℕ, zero, suc, ◌+◌, ◌-◌, ◌%◌, ◌^◌, Bool, true, false, ◌&&◌, ◌==◌, ltb, leb, if◌then◌else◌, List,
  [], ◌∷◌, ◌++◌, length, get_or, set,
}

pub data EdgeKind : Type 0 where
  data_edge control_edge effect_edge frame_state_edge : EdgeKind

pub record Edge : Type 0 where
  pub target : NodeId
  pub kind : EdgeKind

pub record Use : Type 0 where
  pub user : NodeId
  pub edge_idx : ℕ
  pub kind : EdgeKind
  pub next_use : ℕ

pub record Graph : Type 0 where
  pub nodes : List Node
  pub edges : List Edge
  pub uses : List Use
  pub node_use_heads : List ℕ
  pub start : NodeId
  pub stop : NodeId

abbrev pub zero_edge : Edge
zero_edge = record { target = 0; kind = data_edge }

abbrev pub zero_use : Use
zero_use = record { user = 0; edge_idx = 0; kind = data_edge; next_use = 0 }

-- Casts to `uint32_t` and `uint16_t`.
abbrev pub u32 : ℕ → ℕ
u32 n = n % 2 ^ 32

abbrev pub u16 : ℕ → ℕ
u16 n = n % 2 ^ 16

abbrev pub same_kind : EdgeKind → EdgeKind → Bool
same_kind data_edge data_edge = true
same_kind control_edge control_edge = true
same_kind effect_edge effect_edge = true
same_kind frame_state_edge frame_state_edge = true
same_kind _ _ = false

-- The default constructor: slot 0 is a sentinel, mirrored in the heads.
abbrev pub new_graph : Graph
new_graph = record {
  nodes = zero_node ∷ [];
  edges = [];
  uses = [];
  node_use_heads = no_index ∷ [];
  start = no_index;
  stop = no_index;
}

abbrev pub at : Graph → NodeId → Node
at g id = get_or g.nodes id zero_node

abbrev pub edge_at : Graph → ℕ → Edge
edge_at g i = get_or g.edges i zero_edge

-- `nodes_[id].use_count += n`, in 16 bits, for `n` as a 16-bit word.
abbrev pub add_uses : ℕ → NodeId → List Node → List Node
add_uses n id ns =
    let node = get_or ns id zero_node in
    set ns id (record node { use_count = u16 (node.use_count + n) })

-- A `Use` of edge `eid` is pushed to the head of the list of `target`.
abbrev pub push_use : NodeId → ℕ → EdgeKind → NodeId → Graph → Graph
push_use user eid kind target g = record g {
  uses =
      g.uses
      ++ record {
        user = user;
        edge_idx = eid;
        kind = kind;
        next_use = get_or g.node_use_heads target no_index;
      }
        ∷ [];
  node_use_heads = set g.node_use_heads target (u32 (length g.uses));
  nodes = add_uses 1 target g.nodes;
}

-- One round of the loop of `add_node` over its inputs.
abbrev pub register_use : NodeId → ℕ → Edge → Graph → Graph
register_use user eid e g =
    if valid e.target
    then (if leb (length g.nodes) e.target then g else push_use user eid e.kind e.target g)
    else g

unfoldable pub register_uses : NodeId → ℕ → List Edge → Graph → Graph
register_uses user eid [] g = g
register_uses user eid (e ∷ es) g = register_uses user (eid + 1) es (register_use user eid e g)

-- The node and its edges, before the uses are registered.
abbrev pub append_node : NodeKind → NodeFlags → TypeId → ℕ → List Edge → Graph → Graph
append_node k flags type payload inputs g = record g {
  nodes =
      g.nodes
      ++ record {
        kind = k;
        type = type;
        flags = flags;
        payload = payload;
        first_input = u32 (length g.edges);
        first_use = no_index;
        input_count = u16 (length inputs);
        use_count = 0;
      }
        ∷ [];
  edges = g.edges ++ inputs;
  node_use_heads = g.node_use_heads ++ no_index ∷ [];
}

abbrev pub next_id : Graph → NodeId
next_id g = u32 (length g.nodes)

unfoldable pub add_node : NodeKind → NodeFlags → TypeId → ℕ → List Edge → Graph → Graph
add_node k flags type payload inputs g =
    register_uses (next_id g) (u32 (length g.edges)) inputs
      (append_node k flags type payload inputs g)

-- `{&edges_[first], n}`
unfoldable pub slice : List Edge → ℕ → ℕ → List Edge
slice es first zero = []
slice es first (suc n) = get_or es first zero_edge ∷ slice es (first + 1) n

unfoldable pub inputs_of : Graph → NodeId → List Edge
inputs_of g id = let n = at g id in slice g.edges n.first_input n.input_count

unfoldable pub targets_of_kind : EdgeKind → List Edge → List NodeId
targets_of_kind kind [] = []
targets_of_kind kind (e ∷ es) =
    let rest = targets_of_kind kind es in if same_kind e.kind kind then e.target ∷ rest else rest

unfoldable pub inputs_of_kind : Graph → NodeId → EdgeKind → List NodeId
inputs_of_kind g id kind = targets_of_kind kind (inputs_of g id)

-- The edge of a `Use` still points at the producer.
abbrev pub live_use : Graph → NodeId → Use → Bool
live_use g producer u =
    ltb u.edge_idx (length g.edges) && ((edge_at g u.edge_idx).target == producer)

pub record UseRef : Type 0 where
  pub user : NodeId
  pub kind : EdgeKind

-- The walk over the list of a producer, with the length of the pool for fuel.
unfoldable pub walk_uses : Graph → NodeId → ℕ → ℕ → List UseRef
walk_uses g producer zero use_idx = []
walk_uses g producer (suc f) use_idx =
    let u = get_or g.uses use_idx zero_use in
    let rest = walk_uses g producer f u.next_use in
    if use_idx == no_index
    then []
    else if live_use g producer u
    then record { user = u.user; kind = u.kind } ∷ rest
    else rest

unfoldable pub uses_of : Graph → NodeId → List UseRef
uses_of g producer =
    if valid producer && ltb producer (length g.node_use_heads)
    then walk_uses g producer (length g.uses + 1) (get_or g.node_use_heads producer no_index)
    else []

abbrev pub patch_edge : ℕ → NodeId → List Edge → List Edge
patch_edge eid target es =
    let e = get_or es eid zero_edge in set es eid (record e { target = target })

unfoldable pub replace_input : NodeId → ℕ → NodeId → Graph → Graph
replace_input id i new_target g =
    let eid = u32 ((at g id).first_input + i) in
    let old = (edge_at g eid).target in
    let kind = (edge_at g eid).kind in
    let g' = record g {
      edges = patch_edge eid new_target g.edges;
      nodes = if valid old then add_uses (2 ^ 16 - 1) old g.nodes else g.nodes;
    } in
    if old == new_target
    then g
    else if valid new_target
    then push_use id eid kind new_target g'
    else g'

-- The variables of the loop of `replace_all_uses_with`.
pub record Splice : Type 0 where
  pub edges : List Edge
  pub uses : List Use
  pub live_uses : ℕ
  pub chain_head : ℕ
  pub chain_tail : ℕ

abbrev pub set_next : List Use → ℕ → ℕ → List Use
set_next us i next = let u = get_or us i zero_use in set us i (record u { next_use = next })

-- A live `Use` is patched, cut off and linked behind the chain built so far.
abbrev pub splice_use : NodeId → ℕ → Splice → Splice
splice_use new use_idx s =
    let u = get_or s.uses use_idx zero_use in
    let cut = set_next s.uses use_idx no_index in
    record {
      edges = patch_edge u.edge_idx new s.edges;
      uses = if s.chain_head == no_index then cut else set_next cut s.chain_tail use_idx;
      live_uses = u32 (s.live_uses + 1);
      chain_head = if s.chain_head == no_index then use_idx else s.chain_head;
      chain_tail = use_idx;
    }

unfoldable pub splice_round : NodeId → NodeId → ℕ → Splice → Splice
splice_round old new use_idx s =
    let u = get_or s.uses use_idx zero_use in
    if ltb u.edge_idx (length s.edges) && ((get_or s.edges u.edge_idx zero_edge).target == old)
    then splice_use new use_idx s
    else s

unfoldable pub splice_loop : NodeId → NodeId → ℕ → ℕ → Splice → Splice
splice_loop old new zero use_idx s = s
splice_loop old new (suc f) use_idx s =
    let next = (get_or s.uses use_idx zero_use).next_use in
    let rest = splice_loop old new f next (splice_round old new use_idx s) in
    if use_idx == no_index then s else rest

-- The splice of the chain onto the list of the new producer, and the counts.
unfoldable pub finish_splice : NodeId → NodeId → Splice → Graph → Graph
finish_splice old new s g =
    let heads = set g.node_use_heads old no_index in
    let counted = if valid new then add_uses s.live_uses new g.nodes else g.nodes in
    let n = get_or counted old zero_node in
    record g {
      edges = s.edges;
      uses =
          if s.chain_head == no_index
          then s.uses
          else set_next s.uses s.chain_tail (get_or heads new no_index);
      node_use_heads = if s.chain_head == no_index then heads else set heads new s.chain_head;
      nodes = set counted old (record n { use_count = 0 });
    }

unfoldable pub replace_all_uses_with : NodeId → NodeId → Graph → Graph
replace_all_uses_with old new g =
    let s = splice_loop old new (length g.uses + 1) (get_or g.node_use_heads old no_index) (record {
      edges = g.edges;
      uses = g.uses;
      live_uses = 0;
      chain_head = no_index;
      chain_tail = no_index;
    }) in
    finish_splice old new s g

unfoldable pub mark_dead : NodeId → Graph → Graph
mark_dead id g =
    let n = at g id in
    record g { nodes = set g.nodes id (record n { flags = n.flags ∪ is_dead_flag }) }
