-- ===== src/Passes/Replace.antt =====
-- src/passman/pass.cpp: the ways in which the passes replace a node keep the values of nodes.
use arc_jit.Core.Graph.{
  at, Edge, Graph, data_edge, targets_of_kind, add_node, next_id, replace_all_uses_with, mark_dead,
}
use arc_jit.Core.Graph.Layout.{code, IsLaidOut, AllKnown, add_node-Adds}
use arc_jit.Core.Graph.Redirect.{replace_all_uses_with-Redirects}
use arc_jit.Core.Node.{Node, NodeId, NodeKind, NodeFlags, TypeId, ◌∪◌, dead, no_index, zero_node}
use arc_jit.Passes.Loop.{HasRoom, StepsTo}
use arc_jit.Passes.Meaning.{Models, Preserves, Preserves-trans, update, update_self, update_ne}
use arc_jit.Passes.Rewrite.{add_node-Preserves, mark_dead-code, replace_node-Preserves}
use arc_jit.Passes.{replace_node, add_const}
use arc_jit.Prelude.{
  ℕ, ◌+◌, ◌^◌, ◌≤◌, ◌<◌, ◌≡◌, sym, ap, ◌∙◌, List, [], map, arith, length, length-append, length-set,
  some, true, get_or-set_self,
}
use arc_jit.Tier2.Apply.{apply, apply_const}

pub replace_node_size :
    (old new : NodeId) (g : Graph)
    → (length (replace_node old new g).nodes ≡ length g.nodes)
      × (length (replace_node old new g).edges ≡ length g.edges)
unfolding mark_dead
replace_node_size old new g =
    let r = replace_all_uses_with-Redirects old new g in
    (length-set _ old _ ∙ r.size, r.edges.width)

pub replace_node-code :
    (old new : NodeId) (g : Graph) (i : ℕ) → code (at (replace_node old new g) i) ≡ code (at g i)
replace_node-code old new g i =
    mark_dead-code old (replace_all_uses_with old new g) i
    ∙ ap code ((replace_all_uses_with-Redirects old new g).nodes i)

pub replace_node-dead :
    (id new : NodeId) (g : Graph)
    → id < length g.nodes
    → dead (at (replace_node id new g) id) ≡ true
unfolding mark_dead ◌∪◌
replace_node-dead id new g h =
    let r = replace_all_uses_with-Redirects id new g in
    ap dead (
      get_or-set_self (replace_all_uses_with id new g).nodes id _ zero_node (omega (arith, r.size)))
    ∙ ground arith

-- The kind of the node that an addition makes, after the replacement.
pub replace_by_new-kind :
    (id new : NodeId) (k : NodeKind) (flags : NodeFlags) (type : TypeId) (payload : ℕ)
    (inputs : List Edge) (g : Graph)
    → (at (replace_node id new (add_node k flags type payload inputs g)) (length g.nodes)).kind ≡ k
replace_by_new-kind id new k flags type payload inputs g =
    ap (λ (n : Node). n.kind)
      (replace_node-code id new (add_node k flags type payload inputs g) (length g.nodes))
    ∙ ap (λ (n : Node). n.kind) (add_node-Adds k flags type payload inputs g).last

pub const_size :
    (id : NodeId) (flags : NodeFlags) (v : ℕ) (g : Graph)
    → length (replace_node id (next_id g) (add_const flags v g)).nodes ≡ length g.nodes + 1
const_size id flags v g =
    (replace_node_size id (next_id g) (add_const flags v g)).0
    ∙ (add_node-Adds NodeKind.const_int flags TypeId.int v [] g).size

pub next_id_lem : (g : Graph) → length g.nodes < no_index → next_id g ≡ length g.nodes
next_id_lem g room = omega arith

-- A node that is replaced by a fresh node of the same value.
module _ (id : NodeId) (k : NodeKind) (flags : NodeFlags) (type : TypeId) (payload : ℕ)
    (inputs : List Edge) (g : Graph) (val : NodeId → ℕ) (l : IsLaidOut g) (m : Models g val)
    (few : length inputs ≤ 2) (room : length g.nodes + 1 < no_index)
    (wide : length g.edges + 2 < 2 ^ 32) (below : AllKnown (length g.nodes) inputs)
    (known : id < length g.nodes)
    (right : (w : ℕ)
      → apply k payload (map val (targets_of_kind data_edge inputs)) ≡ some w
      → val id ≡ w) where
  pub replace_by_new-Preserves :
      Preserves g val
        (replace_node id (next_id g) (add_node k flags type payload inputs g))
        (update val (length g.nodes) (val id))
  replace_by_new-Preserves =
      let p =
        add_node-Preserves k flags type payload inputs g val l m (omega arith) (omega arith)
          (omega arith) below (val id) (m.word id) right in
      rw (next_id_lem g (omega arith)) (
        Preserves-trans p (
          replace_node-Preserves id (length g.nodes) p.laid_out p.models
            (update_ne val (length g.nodes) (val id) id (λ e. omega arith)
              ∙ sym (update_self val (length g.nodes) (val id)))
            (omega (arith, (add_node-Adds k flags type payload inputs g).size))))

  pub replace_by_new_size :
      (length (replace_node id (next_id g) (add_node k flags type payload inputs g)).nodes
        ≡ length g.nodes + 1)
      × (length (replace_node id (next_id g) (add_node k flags type payload inputs g)).edges
          ≡ length g.edges + length inputs)
  replace_by_new_size =
      let a = add_node-Adds k flags type payload inputs g in
      let s = replace_node_size id (next_id g) (add_node k flags type payload inputs g) in
      (s.0 ∙ a.size, s.1 ∙ ap length a.edges ∙ length-append g.edges inputs)

-- The same for a new constant.
pub replace_by_const-StepsTo :
    (id : NodeId) (flags : NodeFlags) (v : ℕ) (g : Graph) (val : NodeId → ℕ)
    → IsLaidOut g
    → Models g val
    → HasRoom 2 g
    → id < length g.nodes
    → val id ≡ v
    → StepsTo g val (replace_node id (next_id g) (add_const flags v g))
unfolding apply apply_const targets_of_kind
replace_by_const-StepsTo id flags v g val l m room known e =
    let right : (w : ℕ)
        → apply NodeKind.const_int v (map val (targets_of_kind data_edge [])) ≡ some w
        → val id ≡ w =
      λ w q. cc in
    let size =
      replace_by_new_size id NodeKind.const_int flags TypeId.int v [] g val l m (omega arith)
        (omega arith) (omega arith) tt known right in
    (
      update val (length g.nodes) (val id),
      replace_by_new-Preserves id NodeKind.const_int flags TypeId.int v [] g val l m (omega arith)
          (omega arith) (omega arith) tt known right,
      omega (arith, size.0),
      omega (arith, size.1),
    )

-- A node that is replaced by an old one of the same value.
pub replace_by_old-StepsTo :
    (id new : NodeId) (g : Graph) (val : NodeId → ℕ)
    → IsLaidOut g
    → Models g val
    → new < length g.nodes
    → val id ≡ val new
    → StepsTo g val (replace_node id new g)
replace_by_old-StepsTo id new g val l m known e =
    let size = replace_node_size id new g in
    (val, replace_node-Preserves id new l m e known, omega (arith, size.0), omega (arith, size.1))
