-- ===== src/Passes/Terminate.antt =====
-- src/passman/pass.cpp: the loops of the rewriting passes end, although they visit the nodes that
-- they add.
pub mod Simplify
pub mod Compare
pub mod Reduce
pub mod Frugal
use arc_jit.Core.Graph.{Edge, Graph, at, add_node, next_id, inputs_of_kind, data_edge}
use arc_jit.Core.Graph.Layout.{code, add_node-Adds}
use arc_jit.Core.Node.{Node, NodeId, NodeKind, NodeFlags, TypeId, dead, valid, zero_node}
use arc_jit.Passes.Replace.{replace_node_size, replace_node-code}
use arc_jit.Passes.{PassState, no_result, pass_loop, run_pass, replace_node, add_const, two_valid}
use arc_jit.Prelude.{
  ℕ, zero, suc, ◌+◌, ◌*◌, ◌≤◌, ◌<◌, ◌≡◌, refl, sym, ap, ◌∙◌, inl, inr, List, [], ◌∷◌, ◌++◌, arith,
  ltb, ltb→lt, Bool, true, false, Bool-cases, Option-cases, length, length-append, get_or,
  get_or-append_left, get_or-append_last, some, Option,
}

-- An upper bound of the nodes that are visited because of a node of a kind: itself, and those that
-- may take its place.
abbrev pub weight : NodeKind → ℕ
weight NodeKind.add = 2
weight NodeKind.sub = 2
weight NodeKind.mul = 3
weight NodeKind.div = 3
weight NodeKind.eq = 2
weight NodeKind.ne = 2
weight NodeKind.lt = 2
weight NodeKind.gt = 2
weight NodeKind.lte = 2
weight NodeKind.gte = 2
weight NodeKind.not = 3
weight _ = 1

pub weight-bounds : (k : NodeKind) → (1 ≤ weight k) × (weight k ≤ 3)
weight-bounds NodeKind.add = (omega arith, omega arith)
weight-bounds NodeKind.sub = (omega arith, omega arith)
weight-bounds NodeKind.mul = (omega arith, omega arith)
weight-bounds NodeKind.div = (omega arith, omega arith)
weight-bounds NodeKind.eq = (omega arith, omega arith)
weight-bounds NodeKind.ne = (omega arith, omega arith)
weight-bounds NodeKind.lt = (omega arith, omega arith)
weight-bounds NodeKind.gt = (omega arith, omega arith)
weight-bounds NodeKind.lte = (omega arith, omega arith)
weight-bounds NodeKind.gte = (omega arith, omega arith)
weight-bounds NodeKind.not = (omega arith, omega arith)
weight-bounds _ = (omega arith, omega arith)

-- The weight of the nodes from an index on.
abbrev pub load : List Node → ℕ → ℕ
load [] i = 0
load (n ∷ ns) zero = weight n.kind + load ns 0
load (n ∷ ns) (suc i) = load ns i

load-le : (ns : List Node) (i : ℕ) → load ns i ≤ 3 * length ns
load-le [] i = omega arith
load-le (n ∷ ns) zero = omega (arith, load-le ns 0, (weight-bounds n.kind).1)
load-le (n ∷ ns) (suc i) = omega (arith, load-le ns i)

pub load-suc :
    (ns : List Node) (i : ℕ)
    → i < length ns
    → load ns i ≡ weight (get_or ns i zero_node).kind + load ns (i + 1)
load-suc [] i h = absurd (omega arith)
load-suc (n ∷ ns) zero h = refl
load-suc (n ∷ ns) (suc i) h =
    let next : suc i + 1 ≡ suc (i + 1) = omega arith in rw next (load-suc ns i (omega arith))

load-append :
    (ns : List Node) (n : Node) (i : ℕ)
    → i ≤ length ns
    → load (ns ++ n ∷ []) i ≡ load ns i + weight n.kind
load-append [] n zero h = omega arith
load-append [] n (suc i) h = absurd (omega arith)
load-append (m ∷ ns) n zero h = omega (arith, load-append ns n 0 (omega arith))
load-append (m ∷ ns) n (suc i) h = load-append ns n i (omega arith)

load_congr :
    (ns ns' : List Node) (i : ℕ)
    → length ns' ≡ length ns
    → ((j : ℕ) → j < length ns → (get_or ns' j zero_node).kind ≡ (get_or ns j zero_node).kind)
    → load ns' i ≡ load ns i
load_congr [] [] i e h = refl
load_congr [] (n' ∷ ns') i e h = absurd (omega arith)
load_congr (n ∷ ns) [] i e h = absurd (omega arith)
load_congr (n ∷ ns) (n' ∷ ns') zero e h =
    rw (h 0 (omega arith), load_congr ns ns' 0 (omega arith) (λ j lt. h (suc j) (omega arith)))
load_congr (n ∷ ns) (n' ∷ ns') (suc i) e h =
    load_congr ns ns' i (omega arith) (λ j lt. h (suc j) (omega arith))

load-add_node :
    (k : NodeKind) (flags : NodeFlags) (type : TypeId) (payload : ℕ) (inputs : List Edge)
    (g : Graph) (i : ℕ)
    → i ≤ length g.nodes
    → load (add_node k flags type payload inputs g).nodes i ≡ load g.nodes i + weight k
load-add_node k flags type payload inputs g i h =
    let fresh : Node = record zero_node { kind = k } in
    let a = add_node-Adds k flags type payload inputs g in
    load_congr (g.nodes ++ fresh ∷ []) (add_node k flags type payload inputs g).nodes i
      (a.size ∙ sym (length-append g.nodes (fresh ∷ [])))
      (λ j lt. elim (Bool-cases (ltb j (length g.nodes))) [
        | inl old ↦
            let early = ltb→lt _ _ old in
            ap (λ (n : Node). n.kind) (a.olds j early)
            ∙ ap (λ (n : Node). n.kind)
                (sym (get_or-append_left g.nodes (fresh ∷ []) j zero_node early))
        | inr new ↦
            let here : j ≡ length g.nodes = ground (arith, length-append g.nodes (fresh ∷ [])) in
            rw here (
              ap (λ (n : Node). n.kind) a.last
              ∙ ap (λ (n : Node). n.kind)
                  (sym (get_or-append_last g.nodes fresh zero_node (length g.nodes) refl)))
      ])
    ∙ load-append g.nodes fresh i h

load-replace_node :
    (old new : NodeId) (g : Graph) (i : ℕ) → load (replace_node old new g).nodes i ≡ load g.nodes i
load-replace_node old new g i =
    load_congr g.nodes (replace_node old new g).nodes i (replace_node_size old new g).0
      (λ j lt. ap (λ (n : Node). n.kind) (replace_node-code old new g j))

-- The visit of a node, with what it adds, costs at most the weight of the node.
abbrev pub Spends : NodeId → Graph → Graph → Type 0
Spends i g g' = (length g.nodes ≤ length g'.nodes) × (load g'.nodes (i + 1) + 1 ≤ load g.nodes i)

pub Spends-refl : (i : NodeId) (g : Graph) → i < length g.nodes → Spends i g g
Spends-refl i g h =
    (omega arith, omega (arith, load-suc g.nodes i h, (weight-bounds (at g i).kind).0))

pub Spends-replace_node :
    (i new : NodeId) (g : Graph) → i < length g.nodes → Spends i g (replace_node i new g)
Spends-replace_node i new g h =
    let rest = Spends-refl i g h in
    (
      omega (arith, (replace_node_size i new g).0),
      omega (arith, rest.1, load-replace_node i new g (i + 1)),
    )

-- A node of less weight takes the place of the node.
pub Spends-add_node :
    (i new : NodeId) (k : NodeKind) (flags : NodeFlags) (type : TypeId) (payload : ℕ)
    (inputs : List Edge) (g : Graph)
    → i < length g.nodes
    → weight k + 1 ≤ weight (at g i).kind
    → Spends i g (replace_node i new (add_node k flags type payload inputs g))
Spends-add_node i new k flags type payload inputs g h less =
    let g' = add_node k flags type payload inputs g in
    (
      omega (
        arith,
        (replace_node_size i new g').0,
        (add_node-Adds k flags type payload inputs g).size,
      ),
      omega (
        arith,
        load-replace_node i new g' (i + 1),
        load-add_node k flags type payload inputs g (i + 1) (omega arith),
        load-suc g.nodes i h,
      ),
    )

-- A constant and a node that reads it take the place of the node.
pub Spends-add_two :
    (i new : NodeId) (k k' : NodeKind) (flags flags' : NodeFlags) (type type' : TypeId)
    (payload payload' : ℕ) (inputs inputs' : List Edge) (g : Graph)
    → i < length g.nodes
    → weight k + weight k' + 1 ≤ weight (at g i).kind
    → Spends i g (
        replace_node i new
          (add_node k' flags' type' payload' inputs' (add_node k flags type payload inputs g)))
Spends-add_two i new k k' flags flags' type type' payload payload' inputs inputs' g h less =
    let g1 = add_node k flags type payload inputs g in
    let g2 = add_node k' flags' type' payload' inputs' g1 in
    let size1 = (add_node-Adds k flags type payload inputs g).size in
    let size2 = (add_node-Adds k' flags' type' payload' inputs' g1).size in
    (
      omega (arith, (replace_node_size i new g2).0, size1, size2),
      omega (
        arith,
        load-replace_node i new g2 (i + 1),
        load-add_node k' flags' type' payload' inputs' g1 (i + 1) (omega (arith, size1)),
        load-add_node k flags type payload inputs g (i + 1) (omega arith),
        load-suc g.nodes i h,
      ),
    )

-- Every step spends.
abbrev pub IsFrugal : (NodeId → PassState → PassState) → Type 0
IsFrugal step =
    (i : NodeId) (s : PassState) → i < length s.graph.nodes → Spends i s.graph (step i s).graph

pass_loop-done :
    (step : NodeId → PassState → PassState) (f i : ℕ) (s : PassState)
    → ltb i (length s.graph.nodes) ≡ false
    → pass_loop step f i s ≡ s
unfolding pass_loop
pass_loop-done step zero i s h = refl
pass_loop-done step (suc f) i s h = rw h

pass_loop_enough :
    (step : NodeId → PassState → PassState)
    → IsFrugal step
    → (f k i : ℕ) (s : PassState) → load s.graph.nodes i ≤ f
    → pass_loop step (f + k) i s ≡ pass_loop step f i s
unfolding pass_loop
pass_loop_enough step frugal zero k i s h = elim (Bool-cases (ltb i (length s.graph.nodes))) [
  | inl inside ↦ absurd (omega (arith, (frugal i s (ltb→lt _ _ inside)).1))
  | inr out ↦ pass_loop-done step (zero + k) i s out
]
pass_loop_enough step frugal (suc f) k i s h =
    let more : suc f + k ≡ suc (f + k) = omega arith in
    rw more (elim (Bool-cases (ltb i (length s.graph.nodes))) [
      | inr out ↦ rw out
      | inl inside ↦ rw inside (
          pass_loop_enough step frugal f k (i + 1) (step i s)
            (omega (arith, (frugal i s (ltb→lt _ _ inside)).1)))
    ])

-- The fuel that a pass is run on is enough: `k` more changes nothing.
abbrev pub Terminates : (NodeId → PassState → PassState) → Graph → ℕ → Type 0
Terminates step g k =
    pass_loop step (4 * length g.nodes + k) 1 (record { graph = g; result = no_result })
    ≡ run_pass step g

pub IsFrugal-Terminates :
    (step : NodeId → PassState → PassState)
    → IsFrugal step
    → (g : Graph) (k : ℕ) → Terminates step g k
unfolding run_pass
IsFrugal-Terminates step frugal g k =
    pass_loop_enough step frugal (4 * length g.nodes) k 1 _ (omega (arith, load-le g.nodes 1))
