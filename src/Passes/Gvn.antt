-- ===== src/Passes/Gvn.antt =====
-- src/passman/pass.cpp, `GVNPass::run`.
pub mod Numbered
pub mod Sound
mod Ends
mod Tests
use arc_jit.Core.Graph.{EdgeKind, Edge, Graph, at, inputs_of, data_edge, control_edge}
use arc_jit.Core.Node.{NodeId, NodeKind, commutative_flag, dead, gvnable_flag, has_flag}
use arc_jit.Passes.{PassResult, no_result, count_change, replace_node}
use arc_jit.Prelude.{
  ℕ, zero, suc, ◌+◌, ◌≡◌, Bool, true, false, ◌||◌, ltb, leb, if◌then◌else◌, Option, none, some,
  List, [], ◌∷◌, length,
}
use mathlib.Core.HLevel.{Discrete}
use native.Mathlib.Decide.{ℕ_discrete}

-- What two nodes must share to be merged.
pub record Key : Type 0 where
  pub kind : NodeKind
  pub payload : ℕ
  pub input_ids : List NodeId

-- `operator==`
pub Key-discrete : Discrete Key
Key-discrete = hlevel (ℕ_discrete)

abbrev pub in_identity : EdgeKind → Bool
in_identity data_edge = true
in_identity control_edge = true
in_identity _ = false

-- The targets of the data and the control edges, in order.
unfoldable pub identity_targets : List Edge → List NodeId
identity_targets [] = []
identity_targets (e ∷ es) =
    let rest = identity_targets es in if in_identity e.kind then e.target ∷ rest else rest

-- `std::sort` on numbers, whose result is determined by its input.
abbrev pub insert_sorted : ℕ → List ℕ → List ℕ
insert_sorted x [] = x ∷ []
insert_sorted x (y ∷ ys) = let rest = insert_sorted x ys in if leb x y then x ∷ y ∷ ys else y ∷ rest

abbrev pub sort : List ℕ → List ℕ
sort [] = []
sort (x ∷ xs) = insert_sorted x (sort xs)

abbrev pub order_ids : Bool → List ℕ → List ℕ
order_ids true ids = sort ids
order_ids false ids = ids

unfoldable pub key_of : Graph → NodeId → Key
key_of g id =
    let n = at g id in
    record {
      kind = n.kind;
      payload = n.payload;
      input_ids = order_ids (has_flag n.flags commutative_flag) (identity_targets (inputs_of g id));
    }

-- The map of the keys seen so far.
abbrev pub Seen : Type 0
Seen = List (Key × NodeId)

unfoldable pub find_key : Key → Seen → Option NodeId
find_key k [] = none
find_key k ((j, c) ∷ seen) = elim (Key-discrete k j) [ yes p ↦ some c | no p ↦ find_key k seen ]

pub record GvnState : Type 0 where
  pub graph : Graph
  pub seen : Seen
  pub result : PassResult

-- `seen.emplace`, and the replacement where the key was there.
abbrev pub number_node : NodeId → Key → Option NodeId → GvnState → GvnState
number_node id k none s = record s { seen = (k, id) ∷ s.seen }
number_node id k (some c) s = record s {
  graph = replace_node id c s.graph;
  result = count_change 1 0 s.result;
}

unfoldable pub gvn_step : NodeId → GvnState → GvnState
gvn_step id s =
    let n = at s.graph id in
    let k = key_of s.graph id in
    if dead n
    then s
    else if has_flag n.flags gvnable_flag
    then number_node id k (find_key k s.seen) s
    else s

unfoldable pub gvn_loop : ℕ → NodeId → GvnState → GvnState
gvn_loop zero i s = s
gvn_loop (suc f) i s =
    let rest = gvn_loop f (i + 1) (gvn_step i s) in if ltb i (length s.graph.nodes) then rest else s

-- The pass adds no node, so as many rounds as there are nodes are enough.
unfoldable pub gvn : Graph → GvnState
gvn g = gvn_loop (length g.nodes) 1 (record { graph = g; seen = []; result = no_result })
