-- ===== src/Passes.antt =====
-- src/passman/pass.h and pass.cpp: what the rewriting passes share.
pub mod Meaning
pub mod Rewrite
pub mod Inputs
pub mod Replace
pub mod Loop
pub mod Local
pub mod Terminate
pub mod ConstFold
pub mod AlgebraicSimp
pub mod CompareFold
pub mod StrengthReduce
pub mod Gvn
pub mod Dce
pub mod Escape
pub mod Inline
pub mod Narrow
pub mod Bounds
pub mod Branch
pub mod Forward
pub mod Unroll
pub mod Pipeline
mod Tests
mod ObjectTests
use arc_jit.Core.Graph.{Graph, u32, add_node, replace_all_uses_with, mark_dead}
use arc_jit.Core.Node.{Node, NodeId, NodeKind, NodeFlags, TypeId, valid}
use arc_jit.Prelude.{
  ℕ, zero, suc, ◌+◌, ◌*◌, Bool, true, false, ◌&&◌, ◌||◌, ltb, if◌then◌else◌, Option, none, some,
  List, [], ◌∷◌, length, set,
}

-- `budget_used` is set by no pass.
pub record PassResult : Type 0 where
  pub changed : Bool
  pub nodes_removed : ℕ
  pub nodes_added : ℕ
  pub budget_used : ℕ

abbrev pub no_result : PassResult
no_result = record { changed = false; nodes_removed = 0; nodes_added = 0; budget_used = 0 }

-- `operator|=`
unfoldable pub merge_result : PassResult → PassResult → PassResult
merge_result a b = record {
  changed = a.changed || b.changed;
  nodes_removed = u32 (a.nodes_removed + b.nodes_removed);
  nodes_added = u32 (a.nodes_added + b.nodes_added);
  budget_used = a.budget_used + b.budget_used;
}

-- `r.changed = true` without a count.
abbrev pub report_change : PassResult → PassResult
report_change r = record r { changed = true }

-- A pass counts what it removes and adds.
abbrev pub count_change : ℕ → ℕ → PassResult → PassResult
count_change removed added r = record r {
  changed = true;
  nodes_removed = u32 (r.nodes_removed + removed);
  nodes_added = u32 (r.nodes_added + added);
}

-- The graph and the result, which the body of a pass changes.
pub record PassState : Type 0 where
  pub graph : Graph
  pub result : PassResult

-- `for (i = 1; i < g.size(); ++i)`: the bound is read anew in each round.
unfoldable pub pass_loop : (NodeId → PassState → PassState) → ℕ → NodeId → PassState → PassState
pass_loop step zero i s = s
pass_loop step (suc f) i s =
    let rest = pass_loop step f (i + 1) (step i s) in
    if ltb i (length s.graph.nodes) then rest else s

-- The fuel covers up to three nodes added for each node of the graph.
unfoldable pub run_pass : (NodeId → PassState → PassState) → Graph → PassState
run_pass step g = pass_loop step (4 * length g.nodes) 1 (record { graph = g; result = no_result })

-- A node that a pass changes in place.
abbrev pub set_node : NodeId → Node → Graph → Graph
set_node id n g = record g { nodes = set g.nodes id n }

-- Exactly two data inputs, both valid.
abbrev pub two_valid : List NodeId → Option (NodeId × NodeId)
two_valid (a ∷ b ∷ []) = if valid a && valid b then some (a, b) else none
two_valid _ = none

abbrev pub is_const_int : NodeKind → Bool
is_const_int NodeKind.const_int = true
is_const_int _ = false

-- `g.replace_all_uses_with(id, new); g.mark_dead(id);`
abbrev pub replace_node : NodeId → NodeId → Graph → Graph
replace_node id new g = mark_dead id (replace_all_uses_with id new g)

-- A new `ConstInt` without inputs.
abbrev pub add_const : NodeFlags → ℕ → Graph → Graph
add_const flags payload g = add_node NodeKind.const_int flags TypeId.int payload [] g
