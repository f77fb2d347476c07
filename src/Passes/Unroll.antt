-- ===== src/Passes/Unroll.antt =====
-- src/passman/pass.cpp, `LoopUnrollingPass::run`, which looks for loops and changes nothing.
use arc_jit.Core.Graph.{Graph, at}
use arc_jit.Core.Node.{NodeId, NodeKind, dead}
use arc_jit.Passes.{PassState, no_result}
use arc_jit.Prelude.{ℕ, zero, suc, ◌+◌, Bool, true, false, ◌&&◌, ◌||◌, ltb, if◌then◌else◌, length}
use mathlib.Core.Bool.{not}

abbrev is_loop : NodeKind → Bool
is_loop NodeKind.loop_kind = true
is_loop _ = false

unfoldable has_loops_from : ℕ → NodeId → Graph → Bool
has_loops_from zero i g = false
has_loops_from (suc f) i g =
    let rest = has_loops_from f (i + 1) g in
    if ltb i (length g.nodes) then not (dead (at g i)) && is_loop (at g i).kind || rest else false

abbrev has_loops : Graph → Bool
has_loops g = has_loops_from (length g.nodes) 1 g

-- Both paths return the graph as it was.
abbrev loop_unrolling : Graph → PassState
loop_unrolling g =
    let unchanged : PassState = record { graph = g; result = no_result } in
    if has_loops g then unchanged else unchanged
