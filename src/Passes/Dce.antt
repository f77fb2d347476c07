-- ===== src/Passes/Dce.antt =====
-- src/passman/pass.cpp, `DeadCodeElimPass::run`.
pub mod Sweep
use arc_jit.Core.Graph.{Graph, at, mark_dead}
use arc_jit.Core.Node.{Node, NodeId, dead, has_flag, pure_flag}
use arc_jit.Passes.{PassState, count_change, run_pass}
use arc_jit.Prelude.{Bool, ◌&&◌, ◌==◌, if◌then◌else◌}
use mathlib.Core.Bool.{not}

-- No uses, no effect, not dead yet.
unfoldable pub removable : Node → Bool
removable n = n.use_count == 0 && has_flag n.flags pure_flag && not (dead n)

unfoldable pub dce_step : NodeId → PassState → PassState
dce_step id s =
    if removable (at s.graph id)
    then record { graph = mark_dead id s.graph; result = count_change 1 0 s.result }
    else s

abbrev pub dce : Graph → PassState
dce g = run_pass dce_step g
