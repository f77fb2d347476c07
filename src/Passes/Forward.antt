-- ===== src/Passes/Forward.antt =====
-- src/passman/pass.cpp, `LocalForwardingPass::run`.
use arc_jit.Core.Graph.{Graph, at, data_edge, effect_edge, inputs_of_kind, u32}
use arc_jit.Core.Node.{NodeId, NodeKind, dead}
use arc_jit.Passes.{PassState, count_change, replace_node, run_pass}
use arc_jit.Prelude.{
  Bool, true, false, ◌&&◌, ◌==◌, if◌then◌else◌, Option, none, some, List, [], ◌∷◌,
}
use mathlib.Core.Bool.{not}

abbrev pub is_load_local : NodeKind → Bool
is_load_local NodeKind.load_local = true
is_load_local _ = false

abbrev pub is_store_local : NodeKind → Bool
is_store_local NodeKind.store_local = true
is_store_local _ = false

abbrev pub first_of : List NodeId → Option NodeId
first_of [] = none
first_of (id ∷ _) = some id

-- The store that the effect edge of a load names, where it writes the slot of the load.
abbrev pub matching_store : Graph → NodeId → Option NodeId → Option NodeId
matching_store g id none = none
matching_store g id (some source) =
    if is_store_local (at g source).kind && (at g source).payload == u32 (at g id).payload
    then first_of (inputs_of_kind g source data_edge)
    else none

-- The value stored last in the slot that a live load reads.
unfoldable pub stored_value : Graph → NodeId → Option NodeId
stored_value g id =
    if not (dead (at g id)) && is_load_local (at g id).kind
    then matching_store g id (first_of (inputs_of_kind g id effect_edge))
    else none

abbrev pub forward_to : NodeId → Option NodeId → PassState → PassState
forward_to id none s = s
forward_to id (some value) s = record {
  graph = replace_node id value s.graph;
  result = count_change 1 0 s.result;
}

unfoldable pub forward_step : NodeId → PassState → PassState
forward_step id s = forward_to id (stored_value s.graph id) s

abbrev pub local_forwarding : Graph → PassState
local_forwarding g = run_pass forward_step g
