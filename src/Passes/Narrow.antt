-- ===== src/Passes/Narrow.antt =====
-- src/passman/pass.cpp, `TypeNarrowingPass::run`.
pub mod Typed
use arc_jit.Core.Graph.{Graph, at, data_edge, inputs_of_kind}
use arc_jit.Core.Node.{Node, NodeId, NodeKind, TypeId, dead}
use arc_jit.Passes.{PassResult, PassState, no_result, pass_loop, report_change, set_node}
use arc_jit.Prelude.{
  ℕ, zero, suc, ◌+◌, Bool, true, false, ◌&&◌, if◌then◌else◌, Option, none, some, List, [], ◌∷◌,
  length,
}
use mathlib.Core.Bool.{not}
use mathlib.Core.HLevel.{Discrete}

pub TypeId-discrete : Discrete TypeId
TypeId-discrete = hlevel

unfoldable pub same_type : TypeId → TypeId → Bool
same_type a b = elim (TypeId-discrete a b) [ yes p ↦ true | no p ↦ false ]

-- Bottom takes the type of the operand, and Int and Float give Float.
abbrev pub join_type : TypeId → TypeId → TypeId
join_type TypeId.bottom t = t
join_type TypeId.int TypeId.float = TypeId.float
join_type TypeId.float TypeId.int = TypeId.float
join_type joined t = joined

unfoldable pub join_types : Graph → TypeId → List NodeId → TypeId
join_types g joined [] = joined
join_types g joined (d ∷ ds) = join_types g (join_type joined (at g d).type) ds

-- The type of an operation on numbers, where some operand gives one.
abbrev pub or_old : TypeId → TypeId → TypeId
or_old TypeId.bottom old = old
or_old t old = t

-- What a kind says of the type of its node.
pub data Rule : Type 0 where
  fixed : TypeId → Rule
  joins none_known : Rule

abbrev pub rule : NodeKind → Rule
rule NodeKind.const_int = fixed TypeId.int
rule NodeKind.const_undef = fixed TypeId.int
rule NodeKind.const_float = fixed TypeId.float
rule NodeKind.const_null = fixed TypeId.null
rule NodeKind.const_string = fixed TypeId.string
rule NodeKind.add = joins
rule NodeKind.sub = joins
rule NodeKind.mul = joins
rule NodeKind.div = joins
rule NodeKind.pow = joins
rule NodeKind.eq = fixed TypeId.bool
rule NodeKind.ne = fixed TypeId.bool
rule NodeKind.lt = fixed TypeId.bool
rule NodeKind.gt = fixed TypeId.bool
rule NodeKind.lte = fixed TypeId.bool
rule NodeKind.gte = fixed TypeId.bool
rule NodeKind.and = fixed TypeId.bool
rule NodeKind.or = fixed TypeId.bool
rule NodeKind.not = fixed TypeId.bool
rule NodeKind.to_bool = fixed TypeId.bool
rule NodeKind.to_float = fixed TypeId.float
rule _ = none_known

abbrev pub apply_rule : Graph → NodeId → Rule → TypeId
apply_rule g id (fixed t) = t
apply_rule g id joins =
    or_old (join_types g TypeId.bottom (inputs_of_kind g id data_edge)) (at g id).type
apply_rule g id none_known = (at g id).type

unfoldable pub new_type : Graph → NodeId → TypeId
new_type g id = apply_rule g id (rule (at g id).kind)

abbrev pub retype : TypeId → Node → Node
retype t n = record n { type = t }

-- A live node whose type the rule of its kind changes.
unfoldable pub narrows : Graph → NodeId → Bool
narrows g id = not (dead (at g id)) && not (same_type (new_type g id) (at g id).type)

unfoldable pub narrow_step : NodeId → PassState → PassState
narrow_step id s =
    if narrows s.graph id
    then record {
      graph = set_node id (retype (new_type s.graph id) (at s.graph id)) s.graph;
      result = report_change s.result;
    }
    else s

-- One round: `changed` starts as false.
abbrev pub narrow_round : Graph → PassState
narrow_round g = pass_loop narrow_step (length g.nodes) 1 (record { graph = g; result = no_result })

pub record NarrowState : Type 0 where
  pub graph : Graph
  pub iterations : ℕ
  pub changed : Bool
  pub result : PassResult

-- The `while` loop, for the rounds that are left of its eight.
unfoldable pub narrow_loop : ℕ → NarrowState → NarrowState
narrow_loop zero s = s
narrow_loop (suc f) s =
    let round = narrow_round s.graph in
    let next : NarrowState = record {
      graph = round.graph;
      iterations = s.iterations + 1;
      changed = round.result.changed;
      result = if round.result.changed then report_change s.result else s.result;
    } in
    let rest = narrow_loop f next in if s.changed then rest else s

abbrev pub type_narrowing : Graph → NarrowState
type_narrowing g =
    narrow_loop 8 (record { graph = g; iterations = 0; changed = true; result = no_result })
