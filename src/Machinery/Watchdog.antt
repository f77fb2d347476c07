-- ===== src/Machinery/Watchdog.antt =====
-- src/machinery/watchdog.h and watchdog.cpp: the assumptions of compiled code. A callback is code of the
-- client: the model records for which assumption it is called. The mutex that every operation holds
-- makes each one step.
pub mod Indexed
use arc_jit.Core.Graph.{u32}
use arc_jit.Machinery.Meter.{u64}
use arc_jit.Prelude.{
  contains, ℕ, ◌+◌, ◌-◌, ◌*◌, ◌%◌, ◌^◌, Bool, true, false, ◌&&◌, ◌==◌, ltb, if◌then◌else◌, List, [],
  ◌∷◌, ◌++◌, length, get_or, set, find_or, put,
}

pub data AssumptionKind : Type 0 where
  shape_stable function_not_redefined global_constant ffi_pointer_stable : AssumptionKind
  list_not_mutated method_table_unchanged field_offset_unchanged : AssumptionKind
  module_frozen type_stable monomorphic_call : AssumptionKind

abbrev pub kind_number : AssumptionKind → ℕ
kind_number shape_stable = 0
kind_number function_not_redefined = 1
kind_number global_constant = 2
kind_number ffi_pointer_stable = 3
kind_number list_not_mutated = 4
kind_number method_table_unchanged = 5
kind_number field_offset_unchanged = 6
kind_number module_frozen = 7
kind_number type_stable = 8
kind_number monomorphic_call = 9

-- Whether there is a callback is all that the registry asks of it.
pub record Assumption : Type 0 where
  pub kind : AssumptionKind
  pub payload : ℕ
  pub valid : Bool
  pub dependent_count : ℕ
  pub has_callback : Bool
  pub description : List ℕ

-- `called` lists the assumptions whose callback was called, in order.
pub record Watchdog : Type 0 where
  pub assumptions : List Assumption
  pub kind_payload_index : List (ℕ × List ℕ)
  pub invalidation_count : ℕ
  pub called : List ℕ

abbrev pub new_watchdog : Watchdog
new_watchdog = record {
  assumptions = [];
  kind_payload_index = [];
  invalidation_count = 0;
  called = [];
}

-- The kind in the upper 8 bits, the payload without its upper 8 bits below.
abbrev pub index_key : AssumptionKind → ℕ → ℕ
index_key kind payload = kind_number kind * 2 ^ 56 + payload % 2 ^ 56

-- The sets of the index. The order in which `std::unordered_set` holds its elements is left open by
-- it; here it is the order of insertion.
abbrev pub insert : ℕ → List ℕ → List ℕ
insert x xs = if contains x xs then xs else xs ++ x ∷ []

abbrev pub erase : ℕ → List ℕ → List ℕ
erase x [] = []
erase x (y ∷ ys) = if x == y then erase x ys else y ∷ erase x ys

-- An assumption that no read reaches.
abbrev pub no_assumption : Assumption
no_assumption = record {
  kind = shape_stable;
  payload = 0;
  valid = false;
  dependent_count = 0;
  has_callback = false;
  description = [];
}

abbrev pub assumption_at : Watchdog → ℕ → Assumption
assumption_at w i = get_or w.assumptions i no_assumption

abbrev pub key_of : Watchdog → ℕ → ℕ
key_of w i = index_key (assumption_at w i).kind (assumption_at w i).payload

abbrev pub ids_at : Watchdog → ℕ → List ℕ
ids_at w key = find_or [] key w.kind_payload_index

abbrev pub new_assumption : AssumptionKind → ℕ → Bool → List ℕ → Assumption
new_assumption kind payload has_callback description = record {
  kind = kind;
  payload = payload;
  valid = true;
  dependent_count = 0;
  has_callback = has_callback;
  description = description;
}

unfoldable pub register_assumption : AssumptionKind → ℕ → Bool → List ℕ → Watchdog → ℕ × Watchdog
register_assumption kind payload has_callback description w =
    let id = u32 (length w.assumptions) in
    let key = index_key kind payload in
    (
      id,
      record w {
        assumptions = w.assumptions ++ new_assumption kind payload has_callback description ∷ [];
        kind_payload_index = put key (insert id (ids_at w key)) w.kind_payload_index;
      },
    )

-- In range and valid.
unfoldable pub is_valid : Watchdog → ℕ → Bool
is_valid w i = ltb i (length w.assumptions) && (assumption_at w i).valid

abbrev pub break_assumption : Assumption → Assumption
break_assumption a = record a { valid = false }

-- What both ways of invalidation do with a valid assumption.
unfoldable pub mark_invalid : ℕ → Watchdog → Watchdog
mark_invalid i w =
    if is_valid w i
    then record w {
      assumptions = set w.assumptions i (break_assumption (assumption_at w i));
      invalidation_count = u64 (w.invalidation_count + 1);
      called = if (assumption_at w i).has_callback then w.called ++ i ∷ [] else w.called;
    }
    else w

abbrev pub unindex : ℕ → ℕ → Watchdog → Watchdog
unindex key i w = record w {
  kind_payload_index = put key (erase i (ids_at w key)) w.kind_payload_index;
}

unfoldable pub invalidate : ℕ → Watchdog → Watchdog
invalidate i w = if is_valid w i then unindex (key_of w i) i (mark_invalid i w) else w

unfoldable pub mark_all : List ℕ → Watchdog → Watchdog
mark_all [] w = w
mark_all (i ∷ is) w = mark_all is (mark_invalid i w)

abbrev pub clear_ids : ℕ → Watchdog → Watchdog
clear_ids key w = record w { kind_payload_index = put key [] w.kind_payload_index }

-- A key that is missing reads as the empty set, which nothing is done for.
unfoldable pub invalidate_by_kind : AssumptionKind → ℕ → Watchdog → Watchdog
invalidate_by_kind kind payload w =
    let key = index_key kind payload in clear_ids key (mark_all (ids_at w key) w)

unfoldable pub active_count : Watchdog → ℕ
active_count w = u64 (length w.assumptions + 2 ^ 64 - w.invalidation_count)

-- What a client does.
pub data Action : Type 0 where
  register : AssumptionKind → ℕ → Bool → List ℕ → Action
  drop_one : ℕ → Action
  drop_kind : AssumptionKind → ℕ → Action

unfoldable pub act : Action → Watchdog → Watchdog
act (register kind payload has_callback description) w =
    (register_assumption kind payload has_callback description w).1
act (drop_one i) w = invalidate i w
act (drop_kind kind payload) w = invalidate_by_kind kind payload w

unfoldable pub run : List Action → Watchdog → Watchdog
run [] w = w
run (x ∷ xs) w = run xs (act x w)
