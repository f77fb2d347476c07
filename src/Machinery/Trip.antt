-- ===== src/Machinery/Trip.antt =====
-- src/machinery/trip.h and trip.cpp: invalidation of compiled code. The mutex that every operation
-- holds makes each one step.
pub mod Counted
pub mod Broken
use arc_jit.Core.Graph.{u32}
use arc_jit.Prelude.{
  ℕ, ◌+◌, ◌-◌, ◌%◌, ◌^◌, Bool, true, false, ◌&&◌, ltb, if◌then◌else◌, List, [], ◌∷◌, ◌++◌, length,
  get_or, set, find_or, put,
}

pub data CodeState : Type 0 where
  valid invalidated uninstalled : CodeState

-- The name is a sequence of characters, as their codes.
pub record CodeEntry : Type 0 where
  pub id : ℕ
  pub entry_point : ℕ
  pub code_size : ℕ
  pub state : CodeState
  pub dependent_assumptions : List ℕ
  pub function_name : List ℕ

abbrev pub is_valid_state : CodeState → Bool
is_valid_state valid = true
is_valid_state _ = false

pub record Trip : Type 0 where
  pub entries : List CodeEntry
  pub assumption_to_code : List (ℕ × List ℕ)
  pub invalidation_count : ℕ

abbrev pub new_trip : Trip
new_trip = record { entries = []; assumption_to_code = []; invalidation_count = 0 }

-- An entry that no read reaches.
abbrev pub no_entry : CodeEntry
no_entry = record {
  id = 0;
  entry_point = 0;
  code_size = 0;
  state = uninstalled;
  dependent_assumptions = [];
  function_name = [];
}

abbrev pub entry_at : Trip → ℕ → CodeEntry
entry_at t c = get_or t.entries c no_entry

abbrev pub new_entry : ℕ → ℕ → ℕ → List ℕ → CodeEntry
new_entry id entry_point code_size name = record {
  id = id;
  entry_point = entry_point;
  code_size = code_size;
  state = valid;
  dependent_assumptions = [];
  function_name = name;
}

unfoldable pub register_code : ℕ → ℕ → List ℕ → Trip → ℕ × Trip
register_code entry_point code_size name t =
    let id = u32 (length t.entries) in
    (id, record t { entries = t.entries ++ new_entry id entry_point code_size name ∷ [] })

abbrev pub add_assumption : ℕ → CodeEntry → CodeEntry
add_assumption a e = record e { dependent_assumptions = e.dependent_assumptions ++ a ∷ [] }

unfoldable pub add_dependency : ℕ → ℕ → Trip → Trip
add_dependency c a t =
    if ltb c (length t.entries)
    then record t {
      entries = set t.entries c (add_assumption a (entry_at t c));
      assumption_to_code = put a (find_or [] a t.assumption_to_code ++ c ∷ []) t.assumption_to_code;
    }
    else t

-- In range and `CodeState::Valid`.
unfoldable pub is_valid : Trip → ℕ → Bool
is_valid t c = ltb c (length t.entries) && is_valid_state (entry_at t c).state

abbrev pub invalidate_entry : CodeEntry → CodeEntry
invalidate_entry e = record e { state = invalidated }

unfoldable pub invalidate : ℕ → Trip → Trip
invalidate c t =
    if is_valid t c
    then record t {
      entries = set t.entries c (invalidate_entry (entry_at t c));
      invalidation_count = (t.invalidation_count + 1) % 2 ^ 64;
    }
    else t

-- The loop repeats the test and the change of `invalidate`, under one lock.
unfoldable pub invalidate_all : List ℕ → Trip → Trip
invalidate_all [] t = t
invalidate_all (c ∷ cs) t = invalidate_all cs (invalidate c t)

unfoldable pub invalidate_by_assumption : ℕ → Trip → Trip
invalidate_by_assumption a t = invalidate_all (find_or [] a t.assumption_to_code) t

unfoldable pub active_count : Trip → ℕ
active_count t = (length t.entries + 2 ^ 64 - t.invalidation_count) % 2 ^ 64

-- What a client does.
pub data Action : Type 0 where
  register : ℕ → ℕ → List ℕ → Action
  depend : ℕ → ℕ → Action
  drop_code : ℕ → Action
  break_assumption : ℕ → Action

unfoldable pub act : Action → Trip → Trip
act (register entry_point code_size name) t = (register_code entry_point code_size name t).1
act (depend c a) t = add_dependency c a t
act (drop_code c) t = invalidate c t
act (break_assumption a) t = invalidate_by_assumption a t

unfoldable pub run : List Action → Trip → Trip
run [] t = t
run (x ∷ xs) t = run xs (act x t)
