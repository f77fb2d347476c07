-- ===== src/Machinery/Tests.antt =====
-- The engines of src/machinery on small inputs.
use arc_jit.Machinery.Fuse
use arc_jit.Machinery.Fuse.{
  Fuse, IsWithin, check, check_iff, default_budget, new_fuse, register_clone, register_clone_lem,
  register_clones, register_clones-IsWithin,
}
use arc_jit.Machinery.Governor.{SpeculationContext, IsJustified, decide, decide-IsJustified}
use arc_jit.Machinery.GroundFault
use arc_jit.Machinery.GroundFault.{
  DeoptEvent, events_of_chunk, is_storm, is_storm_lem, new_ground_fault, since_reset, total_deopts,
}
use arc_jit.Machinery.Meter.Confidence.{can_speculate_monomorphic_iff, record_deopt-low}
use arc_jit.Machinery.Meter.Summary.{
  IsSplit, entry_for, no_summary, summarize, summarize-IsSplit, update_entry, update_entry_lem,
}
use arc_jit.Machinery.Meter.Types.{all_of_type, misses, record_samples_lem}
use arc_jit.Machinery.Meter.{
  ConfidenceLevel, ProfileEntry, Sample, can_clone, can_inline, can_speculate_monomorphic,
  empty_entry, record_deopt, record_samples,
}
use arc_jit.Machinery.Regulator.{
  CompileCost, default_inline_budget, inline_all, inline_all_lem, merge, nodes_inlined,
}
use arc_jit.Machinery.Trip
use arc_jit.Machinery.Trip.Broken.{depends_on, invalidate_by_assumption_lem}
use arc_jit.Machinery.Trip.Counted.{active_count_lem, count_valid}
use arc_jit.Machinery.Trip.{active_count, invalidate_by_assumption, new_trip}
use arc_jit.Machinery.Watchdog
use arc_jit.Machinery.Watchdog.Indexed.{invalidate_by_kind_lem}
use arc_jit.Machinery.Watchdog.{index_key, invalidate_by_kind, key_of, new_watchdog}
use arc_jit.Prelude.{
  ℕ, ◌+◌, ◌*◌, ◌≤◌, ◌<◌, ◌≡◌, ◌↔◌, ◌⊎◌, refl, true, false, ◌&&◌, ◌!=◌, leb, if◌then◌else◌, List, [],
  ◌∷◌, length, find_or, arith,
}

new_fuse-IsWithin : IsWithin (new_fuse default_budget)
new_fuse-IsWithin = record {
  sum = refl;
  total = omega arith;
  each = λ id. omega arith;
  word_each = omega arith;
  word_total = omega arith;
}

register_clones-IsWithin_example :
    IsWithin (register_clones (1 ∷ 1 ∷ 1 ∷ 1 ∷ 1 ∷ 2 ∷ []) (new_fuse default_budget))
register_clones-IsWithin_example =
    register_clones-IsWithin (1 ∷ 1 ∷ 1 ∷ 1 ∷ 1 ∷ 2 ∷ []) (new_fuse default_budget)
      new_fuse-IsWithin

register_clone_example :
    (((register_clone 1 (new_fuse default_budget)).0 ≡ true) ↔ ((0 < 4) × (0 < 256)))
    × (find_or 0 2 (register_clone 1 (new_fuse default_budget)).1.clone_counts ≡ 0)
    × ((register_clone 1 (new_fuse default_budget)).1.budget ≡ default_budget)
register_clone_example =
    register_clone_lem 1 2 (new_fuse default_budget) (λ e. absurd (omega arith))

check_iff_example :
    (check (new_fuse default_budget) 10 200000 5 5 5 ≡ Fuse.within_budget)
    ↔ ((10 ≤ 50000) × (200000 ≤ 100000) × (5 ≤ 500000) × (5 ≤ 256 * 1024) × (5 ≤ 64))
check_iff_example = check_iff (new_fuse default_budget) 10 200000 5 5 5

abbrev hot_context : SpeculationContext
hot_context = record {
  confidence = ConfidenceLevel.very_high;
  is_monomorphic = true;
  distinct_types = 1;
  deopt_count = 0;
  is_storm = false;
  guard_cost = 3;
  code_size_budget_remaining = 100;
  clone_budget_remaining = 1;
  expected_speedup_pct = 40;
}

decide-IsJustified_example : IsJustified hot_context (decide hot_context)
decide-IsJustified_example = decide-IsJustified hot_context

abbrev deopt_at : ℕ → DeoptEvent
deopt_at chunk = record {
  reason = GroundFault.type_mismatch;
  chunk_offset = chunk;
  code_id = 1;
  timestamp_ns = 0;
  expected_value = 1;
  actual_value = 2;
  function_name = [];
  from_tier = 1;
  recompiled = false;
}

abbrev deopts : List GroundFault.Action
deopts =
    GroundFault.event (deopt_at 7)
    ∷ GroundFault.reset
    ∷ GroundFault.event (deopt_at 7)
    ∷ GroundFault.event (deopt_at 8)
    ∷ []

is_storm_example :
    (is_storm (GroundFault.run deopts new_ground_fault) 7 10
      ≡ leb 10 (events_of_chunk 7 (since_reset deopts [])))
    × (total_deopts (GroundFault.run deopts new_ground_fault) ≡ length (since_reset deopts []))
is_storm_example = is_storm_lem deopts 7 10 (omega arith)

abbrev samples : List Sample
samples = (1, 5) ∷ (2, 5) ∷ (1, 6) ∷ []

abbrev settled_entry : ProfileEntry
settled_entry = record empty_entry {
  total_samples = 2000;
  distinct_types = 1;
  distinct_shapes = 1;
  is_monomorphic = true;
  dominant_ratio = record { numerator = 1; denominator = 1 };
}

can_speculate_monomorphic_iff_example : (can_speculate_monomorphic settled_entry ≡ true) ↔ (
    (true ≡ true)
    × (1000 ≤ 2000)
    × (1 ≤ 3)
    × (1 ≤ 3)
    × (9 * 1 ≤ 10 * 1)
    × ((settled_entry.deopt_count ≡ 0) ⊎ (1000 ≤ settled_entry.last_deopt_age)))
can_speculate_monomorphic_iff_example = can_speculate_monomorphic_iff settled_entry

record_deopt-low_example :
    (can_inline (record_samples samples (record_deopt settled_entry)) ≡ false)
    × (can_clone (record_samples samples (record_deopt settled_entry)) ≡ false)
    × (can_speculate_monomorphic (record_samples samples (record_deopt settled_entry)) ≡ false)
record_deopt-low_example = record_deopt-low samples settled_entry (omega arith) (omega arith)

record_samples_example :
    ((record_samples ((1, 5) ∷ samples) empty_entry).total_samples ≡ length samples + 1)
    × ((record_samples ((1, 5) ∷ samples) empty_entry).is_monomorphic ≡ all_of_type 1 samples)
    × ((record_samples ((1, 5) ∷ samples) empty_entry).distinct_types ≡ 1 + misses 1 samples)
record_samples_example = record_samples_lem (1, 5) samples (omega arith)

summarize-IsSplit_example :
    IsSplit (summarize (settled_entry ∷ empty_entry ∷ []) no_summary)
    × ((summarize (settled_entry ∷ empty_entry ∷ []) no_summary).total_sites ≤ 2)
summarize-IsSplit_example = summarize-IsSplit (settled_entry ∷ empty_entry ∷ []) (omega arith)

update_entry_example :
    (entry_for (update_entry 4 record_deopt (settled_entry ∷ [])) 4
      ≡ record_deopt (entry_for (settled_entry ∷ []) 4))
    × (entry_for (update_entry 4 record_deopt (settled_entry ∷ [])) 0
        ≡ entry_for (settled_entry ∷ []) 0)
update_entry_example =
    update_entry_lem 4 0 record_deopt (settled_entry ∷ []) (omega arith) (λ e. absurd (omega arith))

abbrev code_actions : List Trip.Action
code_actions =
    Trip.register 4096 100 [] ∷ Trip.register 8192 50 [] ∷ Trip.depend 0 9 ∷ Trip.drop_code 1 ∷ []

active_count_example :
    active_count (Trip.run code_actions new_trip)
    ≡ count_valid (Trip.run code_actions new_trip).entries
active_count_example = active_count_lem code_actions (omega arith)

invalidate_by_assumption_example :
    Trip.is_valid (invalidate_by_assumption 9 (Trip.run code_actions new_trip)) 0 ≡ (
      if depends_on (Trip.run code_actions new_trip) 0 9
      then false
      else Trip.is_valid (Trip.run code_actions new_trip) 0)
invalidate_by_assumption_example = invalidate_by_assumption_lem code_actions 9 0

abbrev assumption_actions : List Watchdog.Action
assumption_actions =
    Watchdog.register Watchdog.shape_stable 3 true []
    ∷ Watchdog.register Watchdog.global_constant 3 false []
    ∷ Watchdog.drop_one 1
    ∷ []

invalidate_by_kind_example :
    Watchdog.is_valid
      (invalidate_by_kind Watchdog.shape_stable 3 (Watchdog.run assumption_actions new_watchdog))
      0
    ≡ (Watchdog.is_valid (Watchdog.run assumption_actions new_watchdog) 0
        && key_of (Watchdog.run assumption_actions new_watchdog) 0
          != index_key Watchdog.shape_stable 3)
invalidate_by_kind_example =
    invalidate_by_kind_lem assumption_actions Watchdog.shape_stable 3 0 (omega arith)

abbrev requests : List (ℕ × ℕ)
requests = (30, 1) ∷ (40, 0) ∷ (20, 3) ∷ (32, 2) ∷ []

inline_all_example :
    ((inline_all requests default_inline_budget).used_nodes
      ≡ 0 + nodes_inlined requests default_inline_budget)
    × (0 + nodes_inlined requests default_inline_budget ≤ 256)
inline_all_example = inline_all_lem requests default_inline_budget (omega arith) (omega arith)

abbrev small_cost : CompileCost
small_cost = record {
  compile_time_us = 10;
  pass_time_us = 5;
  graph_nodes = 7;
  graph_edges = 9;
  code_size_bytes = 64;
  deopt_metadata_bytes = 8;
  max_register_pressure = 3;
  guard_count = 1;
  deopt_sites = 1;
  deopt_risk_score = 20;
  expected_speedup_pct = 15;
}

abbrev large_cost : CompileCost
large_cost = record small_cost { compile_time_us = 10000; graph_nodes = 500; guard_count = 9 }

-- The nodes add up, and the time of the passes stays.
merge_test :
    ((merge small_cost large_cost).graph_nodes ≡ 507)
    × ((merge small_cost large_cost).pass_time_us ≡ 5)
unfolding merge
merge_test = (refl, refl)
