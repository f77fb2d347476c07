-- ===== src/Machinery/GroundFault.antt =====
-- src/machinery/ground_fault.h: the record of deoptimisations. The mutex that every operation holds
-- makes each one step.
use arc_jit.Prelude.{
  ℕ, ◌+◌, ◌%◌, ◌^◌, ◌≤◌, ◌<◌, ◌≡◌, refl, sym, ap, ◌∙◌, inl, inr, Bool, ◌==◌, leb, if◌then◌else◌,
  Bool-cases, List, [], ◌∷◌, ◌++◌, length, length-append, arith, find_or, find_or-put_self,
  find_or-put_ne, put,
}

pub data DeoptReason : Type 0 where
  shape_mismatch type_mismatch null_check bounds_check division_by_zero : DeoptReason
  monomorphic_call_miss inline_cache_miss stack_overflow osr_failure : DeoptReason
  assumption_invalidated : DeoptReason

-- The name is a buffer of characters, as their codes.
pub record DeoptEvent : Type 0 where
  pub reason : DeoptReason
  pub chunk_offset : ℕ
  pub code_id : ℕ
  pub timestamp_ns : ℕ
  pub expected_value : ℕ
  pub actual_value : ℕ
  pub function_name : List ℕ
  pub from_tier : ℕ
  pub recompiled : Bool

-- `size_t` has 64 bits.
abbrev pub size_t : ℕ → ℕ
size_t n = n % 2 ^ 64

pub record GroundFault : Type 0 where
  pub events : List DeoptEvent
  pub per_chunk_count : List (ℕ × ℕ)
  pub total_count : ℕ

abbrev pub new_ground_fault : GroundFault
new_ground_fault = record { events = []; per_chunk_count = []; total_count = 0 }

unfoldable pub record_event : DeoptEvent → GroundFault → GroundFault
record_event e g =
    let count = find_or 0 e.chunk_offset g.per_chunk_count in
    record {
      events = g.events ++ e ∷ [];
      per_chunk_count = put e.chunk_offset (size_t (count + 1)) g.per_chunk_count;
      total_count = size_t (g.total_count + 1);
    }

abbrev pub total_deopts : GroundFault → ℕ
total_deopts g = g.total_count

unfoldable pub deopts_for_chunk : GroundFault → ℕ → ℕ
deopts_for_chunk g chunk = find_or 0 chunk g.per_chunk_count

-- The default threshold is 10.
unfoldable pub is_storm : GroundFault → ℕ → ℕ → Bool
is_storm g chunk threshold = leb threshold (deopts_for_chunk g chunk)

abbrev pub clear : GroundFault → GroundFault
clear g = new_ground_fault

-- What a client does with the record.
pub data Action : Type 0 where
  event : DeoptEvent → Action
  reset : Action

unfoldable pub run : List Action → GroundFault → GroundFault
run [] g = g
run (event e ∷ acts) g = run acts (record_event e g)
run (reset ∷ acts) g = run acts (clear g)

-- The events of a chunk among the recorded ones.
abbrev pub events_of_chunk : ℕ → List DeoptEvent → ℕ
events_of_chunk c [] = 0
events_of_chunk c (e ∷ es) =
    if c == e.chunk_offset then 1 + events_of_chunk c es else events_of_chunk c es

events_of_chunk-append :
    (c : ℕ) (es : List DeoptEvent) (e : DeoptEvent)
    → events_of_chunk c (es ++ e ∷ [])
      ≡ events_of_chunk c es + (if c == e.chunk_offset then 1 else 0)
events_of_chunk-append c [] e = ground arith
events_of_chunk-append c (d ∷ es) e = ground (arith, events_of_chunk-append c es e)

events_of_chunk-le : (c : ℕ) (es : List DeoptEvent) → events_of_chunk c es ≤ length es
events_of_chunk-le c [] = omega arith
events_of_chunk-le c (e ∷ es) = ground (arith, events_of_chunk-le c es)

-- The counters are those of the events.
pub record IsCounted (g : GroundFault) : Type 0 where
  pub chunks : (c : ℕ) → deopts_for_chunk g c ≡ events_of_chunk c g.events
  pub total : total_deopts g ≡ length g.events

new_ground_fault-IsCounted : IsCounted new_ground_fault
unfolding deopts_for_chunk
new_ground_fault-IsCounted = record { chunks = λ c. refl; total = refl }

record_event_size :
    (e : DeoptEvent) (g : GroundFault) → length (record_event e g).events ≡ length g.events + 1
unfolding record_event
record_event_size e g = length-append g.events (e ∷ [])

record_event-IsCounted :
    (e : DeoptEvent) (g : GroundFault)
    → length g.events + 1 < 2 ^ 64
    → IsCounted g
    → IsCounted (record_event e g)
unfolding record_event deopts_for_chunk
record_event-IsCounted e g room w = record {
  chunks = λ c. elim (Bool-cases (c == e.chunk_offset)) [
    | inl same ↦
        let here : c ≡ e.chunk_offset = ground arith in
        let more = events_of_chunk-append c g.events e in
        rw (here, find_or-put_self)
          (omega (
            arith,
            w.chunks e.chunk_offset,
            events_of_chunk-le e.chunk_offset g.events,
            rw (same, here) at more,
          ))
    | inr other ↦
        find_or-put_ne 0 e.chunk_offset c _ g.per_chunk_count (λ p. ground arith)
        ∙ w.chunks c
        ∙ sym (events_of_chunk-append c g.events e ∙ rw other (omega arith))
  ];
  total = omega (arith, w.total, length-append g.events (e ∷ []));
}

-- The events since the last reset, in order.
abbrev pub since_reset : List Action → List DeoptEvent → List DeoptEvent
since_reset [] es = es
since_reset (event e ∷ acts) es = since_reset acts (es ++ e ∷ [])
since_reset (reset ∷ acts) es = since_reset acts []

run_lem :
    (acts : List Action) (g : GroundFault)
    → length g.events + length acts < 2 ^ 64
    → IsCounted g
    → IsCounted (run acts g) × ((run acts g).events ≡ since_reset acts g.events)
unfolding run record_event
run_lem [] g h w = (w, refl)
run_lem (event e ∷ acts) g h w =
    run_lem acts (record_event e g) (omega (arith, record_event_size e g))
      (record_event-IsCounted e g (omega arith) w)
run_lem (reset ∷ acts) g h w = run_lem acts (clear g) (omega arith) new_ground_fault-IsCounted

-- After fewer than 2 ^ 64 events and resets from an empty record, a chunk is in a storm exactly if the
-- events of the chunk since the last reset are at least as many as the threshold, and the total is the
-- number of the events since then.
pub is_storm_lem :
    (acts : List Action) (chunk threshold : ℕ)
    → length acts < 2 ^ 64
    → (is_storm (run acts new_ground_fault) chunk threshold
        ≡ leb threshold (events_of_chunk chunk (since_reset acts [])))
      × (total_deopts (run acts new_ground_fault) ≡ length (since_reset acts []))
unfolding is_storm
is_storm_lem acts chunk threshold h =
    let r = run_lem acts new_ground_fault (omega arith) new_ground_fault-IsCounted in
    let w = r.0 in
    (ap (leb threshold) (w.chunks chunk ∙ ap (events_of_chunk chunk) r.1), w.total ∙ ap length r.1)
