-- ===== src/Machinery/Meter/Confidence.antt =====
-- src/machinery/meter.h: what a level of confidence takes.
use arc_jit.Machinery.Meter.{
  rank, ProfileEntry, confidence, can_speculate_monomorphic, can_inline, can_clone, Sample,
  record_sample, record_deopt, record_samples,
}
use arc_jit.Prelude.{
  ◌+◌, ◌*◌, ◌^◌, ◌≤◌, ◌<◌, ◌≡◌, ◌↔◌, ◌⊎◌, refl, ◌∙◌, true, false, arith, List, [], ◌∷◌, length,
}

-- Monomorphic speculation is allowed exactly for a monomorphic entry with at least 1000 samples, at
-- most three types and three shapes, a dominant type of nine tenths or more, and no deoptimisation in
-- the last 1000 samples.
pub can_speculate_monomorphic_iff :
    (e : ProfileEntry)
    → (can_speculate_monomorphic e ≡ true) ↔ (
        (e.is_monomorphic ≡ true)
        × (1000 ≤ e.total_samples)
        × (e.distinct_types ≤ 3)
        × (e.distinct_shapes ≤ 3)
        × (9 * e.dominant_ratio.denominator ≤ 10 * e.dominant_ratio.numerator)
        × ((e.deopt_count ≡ 0) ⊎ (1000 ≤ e.last_deopt_age)))
unfolding can_speculate_monomorphic confidence
can_speculate_monomorphic_iff e = ground arith

-- A recent deoptimisation keeps the confidence low.
recent_deopt-low :
    (e : ProfileEntry) → 0 < e.deopt_count → e.last_deopt_age < 1000 → rank (confidence e) ≤ 1
unfolding confidence
recent_deopt-low e h k = ground arith

record_sample_age :
    (s : Sample) (e : ProfileEntry)
    → e.last_deopt_age + 1 < 2 ^ 64
    → ((record_sample s e).deopt_count ≡ e.deopt_count)
      × ((record_sample s e).last_deopt_age ≡ e.last_deopt_age + 1)
unfolding record_sample
record_sample_age s e h = (ground arith, ground arith)

record_samples_age :
    (ss : List Sample) (e : ProfileEntry)
    → e.last_deopt_age + length ss < 2 ^ 64
    → ((record_samples ss e).deopt_count ≡ e.deopt_count)
      × ((record_samples ss e).last_deopt_age ≡ e.last_deopt_age + length ss)
unfolding record_samples
record_samples_age [] e h = (refl, omega arith)
record_samples_age (s ∷ ss) e h =
    let here = record_sample_age s e (omega arith) in
    let rest = record_samples_age ss (record_sample s e) (omega (arith, here.1)) in
    (rest.0 ∙ here.0, omega (arith, rest.1, here.1))

-- After a deoptimisation and fewer than 1000 samples, whatever they are, the confidence of an entry is
-- at most low, so that the site is neither inlined nor cloned nor speculated on.
pub record_deopt-low :
    (ss : List Sample) (e : ProfileEntry)
    → length ss < 1000
    → e.deopt_count + 1 < 2 ^ 64
    → (can_inline (record_samples ss (record_deopt e)) ≡ false)
      × (can_clone (record_samples ss (record_deopt e)) ≡ false)
      × (can_speculate_monomorphic (record_samples ss (record_deopt e)) ≡ false)
unfolding record_deopt can_inline can_clone can_speculate_monomorphic
record_deopt-low ss e few h =
    let after = record_samples_age ss (record_deopt e) (omega arith) in
    let weak =
      recent_deopt-low (record_samples ss (record_deopt e)) (omega (arith, after.0))
        (omega (arith, after.1)) in
    (ground (arith, weak), ground (arith, weak), ground (arith, weak))
