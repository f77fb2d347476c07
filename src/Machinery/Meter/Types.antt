-- ===== src/Machinery/Meter/Types.antt =====
-- src/machinery/meter.h, `ProfileEntry::record_sample`: what the counters say of the samples.
use arc_jit.Machinery.Meter.{
  ProfileEntry, Sample, tick, first_sample, record_sample, record_samples, empty_entry,
}
use arc_jit.Prelude.{
  ℕ, suc, ◌+◌, ◌^◌, ◌≤◌, ◌<◌, ◌≡◌, Bool, true, ◌&&◌, ◌==◌, if◌then◌else◌, arith, List, [], ◌∷◌,
  length,
}

-- The samples of another type than a given one.
abbrev pub misses : ℕ → List Sample → ℕ
misses t [] = 0
misses t (s ∷ ss) = if s.0 == t then misses t ss else suc (misses t ss)

-- All samples have one type.
abbrev pub all_of_type : ℕ → List Sample → Bool
all_of_type t [] = true
all_of_type t (s ∷ ss) = s.0 == t && all_of_type t ss

next_sample :
    (s : Sample) (e : ProfileEntry)
    → 1 ≤ e.total_samples
    → e.total_samples + 1 < 2 ^ 64
    → e.distinct_types + 1 < 2 ^ 32
    → ((record_sample s e).total_samples ≡ e.total_samples + 1)
      × ((record_sample s e).dominant_type ≡ e.dominant_type)
      × ((record_sample s e).distinct_types
          ≡ (if s.0 == e.dominant_type then e.distinct_types else e.distinct_types + 1))
      × ((record_sample s e).is_monomorphic ≡ (e.is_monomorphic && s.0 == e.dominant_type))
unfolding record_sample
next_sample s e some_seen room few = (ground arith, ground arith, ground arith, ground arith)

next_samples :
    (ss : List Sample) (e : ProfileEntry)
    → 1 ≤ e.total_samples
    → e.total_samples + length ss < 2 ^ 64
    → e.distinct_types + length ss < 2 ^ 32
    → ((record_samples ss e).total_samples ≡ e.total_samples + length ss)
      × ((record_samples ss e).distinct_types ≡ e.distinct_types + misses e.dominant_type ss)
      × ((record_samples ss e).is_monomorphic
          ≡ (e.is_monomorphic && all_of_type e.dominant_type ss))
unfolding record_samples
next_samples [] e h room few = (omega arith, omega arith, ground arith)
next_samples (s ∷ ss) e h room few =
    let n = next_sample s e h (omega arith) (omega arith) in
    let r =
      next_samples ss (record_sample s e) (omega (arith, n.0)) (omega (arith, n.0))
        (ground (arith, n.2)) in
    (omega (arith, r.0, n.0), ground (arith, r.1, n.1, n.2), ground (arith, r.2, n.1, n.3))

-- For fewer than 2 ^ 32 samples from an empty entry, the total is the number of samples, the entry is
-- monomorphic exactly if all samples have the type of the first one, and `distinct_types` is one more
-- than the number of samples of another type than the first.
pub record_samples_lem :
    (s : Sample) (ss : List Sample)
    → length ss + 1 < 2 ^ 32
    → ((record_samples (s ∷ ss) empty_entry).total_samples ≡ length ss + 1)
      × ((record_samples (s ∷ ss) empty_entry).is_monomorphic ≡ all_of_type s.0 ss)
      × ((record_samples (s ∷ ss) empty_entry).distinct_types ≡ 1 + misses s.0 ss)
unfolding record_samples record_sample
record_samples_lem s ss h =
    let r =
      next_samples ss (first_sample s (tick empty_entry)) (omega arith) (omega arith)
        (omega arith) in
    (omega (arith, r.0), r.2, r.1)
