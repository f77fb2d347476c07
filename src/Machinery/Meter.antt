-- ===== src/Machinery/Meter.antt =====
-- src/machinery/meter.h and meter.cpp: how far a profile is trusted.
pub mod Confidence
pub mod Types
pub mod Summary
use arc_jit.Core.Graph.{u32}
use arc_jit.Prelude.{
  ℕ, zero, suc, ◌+◌, ◌-◌, ◌*◌, ◌%◌, ◌^◌, ◌≤◌, ◌<◌, ◌≡◌, ◌↔◌, refl, inl, inr, Bool, true, false,
  ◌&&◌, ◌||◌, ◌==◌, ◌!=◌, ltb, leb, leb→le, ltb→lt, if◌then◌else◌, Bool-cases, arith, List, [], ◌∷◌,
  length, set, get_or, replicate, ◌++◌,
}

pub data ConfidenceLevel : Type 0 where
  no_confidence low medium high very_high : ConfidenceLevel

-- The number of a level, by which levels are compared.
abbrev pub rank : ConfidenceLevel → ℕ
rank no_confidence = 0
rank low = 1
rank medium = 2
rank high = 3
rank very_high = 4

abbrev pub u64 : ℕ → ℕ
u64 n = n % 2 ^ 64

-- `dominant_ratio` is kept as a numerator and a denominator. The test against 0.9 on doubles agrees
-- with the one on fractions while the denominator is below 2 ^ 49.
pub record Ratio : Type 0 where
  pub numerator : ℕ
  pub denominator : ℕ

abbrev pub below_nine_tenths : Ratio → Bool
below_nine_tenths r = ltb (10 * r.numerator) (9 * r.denominator)

pub record ProfileEntry : Type 0 where
  pub total_samples : ℕ
  pub deopt_count : ℕ
  pub last_deopt_age : ℕ
  pub distinct_types : ℕ
  pub distinct_shapes : ℕ
  pub is_monomorphic : Bool
  pub dominant_type : ℕ
  pub dominant_shape : ℕ
  pub dominant_ratio : Ratio

abbrev pub empty_entry : ProfileEntry
empty_entry = record {
  total_samples = 0;
  deopt_count = 0;
  last_deopt_age = 0;
  distinct_types = 0;
  distinct_shapes = 0;
  is_monomorphic = false;
  dominant_type = 0;
  dominant_shape = 0;
  dominant_ratio = record { numerator = 0; denominator = 1 };
}

unfoldable pub confidence : ProfileEntry → ConfidenceLevel
confidence e =
    if ltb e.total_samples 100
    then no_confidence
    else if ltb 0 e.deopt_count && ltb e.last_deopt_age 1000
    then low
    else if ltb 3 e.distinct_types || ltb 3 e.distinct_shapes
    then low
    else if ltb e.total_samples 1000
    then medium
    else if below_nine_tenths e.dominant_ratio
    then medium
    else if ltb 0 e.deopt_count
    then high
    else if ltb e.total_samples 10000
    then high
    else very_high

unfoldable pub can_speculate_monomorphic : ProfileEntry → Bool
can_speculate_monomorphic e = leb 3 (rank (confidence e)) && e.is_monomorphic

unfoldable pub can_inline : ProfileEntry → Bool
can_inline e = leb 2 (rank (confidence e))

unfoldable pub can_clone : ProfileEntry → Bool
can_clone e = leb 3 (rank (confidence e))

-- A sample is a type and a shape.
abbrev pub Sample : Type 0
Sample = ℕ × ℕ

abbrev pub tick : ProfileEntry → ProfileEntry
tick e = record e {
  total_samples = u64 (e.total_samples + 1);
  last_deopt_age = u64 (e.last_deopt_age + 1);
}

abbrev pub first_sample : Sample → ProfileEntry → ProfileEntry
first_sample (type, shape) e = record e {
  dominant_type = type;
  dominant_shape = shape;
  distinct_types = 1;
  distinct_shapes = 1;
  dominant_ratio = record { numerator = 1; denominator = 1 };
  is_monomorphic = true;
}

-- `total_samples - distinct_types + 1`, in 64 bits.
abbrev pub see_type : ℕ → ProfileEntry → ProfileEntry
see_type type e =
    let seen = u32 (e.distinct_types + 1) in
    if type != e.dominant_type
    then record e {
      distinct_types = seen;
      is_monomorphic = false;
      dominant_ratio = record {
        numerator = u64 (e.total_samples + 2 ^ 64 - seen + 1);
        denominator = e.total_samples;
      };
    }
    else e

abbrev pub see_shape : ℕ → ProfileEntry → ProfileEntry
see_shape shape e =
    if shape != e.dominant_shape
    then record e { distinct_shapes = u32 (e.distinct_shapes + 1) }
    else e

unfoldable pub record_sample : Sample → ProfileEntry → ProfileEntry
record_sample s e =
    if (tick e).total_samples == 1
    then first_sample s (tick e)
    else see_shape s.1 (see_type s.0 (tick e))

unfoldable pub record_deopt : ProfileEntry → ProfileEntry
record_deopt e = record e { deopt_count = u64 (e.deopt_count + 1); last_deopt_age = 0 }

unfoldable pub record_samples : List Sample → ProfileEntry → ProfileEntry
record_samples [] e = e
record_samples (s ∷ ss) e = record_samples ss (record_sample s e)
