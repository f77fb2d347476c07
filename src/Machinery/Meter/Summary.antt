-- ===== src/Machinery/Meter/Summary.antt =====
-- src/machinery/meter.h and meter.cpp: the entries of all sites and their summary.
use arc_jit.Core.Graph.{u32}
use arc_jit.Machinery.Meter.{ProfileEntry, empty_entry, confidence, rank, u64}
use arc_jit.Prelude.{
  get_or-padded, ℕ, ◌+◌, ◌-◌, ◌^◌, ◌≤◌, ◌<◌, ◌≡◌, ◌≢◌, refl, sym, ap, ◌∙◌, inl, inr, ◌==◌, leb,
  if◌then◌else◌, Bool-cases, arith, List, [], ◌∷◌, ◌++◌, length, length-append, length-replicate,
  replicate, get_or, get_or-set_self, get_or-set_ne, set,
}

abbrev pub Meter : Type 0
Meter = List ProfileEntry

-- `entries_.resize(bytecode_offset + 1)` where the offset is out of range; the sum has 32 bits.
abbrev pub resize : ℕ → Meter → Meter
resize n m = m ++ replicate (n - length m) empty_entry

abbrev pub grown : ℕ → Meter → Meter
grown offset m = if leb (length m) offset then resize (u32 (offset + 1)) m else m

-- `f(entry_for(offset))`
unfoldable pub update_entry : ℕ → (ProfileEntry → ProfileEntry) → Meter → Meter
update_entry offset f m = let g = grown offset m in set g offset (f (get_or g offset empty_entry))

-- The read-only `entry_for`, with its empty entry out of range.
unfoldable pub entry_for : Meter → ℕ → ProfileEntry
entry_for m offset = get_or m offset empty_entry

grown_lem :
    (offset i : ℕ) (m : Meter)
    → offset + 1 < 2 ^ 32
    → (offset < length (grown offset m))
      × (get_or (grown offset m) i empty_entry ≡ get_or m i empty_entry)
grown_lem offset i m h = elim (Bool-cases (leb (length m) offset)) [
  | inr inside ↦ rw inside (ground arith, refl)
  | inl outside ↦ rw outside (
    ground (
      arith,
      length-append m (replicate (u32 (offset + 1) - length m) empty_entry),
      length-replicate (u32 (offset + 1) - length m) empty_entry,
    ),
    get_or-padded m (u32 (offset + 1) - length m) i empty_entry,
  )
]

-- For an offset below 2 ^ 32 - 1, an update reaches the entry of the offset, which is empty if there
-- was none, and no other entry.
pub update_entry_lem :
    (offset i : ℕ) (f : ProfileEntry → ProfileEntry) (m : Meter)
    → offset + 1 < 2 ^ 32
    → i ≢ offset
    → (entry_for (update_entry offset f m) offset ≡ f (entry_for m offset))
      × (entry_for (update_entry offset f m) i ≡ entry_for m i)
unfolding update_entry entry_for
update_entry_lem offset i f m h other =
    let here = grown_lem offset offset m h in
    (
      get_or-set_self (grown offset m) offset _ empty_entry here.0 ∙ ap f here.1,
      get_or-set_ne (grown offset m) offset i _ empty_entry (λ e. other (sym e))
          ∙ (grown_lem offset i m h).1,
    )

pub record Summary : Type 0 where
  pub total_sites : ℕ
  pub monomorphic : ℕ
  pub polymorphic : ℕ
  pub megamorphic : ℕ
  pub high_confidence : ℕ
  pub low_confidence : ℕ
  pub total_samples : ℕ
  pub total_deopts : ℕ

abbrev pub no_summary : Summary
no_summary = record {
  total_sites = 0;
  monomorphic = 0;
  polymorphic = 0;
  megamorphic = 0;
  high_confidence = 0;
  low_confidence = 0;
  total_samples = 0;
  total_deopts = 0;
}

abbrev pub count_site : ProfileEntry → Summary → Summary
count_site e s = record s {
  total_sites = u64 (s.total_sites + 1);
  total_samples = u64 (s.total_samples + e.total_samples);
  total_deopts = u64 (s.total_deopts + e.deopt_count);
}

abbrev pub count_shape : ProfileEntry → Summary → Summary
count_shape e s =
    if e.is_monomorphic
    then record s { monomorphic = u64 (s.monomorphic + 1) }
    else if leb e.distinct_types 3
    then record s { polymorphic = u64 (s.polymorphic + 1) }
    else record s { megamorphic = u64 (s.megamorphic + 1) }

abbrev pub count_confidence : ProfileEntry → Summary → Summary
count_confidence e s =
    if leb 3 (rank (confidence e))
    then record s { high_confidence = u64 (s.high_confidence + 1) }
    else record s { low_confidence = u64 (s.low_confidence + 1) }

-- Entries without samples are skipped.
unfoldable pub summarize_entry : ProfileEntry → Summary → Summary
summarize_entry e s =
    if e.total_samples == 0 then s else count_confidence e (count_shape e (count_site e s))

unfoldable pub summarize : Meter → Summary → Summary
summarize [] s = s
summarize (e ∷ es) s = summarize es (summarize_entry e s)

-- The sites are split in two ways.
abbrev pub IsSplit : Summary → Type 0
IsSplit s =
    (s.total_sites ≡ s.monomorphic + s.polymorphic + s.megamorphic)
    × (s.total_sites ≡ s.high_confidence + s.low_confidence)

summarize_entry-IsSplit :
    (e : ProfileEntry) (s : Summary)
    → s.total_sites + 1 < 2 ^ 64
    → IsSplit s
    → IsSplit (summarize_entry e s)
      × (s.total_sites ≤ (summarize_entry e s).total_sites)
      × ((summarize_entry e s).total_sites ≤ s.total_sites + 1)
unfolding summarize_entry
summarize_entry-IsSplit e s h (p, q) = ((ground arith, ground arith), ground arith, ground arith)

summarize_from :
    (m : Meter) (s : Summary)
    → s.total_sites + length m < 2 ^ 64
    → IsSplit s
    → IsSplit (summarize m s) × ((summarize m s).total_sites ≤ s.total_sites + length m)
unfolding summarize
summarize_from [] s h w = (w, omega arith)
summarize_from (e ∷ es) s h w =
    let one = summarize_entry-IsSplit e s (omega arith) w in
    let rest = summarize_from es (summarize_entry e s) (omega (arith, one.2)) one.0 in
    (rest.0, omega (arith, rest.1, one.2))

-- For fewer than 2 ^ 64 entries, the summary counts at most as many sites as there are entries, and
-- its monomorphic, polymorphic and megamorphic sites, like its sites of high and of low confidence,
-- add up to all of them.
pub summarize-IsSplit :
    (m : Meter)
    → length m < 2 ^ 64
    → IsSplit (summarize m no_summary) × ((summarize m no_summary).total_sites ≤ length m)
summarize-IsSplit m h =
    let r = summarize_from m no_summary (omega arith) (refl, refl) in (r.0, omega (arith, r.1))
