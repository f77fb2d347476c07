-- ===== src/Machinery/Trip/Counted.antt =====
-- src/machinery/trip.cpp, `Trip::active_count`.
use arc_jit.Core.Graph.{u32}
use arc_jit.Machinery.Trip.{
  CodeEntry, is_valid_state, Trip, new_trip, no_entry, entry_at, new_entry, register_code,
  add_assumption, add_dependency, is_valid, invalidate_entry, invalidate, invalidate_all,
  invalidate_by_assumption, active_count, Action, register, depend, drop_code, break_assumption,
  act, run,
}
use arc_jit.Prelude.{
  ℕ, zero, suc, ◌+◌, ◌^◌, ◌≤◌, ◌<◌, ◌≡◌, refl, ◌∙◌, inl, inr, true, false, ◌&&◌, ltb, if◌then◌else◌,
  Bool-cases, List, [], ◌∷◌, ◌++◌, length, length-append, length-set, get_or, set, find_or, arith,
}

-- The valid entries.
abbrev pub count_valid : List CodeEntry → ℕ
count_valid [] = 0
count_valid (e ∷ es) = if is_valid_state e.state then suc (count_valid es) else count_valid es

count_valid-append :
    (es : List CodeEntry) (e : CodeEntry)
    → is_valid_state e.state ≡ true
    → count_valid (es ++ e ∷ []) ≡ count_valid es + 1
count_valid-append [] e h = ground arith
count_valid-append (d ∷ es) e h = ground (arith, count_valid-append es e h)

count_valid-same :
    (es : List CodeEntry) (i : ℕ) (e : CodeEntry)
    → e.state ≡ (get_or es i no_entry).state
    → count_valid (set es i e) ≡ count_valid es
count_valid-same [] i e h = refl
count_valid-same (d ∷ es) zero e h = rw h
count_valid-same (d ∷ es) (suc i) e h = ground (arith, count_valid-same es i e h)

count_valid-less :
    (es : List CodeEntry) (i : ℕ) (e : CodeEntry)
    → i < length es
    → is_valid_state (get_or es i no_entry).state ≡ true
    → is_valid_state e.state ≡ false
    → count_valid (set es i e) + 1 ≡ count_valid es
count_valid-less [] i e lt h k = absurd (omega arith)
count_valid-less (d ∷ es) zero e lt h k = ground arith
count_valid-less (d ∷ es) (suc i) e lt h k =
    ground (arith, count_valid-less es i e (omega arith) h k)

-- Every entry that is not valid was counted once.
abbrev IsCounted : Trip → Type 0
IsCounted t =
    (t.invalidation_count + count_valid t.entries ≡ length t.entries)
    × (t.invalidation_count ≤ length t.entries)

invalidate-IsCounted :
    (c : ℕ) (t : Trip)
    → length t.entries < 2 ^ 64
    → IsCounted t
    → IsCounted (invalidate c t) × (length (invalidate c t).entries ≡ length t.entries)
unfolding invalidate is_valid
invalidate-IsCounted c t room w =
    elim (Bool-cases (ltb c (length t.entries) && is_valid_state (entry_at t c).state)) [
      | inr off ↦ rw off (w, refl)
      | inl on ↦
          let less =
            count_valid-less t.entries c (invalidate_entry (entry_at t c)) (ground arith)
              (ground arith) refl in
          let size = length-set t.entries c (invalidate_entry (entry_at t c)) in
          rw on ((omega (arith, less, size), omega (arith, less, size)), size)
    ]

invalidate_all-IsCounted :
    (cs : List ℕ) (t : Trip)
    → length t.entries < 2 ^ 64
    → IsCounted t
    → IsCounted (invalidate_all cs t) × (length (invalidate_all cs t).entries ≡ length t.entries)
unfolding invalidate_all
invalidate_all-IsCounted [] t room w = (w, refl)
invalidate_all-IsCounted (c ∷ cs) t room w =
    let one = invalidate-IsCounted c t room w in
    let rest = invalidate_all-IsCounted cs (invalidate c t) (omega (arith, one.1)) one.0 in
    (rest.0, rest.1 ∙ one.1)

act-IsCounted :
    (x : Action) (t : Trip)
    → length t.entries + 1 < 2 ^ 64
    → IsCounted t
    → IsCounted (act x t) × (length (act x t).entries ≤ length t.entries + 1)
unfolding act register_code add_dependency invalidate_by_assumption
act-IsCounted (register entry_point code_size name) t room w =
    let e = new_entry (u32 (length t.entries)) entry_point code_size name in
    let more = count_valid-append t.entries e refl in
    let size = length-append t.entries (e ∷ []) in
    ((omega (arith, more, size), omega (arith, size)), omega (arith, size))
act-IsCounted (depend c a) t room w = elim (Bool-cases (ltb c (length t.entries))) [
  | inr out ↦ rw out (w, omega arith)
  | inl inside ↦
      let e = add_assumption a (entry_at t c) in
      let same = count_valid-same t.entries c e refl in
      let size = length-set t.entries c e in
      rw inside ((omega (arith, same, size), omega (arith, size)), omega (arith, size))
]
act-IsCounted (drop_code c) t room w =
    let r = invalidate-IsCounted c t (omega arith) w in (r.0, omega (arith, r.1))
act-IsCounted (break_assumption a) t room w =
    let r = invalidate_all-IsCounted (find_or [] a t.assumption_to_code) t (omega arith) w in
    (r.0, omega (arith, r.1))

run-IsCounted :
    (xs : List Action) (t : Trip)
    → length t.entries + length xs < 2 ^ 64
    → IsCounted t
    → IsCounted (run xs t) × (length (run xs t).entries < 2 ^ 64)
unfolding run
run-IsCounted [] t room w = (w, omega arith)
run-IsCounted (x ∷ xs) t room w =
    let one = act-IsCounted x t (omega arith) w in
    run-IsCounted xs (act x t) (omega (arith, one.1)) one.0

-- After fewer than 2 ^ 64 actions from an empty registry, the active count, which is computed from the
-- number of invalidations, is the number of entries that are valid.
pub active_count_lem :
    (xs : List Action)
    → length xs < 2 ^ 64
    → active_count (run xs new_trip) ≡ count_valid (run xs new_trip).entries
unfolding active_count
active_count_lem xs h =
    let r = run-IsCounted xs new_trip (omega arith) (refl, omega arith) in
    omega (arith, r.0.0, r.0.1, r.1)
