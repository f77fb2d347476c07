-- ===== src/Machinery/Trip/Broken.antt =====
-- src/machinery/trip.cpp, `Trip::invalidate_by_assumption`: code that rests on a broken assumption.
use arc_jit.Core.Graph.{u32}
use arc_jit.Machinery.Trip.{
  CodeEntry, is_valid_state, Trip, new_trip, no_entry, entry_at, new_entry, register_code,
  add_assumption, add_dependency, is_valid, invalidate_entry, invalidate, invalidate_all,
  invalidate_by_assumption, Action, register, depend, drop_code, break_assumption, act, run,
}
use arc_jit.Prelude.{
  contains, contains-append, ℕ, zero, suc, ◌≡◌, refl, sym, ap, ◌∙◌, inl, inr, Bool, false, ◌&&◌,
  ◌==◌, ltb, if◌then◌else◌, Bool-cases, List, [], ◌∷◌, ◌++◌, length, length-set, get_or, find_or,
  arith, find_or-put_self, find_or-put_ne, get_or-set_self, get_or-set_ne,
}

-- The code `c` was made to depend on the assumption `a`.
abbrev pub depends_on : Trip → ℕ → ℕ → Bool
depends_on t c a = contains a (entry_at t c).dependent_assumptions

-- One code that is invalidated: it is no longer valid, others keep what they are, and dependencies
-- stay.
invalidate_lem :
    (c i : ℕ) (t : Trip)
    → (is_valid (invalidate c t) i ≡ (if i == c then false else is_valid t i))
      × ((entry_at (invalidate c t) i).dependent_assumptions ≡ (entry_at t i).dependent_assumptions)
      × ((invalidate c t).assumption_to_code ≡ t.assumption_to_code)
unfolding invalidate is_valid
invalidate_lem c i t =
    let e = invalidate_entry (entry_at t c) in
    elim (Bool-cases (ltb c (length t.entries) && is_valid_state (entry_at t c).state)) [
      | inr off ↦ elim (Bool-cases (i == c)) [
        | inl same ↦
            let here : i ≡ c = ground arith in rw (off, here) (ground (arith, off), refl, refl)
        | inr other ↦ rw (off, other) (refl, refl, refl)
      ]
      | inl on ↦ elim (Bool-cases (i == c)) [
        | inl same ↦
            let here : i ≡ c = ground arith in
            let read = get_or-set_self t.entries c e no_entry (ground arith) in
            rw (on, here, read) (ground arith, refl, refl)
        | inr other ↦
            let read = get_or-set_ne t.entries c i e no_entry (λ p. ground arith) in
            rw (on, other, read, length-set) (refl, refl, refl)
      ]
    ]

invalidate_all_lem :
    (cs : List ℕ) (i : ℕ) (t : Trip)
    → (is_valid (invalidate_all cs t) i ≡ (if contains i cs then false else is_valid t i))
      × ((entry_at (invalidate_all cs t) i).dependent_assumptions
          ≡ (entry_at t i).dependent_assumptions)
      × ((invalidate_all cs t).assumption_to_code ≡ t.assumption_to_code)
unfolding invalidate_all
invalidate_all_lem [] i t = (refl, refl, refl)
invalidate_all_lem (c ∷ cs) i t =
    let one = invalidate_lem c i t in
    let rest = invalidate_all_lem cs i (invalidate c t) in
    (ground (arith, one.0, rest.0), rest.1 ∙ one.1, rest.2 ∙ one.2)

-- The two records of the dependencies agree.
abbrev IsIndexed : Trip → Type 0
IsIndexed t = (c a : ℕ) → depends_on t c a ≡ contains c (find_or [] a t.assumption_to_code)

same-IsIndexed :
    (t t' : Trip)
    → ((c : ℕ) → (entry_at t' c).dependent_assumptions ≡ (entry_at t c).dependent_assumptions)
    → t'.assumption_to_code ≡ t.assumption_to_code
    → IsIndexed t
    → IsIndexed t'
same-IsIndexed t t' e f w c a = rw (e c, f) (w c a)

register-dependencies :
    (es : List CodeEntry) (e : CodeEntry) (c : ℕ)
    → e.dependent_assumptions ≡ []
    → (get_or (es ++ e ∷ []) c no_entry).dependent_assumptions
      ≡ (get_or es c no_entry).dependent_assumptions
register-dependencies [] e zero h = h
register-dependencies [] e (suc c) h = refl
register-dependencies (d ∷ es) e zero h = refl
register-dependencies (d ∷ es) e (suc c) h = register-dependencies es e c h

depend-IsIndexed : (c a : ℕ) (t : Trip) → IsIndexed t → IsIndexed (add_dependency c a t)
unfolding add_dependency
depend-IsIndexed c a t w i b = elim (Bool-cases (ltb c (length t.entries))) [
  | inr out ↦ rw out (w i b)
  | inl inside ↦
      let e = add_assumption a (entry_at t c) in
      let old = find_or [] a t.assumption_to_code in
      rw inside (elim (Bool-cases (i == c)) [
        | inl code ↦
            let here : i ≡ c = ground arith in
            let read = get_or-set_self t.entries c e no_entry (ground arith) in
            rw (here, read, contains-append b a (entry_at t c).dependent_assumptions)
              (elim (Bool-cases (b == a)) [
                | inl same ↦
                    let there : b ≡ a = ground arith in
                    rw (there, find_or-put_self, contains-append c c old) (ground (arith, w c a))
                | inr other ↦
                    rw (other, find_or-put_ne [] a b _ t.assumption_to_code (λ p. ground arith))
                      (ground (arith, w c b))
              ])
        | inr elsewhere ↦
            let read = get_or-set_ne t.entries c i e no_entry (λ p. ground arith) in
            rw read (elim (Bool-cases (b == a)) [
              | inl same ↦
                  let there : b ≡ a = ground arith in
                  rw (there, find_or-put_self, contains-append i c old) (ground (arith, w i a))
              | inr other ↦
                  rw (find_or-put_ne [] a b _ t.assumption_to_code (λ p. ground arith)) (w i b)
            ])
      ])
]

act-IsIndexed : (x : Action) (t : Trip) → IsIndexed t → IsIndexed (act x t)
unfolding act register_code invalidate_by_assumption
act-IsIndexed (register entry_point code_size name) t w =
    let e = new_entry (u32 (length t.entries)) entry_point code_size name in
    λ c a. rw (register-dependencies t.entries e c refl) (w c a)
act-IsIndexed (depend c a) t w = depend-IsIndexed c a t w
act-IsIndexed (drop_code c) t w =
    same-IsIndexed t (invalidate c t) (λ i. (invalidate_lem c i t).1) (invalidate_lem c c t).2 w
act-IsIndexed (break_assumption a) t w =
    let cs = find_or [] a t.assumption_to_code in
    same-IsIndexed t (invalidate_all cs t) (λ i. (invalidate_all_lem cs i t).1)
      (invalidate_all_lem cs 0 t).2 w

run-IsIndexed : (xs : List Action) (t : Trip) → IsIndexed t → IsIndexed (run xs t)
unfolding run
run-IsIndexed [] t w = w
run-IsIndexed (x ∷ xs) t w = run-IsIndexed xs (act x t) (act-IsIndexed x t w)

-- After any actions from an empty registry, the break of an assumption leaves valid exactly the code
-- that was valid before and was not made to depend on the assumption.
pub invalidate_by_assumption_lem :
    (xs : List Action) (a c : ℕ)
    → is_valid (invalidate_by_assumption a (run xs new_trip)) c
      ≡ (if depends_on (run xs new_trip) c a then false else is_valid (run xs new_trip) c)
unfolding invalidate_by_assumption
invalidate_by_assumption_lem xs a c =
    let t = run xs new_trip in
    (invalidate_all_lem (find_or [] a t.assumption_to_code) c t).0
    ∙ ap (λ (b : Bool). if b then false else is_valid t c)
        (sym (run-IsIndexed xs new_trip (λ i b. refl) c a))
