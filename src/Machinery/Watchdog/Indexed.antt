-- ===== src/Machinery/Watchdog/Indexed.antt =====
-- src/machinery/watchdog.cpp: what the invalidation of assumptions by kind reaches.
use arc_jit.Core.Graph.{u32}
use arc_jit.Machinery.Watchdog.{
  AssumptionKind, Assumption, Watchdog, new_watchdog, index_key, insert, erase, no_assumption,
  assumption_at, key_of, ids_at, new_assumption, register_assumption, is_valid, break_assumption,
  mark_invalid, unindex, invalidate, mark_all, invalidate_by_kind, Action, register, drop_one,
  drop_kind, act, run,
}
use mathlib.Core.Path.{subst}
use arc_jit.Prelude.{
  contains, contains-append, ℕ, zero, suc, ◌+◌, ◌^◌, ◌≤◌, ◌<◌, ◌≡◌, ◌≢◌, refl, sym, ap, ◌∙◌, inl,
  inr, Bool, true, false, ◌&&◌, ◌||◌, ◌==◌, ◌!=◌, ltb, if◌then◌else◌, Bool-cases, List, [], ◌∷◌,
  ◌++◌, length, length-append, length-set, get_or, put, arith, find_or-put_self, find_or-put_ne,
  get_or-set_self, get_or-set_ne, get_or-append_last,
}

contains-insert : (i x : ℕ) (xs : List ℕ) → contains i (insert x xs) ≡ (contains i xs || i == x)
contains-insert i x xs = elim (Bool-cases (contains x xs)) [
  | inl there ↦ rw there (elim (Bool-cases (i == x)) [
    | inl same ↦ let here : i ≡ x = ground arith in rw here (ground (arith, there))
    | inr other ↦ ground (arith, other)
  ])
  | inr missing ↦ rw missing (contains-append i x xs)
]

contains-erase : (i x : ℕ) (xs : List ℕ) → contains i (erase x xs) ≡ (contains i xs && i != x)
contains-erase i x [] = refl
contains-erase i x (y ∷ ys) = ground (arith, contains-erase i x ys)

-- One assumption that is marked: it is no longer valid, others keep what they are, and neither kinds
-- and payloads nor the index change.
mark_invalid_lem :
    (x i : ℕ) (w : Watchdog)
    → (is_valid (mark_invalid x w) i ≡ (if i == x then false else is_valid w i))
      × (key_of (mark_invalid x w) i ≡ key_of w i)
      × ((mark_invalid x w).kind_payload_index ≡ w.kind_payload_index)
unfolding mark_invalid is_valid
mark_invalid_lem x i w =
    let a = break_assumption (assumption_at w x) in
    elim (Bool-cases (ltb x (length w.assumptions) && (assumption_at w x).valid)) [
      | inr off ↦ elim (Bool-cases (i == x)) [
        | inl same ↦
            let here : i ≡ x = ground arith in rw (off, here) (ground (arith, off), refl, refl)
        | inr other ↦ rw (off, other) (refl, refl, refl)
      ]
      | inl on ↦ elim (Bool-cases (i == x)) [
        | inl same ↦
            let here : i ≡ x = ground arith in
            let read = get_or-set_self w.assumptions x a no_assumption (ground arith) in
            rw (on, here, read) (ground arith, refl, refl)
        | inr other ↦
            let read = get_or-set_ne w.assumptions x i a no_assumption (λ p. ground arith) in
            rw (on, other, read, length-set) (refl, refl, refl)
      ]
    ]

mark_all_lem :
    (xs : List ℕ) (i : ℕ) (w : Watchdog)
    → (is_valid (mark_all xs w) i ≡ (if contains i xs then false else is_valid w i))
      × (key_of (mark_all xs w) i ≡ key_of w i)
      × ((mark_all xs w).kind_payload_index ≡ w.kind_payload_index)
unfolding mark_all
mark_all_lem [] i w = (refl, refl, refl)
mark_all_lem (x ∷ xs) i w =
    let one = mark_invalid_lem x i w in
    let rest = mark_all_lem xs i (mark_invalid x w) in
    (ground (arith, one.0, rest.0), rest.1 ∙ one.1, rest.2 ∙ one.2)

-- The index holds the valid assumptions under their keys, and nothing else.
abbrev pub IsIndexed : Watchdog → Type 0
IsIndexed w = (i key : ℕ) → contains i (ids_at w key) ≡ (is_valid w i && key_of w i == key)

registered-valid :
    (bs : List Assumption) (a : Assumption) (i : ℕ)
    → a.valid ≡ true
    → (ltb i (length (bs ++ a ∷ [])) && (get_or (bs ++ a ∷ []) i no_assumption).valid)
      ≡ (ltb i (length bs) && (get_or bs i no_assumption).valid || i == length bs)
registered-valid [] a zero h = ground arith
registered-valid [] a (suc i) h = ground arith
registered-valid (b ∷ bs) a zero h = ground arith
registered-valid (b ∷ bs) a (suc i) h = ground (arith, registered-valid bs a i h)

registered-key :
    (bs : List Assumption) (a : Assumption) (i : ℕ)
    → i ≢ length bs
    → get_or (bs ++ a ∷ []) i no_assumption ≡ get_or bs i no_assumption
registered-key [] a zero h = absurd (h refl)
registered-key [] a (suc i) h = refl
registered-key (b ∷ bs) a zero h = refl
registered-key (b ∷ bs) a (suc i) h = registered-key bs a i (λ e. h (omega arith))

register-IsIndexed :
    (kind : AssumptionKind) (payload : ℕ) (has_callback : Bool) (description : List ℕ)
    (w : Watchdog)
    → length w.assumptions < 2 ^ 32
    → IsIndexed w
    → IsIndexed (register_assumption kind payload has_callback description w).1
unfolding register_assumption is_valid
register-IsIndexed kind payload has_callback description w room h i key =
    let n = length w.assumptions in
    let a = new_assumption kind payload has_callback description in
    let k0 = index_key kind payload in
    let id : u32 n ≡ n = omega arith in
    let now = registered-valid w.assumptions a i refl in
    let old = h i key in
    elim (Bool-cases (i == n)) [
      | inl new ↦
          let here : i ≡ n = ground arith in
          let read = get_or-append_last w.assumptions a no_assumption i here in
          elim (Bool-cases (key == k0)) [
            | inl same ↦
                let there : key ≡ k0 = ground arith in
                rw
                  (
                    there,
                    find_or-put_self,
                    id,
                    contains-insert i n (ids_at w k0),
                    h i k0,
                    now,
                    read,
                  )
                  (ground (arith, new))
            | inr other ↦
                rw
                  (
                    find_or-put_ne [] k0 key _ w.kind_payload_index (λ p. ground arith),
                    h i key,
                    now,
                    read,
                  )
                  (ground (arith, new, other))
          ]
      | inr before ↦
          let read = registered-key w.assumptions a i (λ e. ground arith) in
          elim (Bool-cases (key == k0)) [
            | inl same ↦
                let there : key ≡ k0 = ground arith in
                rw
                  (
                    there,
                    find_or-put_self,
                    id,
                    contains-insert i n (ids_at w k0),
                    h i k0,
                    now,
                    read,
                  )
                  (ground (arith, before))
            | inr other ↦
                rw
                  (
                    find_or-put_ne [] k0 key _ w.kind_payload_index (λ p. ground arith),
                    h i key,
                    now,
                    read,
                  )
                  (ground (arith, before, other))
          ]
    ]

reindex-IsIndexed :
    (w : Watchdog) (k0 : ℕ) (ids : List ℕ)
    → ((i : ℕ) → contains i ids ≡ (is_valid w i && key_of w i == k0))
    → ((i key : ℕ) → key ≢ k0 → contains i (ids_at w key) ≡ (is_valid w i && key_of w i == key))
    → IsIndexed (record w { kind_payload_index = put k0 ids w.kind_payload_index })
unfolding is_valid
reindex-IsIndexed w k0 ids here there i key = elim (Bool-cases (key == k0)) [
  | inl same ↦ let e : key ≡ k0 = ground arith in rw (e, find_or-put_self) (here i)
  | inr other ↦
      let e : key ≢ k0 = λ p. ground arith in
      rw (find_or-put_ne [] k0 key ids w.kind_payload_index e) (there i key e)
]

invalidate-IsIndexed : (x : ℕ) (w : Watchdog) → IsIndexed w → IsIndexed (invalidate x w)
unfolding invalidate
invalidate-IsIndexed x w h = elim (Bool-cases (is_valid w x)) [
  | inr off ↦
      subst IsIndexed
        (sym (ap (λ (b : Bool). if b then unindex (key_of w x) x (mark_invalid x w) else w) off)) h
  | inl on ↦
      let k0 = key_of w x in
      let m = mark_invalid x w in
      subst IsIndexed (sym (ap (λ (b : Bool). if b then unindex k0 x m else w) on)) (
        reindex-IsIndexed m k0 (erase x (ids_at m k0))
          (λ i.
            let l = mark_invalid_lem x i w in
            rw (l.0, l.1, l.2, contains-erase i x (ids_at w k0), h i k0) (ground arith))
          (λ i key differ.
            let l = mark_invalid_lem x i w in
            rw (l.0, l.1, l.2, h i key)
              (elim (Bool-cases (i == x)) [
                | inl same ↦
                    let e : i ≡ x = ground arith in
                    let no : (key_of w x == key) ≡ false = ground arith in rw (e, no) (ground arith)
                | inr differs ↦ rw differs
              ])))
]

by_kind-IsIndexed :
    (kind : AssumptionKind) (payload : ℕ) (w : Watchdog)
    → IsIndexed w
    → IsIndexed (invalidate_by_kind kind payload w)
unfolding invalidate_by_kind
by_kind-IsIndexed kind payload w h =
    let k0 = index_key kind payload in
    let m = mark_all (ids_at w k0) w in
    reindex-IsIndexed m k0 []
      (λ i. let l = mark_all_lem (ids_at w k0) i w in rw (l.0, l.1, h i k0) (ground arith))
      (λ i key differ.
        let l = mark_all_lem (ids_at w k0) i w in
        rw (l.0, l.1, l.2, h i key, h i k0) (ground (arith, differ)))

reindexed-valid :
    (w : Watchdog) (index : List (ℕ × List ℕ)) (i : ℕ)
    → is_valid (record w { kind_payload_index = index }) i ≡ is_valid w i
unfolding is_valid
reindexed-valid w index i = refl

new_watchdog-IsIndexed : IsIndexed new_watchdog
unfolding is_valid
new_watchdog-IsIndexed i key = ground arith

act-IsIndexed :
    (x : Action) (w : Watchdog) → length w.assumptions < 2 ^ 32 → IsIndexed w → IsIndexed (act x w)
unfolding act
act-IsIndexed (register kind payload has_callback description) w room h =
    register-IsIndexed kind payload has_callback description w room h
act-IsIndexed (drop_one i) w room h = invalidate-IsIndexed i w h
act-IsIndexed (drop_kind kind payload) w room h = by_kind-IsIndexed kind payload w h

mark_invalid_size :
    (i : ℕ) (w : Watchdog) → length (mark_invalid i w).assumptions ≡ length w.assumptions
unfolding mark_invalid
mark_invalid_size i w = elim (Bool-cases (is_valid w i)) [
  | inr off ↦ rw off refl
  | inl on ↦ rw on (length-set w.assumptions i _)
]

mark_all_size :
    (is : List ℕ) (w : Watchdog) → length (mark_all is w).assumptions ≡ length w.assumptions
unfolding mark_all
mark_all_size [] w = refl
mark_all_size (i ∷ is) w = mark_all_size is (mark_invalid i w) ∙ mark_invalid_size i w

act_size : (x : Action) (w : Watchdog) → length (act x w).assumptions ≤ length w.assumptions + 1
unfolding act register_assumption invalidate invalidate_by_kind
act_size (register kind payload has_callback description) w =
    omega (
      arith,
      length-append w.assumptions (new_assumption kind payload has_callback description ∷ []),
    )
act_size (drop_one i) w = elim (Bool-cases (is_valid w i)) [
  | inr off ↦ rw off (omega arith)
  | inl on ↦ rw on (omega (arith, mark_invalid_size i w))
]
act_size (drop_kind kind payload) w =
    omega (arith, mark_all_size (ids_at w (index_key kind payload)) w)

run-IsIndexed :
    (xs : List Action) (w : Watchdog)
    → length w.assumptions + length xs < 2 ^ 32
    → IsIndexed w
    → IsIndexed (run xs w)
unfolding run
run-IsIndexed [] w room h = h
run-IsIndexed (x ∷ xs) w room h =
    run-IsIndexed xs (act x w) (omega (arith, act_size x w)) (act-IsIndexed x w (omega arith) h)

-- After fewer than 2 ^ 32 actions from an empty registry, invalidation by kind and payload leaves valid
-- exactly the assumptions that were valid and have another key: another kind, or a payload that
-- differs in its lower 56 bits.
pub invalidate_by_kind_lem :
    (xs : List Action) (kind : AssumptionKind) (payload i : ℕ)
    → length xs < 2 ^ 32
    → is_valid (invalidate_by_kind kind payload (run xs new_watchdog)) i ≡ (
        is_valid (run xs new_watchdog) i
        && key_of (run xs new_watchdog) i != index_key kind payload)
unfolding invalidate_by_kind
invalidate_by_kind_lem xs kind payload i room =
    let w = run xs new_watchdog in
    let k0 = index_key kind payload in
    let m = mark_all_lem (ids_at w k0) i w in
    let h = run-IsIndexed xs new_watchdog (omega arith) new_watchdog-IsIndexed in
    reindexed-valid (mark_all (ids_at w k0) w) _ i ∙ m.0 ∙ rw (h i k0) (ground arith)
