-- ===== src/Passes/Pipeline/Rounds.antt =====
-- src/passman/pass.h, `PassPipeline::run_to_fixpoint`: how many rounds run, and when they stop.
use arc_jit.Passes.Pipeline.{PassClass, Progress, run_once, run_rounds, run_to_fixpoint}
use arc_jit.Passes.{merge_result, no_result}
use arc_jit.Core.Graph.{Graph}
use arc_jit.Passes.Pipeline.{PassEvent}
use arc_jit.Prelude.{
  ℕ, zero, suc, ◌≤◌, ◌≡◌, ◌⊎◌, refl, ap, inl, inr, Bool, true, false, List, Bool-cases, arith,
}

module _ {S : Type 0} (c : PassClass S) where
  -- One round, from one state of the pipeline to the next, and whether it reports a change.
  abbrev pub after_round : List S × Progress → List S × Progress
  after_round (passes, p) =
      let (next, round) = run_once c passes p.graph p.events in
      (next, record round { total = merge_result p.total round.total })

  abbrev pub round_changed : List S × Progress → Bool
  round_changed (passes, p) = (run_once c passes p.graph p.events).1.total.changed

  -- `RoundsTo n settled s t`: `n` rounds lead from `s` to `t`, all of them with a change but the
  -- last where `settled` holds.
  pub data RoundsTo : ℕ → Bool → List S × Progress → List S × Progress → Type 0 where
    stop : {s : List S × Progress} → RoundsTo 0 false s s
    last : {s : List S × Progress} → round_changed s ≡ false → RoundsTo 1 true s (after_round s)
    more :
        {n : ℕ} {b : Bool} {s t : List S × Progress}
        → round_changed s ≡ true
        → RoundsTo n b (after_round s) t
        → RoundsTo (suc n) b s t

  abbrev pub Ends : ℕ → List S × Progress → List S × Progress → Type 0
  Ends f s t =
      (n : ℕ) × (settled : Bool) × RoundsTo n settled s t × (n ≤ f) × ((settled ≡ true) ⊎ (n ≡ f))

  run_rounds-Ends :
      (f : ℕ) (passes : List S) (p : Progress) → Ends f (passes, p) (run_rounds c f passes p)
  unfolding run_rounds
  run_rounds-Ends zero passes p = (0, false, stop, omega arith, inr refl)
  run_rounds-Ends (suc f) passes p = elim (Bool-cases (round_changed (passes, p))) [
    | inr same ↦ rw same (1, true, last same, omega arith, inl refl)
    | inl changed ↦
        let (next, after) = after_round (passes, p) in
        let (n, b, steps, few, ending) = run_rounds-Ends f next after in
        rw changed (
          suc n,
          b,
          more changed steps,
          omega arith,
          elim ending [ inl done ↦ inl done | inr all ↦ inr (ap suc all) ],
        )
  ]

  -- The fixpoint loop runs at most `max_iter` rounds, each of which but the last reports a change,
  -- and ends after a round without a change or after exactly `max_iter` rounds.
  pub run_to_fixpoint-Ends :
      (max_iter : ℕ) (passes : List S) (g : Graph) (events : List PassEvent)
      → Ends max_iter
          (passes, record { graph = g; total = no_result; events = events })
          (run_to_fixpoint c max_iter passes g events)
  run_to_fixpoint-Ends max_iter passes g events =
      run_rounds-Ends max_iter passes (record { graph = g; total = no_result; events = events })
