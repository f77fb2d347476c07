-- ===== src/Passes/Pipeline.antt =====
-- src/passman/pass.h, `PassPipeline`, over any passes. A pass is its state, which holds its cached
-- analysis; the check of the graph in debug builds is left out.
pub mod Rounds
pub mod Fresh
use arc_jit.Core.Graph.{Graph}
use arc_jit.Passes.{PassResult, merge_result, no_result}
use arc_jit.Prelude.{
  ℕ, zero, suc, Bool, true, false, ltb, if◌then◌else◌, List, [], ◌∷◌, ◌++◌, map, length,
}

-- The events that the pipeline records, with the name of the pass.
pub data PassEvent : Type 0 where
  pass_begin node_changed node_created node_deleted pass_end : ℕ → PassEvent

abbrev pub event_if : Bool → PassEvent → List PassEvent
event_if true e = e ∷ []
event_if false e = []

-- `Pass::run` and `Pass::invalidate_analysis` on the state of a pass, and its name.
pub record PassClass (S : Type 0) : Type 0 where
  pub name : S → ℕ
  pub run : S → Graph → S × Graph × PassResult
  pub invalidate : S → S

-- The graph, with the result and the events so far.
pub record Progress : Type 0 where
  pub graph : Graph
  pub total : PassResult
  pub events : List PassEvent

module _ {S : Type 0} (c : PassClass S) where
  unfoldable pub pass_events : S → PassResult → List PassEvent
  pass_events x r =
      pass_begin (c.name x) ∷ event_if r.changed (node_changed (c.name x))
      ++ event_if (ltb 0 r.nodes_added) (node_created (c.name x))
      ++ event_if (ltb 0 r.nodes_removed) (node_deleted (c.name x))
      ++ (pass_end (c.name x) ∷ [])

  -- `total |= r`, and the events of one pass.
  unfoldable pub record_pass : S → Graph → PassResult → Progress → Progress
  unfolding pass_events
  record_pass x g r p = record {
    graph = g;
    total = merge_result p.total r;
    events = p.events ++ pass_events x r;
  }

  abbrev pub stale_if : Bool → List S → List S
  stale_if true others = map c.invalidate others
  stale_if false others = others

  -- The loop over the passes: `done` have run in this round, `todo` have not.
  unfoldable pub run_rest : ℕ → List S → List S → Progress → List S × Progress
  run_rest zero done todo p = (done ++ todo, p)
  run_rest (suc f) done [] p = (done, p)
  run_rest (suc f) done (x ∷ todo) p =
      let (y, g, r) = c.run x p.graph in
      run_rest f (stale_if r.changed done ++ (y ∷ [])) (stale_if r.changed todo)
        (record_pass x g r p)

  unfoldable pub run_once : List S → Graph → List PassEvent → List S × Progress
  run_once passes g events =
      run_rest (length passes) [] passes (record { graph = g; total = no_result; events = events })

  -- The loop of `run_to_fixpoint`, for the rounds that are left.
  unfoldable pub run_rounds : ℕ → List S → Progress → List S × Progress
  run_rounds zero passes p = (passes, p)
  run_rounds (suc f) passes p =
      let (next, round) = run_once passes p.graph p.events in
      let after : Progress = record round { total = merge_result p.total round.total } in
      let rest = run_rounds f next after in if round.total.changed then rest else (next, after)

  abbrev pub run_to_fixpoint : ℕ → List S → Graph → List PassEvent → List S × Progress
  run_to_fixpoint max_iter passes g events =
      run_rounds max_iter passes (record { graph = g; total = no_result; events = events })
