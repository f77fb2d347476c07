-- ===== src/Passes/Pipeline/Fresh.antt =====
-- src/passman/pass.h, `PassPipeline::run_once`: no pass keeps an analysis of a graph that is gone.
use arc_jit.Core.Graph.{Graph}
use arc_jit.Passes.Pipeline.{
  PassClass, PassEvent, Progress, record_pass, run_once, run_rest, run_rounds, run_to_fixpoint,
  stale_if,
}
use arc_jit.Passes.{merge_result, no_result}
use arc_jit.Prelude.{
  ℕ, zero, suc, ◌≡◌, inl, inr, false, All, List, [], ◌∷◌, ◌++◌, map, Bool-cases, length,
}

-- What the pipeline relies on of a pass: a cache that is cleared fits any graph; after its own run
-- a pass whose cache fitted has one that fits; and a run that reports no change made none.
pub record KeepsFit {S : Type 0} (c : PassClass S) (Fits : Graph → S → Type 0) : Type 0 where
  pub cleared : (g : Graph) (x : S) → Fits g (c.invalidate x)
  pub own_run : (g : Graph) (x : S) → Fits g x → Fits (c.run x g).1 (c.run x g).0
  pub silent : (g : Graph) (x : S) → (c.run x g).2.changed ≡ false → (c.run x g).1 ≡ g

-- Every cached analysis fits the graph of the pipeline.
pub record AllFit {S : Type 0} (Fits : Graph → S → Type 0) (s : List S × Progress) : Type 0 where
  pub fits : All (Fits s.1.graph) s.0

module _ {S : Type 0} (c : PassClass S) (Fits : Graph → S → Type 0) (k : KeepsFit c Fits) where
  All-cleared : (g : Graph) (xs : List S) → All (Fits g) (map c.invalidate xs)
  All-cleared g [] = tt
  All-cleared g (x ∷ xs) = (k.cleared g x, All-cleared g xs)

  -- After a run of `x` the others fit the new graph.
  others_fit :
      (g : Graph) (x : S) (xs : List S)
      → All (Fits g) xs
      → All (Fits (c.run x g).1) (stale_if c (c.run x g).2.changed xs)
  others_fit g x xs all = elim (Bool-cases (c.run x g).2.changed) [
    | inl changed ↦ rw changed (All-cleared (c.run x g).1 xs)
    | inr same ↦ rw same (rw (k.silent g x same) all)
  ]

  All-append :
      (g : Graph) (xs ys : List S) → All (Fits g) xs → All (Fits g) ys → All (Fits g) (xs ++ ys)
  All-append g [] ys p q = q
  All-append g (x ∷ xs) ys (p, ps) q = (p, All-append g xs ys ps q)

  abbrev EachFits : List S × Progress → Type 0
  EachFits (xs, p) = All (Fits p.graph) xs

  run_rest-AllFit :
      (f : ℕ) (done todo : List S) (p : Progress)
      → All (Fits p.graph) done
      → All (Fits p.graph) todo
      → EachFits (run_rest c f done todo p)
  unfolding run_rest record_pass
  run_rest-AllFit zero done todo p d t = All-append p.graph done todo d t
  run_rest-AllFit (suc f) done [] p d t = d
  run_rest-AllFit (suc f) done (x ∷ todo) p d (t, ts) =
      let g = (c.run x p.graph).1 in
      run_rest-AllFit f _ _ (record_pass c x g (c.run x p.graph).2 p)
        (All-append g _ _ (others_fit p.graph x done d) (k.own_run p.graph x t, tt))
        (others_fit p.graph x todo ts)

  -- A round of the pipeline in which every cached analysis fits the graph at first leaves every
  -- cached analysis fitting the graph that it returns.
  run_once-AllFit :
      (passes : List S) (g : Graph) (events : List PassEvent)
      → All (Fits g) passes
      → EachFits (run_once c passes g events)
  unfolding run_once
  run_once-AllFit passes g events all =
      run_rest-AllFit (length passes) [] passes
        (record { graph = g; total = no_result; events = events }) tt all

  run_rounds-AllFit :
      (f : ℕ) (passes : List S) (p : Progress)
      → All (Fits p.graph) passes
      → EachFits (run_rounds c f passes p)
  unfolding run_rounds
  run_rounds-AllFit zero passes p all = all
  run_rounds-AllFit (suc f) passes p all =
      let (next, round) = run_once c passes p.graph p.events in
      let after : Progress = record round { total = merge_result p.total round.total } in
      let fit = run_once-AllFit passes p.graph p.events all in
      elim (Bool-cases round.total.changed) [
        | inl changed ↦ rw changed (run_rounds-AllFit f next after fit)
        | inr same ↦ rw same fit
      ]

  -- Where a cleared cache fits any graph, a pass leaves its own cache fitting, and a pass that
  -- reports no change makes none: the fixpoint loop leaves every cached analysis fitting the graph
  -- that it returns, if they all fit the graph that it starts from.
  pub run_to_fixpoint-AllFit :
      (max_iter : ℕ) (passes : List S) (g : Graph) (events : List PassEvent)
      → All (Fits g) passes
      → AllFit Fits (run_to_fixpoint c max_iter passes g events)
  run_to_fixpoint-AllFit max_iter passes g events all = record {
    fits =
        run_rounds-AllFit max_iter passes (record { graph = g; total = no_result; events = events })
          all;
  }
