-- ===== src/Passes/Terminate/Frugal.antt =====
-- src/passman/pass.cpp: the rewriting passes end.
use arc_jit.Core.Graph.{Graph}
use arc_jit.Passes.AlgebraicSimp.{algebraic_step}
use arc_jit.Passes.CompareFold.{compare_fold_step}
use arc_jit.Passes.ConstFold.{const_fold_step}
use arc_jit.Passes.StrengthReduce.{strength_step}
use arc_jit.Passes.Terminate.Compare.{compare_fold_step-IsFrugal}
use arc_jit.Passes.Terminate.Reduce.{strength_step-IsFrugal}
use arc_jit.Passes.Terminate.Simplify.{const_fold_step-IsFrugal, algebraic_step-IsFrugal}
use arc_jit.Passes.Terminate.{Terminates, IsFrugal-Terminates}
use arc_jit.Prelude.{ℕ}

-- For every graph, the loops of constant folding, algebraic simplification, comparison folding and
-- strength reduction end within four rounds for each node of the graph: on more fuel they return the
-- same.
pub passes-Terminate :
    (g : Graph) (k : ℕ)
    → Terminates const_fold_step g k
      × Terminates algebraic_step g k
      × Terminates compare_fold_step g k
      × Terminates strength_step g k
passes-Terminate g k = (
  IsFrugal-Terminates const_fold_step const_fold_step-IsFrugal g k,
  IsFrugal-Terminates algebraic_step algebraic_step-IsFrugal g k,
  IsFrugal-Terminates compare_fold_step compare_fold_step-IsFrugal g k,
  IsFrugal-Terminates strength_step strength_step-IsFrugal g k,
)
