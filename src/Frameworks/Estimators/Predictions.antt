-- ===== src/Frameworks/Estimators/Predictions.antt =====
-- The predictions of simple_geometric.py and discovery_execution.py for accepted observations.
use de_framework.Frameworks.Base.Settings.{Pointwise, cells, settings}
use de_framework.Frameworks.Estimators.Execution.{de_success_probability-IsProbability}
use de_framework.Frameworks.Estimators.Geometric.{sg_success_probability-IsProbability}
use de_framework.Exec.{ok}
use de_framework.Frameworks.Estimators.Fitting.{de_fit_parameters-IsFit}
use de_framework.Frameworks.Estimators.Fit.{IsFit}
use de_framework.Frameworks.Sound.{observe-IsSound}
use de_framework.Frameworks.Estimators.{
  DeParameters, SgParameters, discovery_execution, simple_geometric,
}
use de_framework.Frameworks.Base.{Framework, fit, validate_observations, BasePrediction, predict}
use de_framework.Frameworks.Base.Predictions.{IsEstimator, Fitted, fit-predict, Predicts}
use de_framework.Frameworks.Counts.{Observation, observe, total_budget}
use de_framework.Prelude.{refl, List, ◌≡◌, ◌≤◌, All, arith}

-- The loader skips problems with fewer than 24 short attempts; eight are needed here.
abbrev pub IsSampled : Observation → Type 0
IsSampled o = (observe o ≡ ok o) × (total_budget ≤ o.short_attempts)

abbrev pub IsAccepted : Observation → Type 0
IsAccepted o = observe o ≡ ok o

abbrev SgFine : Observation → SgParameters → Type 0
SgFine o p = (p.successes ≤ p.trials) × (total_budget ≤ p.trials)

pub simple_geometric-IsEstimator : IsEstimator simple_geometric IsSampled
simple_geometric-IsEstimator = record {
  Fine = SgFine;
  fits = λ o h. (
    record { successes = o.short_successes; trials = o.short_attempts },
    refl,
    ((observe-IsSound o o h.0).short_bounded, h.1),
  );
  estimates = λ o p n k fine l m.
      sg_success_probability-IsProbability p n k (omega (arith, l, fine.1)) fine.0;
}

pub discovery_execution-IsEstimator : IsEstimator discovery_execution IsAccepted
discovery_execution-IsEstimator = record {
  Fine = IsFit;
  fits = de_fit_parameters-IsFit;
  estimates = λ o p n k fine l m. de_success_probability-IsProbability p n k fine.fitted m;
}

-- Fitting and predicting with one of the estimators: what is stored, and what is predicted.
abbrev pub FitsAndPredicts :
    {P : Type 0} (f : Framework P) (Accepts : Observation → Type 0)
    → IsEstimator f Accepts
    → List Observation
    → List (Observation × P)
    → Type 0
FitsAndPredicts {P} f Accepts e os old =
    (ps : List (Observation × P)) × (fit f os old ≡ (ok tt, ps))
    × Pointwise (Fitted f Accepts e) os ps
    × (ys : List BasePrediction) × (predict f ps ≡ ok ys)
    × Pointwise (Predicts f Accepts e) (cells settings ps) ys

-- With eight or more short attempts for each of several distinct problems, SG stores the counts of
-- each, and predicts a probability for each setting and problem.
pub simple_geometric-FitsAndPredicts :
    (os : List Observation) (old : List (Observation × SgParameters))
    → validate_observations os ≡ ok tt
    → All IsSampled os
    → FitsAndPredicts simple_geometric IsSampled simple_geometric-IsEstimator os old
simple_geometric-FitsAndPredicts =
    fit-predict simple_geometric IsSampled simple_geometric-IsEstimator

-- For accepted observations of distinct problems, DE stores fitted parameters of each, and predicts
-- a probability for each setting and problem.
pub discovery_execution-FitsAndPredicts :
    (os : List Observation) (old : List (Observation × DeParameters))
    → validate_observations os ≡ ok tt
    → All IsAccepted os
    → FitsAndPredicts discovery_execution IsAccepted discovery_execution-IsEstimator os old
discovery_execution-FitsAndPredicts =
    fit-predict discovery_execution IsAccepted discovery_execution-IsEstimator
