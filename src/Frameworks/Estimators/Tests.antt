-- ===== src/Frameworks/Estimators/Tests.antt =====
-- The theorems about the estimators at concrete observations.
use de_framework.Frameworks.Estimators.Fitting.{de_fit_parameters-IsFit}
use de_framework.Frameworks.Estimators.Fit.{IsFit}
use de_framework.Frameworks.Subsets.{comb}
use de_framework.Exec.{ok}
use de_framework.Text.{codes}
use de_framework.Frameworks.Fractions.{over, minus, at_most, fraction}
use de_framework.Frameworks.Estimators.Geometric.{
  parameters_of, share_of_hits, sg_success_probability_lem,
}
use de_framework.Frameworks.Counts.{Observation, observe, is_cumulative, last_or}
use de_framework.Frameworks.Estimators.{sg_success_probability, DeParameters, de_fit_parameters}
use de_framework.Prelude.{refl, ℕ, List, Bool, true, ◌∷◌, ◌≡◌, [], false, arith}

abbrev trials : List Bool
trials = true ∷ false ∷ false ∷ true ∷ []

sg_success_probability_lem_example :
    sg_success_probability (parameters_of trials) 2 1 ≡ ok (share_of_hits trials 2)
sg_success_probability_lem_example = sg_success_probability_lem trials 2 1 (omega arith)

sg_value_is : sg_success_probability (parameters_of trials) 2 1 ≡ ok (fraction 5 6)
unfolding sg_success_probability over minus at_most comb
sg_value_is = refl

abbrev counted : ℕ → Observation
counted s = record {
  dataset = codes "d";
  problem_id = codes "p";
  short_attempts = 24;
  short_successes = s;
  oracle_attempts = 3;
  oracle_successes = 1 ∷ 1 ∷ 1 ∷ 2 ∷ 2 ∷ 2 ∷ 2 ∷ 3 ∷ [];
}

de_fit_parameters-IsFit_example :
    (p : DeParameters) × (de_fit_parameters (counted 20) ≡ ok p) × IsFit (counted 20) p
unfolding observe is_cumulative last_or
de_fit_parameters-IsFit_example = de_fit_parameters-IsFit (counted 20) refl
