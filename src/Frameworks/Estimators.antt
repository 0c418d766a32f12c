-- ===== src/Frameworks/Estimators.antt =====
-- `SimpleGeometric` of frameworks/geometric/simple_geometric.py and `DiscoveryExecution` of
-- frameworks/discovery_execution/discovery_execution.py, in exact arithmetic.
use de_framework.Text.{codes}
use de_framework.Exec.{Result, after, err, ok, other_error, value_error}
use de_framework.Frameworks.Fractions.{
  Fraction, at_most, minus, over, power, rest, scale, plus, whole,
}
use de_framework.Frameworks.Base.{Framework}
use de_framework.Frameworks.Subsets.{comb}
use de_framework.Frameworks.Counts.{Observation}
pub mod Geometric
pub mod Execution
pub mod Shares
pub mod Fit
pub mod Fitting
pub mod Predictions
mod Tests
use de_framework.Prelude.{
  refl, ℕ, List, Bool, ◌∷◌, [], ◌*◌, if◌then◌else◌, not, suc, ltb, zero, ◌-◌, ◌==◌, ◌&&◌, true,
  false, ◌+◌,
}

pub record SgParameters : Type 0 where
  pub successes : ℕ
  pub trials : ℕ

abbrev pub sg_fit_parameters : Observation → Result SgParameters
sg_fit_parameters o = ok (record { successes = o.short_successes; trials = o.short_attempts })

-- `comb` raises for a negative number of failures.
unfoldable pub sg_success_probability : SgParameters → ℕ → ℕ → Result Fraction
unfolding comb over minus
sg_success_probability p n k =
    let attempts = n * k in
    if ltb p.trials attempts
    then err value_error
    else after
        (over (whole (comb (p.trials - p.successes) attempts)) (whole (comb p.trials attempts)))
        (λ x. minus (whole 1) x)

abbrev pub simple_geometric : Framework SgParameters
simple_geometric = record {
  name = codes "sg";
  fit_parameters = sg_fit_parameters;
  success_probability = sg_success_probability;
}

pub record DeParameters : Type 0 where
  pub alpha : Fraction
  pub epsilon : List Fraction
  pub at_boundary : Bool
  pub is_unidentified : Bool

unfoldable pub execution_curve : ℕ → List ℕ → Result (List Fraction)
unfolding over
execution_curve attempts [] = ok []
execution_curve attempts (s ∷ successes) =
    after (over (whole s) (whole attempts))
      (λ x. after (execution_curve attempts successes) (λ xs. ok (x ∷ xs)))

-- The first entry; the lists of an accepted observation have eight.
abbrev pub first_or {ℓ} : {A : Type ℓ} → A → List A → A
first_or a [] = a
first_or a (b ∷ bs) = b

-- One value of the curve, moved to the pooled first block.
unfoldable pub adjust : Fraction → Fraction → Fraction → Result Fraction
unfolding minus over scale plus
adjust epsilon_first first_execution probability = after (minus probability epsilon_first) (λ later.
    after (minus (whole 1) epsilon_first) (λ unsolved.
      after (over later unsolved) (λ later_success_fraction.
        after (minus (whole 1) first_execution)
          (λ remaining. ok (plus first_execution (scale remaining later_success_fraction))))))

unfoldable pub adjusted_curve : Fraction → Fraction → List Fraction → Result (List Fraction)
unfolding adjust
adjusted_curve epsilon_first first_execution [] = ok []
adjusted_curve epsilon_first first_execution (p ∷ ps) =
    after (adjust epsilon_first first_execution p)
      (λ x. after (adjusted_curve epsilon_first first_execution ps) (λ xs. ok (x ∷ xs)))

-- The three cases, given the curve and the short rate.
unfoldable pub de_parameters : Observation → List Fraction → Fraction → Result DeParameters
unfolding at_most over adjusted_curve
de_parameters o curve short_rate =
    let epsilon_first = first_or (whole 0) curve in
    let at_boundary = not (at_most short_rate epsilon_first) in
    if o.short_successes == 0 && first_or 0 o.oracle_successes == 0
    then ok (record {
      alpha = whole 0;
      epsilon = curve;
      at_boundary = at_boundary;
      is_unidentified = true;
    })
    else if at_most short_rate epsilon_first
    then after (over short_rate epsilon_first) (λ alpha. ok (record {
      alpha = alpha;
      epsilon = curve;
      at_boundary = at_boundary;
      is_unidentified = false;
    }))
    else after
        (over (whole (o.short_successes + first_or 0 o.oracle_successes))
          (whole (o.short_attempts + o.oracle_attempts)))
        (λ first_execution. after (adjusted_curve epsilon_first first_execution curve) (λ adjusted.
          ok (record {
            alpha = whole 1;
            epsilon = adjusted;
            at_boundary = at_boundary;
            is_unidentified = false;
          })))

unfoldable pub de_fit_parameters : Observation → Result DeParameters
unfolding execution_curve de_parameters
de_fit_parameters o = after (execution_curve o.oracle_attempts o.oracle_successes) (λ curve.
    after (over (whole o.short_successes) (whole o.short_attempts))
      (λ short_rate. de_parameters o curve short_rate))

abbrev pub epsilon_at : List Fraction → ℕ → Result Fraction
epsilon_at [] i = err other_error
epsilon_at (x ∷ xs) zero = ok x
epsilon_at (x ∷ xs) (suc i) = epsilon_at xs i

-- The loop over the blocks before the discovery: `steps` more, from `step` on, with `success` summed
-- so far.
unfoldable pub convolve : DeParameters → (k step steps : ℕ) → Fraction → Result Fraction
unfolding minus power scale plus
convolve p k step zero success = ok success
convolve p k step (suc steps) success = after (minus (whole 1) p.alpha) (λ undiscovered.
    after (epsilon_at p.epsilon (k - step - 1)) (λ execution.
      convolve p k (suc step) steps
        (plus success (scale (scale p.alpha (power undiscovered step)) execution))))

unfoldable pub de_success_probability : DeParameters → ℕ → ℕ → Result Fraction
unfolding convolve power minus
de_success_probability p n k =
    after (convolve p k 0 k (whole 0))
      (λ success. after (minus (whole 1) success) (λ failure. minus (whole 1) (power failure n)))

abbrev pub discovery_execution : Framework DeParameters
discovery_execution = record {
  name = codes "de";
  fit_parameters = de_fit_parameters;
  success_probability = de_success_probability;
}
