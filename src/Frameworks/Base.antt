-- ===== src/Frameworks/Base.antt =====
-- `BaseFramework` of frameworks/base/base_framework.py: fitting, the stored parameters and the
-- predictions, over the estimator that a subclass declares. A dictionary of parameters is the list
-- of its entries, since the observations of a fit are distinct.
pub mod Settings
pub mod Predictions
use de_framework.Exec.{
  Result, Exec, err, ok, after, value_error, ◌>>=◌, ◌>>◌, arithmetic_error, lift, require,
  runtime_error,
}
use de_framework.Frameworks.Fractions.{at_most, Fraction, whole}
use de_framework.Frameworks.Counts.{Observation, table, total_budget}
use de_framework.Text.{Text, text_eq}
use de_framework.Prelude.{
  refl, ℕ, List, Bool, [], ◌∷◌, if◌then◌else◌, not, true, any, ◌&&◌, ◌/◌, ◌==◌, ◌++◌,
}

abbrev pub num_arms : List ℕ
num_arms = 1 ∷ 2 ∷ 4 ∷ []

-- What a subclass declares.
pub record Framework (P : Type 0) : Type 0 where
  pub name : Text
  pub fit_parameters : Observation → Result P
  pub success_probability : P → ℕ → ℕ → Result Fraction

pub record BasePrediction : Type 0 where
  pub dataset : Text
  pub problem_id : Text
  pub n : ℕ
  pub k : ℕ
  pub success_probability : Fraction

-- Equality of observations compares the dataset and the problem ID.
abbrev pub same_problem : Observation → Observation → Bool
same_problem a b = text_eq a.dataset b.dataset && text_eq a.problem_id b.problem_id

unfoldable pub are_unique : List Observation → Bool
are_unique [] = true
are_unique (o ∷ os) = not (any (same_problem o) os) && are_unique os

unfoldable pub validate_observations : List Observation → Result (Unit {0})
unfolding are_unique
validate_observations [] = err value_error
validate_observations (o ∷ os) = require (are_unique (o ∷ os)) value_error

-- Exact values need no tolerance for rounding, and no clamping after the check.
unfoldable pub is_valid_probability : Fraction → Bool
unfolding at_most
is_valid_probability x = not (x.den == 0) && at_most x (whole 1)

-- `range(1, total_budget // n + 1)`
unfoldable pub depths_of : ℕ → List ℕ
depths_of n = table (λ k. k) 1 (total_budget / n)

unfoldable pub prediction : Observation → ℕ → ℕ → Fraction → Result BasePrediction
unfolding is_valid_probability
prediction o n k x =
    if not (is_valid_probability x)
    then err arithmetic_error
    else ok (record {
      dataset = o.dataset;
      problem_id = o.problem_id;
      n = n;
      k = k;
      success_probability = x;
    })

module _ {P : Type 0} where
  unfoldable pub fit_all :
      (Observation → Result P) → List Observation → Result (List (Observation × P))
  fit_all f [] = ok []
  fit_all f (o ∷ os) = after (f o) (λ p. after (fit_all f os) (λ ps. ok ((o, p) ∷ ps)))

  abbrev pub replace : Result (List (Observation × P)) → Exec (List (Observation × P)) (Unit {0})
  replace (ok ps) old = (ok tt, ps)
  replace (err e) old = (err e, old)

  unfoldable pub fit : Framework P → List Observation → Exec (List (Observation × P)) (Unit {0})
  unfolding fit_all validate_observations
  fit f os = do lift (validate_observations os); replace (fit_all f.fit_parameters os)

  -- The fitted parameters of one dataset, by problem ID.
  unfoldable pub get_parameters : Text → List (Observation × P) → List (Text × P)
  get_parameters dataset [] = []
  get_parameters dataset ((o, p) ∷ ps) =
      let rest = get_parameters dataset ps in
      if text_eq o.dataset dataset then (o.problem_id, p) ∷ rest else rest

  unfoldable pub predict_problem : Framework P → ℕ → ℕ → Observation × P → Result BasePrediction
  unfolding prediction
  predict_problem f n k (o, p) = after (f.success_probability p n k) (λ x. prediction o n k x)

  unfoldable pub predict_all :
      Framework P → ℕ → ℕ → List (Observation × P) → Result (List BasePrediction)
  unfolding predict_problem
  predict_all f n k [] = ok []
  predict_all f n k (e ∷ ps) =
      after (predict_problem f n k e) (λ b. after (predict_all f n k ps) (λ bs. ok (b ∷ bs)))

  unfoldable pub predict_depths :
      Framework P → ℕ → List ℕ → List (Observation × P) → Result (List BasePrediction)
  unfolding predict_all
  predict_depths f n [] ps = ok []
  predict_depths f n (k ∷ ks) ps =
      after (predict_all f n k ps) (λ bs. after (predict_depths f n ks ps) (λ cs. ok (bs ++ cs)))

  unfoldable pub predict_arms :
      Framework P → List ℕ → List (Observation × P) → Result (List BasePrediction)
  unfolding predict_depths depths_of
  predict_arms f [] ps = ok []
  predict_arms f (n ∷ ns) ps =
      after (predict_depths f n (depths_of n) ps)
        (λ bs. after (predict_arms f ns ps) (λ cs. ok (bs ++ cs)))

  unfoldable pub predict : Framework P → List (Observation × P) → Result (List BasePrediction)
  unfolding predict_arms
  predict f [] = err runtime_error
  predict f (e ∷ ps) = predict_arms f num_arms (e ∷ ps)
