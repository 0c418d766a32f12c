-- ===== src/Frameworks/Base/Predictions.antt =====
-- Fitting and predicting with an estimator whose values are probabilities.
use de_framework.Frameworks.Base.Settings.{
  Pointwise, pairs, are_within, cells, Pointwise-append, settings, within, cells_append, pairs_are,
}
use de_framework.Frameworks.Fractions.{IsProbability, at_most, Fraction}
use de_framework.Exec.{ok}
use de_framework.Frameworks.Counts.{Observation, total_budget}
use de_framework.Frameworks.Base.{
  Framework, BasePrediction, predict_all, predict_depths, predict_problem, prediction,
  is_valid_probability, fit_all, predict_arms, depths_of, num_arms, fit, predict,
  validate_observations,
}
use de_framework.Prelude.{
  refl, ℕ, List, ◌++◌, ◌∷◌, [], map, ◌≡◌, All, ◌*◌, ◌≤◌, arith, all, true, subst, sym,
}

-- What a subclass has to offer for the observations that it accepts.
pub record IsEstimator {P : Type 0} (f : Framework P) (Accepts : Observation → Type 0)
    : Type 1 where
  pub Fine : Observation → P → Type 0
  pub fits : (o : Observation) → Accepts o → (p : P) × (f.fit_parameters o ≡ ok p) × Fine o p
  pub estimates :
      (o : Observation) (p : P) (n k : ℕ)
      → Fine o p
      → n * k ≤ total_budget
      → k ≤ total_budget
      → (x : Fraction) × (f.success_probability p n k ≡ ok x) × IsProbability x

module _ {P : Type 0} (f : Framework P) (Accepts : Observation → Type 0)
    (e : IsEstimator f Accepts) where
  -- A prediction of a setting and a problem with its parameters.
  pub record Predicts (c : (ℕ × ℕ) × (Observation × P)) (b : BasePrediction) : Type 0 where
    pub dataset : b.dataset ≡ c.1.0.dataset
    pub problem_id : b.problem_id ≡ c.1.0.problem_id
    pub arms : b.n ≡ c.0.0
    pub depth : b.k ≡ c.0.1
    pub estimated : f.success_probability c.1.1 c.0.0 c.0.1 ≡ ok b.success_probability
    pub bounded : IsProbability b.success_probability

  predict_problem-Predicts :
      (n k : ℕ) (x : Observation × P)
      → e.Fine x.0 x.1
      → n * k ≤ total_budget
      → k ≤ total_budget
      → (b : BasePrediction) × (predict_problem f n k x ≡ ok b) × Predicts ((n, k), x) b
  unfolding predict_problem prediction is_valid_probability at_most
  predict_problem-Predicts n k x fine l m =
      let (y, eq, bounded) = e.estimates x.0 x.1 n k fine l m in
      let b : BasePrediction = record {
        dataset = x.0.dataset;
        problem_id = x.0.problem_id;
        n = n;
        k = k;
        success_probability = y;
      } in
      (
        b,
        ground (arith, eq, bounded.den_pos, bounded.bounded),
        record {
          dataset = refl;
          problem_id = refl;
          arms = refl;
          depth = refl;
          estimated = eq;
          bounded = bounded;
        },
      )

  predict_all-Predicts :
      (n k : ℕ) (ps : List (Observation × P))
      → All (λ x. e.Fine x.0 x.1) ps
      → n * k ≤ total_budget
      → k ≤ total_budget
      → (ys : List BasePrediction) × (predict_all f n k ps ≡ ok ys)
        × Pointwise Predicts (map (λ x. ((n, k), x)) ps) ys
  unfolding predict_all
  predict_all-Predicts n k [] fine l m = ([], refl, tt)
  predict_all-Predicts n k (x ∷ ps) fine l m =
      let (b, eq, predicts) = predict_problem-Predicts n k x fine.0 l m in
      let (ys, eqs, all_predict) = predict_all-Predicts n k ps fine.1 l m in
      (b ∷ ys, ground (arith, eq, eqs), (predicts, all_predict))

  predict_depths-Predicts :
      (n : ℕ) (ks : List ℕ) (ps : List (Observation × P))
      → All (λ x. e.Fine x.0 x.1) ps
      → All (λ k. (n * k ≤ total_budget) × (k ≤ total_budget)) ks
      → (ys : List BasePrediction) × (predict_depths f n ks ps ≡ ok ys)
        × Pointwise Predicts (cells (map (λ k. (n, k)) ks) ps) ys
  unfolding predict_depths
  predict_depths-Predicts n [] ps fine h = ([], refl, tt)
  predict_depths-Predicts n (k ∷ ks) ps fine ((l, m), h) =
      let (ys, eq, predicts) = predict_all-Predicts n k ps fine l m in
      let (zs, eqs, all_predict) = predict_depths-Predicts n ks ps fine h in
      (
        ys ++ zs,
        ground (arith, eq, eqs),
        Pointwise-append Predicts (map (λ x. ((n, k), x)) ps) (cells (map (λ i. (n, i)) ks) ps) ys
            zs predicts all_predict,
      )

  predict_arms-Predicts :
      (ns : List ℕ) (ps : List (Observation × P))
      → All (λ x. e.Fine x.0 x.1) ps
      → all (λ n. are_within n (depths_of n)) ns ≡ true
      → (ys : List BasePrediction) × (predict_arms f ns ps ≡ ok ys)
        × Pointwise Predicts (cells (pairs ns) ps) ys
  unfolding predict_arms pairs
  predict_arms-Predicts [] ps fine h = ([], refl, tt)
  predict_arms-Predicts (n ∷ ns) ps fine h =
      let (ys, eq, predicts) =
        predict_depths-Predicts n (depths_of n) ps fine
          (within n (depths_of n) (ground (arith, h))) in
      let (zs, eqs, all_predict) = predict_arms-Predicts ns ps fine (ground (arith, h)) in
      let here : List (ℕ × ℕ) = map (λ k. (n, k)) (depths_of n) in
      (
        ys ++ zs,
        ground (arith, eq, eqs),
        subst (λ us. Pointwise Predicts us (ys ++ zs)) (sym (cells_append here (pairs ns) ps))
            (Pointwise-append Predicts (cells here ps) (cells (pairs ns) ps) ys zs predicts
              all_predict),
      )

  -- What a fit leaves for one observation.
  abbrev pub Fitted : Observation → Observation × P → Type 0
  Fitted o x = (x.0 ≡ o) × (f.fit_parameters o ≡ ok x.1) × e.Fine x.0 x.1

  fit_all-Fitted :
      (os : List Observation)
      → All Accepts os
      → (ps : List (Observation × P)) × (fit_all f.fit_parameters os ≡ ok ps)
        × Pointwise Fitted os ps
  unfolding fit_all
  fit_all-Fitted [] h = ([], refl, tt)
  fit_all-Fitted (o ∷ os) h =
      let (p, eq, fine) = e.fits o h.0 in
      let (ps, eqs, all_fine) = fit_all-Fitted os h.1 in
      ((o, p) ∷ ps, ground (arith, eq, eqs), ((refl, eq, fine), all_fine))

  Fitted-Fine :
      (os : List Observation) (ps : List (Observation × P))
      → Pointwise Fitted os ps
      → All (λ x. e.Fine x.0 x.1) ps
  Fitted-Fine [] [] h = tt
  Fitted-Fine [] (x ∷ ps) h = elim h [ ]
  Fitted-Fine (o ∷ os) [] h = elim h [ ]
  Fitted-Fine (o ∷ os) (x ∷ ps) h = (h.0.2, Fitted-Fine os ps h.1)

  predict-Predicts :
      (o : Observation) (os : List Observation) (ps : List (Observation × P))
      → Pointwise Fitted (o ∷ os) ps
      → (ys : List BasePrediction) × (predict f ps ≡ ok ys)
        × Pointwise Predicts (cells settings ps) ys
  unfolding predict depths_of
  predict-Predicts o os [] h = elim h [ ]
  predict-Predicts o os (x ∷ ps) h =
      let (ys, eq, predicts) =
        predict_arms-Predicts num_arms (x ∷ ps) (Fitted-Fine (o ∷ os) (x ∷ ps) h) refl in
      (ys, eq, subst (λ ss. Pointwise Predicts (cells ss (x ∷ ps)) ys) pairs_are predicts)

  -- Fitting distinct accepted observations stores the parameters of each, in order, and predicting
  -- then returns a probability for each of the fourteen settings and each problem, in order: the
  -- value of the estimator at the parameters of the problem.
  pub fit-predict :
      (os : List Observation) (old : List (Observation × P))
      → validate_observations os ≡ ok tt
      → All Accepts os
      → (ps : List (Observation × P)) × (fit f os old ≡ (ok tt, ps))
        × Pointwise Fitted os ps
        × (ys : List BasePrediction) × (predict f ps ≡ ok ys)
        × Pointwise Predicts (cells settings ps) ys
  unfolding fit predict validate_observations
  fit-predict [] old h k = absurd cc
  fit-predict (o ∷ os) old h k =
      let (ps, eq, fits) = fit_all-Fitted (o ∷ os) k in
      let (ys, predicted, predicts) = predict-Predicts o os ps fits in
      (ps, ground (arith, eq, h), fits, ys, predicted, predicts)
