-- ===== src/Frameworks/Estimators/Fitting.antt =====
-- `_fit_parameters` of discovery_execution.py on the observations that models.py accepts: no
-- division by zero, and a rate and a curve between zero and one.
use de_framework.Frameworks.Estimators.Fit.{IsFit, is_beyond, is_unseen, FirstBlock}
use de_framework.Exec.{ok}
use de_framework.Frameworks.Estimators.Shares.{
  rate, rates-bounded, rate-IsProbability, over-whole, adjust-IsProbability, adjusted_curve-IsCurve,
  curve_value, first_positive, length_rates, pool_below,
}
use de_framework.Frameworks.Estimators.Execution.{IsFitted, IsCurve}
use de_framework.Frameworks.Sound.{Between, IsSound, cumulative-Between, observe-IsSound}
use de_framework.Frameworks.Estimators.{
  DeParameters, de_parameters, adjusted_curve, de_fit_parameters,
}
use de_framework.Frameworks.Fractions.{
  Fraction, whole, at_most, fraction, over, scale, IsProbability, ◌≈◌,
}
use de_framework.Frameworks.Counts.{Observation, total_budget, observe, last_or}
use native.Mathlib.Nat.{one-le-mul}
use de_framework.Prelude.{
  refl, ℕ, List, ◌≤◌, length, ◌*◌, map, ◌==◌, ◌∷◌, suc, ◌&&◌, ◌≡◌, ap, false, Bool, [], ◌<◌, arith,
  true, ◌∙◌, leb→le, ◌+◌, Bool-cases, inl, inr, not, sym,
}

module _ (o : Observation) (f : ℕ) (cs : List ℕ) (between : Between f o.oracle_attempts (f ∷ cs))
    (measured : suc (length cs) ≡ total_budget) (has_oracle : 1 ≤ o.oracle_attempts)
    (has_short : 1 ≤ o.short_attempts) (short_bounded : o.short_successes ≤ o.short_attempts) where
  curve : List Fraction
  curve = map (rate o.oracle_attempts) (f ∷ cs)

  short : Fraction
  short = rate o.short_attempts o.short_successes

  known : Observation
  known = record o { oracle_successes = f ∷ cs }

  curve-IsCurve : IsCurve total_budget curve
  unfolding curve
  curve-IsCurve = record {
    measured = ap suc (length_rates o.oracle_attempts cs) ∙ measured;
    bounded = rates-bounded f o.oracle_attempts (f ∷ cs) has_oracle between;
  }

  estimate : Fraction → Bool → Bool → DeParameters
  estimate alpha at_boundary is_unidentified = record {
    alpha = alpha;
    epsilon = curve;
    at_boundary = at_boundary;
    is_unidentified = is_unidentified;
  }

  is_fit :
      (p : DeParameters) (unseen beyond : Bool)
      → is_unseen known ≡ unseen
      → is_beyond known ≡ beyond
      → IsFitted p
      → (p.at_boundary ≡ beyond) × (p.is_unidentified ≡ unseen)
      → FirstBlock unseen beyond known p
      → IsFit known p
  is_fit p unseen beyond hu hb fitted marked block = record {
    fitted = fitted;
    boundary = marked.0 ∙ sym hb;
    unidentified = marked.1 ∙ sym hu;
    first_block = rw (hu, hb) block;
  }

  estimate-IsFitted :
      (alpha : Fraction) (u : Bool) → IsProbability alpha → IsFitted (estimate alpha false u)
  unfolding estimate
  estimate-IsFitted alpha u h = record { discovers = h; curve = curve-IsCurve }

  none_beyond : is_unseen known ≡ true → is_beyond known ≡ false
  unfolding known
  none_beyond h = ground (arith, h)

  short_beyond : (b : Bool) → at_most short (rate o.oracle_attempts f) ≡ b → is_beyond known ≡ not b
  unfolding known short at_most
  short_beyond true h = ground (arith, h)
  short_beyond false h = ground (arith, h)

  unidentified :
      o.short_successes ≡ 0
      → f ≡ 0
      → (p : DeParameters) × (de_parameters known curve short ≡ ok p) × IsFit known p
  unfolding curve short known de_parameters estimate at_most
  unidentified h k = (
    estimate (whole 0) false true,
    ground (arith, h, k),
    is_fit (estimate (whole 0) false true) true false (ground (arith, h, k))
        (none_beyond (ground (arith, h, k)))
        (estimate-IsFitted (whole 0) true (record { den_pos = omega arith; bounded = omega arith }))
        (refl, refl) (refl, refl),
  )

  positive :
      at_most short (rate o.oracle_attempts f) ≡ true
      → (o.short_successes == 0 && f == 0) ≡ false
      → 0 < f
  unfolding short at_most
  positive h k =
      first_positive o.short_successes o.oracle_attempts o.short_attempts f has_oracle
        (omega (arith, leb→le _ _ h)) k

  alpha_of : Fraction
  alpha_of =
      fraction (o.short_successes * 1 * (1 * o.oracle_attempts)) (1 * o.short_attempts * (f * 1))

  over_first : 0 < f → over short (rate o.oracle_attempts f) ≡ ok alpha_of
  unfolding over alpha_of short
  over_first h = ground (arith, h)

  alpha-IsProbability :
      0 < f → at_most short (rate o.oracle_attempts f) ≡ true → IsProbability alpha_of
  unfolding alpha_of at_most short
  alpha-IsProbability p h = record {
    den_pos = one-le-mul (omega (arith, has_short)) (omega (arith, p));
    bounded = omega (arith, leb→le _ _ h);
  }

  alpha-reproduces : scale alpha_of (rate o.oracle_attempts f) ≈ short
  unfolding scale alpha_of short
  alpha-reproduces = omega arith

  identified :
      at_most short (rate o.oracle_attempts f) ≡ true
      → (o.short_successes == 0 && f == 0) ≡ false
      → (p : DeParameters) × (de_parameters known curve short ≡ ok p) × IsFit known p
  unfolding curve short known de_parameters at_most over estimate scale
  identified h k =
      let p = positive h k in
      (
        estimate alpha_of false false,
        ground (arith, h, k, over_first p),
        is_fit (estimate alpha_of false false) false false k (short_beyond true h)
            (estimate-IsFitted alpha_of false (alpha-IsProbability p h)) (refl, refl)
            (alpha-reproduces, refl),
      )

  first_execution : Fraction
  first_execution = rate (o.short_attempts + o.oracle_attempts) (o.short_successes + f)

  pooled :
      f < o.oracle_attempts
      → at_most short (rate o.oracle_attempts f) ≡ false
      → (o.short_successes == 0 && f == 0) ≡ false
      → (p : DeParameters) × (de_parameters known curve short ≡ ok p) × IsFit known p
  unfolding curve short known de_parameters first_execution scale adjusted_curve
  pooled l h k =
      let fine =
        rate-IsProbability (o.short_attempts + o.oracle_attempts) (o.short_successes + f)
          (omega (arith, has_oracle)) (omega (arith, between.0.1, short_bounded)) in
      let whole_rate =
        over-whole (o.short_successes + f) (o.short_attempts + o.oracle_attempts)
          (omega (arith, has_oracle)) in
      let (x, eq, x_fine, moved) =
        adjust-IsProbability (rate o.oracle_attempts f) first_execution (rate o.oracle_attempts f)
          fine (rate-IsProbability o.oracle_attempts f has_oracle between.0.1)
          (omega (arith, has_oracle)) (omega (arith, l)) (omega arith) in
      let (xs, eqs, same_length, xs_fine) =
        adjusted_curve-IsCurve first_execution o.oracle_attempts f cs fine l between.1 in
      let p : DeParameters = record {
        alpha = whole 1;
        epsilon = x ∷ xs;
        at_boundary = true;
        is_unidentified = false;
      } in
      (
        p,
        ground (arith, h, k, whole_rate, eq, eqs),
        is_fit p false true k (short_beyond false h)
            (record {
              discovers = record { den_pos = omega arith; bounded = omega arith };
              curve = record {
                measured = ap suc same_length ∙ measured;
                bounded = (x_fine, xs_fine);
              };
            })
            (refl, refl) (refl, moved refl),
      )

  fitted_case : (p : DeParameters) × (de_parameters known curve short ≡ ok p) × IsFit known p
  unfolding short at_most
  fitted_case = elim (Bool-cases (o.short_successes == 0 && f == 0)) [
    | inl none_seen ↦ unidentified (ground (arith, none_seen)) (ground (arith, none_seen))
    | inr seen ↦ elim (Bool-cases (at_most short (rate o.oracle_attempts f))) [
      | inl below ↦ identified below seen
      | inr above ↦
          pooled
            (pool_below o.short_successes o.short_attempts f o.oracle_attempts
              (ground (arith, above)) short_bounded)
            above seen
    ]
  ]

  fitted_values : (p : DeParameters) × (de_fit_parameters known ≡ ok p) × IsFit known p
  unfolding de_fit_parameters known curve short
  fitted_values =
      let (p, eq, fit) = fitted_case in
      (
        p,
        rw
            (
              curve_value o.oracle_attempts (f ∷ cs) has_oracle,
              over-whole o.short_successes o.short_attempts has_short,
            )
            eq,
        fit,
      )

listed-IsFit :
    (o : Observation) (cs : List ℕ)
    → let o' = record o { oracle_successes = cs } in
      IsSound o' → (p : DeParameters) × (de_fit_parameters o' ≡ ok p) × IsFit o' p
unfolding last_or known
listed-IsFit o [] h = absurd (omega (arith, h.measured))
listed-IsFit o (f ∷ cs) h =
    fitted_values o f cs
      (cumulative-Between f o.oracle_attempts f cs (omega arith) h.cumulative h.last_bounded)
      h.measured h.has_oracle h.has_short h.short_bounded

-- An accepted observation is fitted without a division by zero, to a rate and a curve of eight
-- values between zero and one. The fit is at the boundary exactly where the short rate is above that
-- of the first oracle block, with a rate of one and the success rate of all first blocks together;
-- elsewhere the curve is the observed one and the two give the observed short rate. It is unidentified
-- exactly where nothing was solved in a first block, with a rate of zero and the observed curve.
pub de_fit_parameters-IsFit :
    (o : Observation)
    → observe o ≡ ok o
    → (p : DeParameters) × (de_fit_parameters o ≡ ok p) × IsFit o p
de_fit_parameters-IsFit o h = listed-IsFit o o.oracle_successes (observe-IsSound o o h)
