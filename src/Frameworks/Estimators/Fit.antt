-- ===== src/Frameworks/Estimators/Fit.antt =====
-- What `_fit_parameters` of discovery_execution.py is to find: the fit of an observation in the plain
-- numbers of its first blocks.
use de_framework.Frameworks.Estimators.Shares.{rate}
use de_framework.Frameworks.Estimators.Execution.{IsFitted}
use de_framework.Frameworks.Estimators.{DeParameters, first_or}
use de_framework.Frameworks.Fractions.{Fraction, whole, scale, ◌≈◌}
use de_framework.Frameworks.Counts.{Observation}
use de_framework.Prelude.{ℕ, List, map, ◌==◌, ◌&&◌, ◌≡◌, false, Bool, true, ◌+◌, ◌*◌, ltb}

abbrev pub first_rate : List Fraction → Fraction
first_rate curve = first_or (whole 0) curve

abbrev pub first_successes : Observation → ℕ
first_successes o = first_or 0 o.oracle_successes

-- Nothing was solved within the first block, with the sketch or without.
abbrev pub is_unseen : Observation → Bool
is_unseen o = o.short_successes == 0 && first_successes o == 0

-- The short runs did better than the first blocks of the runs that were given the sketch, which no
-- discovery rate up to one explains.
abbrev pub is_beyond : Observation → Bool
is_beyond o = ltb (first_successes o * o.short_attempts) (o.short_successes * o.oracle_attempts)

abbrev pub observed_curve : Observation → List Fraction
observed_curve o = map (rate o.oracle_attempts) o.oracle_successes

-- The fit of an observation in which nothing was seen, or the short runs are beyond the others: no
-- discovery, the short rate as observed, or a discovery rate of one and all first blocks together.
abbrev pub FirstBlock : (unseen beyond : Bool) → Observation → DeParameters → Type 0
FirstBlock true _ o p = (p.alpha ≡ whole 0) × (p.epsilon ≡ observed_curve o)
FirstBlock false false o p =
    (scale p.alpha (first_rate p.epsilon) ≈ rate o.short_attempts o.short_successes)
    × (p.epsilon ≡ observed_curve o)
FirstBlock false true o p =
    (p.alpha ≡ whole 1)
    × (first_rate p.epsilon
        ≈ rate (o.short_attempts + o.oracle_attempts)
            (o.short_successes + first_or 0 o.oracle_successes))

pub record IsFit (o : Observation) (p : DeParameters) : Type 0 where
  pub fitted : IsFitted p
  pub boundary : p.at_boundary ≡ is_beyond o
  pub unidentified : p.is_unidentified ≡ is_unseen o
  pub first_block : FirstBlock (is_unseen o) (is_beyond o) o p
