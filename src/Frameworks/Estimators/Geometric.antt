-- ===== src/Frameworks/Estimators/Geometric.antt =====
-- The finite-sample estimate of frameworks/geometric/simple_geometric.py against the subsets of the
-- trials that it speaks of.
use de_framework.Exec.{ok}
use de_framework.Frameworks.Subsets.{
  count, has_success, identity, subsets, comb, comb_pos, count_all, comb_mono, count_successes,
  count-subsets,
}
use de_framework.Frameworks.Fractions.{over, Fraction, minus, at_most, fraction, IsProbability}
use de_framework.Frameworks.Estimators.{sg_success_probability, SgParameters}
use mathlib.Core.Path.{ap₂}
use de_framework.Prelude.{
  ℕ, List, Bool, ◌*◌, length, ◌≤◌, true, ◌≡◌, ◌-◌, ap, arith, ◌<◌, not, ◌∙◌, sym,
}

-- The share of the subsets of `attempts` trials that have a success.
abbrev pub share_of_hits : List Bool → ℕ → Fraction
share_of_hits trials attempts =
    fraction (count has_success (subsets attempts trials))
      (count (λ _. true) (subsets attempts trials))

abbrev pub parameters_of : List Bool → SgParameters
parameters_of trials = record { successes = count identity trials; trials = length trials }

hits :
    (trials : List Bool) (a : ℕ)
    → comb (length trials) a - comb (length trials - count identity trials) a
      ≡ count has_success (subsets a trials)
hits trials a =
    let failed =
      ap (λ m. comb m a) {x = length trials - count identity trials} {y = count not trials}
        (omega (arith, count_all trials)) in
    omega (arith, count_successes a trials, failed)

sg_value :
    (p : SgParameters) (n k : ℕ)
    → n * k ≤ p.trials
    → p.successes ≤ p.trials
    → let total = comb p.trials (n * k) in
      let failures = comb (p.trials - p.successes) (n * k) in
      (sg_success_probability p n k ≡ ok (fraction (total - failures) total)) × (0 < total)
unfolding sg_success_probability over minus at_most
sg_value p n k h s =
    let positive = comb_pos p.trials (n * k) h in
    let fewer = comb_mono (p.trials - p.successes) p.trials (n * k) (omega arith) in
    (ground (arith, positive, fewer), positive)

-- Fitted to the counts of some trials, the estimate for n arms of k blocks is the share of the
-- subsets of n * k trials that have a success, where there are that many trials.
pub sg_success_probability_lem :
    (trials : List Bool) (n k : ℕ)
    → n * k ≤ length trials
    → sg_success_probability (parameters_of trials) n k ≡ ok (share_of_hits trials (n * k))
sg_success_probability_lem trials n k h =
    (sg_value (parameters_of trials) n k h (omega (arith, count_all trials))).0
    ∙ ap₂ (λ a b. ok (fraction a b)) (hits trials (n * k)) (sym (count-subsets (n * k) trials))

pub sg_success_probability-IsProbability :
    (p : SgParameters) (n k : ℕ)
    → n * k ≤ p.trials
    → p.successes ≤ p.trials
    → (x : Fraction) × (sg_success_probability p n k ≡ ok x) × IsProbability x
sg_success_probability-IsProbability p n k h s =
    let (value, positive) = sg_value p n k h s in
    (_, value, record { den_pos = positive; bounded = omega arith })
