-- ===== src/Frameworks/Sound.antt =====
-- What the checks of `Observation` in frameworks/models.py promise of its counts.
use de_framework.Exec.{ok}
use de_framework.Frameworks.Counts.{Observation, is_cumulative, observe, last_or, total_budget}
use de_framework.Prelude.{ℕ, List, All, ◌≡◌, ◌≤◌, length, ◌∷◌, arith, true, []}

-- What the checks of an observation promise.
pub record IsSound (o : Observation) : Type 0 where
  pub has_short : 1 ≤ o.short_attempts
  pub short_bounded : o.short_successes ≤ o.short_attempts
  pub has_oracle : 1 ≤ o.oracle_attempts
  pub measured : length o.oracle_successes ≡ total_budget
  pub last_bounded : last_or 0 o.oracle_successes ≤ o.oracle_attempts
  pub cumulative : is_cumulative o.oracle_successes ≡ true

pub observe-IsSound : (o x : Observation) → observe o ≡ ok x → IsSound o
unfolding observe
observe-IsSound o x h = record {
  has_short = ground (arith, h);
  short_bounded = ground (arith, h);
  has_oracle = ground (arith, h);
  measured = ground (arith, h);
  last_bounded = ground (arith, h);
  cumulative = ground (arith, h);
}

-- The values between `low` and `high`.
abbrev pub Between : ℕ → ℕ → List ℕ → Type 0
Between low high = All (λ c. (low ≤ c) × (c ≤ high))

last_grows : (c : ℕ) (cs : List ℕ) → is_cumulative (c ∷ cs) ≡ true → c ≤ last_or c cs
unfolding is_cumulative last_or
last_grows c [] h = omega arith
last_grows c (d ∷ cs) h = grind (arith, last_grows d cs)

pub cumulative-Between :
    (low high c : ℕ) (cs : List ℕ)
    → low ≤ c
    → is_cumulative (c ∷ cs) ≡ true
    → last_or c cs ≤ high
    → Between low high (c ∷ cs)
unfolding is_cumulative last_or
cumulative-Between low high c [] l h k = ((l, k), tt)
cumulative-Between low high c (d ∷ cs) l h k = (
  (l, ground (arith, last_grows d cs (ground (arith, h)))),
  cumulative-Between low high d cs (ground arith) (ground (arith, h)) k,
)
