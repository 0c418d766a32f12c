-- ===== src/Frameworks/Tests.antt =====
-- The theorems about the counts at two runs.
use de_framework.Frameworks.Counts.{
  cumulative_successes, Run, table, times, cumulative_successes_lem,
}
use de_framework.Prelude.{List, ◌≡◌, [], ◌==◌, ◌∷◌, leb, refl}

abbrev runs : List Run
runs = (λ k. k == 3) ∷ (λ k. leb 5 k) ∷ []

counts_are : cumulative_successes runs ≡ 0 ∷ 0 ∷ 1 ∷ 1 ∷ 2 ∷ 2 ∷ 2 ∷ 2 ∷ []
unfolding cumulative_successes
counts_are = refl

cumulative_successes_lem_example : cumulative_successes runs ≡ table (times runs) 1 8
cumulative_successes_lem_example = cumulative_successes_lem runs
