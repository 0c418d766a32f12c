-- ===== src/Frameworks/Counts.antt =====
-- `DataLoader._cumulative_successes` of frameworks/utils/dataloader.py, and the checks of
-- `Observation.__post_init__` of frameworks/models.py.
use de_framework.Exec.{Result, err, value_error, ok}
use de_framework.Text.{Text}
use de_framework.Prelude.{
  Bool, List, ℕ, [], if◌then◌else◌, true, ◌∷◌, false, leb, suc, ◌||◌, zero, ◌&&◌, ◌+◌, ltb, not,
  length, ◌==◌, ◌≡◌, ◌≤◌, arith, ap, refl, ◌∙◌,
}

abbrev pub total_budget : ℕ
total_budget = 8

-- A run is a dictionary from checkpoints to whether the solution there passed its audit.
abbrev pub Run : Type 0
Run = ℕ → Bool

abbrev pub as_int : Bool → ℕ
as_int true = 1
as_int false = 0

-- The inner loop: `left` checkpoints from `checkpoint` on, with the counts of those checkpoints.
unfoldable pub count_run : Run → Bool → ℕ → List ℕ → List ℕ
count_run run solved checkpoint [] = []
count_run run solved checkpoint (c ∷ counts) =
    let solved' = solved || run checkpoint in
    (c + as_int solved') ∷ count_run run solved' (checkpoint + 1) counts

unfoldable pub count_runs : List Run → List ℕ → List ℕ
unfolding count_run
count_runs [] counts = counts
count_runs (r ∷ rs) counts = count_runs rs (count_run r false 1 counts)

unfoldable pub zeros : ℕ → List ℕ
zeros zero = []
zeros (suc n) = 0 ∷ zeros n

unfoldable pub cumulative_successes : List Run → List ℕ
unfolding count_runs zeros
cumulative_successes runs = count_runs runs (zeros total_budget)

pub record Observation : Type 0 where
  pub dataset : Text
  pub problem_id : Text
  pub short_attempts : ℕ
  pub short_successes : ℕ
  pub oracle_attempts : ℕ
  pub oracle_successes : List ℕ

unfoldable pub is_cumulative : List ℕ → Bool
is_cumulative [] = true
is_cumulative (a ∷ []) = true
is_cumulative (a ∷ (b ∷ cs)) = leb a b && is_cumulative (b ∷ cs)

unfoldable pub last_or : ℕ → List ℕ → ℕ
last_or a [] = a
last_or a (b ∷ cs) = last_or b cs

abbrev pub is_empty : Text → Bool
is_empty [] = true
is_empty _ = false

unfoldable pub observe : Observation → Result Observation
unfolding is_cumulative last_or
observe o =
    if is_empty o.dataset || is_empty o.problem_id
    then err value_error
    else if ltb o.short_attempts 1 || ltb o.short_attempts o.short_successes
    then err value_error
    else if ltb o.oracle_attempts 1 || not (length o.oracle_successes == total_budget)
    then err value_error
    else if ltb o.oracle_attempts (last_or 0 o.oracle_successes)
    then err value_error
    else if not (is_cumulative o.oracle_successes)
    then err value_error
    else ok o

-- Whether a run is solved at some checkpoint from 1 to `k`, and how many runs are.
abbrev pub solved_by : Run → ℕ → Bool
solved_by run zero = false
solved_by run (suc k) = solved_by run k || run (suc k)

abbrev pub times : List Run → ℕ → ℕ
times [] k = 0
times (r ∷ rs) k = as_int (solved_by r k) + times rs k

abbrev pub table : (ℕ → ℕ) → ℕ → ℕ → List ℕ
table f k zero = []
table f k (suc n) = f k ∷ table f (suc k) n

table_ext : (f g : ℕ → ℕ) (k n : ℕ) → ((j : ℕ) → f j ≡ g j) → table f k n ≡ table g k n
table_ext f g k zero h = refl
table_ext f g k (suc n) h = ground (arith, h k, table_ext f g (suc k) n h)

count_run-table :
    (run : Run) (f : ℕ → ℕ) (k n : ℕ)
    → count_run run (solved_by run k) (suc k) (table f (suc k) n)
      ≡ table (λ j. f j + as_int (solved_by run j)) (suc k) n
unfolding count_run
count_run-table run f k zero = refl
count_run-table run f k (suc n) = ground (arith, count_run-table run f (suc k) n)

count_runs-table :
    (runs : List Run) (f : ℕ → ℕ) (n : ℕ)
    → count_runs runs (table f 1 n) ≡ table (λ j. f j + times runs j) 1 n
unfolding count_runs
count_runs-table [] f n = table_ext f (λ j. f j + 0) 1 n (λ j. omega arith)
count_runs-table (r ∷ rs) f n =
    ap (count_runs rs) (count_run-table r f 0 n)
    ∙ count_runs-table rs (λ j. f j + as_int (solved_by r j)) n
    ∙ table_ext (λ j. (f j + as_int (solved_by r j)) + times rs j)
        (λ j. f j + (as_int (solved_by r j) + times rs j)) 1 n (λ j. omega arith)

-- Entry k of the counts is the number of runs solved at some checkpoint up to k, for k from 1 to 8.
pub cumulative_successes_lem :
    (runs : List Run) → cumulative_successes runs ≡ table (times runs) 1 8
unfolding cumulative_successes
cumulative_successes_lem runs =
    count_runs-table runs (λ _. 0) 8
    ∙ table_ext (λ j. 0 + times runs j) (times runs) 1 8 (λ j. omega arith)

solved_by_grows : (run : Run) (k : ℕ) → as_int (solved_by run k) ≤ as_int (solved_by run (suc k))
solved_by_grows run k = ground arith

times_grows : (runs : List Run) (k : ℕ) → times runs k ≤ times runs (suc k)
times_grows [] k = omega arith
times_grows (r ∷ rs) k = omega (arith, solved_by_grows r k, times_grows rs k)

times_bound : (runs : List Run) (k : ℕ) → times runs k ≤ length runs
times_bound [] k = omega arith
times_bound (r ∷ rs) k = ground (arith, times_bound rs k)

table_cumulative :
    (f : ℕ → ℕ) (k n : ℕ) → ((j : ℕ) → f j ≤ f (suc j)) → is_cumulative (table f k n) ≡ true
unfolding is_cumulative
table_cumulative f k zero h = refl
table_cumulative f k (suc zero) h = refl
table_cumulative f k (suc (suc n)) h = ground (arith, h k, table_cumulative f (suc k) (suc n) h)

observe-accepts :
    (o : Observation)
    → is_empty o.dataset ≡ false
    → is_empty o.problem_id ≡ false
    → 1 ≤ o.short_attempts
    → o.short_successes ≤ o.short_attempts
    → 1 ≤ o.oracle_attempts
    → length o.oracle_successes ≡ 8
    → last_or 0 o.oracle_successes ≤ o.oracle_attempts
    → is_cumulative o.oracle_successes ≡ true
    → observe o ≡ ok o
unfolding observe
observe-accepts o d p a s r l m c = ground arith

-- The counts of one or more runs, with identified short attempts of which no more succeeded than
-- were made, form an observation that the estimators accept.
pub observe-cumulative :
    (o : Observation) (runs : List Run)
    → is_empty o.dataset ≡ false
    → is_empty o.problem_id ≡ false
    → 1 ≤ o.short_attempts
    → o.short_successes ≤ o.short_attempts
    → 1 ≤ length runs
    → let full = record o {
      oracle_attempts = length runs;
      oracle_successes = cumulative_successes runs;
    } in
      observe full ≡ ok full
unfolding last_or
observe-cumulative o runs d p a s r =
    let table_of = cumulative_successes_lem runs in
    observe-accepts
      (record o { oracle_attempts = length runs; oracle_successes = cumulative_successes runs }) d p
      a s r (ap length table_of) (omega (arith, ap (last_or 0) table_of, times_bound runs 8))
      (ap is_cumulative table_of ∙ table_cumulative (times runs) 1 8 (times_grows runs))
