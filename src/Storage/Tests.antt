-- ===== src/Storage/Tests.antt =====
-- The theorems about durable attempts at small inputs.
use de_framework.Refine.Durable.{IsSafe}
use de_framework.Refine.Budget.{capture_solution_checkpoints}
use de_framework.Exec.{err, ok, timeout_error, Result}
use de_framework.Refine.Valid.{IsValid}
use de_framework.Storage.Continue.{
  continue_state, Continued, continue_state-Continued, continue_state-IsSafe,
}
use de_framework.Text.{Text, codes, is_blank}
use de_framework.Storage.Retry.{retry_run, Attempt, retry_run_ends, saves, is_timely, retry_run_lem}
use de_framework.Storage.Archive.{
  validate_archive_entries, ZipInfo, validate_archive_entries-IsSafe, IsSafeEntry,
}
use de_framework.Prelude.{
  Bool, List, length, false, ◌≡◌, ◌≢◌, ◌≤◌, none, true, ℕ, ◌+◌, ◌∷◌, [], arith, ◌*◌, refl, some,
  all, pos,
}
use de_framework.Refine.State.{
  RefinementState, new_state, finished, keys, active_limit, output_tokens_per_block,
}

abbrev stopped : RefinementState
stopped = record (new_state (codes "P") 300000 none) {
  output_tokens = 250000;
  rounds = 4;
  no_gap_critiques = 2;
  status = finished;
  solution = some (codes "x");
  solution_checkpoints = (1, none) ∷ (2, some (codes "x")) ∷ [];
}

stopped-IsValid : IsValid stopped
unfolding new_state is_blank
stopped-IsValid = record {
  stated = refl;
  budgeted = omega arith;
  pause = tt;
  streak = omega arith;
  counted = omega arith;
  within = omega arith;
  labels = λ k. ground arith;
}

continue_state-Continued_example :
    (t : RefinementState) × (continue_state 500000 stopped ≡ ok t) × Continued 500000 stopped t
unfolding new_state
continue_state-Continued_example =
    continue_state-Continued 500000 stopped stopped-IsValid refl (omega arith)

abbrev entry : Bool → List Text → ZipInfo
entry link parts = record { path = record { is_absolute = false; parts = parts }; is_link = link }

abbrev entries : List ZipInfo
entries =
    entry true (codes "workspace" ∷ codes "l" ∷ [])
    ∷ entry false (codes "sdk" ∷ codes "f" ∷ [])
    ∷ []

validate_archive_entries-IsSafe_example :
    IsSafeEntry entries (entry false (codes "sdk" ∷ codes "f" ∷ []))
unfolding validate_archive_entries
validate_archive_entries-IsSafe_example =
    validate_archive_entries-IsSafe entries 1 (entry false (codes "sdk" ∷ codes "f" ∷ [])) refl refl

abbrev fails : Bool → Attempt ℕ
fails saved = record { saved = saved; outcome = err timeout_error }

abbrev attempts : List (Attempt ℕ)
attempts =
    fails false
    ∷ fails false
    ∷ fails false
    ∷ fails false
    ∷ fails false
    ∷ fails false
    ∷ fails false
    ∷ []

waits_six_times : retry_run 0 attempts ≡ (2 ∷ 4 ∷ 8 ∷ 16 ∷ 30 ∷ 30 ∷ [], some (err timeout_error))
unfolding retry_run
waits_six_times = refl

retry_run_lem_example :
    (length (retry_run 0 attempts).0 ≤ 6 + 6 * saves attempts)
    × (all is_timely (retry_run 0 attempts).0 ≡ true)
retry_run_lem_example = retry_run_lem attempts

retry_run_ends_example : (retry_run 0 attempts).1 ≢ none
retry_run_ends_example = retry_run_ends attempts (omega arith)

-- A run of three blocks that finished after 100,000 tokens, continued with 500,000 in all: two
-- labels are added, and neither is captured at the end of the allowance.
abbrev finished_early : RefinementState
finished_early = record (new_state (codes "P") 600000 none) {
  output_tokens = 100000;
  rounds = 4;
  no_gap_critiques = 2;
  status = finished;
  solution_checkpoints = (1, none) ∷ (2, none) ∷ (3, none) ∷ [];
}

abbrev labels_after : Result RefinementState → List ℕ
labels_after (ok t) =
    keys (capture_solution_checkpoints t (pos (active_limit t))).solution_checkpoints
labels_after (err e) = []

labels_are_left_open : labels_after (continue_state 500000 finished_early) ≡ 1 ∷ 2 ∷ 3 ∷ []
unfolding continue_state new_state capture_solution_checkpoints
labels_are_left_open = refl

abbrev count_after : Result RefinementState → ℕ
count_after (ok t) = t.checkpoint_count
count_after (err e) = 0

five_labels : count_after (continue_state 500000 finished_early) ≡ 5
unfolding continue_state new_state
five_labels = refl

continue_state-IsSafe_example :
    (t : RefinementState) × (continue_state
        (stopped.output_tokens + output_tokens_per_block)
        stopped
      ≡ ok t)
    × IsSafe t
unfolding new_state
continue_state-IsSafe_example = continue_state-IsSafe stopped stopped-IsValid refl
