-- ===== src/Launcher/Attempts/Tests.antt =====
-- The theorems about batches, selections and branches at small inputs.
use de_framework.Storage.Continue.{validate_requested_state, continue_state}
use de_framework.Storage.Archive.{validate_archive_entries, parts_eq}
use de_framework.Storage.Runtime.{
  restore_runtime, select_links, put_files, put_file, require_transcript,
}
use de_framework.Launcher.Attempts.Ready.{IsReady, prepare_fork-IsReady}
use de_framework.Session.State.{
  to_json, new_session, from_json, read_refinement, read_fields, read_labels, read_session,
}
use de_framework.Launcher.Attempts.Forks.{Asked, IsWhole, prepare_fork-Forked}
use de_framework.Storage.Manager.{
  Seed, prepare_attempt, open_attempt, open_body, restore_checkpoint, read_archive, restore_files,
  write_solutions, export_solutions, fork_attempt, require_new_attempt, close_attempt,
}
use de_framework.Refine.State.{RefinementState, paused, validate, new_state}
use de_framework.Launcher.Attempts.{
  RunRequest, initial_state, prefix_request, prepare_fork, open_prefix, fork_open,
}
use de_framework.Launcher.Dataset.{Problem, Row}
use de_framework.Text.{Text, codes, is_blank, is_space, text_eq, is_line_break}
use de_framework.Launcher.Batch.Counts.{
  IsDone, attempted, remaining, prepare_attempts_counts, start_batch_advances,
}
use de_framework.Launcher.Batch.{
  start_batch, new_result, prepare_attempts, report_attempt_errors, Batch, BatchStep, BatchSteps,
}
use de_framework.Exec.{Outcome, Result, Exec, ok, err, attempt_already_running}
use de_framework.Storage.Manager.Tests.{count-tally, tally, count, every, home, same_path, io}
use de_framework.Json.{get_field, find_field, as_nat, as_text, as_bool, as_option, as_texts}
use de_framework.Prelude.{
  refl, ℕ, List, Option, none, ◌∷◌, [], ◌⊎◌, some, ◌+◌, ◌≡◌, ◌<◌, ◌≤◌, arith, if◌then◌else◌, ◌==◌,
}

-- The first attempt is pending, the second one is finished, and the third one is running elsewhere.
abbrev looks : ℕ → Result (Option ℕ)
looks n = if n == 1 then ok (some 7) else if n == 2 then ok none else err attempt_already_running

abbrev three : List ℕ
three = 1 ∷ 2 ∷ 3 ∷ []

prepare_attempts_counts_example :
    (attempted (prepare_attempts looks three new_result).1 + 0 + 1 ≡ 3) × (0 ≤ 2)
unfolding start_batch prepare_attempts report_attempt_errors
prepare_attempts_counts_example =
    prepare_attempts_counts looks three 2 ((1, 7) ∷ [])
      (start_batch 2 ((1, 7) ∷ []) (prepare_attempts looks three new_result).1) refl
      BatchSteps.start

start_batch_advances_example :
    IsDone (start_batch 2 three new_result)
    ⊎ ((c : Batch ℕ) × BatchStep (start_batch 2 three new_result) c
        × (remaining c < remaining (start_batch 2 three new_result)))
start_batch_advances_example =
    start_batch_advances 2 three new_result (start_batch 2 three new_result) (omega arith)
      BatchSteps.start

abbrev row : Text → Row
row id = record { problem_id = id; statement = codes "s"; domain = codes "d"; solutions = [] }

abbrev read_row : Text → Problem
read_row id = record { problem_id = id; statement = codes "s"; domain = codes "d"; sketch = none }

abbrev request : RunRequest
request = record {
  experiment = codes "continue-at-3x";
  model = codes "m";
  problem = codes "P";
  budget_tokens = 800000;
  sketch = none;
  pause_at_tokens = none;
}

abbrev paused_prefix : RefinementState
paused_prefix = record (initial_state (prefix_request request)) {
  output_tokens = 590000;
  status = paused;
}

abbrev no_files : Seed
no_files = record { session = none; runtime = none; solutions = [] }

-- The worker stores a paused prefix.
abbrev worker : RunRequest → Exec Seed (Unit {0})
worker q d = (
  ok tt,
  record d { session = some (to_json tally count every (new_session paused_prefix none), []) },
)

prepare_fork-Forked_example :
    Outcome
      (Asked tally count every home same_path io request
        (record { source = no_files; target = no_files }))
      (IsWhole tally count every home same_path io
        (record { source = no_files; target = no_files }))
      (prepare_fork tally count every home same_path io io io worker request
        (record { source = no_files; target = no_files }))
prepare_fork-Forked_example =
    prepare_fork-Forked tally count every home same_path io io io worker request
      (record { source = no_files; target = no_files })

prepare_fork-IsReady_example :
    Outcome
      (λ q c.
        IsReady tally count every count-tally home same_path q.budget_tokens c.source c.target)
      (λ _. Unit)
      (prepare_fork tally count every home same_path io io io worker request
        (record { source = no_files; target = no_files }))
prepare_fork-IsReady_example =
    prepare_fork-IsReady tally count every count-tally home same_path io io io worker request
      (record { source = no_files; target = no_files })

-- The fork of a paused prefix returns its request with one more block.
abbrev budget_of : Result RunRequest → ℕ
budget_of (ok q) = q.budget_tokens
budget_of (err e) = 0

forks_one_block :
    budget_of
      (prepare_fork tally count every home same_path io io io worker request
        (record { source = no_files; target = no_files })).0
    ≡ 790000
unfolding prepare_fork open_prefix fork_open prepare_attempt open_attempt open_body
    restore_checkpoint read_archive restore_files restore_runtime validate_archive_entries
    select_links put_files put_file parts_eq require_transcript validate_requested_state
    write_solutions export_solutions fork_attempt require_new_attempt continue_state close_attempt
    validate is_blank is_space is_line_break new_state from_json to_json read_refinement read_fields
    read_labels read_session get_field find_field as_nat as_text as_bool as_option as_texts text_eq
forks_one_block = refl
