-- ===== src/Launcher/Attempts.antt =====
-- The preparation of attempts: launcher/launcher/run_launcher.py, audit_launcher.py and
-- continuation_launcher.py, and `RunRequest` of launcher/models.py. A container's run is an action
-- on the attempt's directory, and the outcome of taking a lock is that of `Io`.
pub mod Branches
pub mod Forks
pub mod Ready
pub mod Tests
use de_framework.Audit.Models.{SeedAudit}
use de_framework.Storage.Archive.{PurePosixPath}
use de_framework.Launcher.Dataset.{Problem}
use de_framework.Exec.{
  Exec, Result, after, ◌>>=◌, ok, pure, proceed, ◌>>◌, modify, require, lift, value_error,
  runtime_error,
}
use de_framework.Storage.Manager.{
  Seed, Io, fork_attempt, prepare_attempt, read_checkpoint, close_attempt, is_none, open_attempt,
  Manager, new_manager, is_final,
}
use de_framework.Launcher.Config.{LaunchConfig, launch_budget}
use de_framework.Refine.State.{
  RefinementState, new_state, output_tokens_per_block, Checkpoints, is_running,
}
use de_framework.Text.{Text, codes, text_eq}
use de_framework.Prelude.{
  ℕ, Option, ◌*◌, Bool, List, none, some, if◌then◌else◌, not, length, ◌+◌, ◌==◌,
}

pub record RunRequest : Type 0 where
  pub experiment : Text
  pub model : Text
  pub problem : Text
  pub budget_tokens : ℕ
  pub sketch : Option Text
  pub pause_at_tokens : Option ℕ

abbrev pub initial_state : RunRequest → RefinementState
initial_state r = new_state r.problem r.budget_tokens r.pause_at_tokens

abbrev pub run_request : LaunchConfig → Text → Problem → RunRequest
run_request config provider_model p = record {
  experiment = config.experiment;
  model = provider_model;
  problem = p.statement;
  budget_tokens = launch_budget config;
  sketch = p.sketch;
  pause_at_tokens = none;
}

-- The unaided prefix of a continuation: four blocks, paused after three.
abbrev pub prefix_request : RunRequest → RunRequest
prefix_request r = record r {
  experiment = codes "unaided";
  budget_tokens = 4 * output_tokens_per_block;
  sketch = none;
  pause_at_tokens = some (3 * output_tokens_per_block);
}

pub record Branch : Type 0 where
  pub source : Seed
  pub target : Seed

abbrev pub on_source : {A : Type 0} → Exec Seed A → Exec Branch A
on_source m b = let (r, d) = m b.source in (r, record b { source = d })

abbrev pub on_target : {A : Type 0} → Exec Seed A → Exec Branch A
on_target m b = let (r, d) = m b.target in (r, record b { target = d })

module _ (show : ℕ → Text) (read : Text → Result ℕ) (is_uuid : Text → Bool) (root : List Text)
    (relpath : List Text → List Text → PurePosixPath) (io : Io) where
  -- One turn of `RunLauncher._prepare_attempts`: none skips the attempt.
  unfoldable pub prepare_run : RunRequest → Exec Seed (Option RunRequest)
  unfolding prepare_attempt
  prepare_run request = do
    lift io.acquires
    s ← prepare_attempt show read is_uuid root relpath io (initial_state request)
    pure (if is_running s.status then some request else none)

  unfoldable pub restore_branch_budget : RunRequest → Seed → Result RunRequest
  unfolding read_checkpoint
  restore_branch_budget request d =
      after (read_checkpoint show read is_uuid root relpath io d)
        (λ s. ok (record request { budget_tokens = s.refinement.budget_tokens }))

  -- `ContinuationLauncher._prepare_request`
  unfoldable pub prepare_branch : RunRequest → Seed → Result RunRequest
  unfolding restore_branch_budget
  prepare_branch request d =
      if is_none d.session then ok request else restore_branch_budget request d

  -- The part of `_prepare_fork` in which the source is open, and what `finally` leaves.
  unfoldable pub fork_open : Io → RunRequest → RefinementState → Manager → Exec Branch RunRequest
  unfolding fork_attempt close_attempt
  fork_open forking request s source = do
    modify (λ b. record b { source = (close_attempt source).seed })
    lift (require (not (is_running s.status)) runtime_error)
    on_target (
        fork_attempt show read is_uuid root relpath forking
          (some (s.output_tokens + output_tokens_per_block)) source)
    pure (record request { budget_tokens = s.output_tokens + output_tokens_per_block })

  -- `_prepare_fork` from `source.open` on.
  unfoldable pub open_prefix : Io → Io → RunRequest → Exec Branch RunRequest
  unfolding open_attempt fork_open
  open_prefix opening forking request b =
      let (r, source) =
        open_attempt show read is_uuid root relpath opening (initial_state (prefix_request request))
          (new_manager b.source) in
      proceed r (λ s. fork_open forking request s source) (record b { source = source.seed })

  -- Preparing and opening the source and forking it each meet outcomes of their own.
  unfoldable pub prepare_fork :
      Io → Io → (RunRequest → Exec Seed (Unit {0})) → RunRequest → Exec Branch RunRequest
  unfolding prepare_attempt open_prefix
  prepare_fork opening forking worker request = do
    s ←
        on_source (
          prepare_attempt show read is_uuid root relpath io
            (initial_state (prefix_request request)))
    (if is_running s.status then on_source (worker (prefix_request request)) else pure tt)
    open_prefix opening forking request

  -- `AuditLauncher._prepare_request`; `audits` stands for the runner's `prepare` in this directory.
  unfoldable pub prepare_audit :
      (Checkpoints → Result Bool) → Text → Problem → Seed → Result (Option SeedAudit)
  unfolding read_checkpoint text_eq
  prepare_audit audits model p d =
      after (read_checkpoint show read is_uuid root relpath io d) (λ saved.
        let s = saved.refinement in
        after (require (text_eq s.problem p.statement) value_error) (λ _.
          if not (is_final s.status)
          then ok none
          else after (require (length s.solution_checkpoints == s.checkpoint_count) value_error)
              (λ _. after (audits s.solution_checkpoints) (λ wanted.
                if wanted
                then ok (
                    some (record {
                      model = model;
                      problem_id = p.problem_id;
                      problem = p.statement;
                      solutions = s.solution_checkpoints;
                    }))
                else ok none))))
