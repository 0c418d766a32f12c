-- ===== src/Audit/Runner.antt =====
-- `AuditRunner.prepare` and `AuditRunner.run` of audit/audit_runner.py. The state is the record
-- that is stored for the seed. `same` stands for Python's equality of two records, and `judge` for
-- a stage's sandbox: its directory, its run, and its validated result.
pub mod Extends
pub mod Complete
pub mod Tests
use de_framework.Storage.Manager.{content, is_empty_list}
use de_framework.Audit.Reuse.{
  Labelled, is_checkpoint_audited, reuse_saved_verdicts, sorted_items, at, put_at, has,
}
use de_framework.Refine.State.{Checkpoints, member, keys}
use de_framework.Audit.Models.{
  Kind, Verdict, AuditReference, AuditRequest, Audited, SeedAudit, audit_request, correctness,
  step_recognition, judged,
}
use de_framework.Text.{text_eq, Text}
use de_framework.Exec.{
  Result, Exec, err, key_error, pure, ◌>>=◌, ◌>>◌, lift, ok, require, value_error, modify,
}
use de_framework.Prelude.{ℕ, Bool, List, Option, all, none, some, [], if◌then◌else◌, not, ◌∷◌, ◌&&◌}

-- What reading and writing the record give.
pub record Disk : Type 0 where
  pub reads : Result (Unit {0})
  pub publishes : Result (Unit {0})
  pub saves : ℕ → Kind → Result (Unit {0})

unfoldable pub get_reference : Text → List (Text × AuditReference) → Result AuditReference
unfolding text_eq
get_reference id [] = err key_error
get_reference id ((i, r) ∷ rs) = if text_eq i id then ok r else get_reference id rs

-- reference.steps if kind == STEP_RECOGNITION else None
abbrev pub steps_for : Kind → List Text → Option (List Text)
steps_for correctness steps = none
steps_for step_recognition steps = some steps

abbrev pub stage_request : SeedAudit → Kind → Option Text → AuditReference → AuditRequest
stage_request seed kind solution reference = record {
  kind = kind;
  model = seed.model;
  problem = seed.problem;
  reference = reference.solution;
  solution = content solution;
  steps = steps_for kind reference.steps;
}

module _ {V : Type 0} where
  abbrev pub set_verdict : Kind → Verdict V → Audited V → Audited V
  set_verdict correctness v c = record c { correct = some v }
  set_verdict step_recognition v c = record c { recognised = some v }

  abbrev pub labels_match : Checkpoints → Labelled V → Bool
  labels_match solutions cs = all (λ e. member e.0 (keys solutions)) cs

module _ {V : Type 0} (same : Labelled V → Labelled V → Bool) (disk : Disk) where
  unfoldable pub prepare_record : Checkpoints → Exec (Labelled V) (Labelled V)
  unfolding reuse_saved_verdicts
  prepare_record solutions w =
      (do
        lift disk.reads
        lift (require (not (is_empty_list solutions) && labels_match solutions w) value_error)
        cs ← lift (reuse_saved_verdicts solutions w)
        (if same cs w then pure tt else (do lift disk.publishes; modify (λ _. cs)))
        pure cs)
        w

  unfoldable pub prepare : Checkpoints → Exec (Labelled V) Bool
  unfolding prepare_record is_checkpoint_audited
  prepare solutions = do
    cs ← prepare_record solutions
    pure (not (all (λ k. is_checkpoint_audited (at k cs)) (keys solutions)))

  module _ (judge : ℕ → AuditRequest → Result V) (judge_model : Text)
      (references : List (Text × AuditReference)) (seed : SeedAudit) where
    -- One turn of the inner loop.
    unfoldable pub run_stage : ℕ → Option Text → Kind → Labelled V → Exec (Labelled V) (Labelled V)
    unfolding get_reference audit_request reuse_saved_verdicts
    run_stage k solution kind cs w =
        if has kind (at k cs)
        then (ok cs, w)
        else (do
          reference ← lift (get_reference seed.problem_id references)
          request ← lift (audit_request (stage_request seed kind solution reference))
          result ← lift (judge k request)
          ds ← lift (
              reuse_saved_verdicts seed.solutions
                (put_at k (set_verdict kind (judged result judge_model) (at k cs)) cs))
          lift (disk.saves k kind)
          modify (λ _. ds)
          pure ds)
            w

    unfoldable pub run_stages : Checkpoints → Labelled V → Exec (Labelled V) (Labelled V)
    unfolding run_stage
    run_stages [] cs = pure cs
    run_stages ((k, solution) ∷ rest) cs = do
      ds ← run_stage k solution correctness cs
      es ← run_stage k solution step_recognition ds
      run_stages rest es

    unfoldable pub run : Exec (Labelled V) (Unit {0})
    unfolding prepare_record run_stages sorted_items
    run = do
      cs ← prepare_record seed.solutions
      run_stages (sorted_items seed.solutions) cs
      pure tt
