-- ===== src/Audit/Models.antt =====
-- The inputs of a judge, audit/models.py, and the saved verdicts, audit/constants.py and
-- audit/storage.py. Of a judgement, its type `V` is what the stage's schema accepts.
use de_framework.Refine.State.{Checkpoints}
use de_framework.Exec.{Result, after, require, value_error, ok, err}
use de_framework.Text.{Text, is_blank}
use de_framework.Prelude.{ℕ, Option, List, [], not, some, none, ◌&&◌, length, ◌==◌, any}

pub data Kind : Type 0 where
  correctness step_recognition : Kind

abbrev pub outline_steps : ℕ
outline_steps = 3

pub record AuditReference : Type 0 where
  pub solution : Text
  pub steps : List Text

unfoldable pub audit_reference : Text → List Text → Result AuditReference
unfolding is_blank
audit_reference solution steps =
    after
      (require
        (not (is_blank solution) && length steps == outline_steps && not (any is_blank steps))
        value_error)
      (λ _. ok (record { solution = solution; steps = steps }))

pub record AuditRequest : Type 0 where
  pub kind : Kind
  pub model : Text
  pub problem : Text
  pub reference : Text
  pub solution : Text
  pub steps : Option (List Text)

-- (steps or [])
abbrev pub steps_of : Option (List Text) → List Text
steps_of none = []
steps_of (some steps) = steps

abbrev pub check_steps : Kind → Text → Option (List Text) → Result (Unit {0})
check_steps correctness reference none = ok tt
check_steps correctness reference (some steps) = err value_error
check_steps step_recognition reference steps =
    after (audit_reference reference (steps_of steps)) (λ _. ok tt)

unfoldable pub audit_request : AuditRequest → Result AuditRequest
unfolding is_blank audit_reference
audit_request r =
    after
      (require (not (is_blank r.model) && not (is_blank r.problem) && not (is_blank r.reference))
        value_error)
      (λ _. after (check_steps r.kind r.reference r.steps) (λ _. ok r))

pub record SeedAudit : Type 0 where
  pub model : Text
  pub problem_id : Text
  pub problem : Text
  pub solutions : Checkpoints

-- A verdict with its judge's model, or what `EMPTY_AUDIT_RECORD` says of a stage.
pub data Verdict (V : Type 0) : Type 0 where
  judged : V → Text → Verdict V
  skipped : Verdict V

-- The stages of one checkpoint, by the fields of `AUDIT_FIELDS`.
pub record Audited (V : Type 0) : Type 0 where
  pub correct : Option (Verdict V)
  pub recognised : Option (Verdict V)
