-- ===== src/Audit/Judge.antt =====
-- `BaseAudit` of audit/base_audit.py: one judgement with its retries, and the result file. What
-- leaves the module comes with its outcome; reading the verdict from the text of a completed
-- response, `json.loads` and the validation by the stage's schema, is a parameter.
pub mod Published
mod Tests
use de_framework.Audit.Models.{Kind, correctness, step_recognition}
use de_framework.Storage.Retry.{Attempt, retry_run}
use de_framework.Session.Connection.{prevail}
use de_framework.Exec.{Result, after, err, connection_error, ok, runtime_error, Error, value_error}
use de_framework.Text.{Text}
use de_framework.Prelude.{
  refl, ℕ, List, ◌∷◌, Option, false, some, if◌then◌else◌, none, [], not, Bool, map, true,
}

-- The events of the agent session that the code tells apart.
pub data JudgeEvent : Type 0 where
  completed : Text → JudgeEvent
  interrupted other_event : JudgeEvent

-- What happens around one attempt to judge: the scratch directory, the connection, the events with
-- how they end, and the shutdown.
pub record Trial : Type 0 where
  pub removes : Result (Unit {0})
  pub creates : Result (Unit {0})
  pub connects : Result (Unit {0})
  pub events : List JudgeEvent
  pub ends : Result (Unit {0})
  pub closes : Result (Unit {0})
  pub cleans : Result (Unit {0})

-- How the atomic write of the result ends: the file is in place before its directory is synced.
pub data Write : Type 0 where
  written : Write
  not_replaced replaced_then : Error → Write

abbrev pub same_kind : Kind → Kind → Bool
same_kind correctness correctness = true
same_kind step_recognition step_recognition = true
same_kind _ _ = false

module _ {V : Type 0} (validate : Text → Result V) where
  unfoldable pub read_verdict : List JudgeEvent → Result (Unit {0}) → Result V
  read_verdict [] ends = after ends (λ _. err connection_error)
  read_verdict ((completed text) ∷ events) ends = validate text
  read_verdict (interrupted ∷ events) ends = err runtime_error
  read_verdict (other_event ∷ events) ends = read_verdict events ends

  -- The `except` and `else` branches around the connection.
  abbrev pub close_judge : Result (Unit {0}) → Result V → Result V
  close_judge closes (err e) = err (prevail closes e)
  close_judge closes (ok v) = after closes (λ _. ok v)

  -- An error of the cleanup takes the place of what came before.
  abbrev pub clean_up : Result (Unit {0}) → Result V → Result V
  clean_up (err e) r = err e
  clean_up (ok x) r = r

  abbrev pub hold_connection : Trial → Result V
  hold_connection t = close_judge t.closes (after t.connects (λ _. read_verdict t.events t.ends))

  unfoldable pub judge : Trial → Result V
  unfolding read_verdict prevail
  judge t = after t.removes (λ _. clean_up t.cleans (after t.creates (λ _. hold_connection t)))

  abbrev pub attempt_of : Trial → Attempt V
  attempt_of t = record { saved = false; outcome = judge t }

  -- The result of publishing a verdict, with the file afterwards.
  abbrev pub publish : Write → Option (Result V) → Option (Result (Unit {0})) × Option V
  publish writing none = (none, none)
  publish writing (some (err e)) = (some (err e), none)
  publish written (some (ok v)) = (some (ok tt), some v)
  publish (not_replaced e) (some (ok v)) = (some (err e), none)
  publish (replaced_then e) (some (ok v)) = (some (err e), some v)

  -- The delays waited, the end of the run where the trials given reach it, and the result file. The
  -- run is that of `request.kind` with the audit of `name`.
  unfoldable pub run_judge :
      (name kind : Kind)
      → List Trial
      → Write
      → Option V
      → List ℕ × Option (Result (Unit {0})) × Option V
  unfolding judge retry_run
  run_judge name kind trials writes file =
      if not (same_kind name kind)
      then ([], some (err value_error), file)
      else let (delays, end) = retry_run 0 (map attempt_of trials) in
        let (result, published) = publish writes end in (delays, result, published)
