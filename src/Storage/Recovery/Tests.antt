-- ===== src/Storage/Recovery/Tests.antt =====
-- The theorems about recovered runs at a small attempt: the first connection fails, and the second
-- one answers one phase, which spends the budget.
use de_framework.Refine.Capture.{new_state-Reachable}
use de_framework.Refine.Budget.{
  update_token_usage, get_budget_status, apply_phase_result, apply_result,
  capture_solution_checkpoints, capture_from, boundary,
}
use de_framework.Storage.Recovery.Stored.{IsKept, Kept, recovery_run-Kept}
use de_framework.Session.Event.{completed}
use de_framework.Text.{codes, is_blank}
use de_framework.Refine.Valid.{new_state-IsValid}
use de_framework.Storage.Recovery.{
  recovery_run, Try, open_stored, recover, try_once, connect_session, end_try,
}
use de_framework.Storage.Manager.{Io}
use de_framework.Exec.{Outcome, Result, ok, err, connection_error}
use de_framework.Refine.Phases.{
  Turn, event, run_phases, passes, pass, work, run_phase, consume, warn_if_needed,
  resolve_phase_outcome, checkpoint,
}
use de_framework.Refine.Durable.{IsSafe}
use de_framework.Refine.State.{
  RefinementConfig, RefinementState, new_state, active_limit, put, validate, same_set, exhausted,
}
use de_framework.Storage.Recovery.Stored.{End}
use de_framework.Prelude.{refl, List, ◌≡◌, some, none, ◌∷◌, [], arith, false}

abbrev request : RefinementState
request = new_state (codes "P") 2 none

request-IsSafe : IsSafe request
request-IsSafe = record {
  valid = new_state-IsValid (codes "P") 2 none (unfold is_blank in refl) (omega arith) tt;
  reach = new_state-Reachable (codes "P") 2 none;
  within = λ p e. unfold new_state in cc;
}

abbrev answered : Turn
answered = record {
  signals = event (record { kind = completed; output_tokens = 2; text = codes "x" }) ∷ [];
  queues = ok tt;
  interrupts = ok tt;
  closes = ok tt;
  restores = ok tt;
  saves = ok tt;
  connects = ok tt;
}

abbrev settings : RefinementConfig
settings = record { min_rounds = 1; min_no_gap_critiques = 1 }

abbrev try_with : Result (Unit {0}) → List Turn → Try
try_with connects turns = record {
  connects = connects;
  turns = turns;
  closes = ok tt;
  waits = ok tt;
  restores = ok tt;
}

abbrev tries : List Try
tries = try_with (err connection_error) [] ∷ try_with (ok tt) (answered ∷ []) ∷ []

abbrev works : Io
works = record { acquires = ok tt; saves = ok tt; exports = ok tt }

recovery_run-Kept_example :
    Outcome
      (λ r d. (s : RefinementState) × (d ≡ some s) × IsKept s × End r s)
      Kept
      (recovery_run settings false works request tries none)
recovery_run-Kept_example =
    recovery_run-Kept settings false works request tries none request-IsSafe
      (unfold new_state in refl) tt

returns_exhausted : (recovery_run settings false works request tries none).0 ≡ ok (some exhausted)
unfolding recovery_run open_stored recover try_once connect_session end_try run_phases passes pass
    work run_phase consume warn_if_needed resolve_phase_outcome checkpoint update_token_usage
    get_budget_status apply_phase_result apply_result capture_solution_checkpoints capture_from
    boundary active_limit put validate same_set is_blank new_state
returns_exhausted = refl
