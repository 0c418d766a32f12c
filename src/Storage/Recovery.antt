-- ===== src/Storage/Recovery.antt =====
-- `Recovery.run` of harness/self_refine/recovery.py with the loop of self_refine.py as its `execute`,
-- and `SelfRefine.run`, over the seed's stored progress. The directory of
-- harness/session/session_manager.py is read as the state that its archive gives back.
pub mod Stored
pub mod Tests
use de_framework.Storage.Retry.{used_retries, is_retried, recovery_max_retries}
use de_framework.Storage.Manager.{Io}
use de_framework.Storage.Continue.{validate_requested_state}
use de_framework.Session.Connection.{prevail}
use de_framework.Refine.Phases.{World, run_phases, Action, Turn, save}
use de_framework.Refine.State.{RefinementConfig, RefinementState, validate, RunStatus, is_running}
use de_framework.Exec.{
  Exec, Result, ok, ◌>>◌, err, lift, proceed, after, modify, runtime_error, is_cancelled, pure,
  require, file_exists_error,
}
use de_framework.Prelude.{
  ℕ, Bool, List, Option, [], if◌then◌else◌, ltb, true, ◌∷◌, none, some, suc, not, false, ◌+◌, ◌&&◌,
  leb,
}

-- What happens around one execution: connecting, the turns of the loop, closing afterwards, waiting
-- and restoring before the next one.
pub record Try : Type 0 where
  pub connects : Result (Unit {0})
  pub turns : List Turn
  pub closes : Result (Unit {0})
  pub waits : Result (Unit {0})
  pub restores : Result (Unit {0})

-- `SessionManager.open`. Where no progress is stored, `has_leftovers` is whether the seed's directory
-- holds solutions or runtime data all the same, which `_require_new_attempt` refuses to replace.
unfoldable pub open_stored :
    Bool → Io → RefinementState → Exec (Option RefinementState) RefinementState
unfolding validate validate_requested_state
open_stored has_leftovers io initial none =
    (do
      lift io.acquires
      lift (validate initial)
      lift (require (not has_leftovers) file_exists_error)
      lift io.saves
      modify (λ _. some initial)
      lift io.exports
      pure initial)
      none
open_stored has_leftovers io initial (some s) =
    (do
      lift io.acquires
      lift (validate initial)
      lift (validate_requested_state s initial)
      lift io.exports
      pure s)
      (some s)

abbrev pub loaded : RefinementState → World
loaded s = record { live = s; saved = s; actions = [] }

-- `_connect_session`
unfoldable pub connect_session : Try → Exec World (Unit {0})
connect_session t w = ((if is_running w.live.status then t.connects else ok tt), w)

unfoldable pub try_once : RefinementConfig → Try → Exec World (Option RunStatus)
unfolding connect_session run_phases
try_once config t = do connect_session t; run_phases config t.turns

-- Whether a phase boundary was saved, which resets the allowance.
abbrev pub save_count : List Action → ℕ
save_count [] = 0
save_count (save ∷ actions) = suc (save_count actions)
save_count (_ ∷ actions) = save_count actions

abbrev pub has_saved : World → World → Bool
has_saved w v = ltb (save_count w.actions) (save_count v.actions)

-- `close_after_failure` lets only a cancellation through.
abbrev pub is_quiet : Result (Unit {0}) → Bool
is_quiet (ok u) = true
is_quiet (err e) = not (is_cancelled e)

-- The end of an execution, given the rest of the loop.
unfoldable pub end_try :
    Try
    → Result (Option RunStatus)
    → ℕ
    → Result (Option RunStatus) × World
    → Exec World (Option RunStatus)
unfolding prevail
end_try t (ok none) used rest v = (ok none, v)
end_try t (ok (some status)) used rest v = proceed t.closes (λ _. pure (some status)) v
end_try t (err e) used rest v =
    if is_retried e && is_quiet t.closes && not (leb recovery_max_retries used)
    then proceed t.waits (λ _. proceed t.restores (λ _ _. rest)) v
    else (err (prevail t.closes e), v)

-- The loop of `run`; none where more turns or tries are wanted than there are.
unfoldable pub recover : RefinementConfig → ℕ → List Try → Exec World (Option RunStatus)
unfolding try_once end_try
recover config retries [] w = (ok none, w)
recover config retries (t ∷ tries) w =
    let (r, v) = try_once config t w in
    let used = used_retries (has_saved w v) retries in
    end_try t r used (recover config (used + 1) tries (record v { live = v.saved })) v

unfoldable pub recovery_run :
    RefinementConfig
    → Bool
    → Io
    → RefinementState
    → List Try
    → Exec (Option RefinementState) (Option RunStatus)
unfolding open_stored recover
recovery_run config has_leftovers io initial tries stored =
    let (r, d) = open_stored has_leftovers io initial stored in
    proceed r (λ s _. let (q, w) = recover config 0 tries (loaded s) in (q, some w.saved)) d

-- Whether the controller runs, and what its seed stores.
pub record Controller : Type 0 where
  pub running : Bool
  pub stored : Option RefinementState

-- `SelfRefine.run`
unfoldable pub run_controller :
    RefinementConfig → Bool → Io → RefinementState → List Try → Exec Controller (Option RunStatus)
unfolding recovery_run
run_controller config has_leftovers io initial tries c =
    if c.running
    then (err runtime_error, c)
    else let (r, stored) = recovery_run config has_leftovers io initial tries c.stored in
      (r, record { running = false; stored = stored })
