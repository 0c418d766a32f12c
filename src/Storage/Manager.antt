-- ===== src/Storage/Manager.antt =====
-- `SessionManager` of harness/session/session_manager.py over one seed directory. File operations
-- succeed, except those of `Io`: taking the ownership, replacing the archive (`atomic_write`), and
-- exporting the solutions.
pub mod Durable
pub mod Cell
pub mod Refinement
pub mod Operations
pub mod Tests
use de_framework.Storage.Continue.{continue_state, validate_requested_state}
use de_framework.Storage.Archive.{PurePosixPath}
use de_framework.Text.{Text}
use de_framework.Storage.Runtime.{
  Files, restore_runtime, write_archive, require_transcript, new_runtime,
}
use de_framework.Session.State.{SessionState, from_json, new_session, to_json}
use de_framework.Json.{Json}
use de_framework.Refine.State.{
  Checkpoints, RefinementState, RunStatus, finished, exhausted, validate, continue, is_running,
}
use de_framework.Prelude.{
  Bool, List, Option, false, if◌then◌else◌, ℕ, none, true, [], some, ◌&&◌, ◌∷◌, not, ◌==◌,
}
use de_framework.Exec.{
  Exec, Result, require, ◌>>◌, err, lift, after, file_exists_error, file_not_found_error, modify,
  ok, runtime_error, proceed, pure, ◌>>=◌,
}

-- How taking the lock and the writes of an operation end. `saves` is `atomic_write` of the archive up
-- to its replacement. An export follows each save, so `exports` stands for the end of the save too,
-- the sync of the directory: where either raises, the archive is the new one and the solutions are
-- the old ones.
pub record Io : Type 0 where
  pub acquires : Result (Unit {0})
  pub saves : Result (Unit {0})
  pub exports : Result (Unit {0})

-- What the directory holds: session.zip as its checkpoint.json and the other entries, the runtime
-- directory, and the exported solutions.
pub record Seed : Type 0 where
  pub session : Option (Json × Files)
  pub runtime : Option Files
  pub solutions : List (ℕ × Text)

pub record Manager : Type 0 where
  pub seed : Seed
  pub held : Bool
  pub session_state : Option SessionState

abbrev pub new_manager : Seed → Manager
new_manager seed = record { seed = seed; held = false; session_state = none }

abbrev pub files_of : Option Files → Files
files_of none = []
files_of (some fs) = fs

unfoldable pub put_solution : ℕ → Text → List (ℕ × Text) → List (ℕ × Text)
put_solution k t [] = (k, t) ∷ []
put_solution k t ((j, u) ∷ d) = if j == k then (j, t) ∷ d else (j, u) ∷ put_solution k t d

-- (solution or "")
abbrev pub content : Option Text → Text
content none = []
content (some t) = t

unfoldable pub export_solutions : Checkpoints → List (ℕ × Text) → List (ℕ × Text)
unfolding put_solution
export_solutions [] d = d
export_solutions ((k, v) ∷ rest) d = export_solutions rest (put_solution k (content v) d)

-- Where an export fails, those before it may have been written; that is left out, since the archive
-- is authoritative.
unfoldable pub write_solutions : Io → RefinementState → Exec Seed (Unit {0})
unfolding export_solutions
write_solutions io s = do
  lift io.exports
  modify (λ d. record d { solutions = export_solutions s.solution_checkpoints d.solutions })

abbrev pub need : Option SessionState → Result SessionState
need none = err runtime_error
need (some s) = ok s

abbrev pub need_archive : Option (Json × Files) → Result (Json × Files)
need_archive none = err file_not_found_error
need_archive (some a) = ok a

abbrev pub is_none {ℓ} : {A : Type ℓ} → Option A → Bool
is_none none = true
is_none (some a) = false

abbrev pub is_empty_list {ℓ} : {A : Type ℓ} → List A → Bool
is_empty_list [] = true
is_empty_list (a ∷ as') = false

-- A step of the seed directory alone.
abbrev pub on_seed : {A : Type 0} → Exec Seed A → Exec Manager A
on_seed m w = let (r, d) = m w.seed in (r, record w { seed = d })

unfoldable pub require_open_state : Exec Manager SessionState
require_open_state w = (need w.session_state, w)

unfoldable pub require_new_attempt : Exec Seed (Unit {0})
require_new_attempt d = (
  require (is_none d.session && is_none d.runtime && is_empty_list d.solutions) file_exists_error,
  d,
)

-- `close` and the `except` clause of `open`.
unfoldable pub close_attempt : Manager → Manager
close_attempt w = record {
  seed = if is_none w.session_state then w.seed else record w.seed { runtime = none };
  held = false;
  session_state = none;
}

-- `finishing`: the statuses whose runtime is not restored.
abbrev pub is_final : RunStatus → Bool
is_final finished = true
is_final exhausted = true
is_final _ = false

module _ (show : ℕ → Text) (read : Text → Result ℕ) (is_uuid : Text → Bool) (root : List Text)
    (relpath : List Text → List Text → PurePosixPath) where
  unfoldable pub write_checkpoint : Io → SessionState → Exec Seed (Unit {0})
  unfolding write_archive to_json
  write_checkpoint io s d =
      (do
        es ← lift (write_archive root relpath (files_of d.runtime))
        lift io.saves
        modify (λ e. record e { session = some (to_json show read is_uuid s, es) }))
        d

  -- The saved state and the archive's other entries.
  unfoldable pub read_archive : Seed → Result (SessionState × Files)
  unfolding from_json
  read_archive d =
      after (need_archive d.session)
        (λ a. after (from_json show read is_uuid a.0) (λ s. ok (s, a.1)))

  unfoldable pub restore_files : SessionState → Files → Exec Seed (Unit {0})
  unfolding restore_runtime require_transcript
  restore_files s es = do
    fs ← lift (restore_runtime es)
    modify (λ d. record d { runtime = some fs })
    lift (after (require_transcript s.session_id fs) (λ _. ok tt))

  abbrev pub check_expected : Option RefinementState → RefinementState → Result (Unit {0})
  check_expected none saved = ok tt
  check_expected (some expected) saved = validate_requested_state saved expected

  unfoldable pub restore_checkpoint : Io → Option RefinementState → Exec Manager RefinementState
  unfolding read_archive restore_files write_solutions validate_requested_state
  restore_checkpoint io expected w =
      (do
        a ← lift (read_archive w.seed)
        lift (check_expected expected a.0.refinement)
        (if is_final a.0.refinement.status then pure tt else on_seed (restore_files a.0 a.1))
        modify (λ v. record v { session_state = some a.0 })
        on_seed (write_solutions io a.0.refinement)
        pure a.0.refinement)
        w

  -- The body of `open` after the ownership is taken.
  unfoldable pub open_body : Io → RefinementState → Exec Manager RefinementState
  unfolding validate restore_checkpoint require_new_attempt write_checkpoint write_solutions
  open_body io initial w =
      (do
        lift (validate initial)
        if is_none w.seed.session
            then (do
              on_seed require_new_attempt
              modify (λ v. record v {
                session_state = some (new_session initial none);
                seed = record v.seed { runtime = some new_runtime };
              })
              on_seed (write_checkpoint io (new_session initial none))
              on_seed (write_solutions io initial)
              pure initial)
            else restore_checkpoint io (some initial))
        w

  abbrev pub close_on_error : {A : Type 0} → Result A × Manager → Result A × Manager
  close_on_error (ok a, w) = (ok a, w)
  close_on_error (err e, w) = (err e, close_attempt w)

  unfoldable pub open_attempt : Io → RefinementState → Exec Manager RefinementState
  unfolding open_body close_attempt
  open_attempt io initial w =
      if not (is_none w.session_state)
      then (err runtime_error, w)
      else proceed io.acquires
          (λ _ v. close_on_error (open_body io initial (record v { held = true }))) w

  unfoldable pub prepare_attempt : Io → RefinementState → Exec Seed RefinementState
  unfolding validate read_archive validate_requested_state write_solutions
  prepare_attempt io initial d =
      (do
        lift (validate initial)
        lift io.acquires
        if is_none d.session then pure initial else (do
          a ← lift (read_archive d)
          lift (validate_requested_state a.0.refinement initial)
          (if is_running a.0.refinement.status then pure tt else write_solutions io a.0.refinement)
          pure a.0.refinement))
        d

  unfoldable pub read_checkpoint : Io → Seed → Result SessionState
  unfolding read_archive
  read_checkpoint io d = after io.acquires (λ _. after (read_archive d) (λ a. ok a.0))

  unfoldable pub checkpoint_attempt : Io → Exec Manager (Unit {0})
  unfolding require_open_state validate require_transcript write_checkpoint write_solutions
  checkpoint_attempt io w =
      (do
        s ← require_open_state
        lift (validate s.refinement)
        lift (require_transcript s.session_id (files_of w.seed.runtime))
        on_seed (write_checkpoint io s)
        on_seed (write_solutions io s.refinement))
        w

  unfoldable pub restore_attempt : Io → Exec Manager RefinementState
  unfolding require_open_state restore_checkpoint
  restore_attempt io = do require_open_state; restore_checkpoint io none

  unfoldable pub continue_run : Io → ℕ → Exec Manager RefinementState
  unfolding require_open_state read_archive continue_state restore_files checkpoint_attempt
  continue_run io budget w =
      (do
        require_open_state
        a ← lift (read_archive w.seed)
        t ← lift (continue_state budget a.0.refinement)
        on_seed (restore_files (record a.0 { refinement = t }) a.1)
        modify (λ v. record v { session_state = some (record a.0 { refinement = t }) })
        checkpoint_attempt io
        pure t)
        w

  abbrev pub continued_fork : Option ℕ → SessionState → Result SessionState
  continued_fork none s = ok s
  continued_fork (some budget) s =
      after (continue_state budget s.refinement)
        (λ t. ok (record s { refinement = record t { phase = continue } }))

  -- The state of the action is the target's directory; the source is only read.
  unfoldable pub fork_attempt : Io → Option ℕ → Manager → Exec Seed RefinementState
  unfolding require_new_attempt read_archive continue_state to_json write_solutions
  fork_attempt io budget source d =
      (do
        lift (need source.session_state)
        lift io.acquires
        require_new_attempt
        a ← lift (read_archive source.seed)
        s ← lift (continued_fork budget a.0)
        lift io.saves
        let forked = record s { fork_session = not (is_none s.session_id) }
        modify (λ e. record e { session = some (to_json show read is_uuid forked, a.1) })
        write_solutions io s.refinement
        pure s.refinement)
        d
