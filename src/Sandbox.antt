-- ===== src/Sandbox.antt =====
-- `Sandbox` of harness/sandbox/sandbox.py. Docker is an action on a host state `W` that is a
-- parameter, and `parse_float` stands for Python's `float`. Texts that the host cannot decode are
-- left out.
pub mod Cleanup
pub mod Tests
use de_framework.Exec.{
  permission_error, Error, Result, Exec, err, ok, other_error, pure, require, value_error, ◌>>◌,
  after, ◌>>=◌, runtime_error, lift, proceed, is_cancelled,
}
use de_framework.Text.{Text, codes, is_blank, split_from, text_eq, strip, after_prefix}
use de_framework.Prelude.{
  ℕ, List, Option, ◌∷◌, Bool, [], some, ◌++◌, none, if◌then◌else◌, not, ◌==◌, any, true, false,
}

-- The commands that the sandbox runs, with the directory's label, the container's name, and the
-- request that is its input.
pub data Command : Type 0 where
  list : Text → Command
  create : Text → Text → Command
  start : Text → Text → Command
  remove : Text → Command

-- What a command ends with: its output, a `CalledProcessError`, or another exception.
pub data End : Type 0 where
  done : Text → End
  exits : ℕ → Text → End
  fails : Error → End

abbrev pub newline : ℕ
newline = 10

abbrev pub comma : ℕ
comma = 44

abbrev pub success_exit_code : ℕ
success_exit_code = 0

abbrev pub rate_limit_exit_code : ℕ
rate_limit_exit_code = 75

abbrev pub spend_limit_exit_code : ℕ
spend_limit_exit_code = 76

abbrev pub rate_limit_reset_prefix : Text
rate_limit_reset_prefix = codes "HARNESS_RATE_LIMIT_RESET="

abbrev pub missing_container : Text → Text
missing_container name = codes "Error response from daemon: No such container: " ++ name

unfoldable pub last_part : List Text → Text
last_part [] = []
last_part (p ∷ []) = p
last_part (p ∷ (q ∷ ps)) = last_part (q ∷ ps)

-- Whether a run of the sandbox is on, and the state of the host.
pub record Host (W : Type 0) : Type 0 where
  pub running : Bool
  pub world : W

abbrev pub on_world : {W A : Type 0} → Exec W A → Exec (Host W) A
on_world m h = let (r, w) = m h.world in (r, record h { world = w })

-- The checks of `run`, with the user of the process.
unfoldable pub check_run : Bool → ℕ → Text → Text → Result (Unit {0})
unfolding is_blank
check_run running uid directory request =
    if running
    then err runtime_error
    else if is_blank request
    then err value_error
    else if uid == 0
    then err permission_error
    else if any (λ c. c == comma) directory
    then err value_error
    else ok tt

module _ {W : Type 0} (docker : Command → W → End × W) (parse_float : Text → Result ℕ) where
  abbrev pub reset_of : Option Text → Result (Option ℕ)
  reset_of none = err value_error
  reset_of (some []) = ok none
  reset_of (some (c ∷ t)) = after (parse_float (c ∷ t)) (λ x. ok (some x))

  -- The worker's exit code, and when its credential is reset.
  unfoldable pub start_result : End → Result (ℕ × Option ℕ)
  unfolding after_prefix last_part split_from strip
  start_result (done output) = ok (success_exit_code, none)
  start_result (fails e) = err e
  start_result (exits code stderr) =
      let report = last_part (split_from newline [] (strip stderr)) in
      if code == spend_limit_exit_code
      then ok (code, none)
      else if code == rate_limit_exit_code
      then after (reset_of (after_prefix rate_limit_reset_prefix report)) (λ r. ok (code, r))
      else err other_error

  unfoldable pub start_container : Text → Text → Exec W (ℕ × Option ℕ)
  unfolding start_result
  start_container name request w =
      let (end, v) = docker (start name request) w in (start_result end, v)

  unfoldable pub create_result : End → Result (Unit {0})
  unfolding is_blank
  create_result (done output) = require (not (is_blank output)) runtime_error
  create_result (exits code stderr) = err other_error
  create_result (fails e) = err e

  unfoldable pub create_container : Text → Text → Exec W (Unit {0})
  unfolding create_result
  create_container directory name w =
      let (end, v) = docker (create directory name) w in (create_result end, v)

  unfoldable pub remove_result : Text → End → Result (Unit {0})
  unfolding text_eq strip
  remove_result name (done output) = ok tt
  remove_result name (exits code stderr) =
      require (text_eq (strip stderr) (missing_container name)) other_error
  remove_result name (fails e) = err e

  unfoldable pub remove_container : Text → Exec W (Unit {0})
  unfolding remove_result
  remove_container name w = let (end, v) = docker (remove name) w in (remove_result name end, v)

  -- The failure that is raised, where `except Exception` does not catch the second one if it is a
  -- cancellation.
  abbrev pub first_failure : {A : Type 0} → Error → Result (Unit {0}) → Result A
  first_failure e (ok u) = err e
  first_failure e (err f) = if is_cancelled f then err f else err e

  -- The container is removed whether the block that used it returned or raised.
  unfoldable pub clean_up : {A : Type 0} → Text → Result A × W → Result A × W
  unfolding remove_container
  clean_up name (ok a, w) = (remove_container name >> pure a) w
  clean_up name (err e, w) = let (r, v) = remove_container name w in (first_failure e r, v)

  unfoldable pub execute_container : Text → Text → Text → Exec W (ℕ × Option ℕ)
  unfolding create_container start_container clean_up
  execute_container directory request name w =
      clean_up name ((create_container directory name >> start_container name request) w)

  unfoldable pub remove_all : List Text → Exec W (Unit {0})
  unfolding remove_container
  remove_all [] = pure tt
  remove_all (name ∷ names) = remove_container name >> remove_all names

  -- `names` splits the output at white space, as `str.split` does.
  unfoldable pub remove_abandoned : (Text → List Text) → Text → Exec W (Unit {0})
  unfolding remove_all
  remove_abandoned names directory w = go (docker (list directory) w)
    where
      go : End × W → Result (Unit {0}) × W
      go (done output, v) = remove_all (names output) v
      go (exits code stderr, v) = (err other_error, v)
      go (fails e, v) = (err e, v)

  -- The workers of a run, each under its name, and what the proxy's `recover_credential` gives after
  -- it; none where the last of them has not ended the loop.
  unfoldable pub run_with_credentials :
      Text → Text → List (Text × (Bool → Option ℕ → Result (Unit {0}))) → Exec W (Option (Unit {0}))
  unfolding execute_container
  run_with_credentials directory request [] = pure none
  run_with_credentials directory request ((name, recover) ∷ rest) = do
    e ← execute_container directory request name
    if e.0 == success_exit_code then pure (some tt) else (do
      lift (recover (e.0 == spend_limit_exit_code) e.1)
      run_with_credentials directory request rest)

  unfoldable pub run_owned :
      (Text → List Text)
      → Result (Unit {0})
      → Text
      → Text
      → List (Text × (Bool → Option ℕ → Result (Unit {0})))
      → Exec W (Option (Unit {0}))
  unfolding remove_abandoned run_with_credentials
  run_owned names acquires directory request workers = do
    lift acquires
    remove_abandoned names directory
    run_with_credentials directory request workers

  -- `finally` resets the mark whether the run returned or raised.
  unfoldable pub run_sandbox :
      (Text → List Text)
      → ℕ
      → Result (Unit {0})
      → Text
      → Text
      → List (Text × (Bool → Option ℕ → Result (Unit {0})))
      → Exec (Host W) (Option (Unit {0}))
  unfolding check_run run_owned
  run_sandbox names uid acquires directory request workers h =
      proceed (check_run h.running uid directory request)
        (λ _ g.
          let (r, f) =
            on_world (run_owned names acquires directory request workers)
              (record g { running = true }) in
          (r, record f { running = false }))
        h
