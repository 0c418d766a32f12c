-- ===== src/Launcher/Batch.antt =====
-- The batches of launcher/launcher/base.py: `_iter_attempts`, `_report_attempt_errors`, the loop
-- of `_prepare_attempts` that run_launcher.py and audit_launcher.py share, and the tasks of
-- `_run_pending_attempts` as a step relation.
pub mod Counts
use de_framework.Exec.{
  Result, Exec, ok, pure, ◌>>=◌, err, attempt_already_running, ◌>>◌, cancelled, Error, is_cancelled,
}
use de_framework.Prelude.{
  ℕ, List, Option, [], ◌∷◌, ◌≡◌, map, min, suc, get_elem?, length, some, zero, ◌++◌, ◌+◌, none,
  if◌then◌else◌, Bool, true, false,
}

pub record BatchResult : Type 0 where
  pub completed : ℕ
  pub skipped : ℕ
  pub failed : ℕ

abbrev pub new_result : BatchResult
new_result = record { completed = 0; skipped = 0; failed = 0 }

unfoldable pub iter_attempts {ℓ} : {P S : Type ℓ} → List P → List S → List (P × S)
iter_attempts [] seeds = []
iter_attempts (p ∷ problems) seeds = map (λ s. (p, s)) seeds ++ iter_attempts problems seeds

abbrev pub is_contended : Error → Bool
is_contended attempt_already_running = true
is_contended _ = false

-- The result of the block that `_report_attempt_errors` guards, none where it raised. Cancellation
-- is no `Exception`, and goes on.
unfoldable pub report_attempt_errors : {A : Type 0} → Result A → Exec BatchResult (Option A)
report_attempt_errors (ok a) s = (ok (some a), s)
report_attempt_errors (err e) s =
    if is_cancelled e
    then (err e, s)
    else if is_contended e
    then (ok none, record s { skipped = s.skipped + 1 })
    else (ok none, record s { failed = s.failed + 1 })

-- One turn of the loop: what becomes of an attempt's preparation, where none skips it.
abbrev pub pend :
    {A R : Type 0} → A → Option (Option R) → List (A × R) → Exec BatchResult (List (A × R))
pend a none rest s = (ok rest, s)
pend a (some none) rest s = (ok rest, record s { skipped = s.skipped + 1 })
pend a (some (some request)) rest s = (ok ((a, request) ∷ rest), s)

unfoldable pub prepare_attempts :
    {A R : Type 0} → (A → Result (Option R)) → List A → Exec BatchResult (List (A × R))
unfolding report_attempt_errors
prepare_attempts prepare [] = pure []
prepare_attempts prepare (a ∷ attempts) = do
  o ← report_attempt_errors (prepare a)
  pended ← pend a o []
  rest ← prepare_attempts prepare attempts
  pure (pended ++ rest)

-- A task's block around one attempt.
unfoldable pub finish_attempt : Result (Unit {0}) → Exec BatchResult (Unit {0})
unfolding report_attempt_errors
finish_attempt (ok u) s = (ok tt, record s { completed = s.completed + 1 })
finish_attempt (err e) s = (report_attempt_errors {A = Unit {0}} (err e) >> pure tt) s

-- The shared iterator, the attempts that tasks hold, the tasks that ask for one, and the counts.
pub record Batch (A : Type 0) : Type 0 where
  pub waiting : List A
  pub held : List A
  pub idle : ℕ
  pub result : BatchResult

unfoldable pub start_batch : {A : Type 0} → ℕ → List A → BatchResult → Batch A
start_batch max_concurrency pending result = record {
  waiting = pending;
  held = [];
  idle = min max_concurrency (length pending);
  result = result;
}

unfoldable pub remove_at {ℓ} : {A : Type ℓ} → ℕ → List A → List A
remove_at i [] = []
remove_at zero (x ∷ xs) = xs
remove_at (suc i) (x ∷ xs) = x ∷ remove_at i xs

-- A task takes the next attempt, an attempt ends without cancelling the batch, or a task finds the
-- iterator empty and is done.
pub data BatchStep {A : Type 0} (b : Batch A) : Batch A → Type 0 where
  takes :
      (a : A) (rest : List A) (n : ℕ)
      → b.waiting ≡ a ∷ rest
      → b.idle ≡ suc n
      → BatchStep b (record b { waiting = rest; held = a ∷ b.held; idle = n })
  ends :
      (i : ℕ) (a : A) (r : Result (Unit {0}))
      → get_elem? b.held i ≡ some a
      → (finish_attempt r b.result).0 ≡ ok tt
      → BatchStep b (record b {
        held = remove_at i b.held;
        idle = suc b.idle;
        result = (finish_attempt r b.result).1;
      })
  leaves : (n : ℕ) → b.waiting ≡ [] → b.idle ≡ suc n → BatchStep b (record b { idle = n })

pub data BatchSteps {A : Type 0} (b : Batch A) : Batch A → Type 0 where
  start : BatchSteps b b
  step : {c d : Batch A} → BatchSteps b c → BatchStep c d → BatchSteps b d
