-- ===== src/Storage/Retry.antt =====
-- The retry loop of `Recovery.run` (harness/self_refine/recovery.py) and the delays of
-- harness/utils/retry.py, in seconds.
use de_framework.Exec.{Error, Result, connection_error, timeout_error, ok, err}
use de_framework.Prelude.{
  Bool, ℕ, List, if◌then◌else◌, min, true, Option, false, ◌*◌, none, ◌^◌, ◌∷◌, [], some, ◌+◌, not,
  ◌||◌, leb, suc, ◌&&◌, ◌≡◌, ◌≤◌, length, ◌<◌, arith, all, zero, ◌≢◌, refl,
}

abbrev pub recovery_max_retries : ℕ
recovery_max_retries = 6

unfoldable pub delay : ℕ → ℕ
delay retries = min (2 * 2 ^ retries) 30

-- One attempt, from connecting to the end of `execute`: whether it saved a phase boundary, which
-- resets the allowance, and how it ended.
pub record Attempt {ℓ} (A : Type ℓ) : Type ℓ where
  pub saved : Bool
  pub outcome : Result A

abbrev pub is_retried : Error → Bool
is_retried connection_error = true
is_retried timeout_error = true
is_retried _ = false

-- The allowance used when the attempt ends.
abbrev pub used_retries : Bool → ℕ → ℕ
used_retries saved retries = if saved then 0 else retries

-- The end of an attempt with the allowance used by then: the run ends too, or waits and goes on.
unfoldable pub retry_end {ℓ} :
    {A : Type ℓ} → Result A → ℕ → List ℕ × Option (Result A) → List ℕ × Option (Result A)
unfolding delay
retry_end (ok x) retries rest = ([], some (ok x))
retry_end (err e) retries rest =
    if not (is_retried e) || leb recovery_max_retries retries
    then ([], some (err e))
    else (delay retries ∷ rest.0, rest.1)

-- The delays waited, and the end of the run where the attempts given reach it.
unfoldable pub retry_run {ℓ} : {A : Type ℓ} → ℕ → List (Attempt A) → List ℕ × Option (Result A)
unfolding retry_end
retry_run retries [] = ([], none)
retry_run retries (a ∷ rest) =
    let used = used_retries a.saved retries in retry_end a.outcome used (retry_run (used + 1) rest)

abbrev pub saves {ℓ} : {A : Type ℓ} → List (Attempt A) → ℕ
saves [] = 0
saves (a ∷ rest) = if a.saved then suc (saves rest) else saves rest

abbrev pub is_timely : ℕ → Bool
is_timely d = leb 2 d && leb d 30

power_pos : (n : ℕ) → 1 ≤ 2 ^ n
power_pos zero = omega arith
power_pos (suc n) = omega (arith, power_pos n)

delay-timely : (retries : ℕ) → is_timely (delay retries) ≡ true
unfolding delay
delay-timely retries = ground (arith, power_pos retries)

module _ {ℓ} {A : Type ℓ} where
  end-bound :
      (r : Result A) (used : ℕ) (rest : List ℕ × Option (Result A)) (bound : ℕ)
      → used ≤ bound
      → (used < 6 → length rest.0 + used + 1 ≤ bound)
      → length (retry_end r used rest).0 + used ≤ bound
  unfolding retry_end
  end-bound (ok x) used rest bound h k = omega arith
  end-bound (err e) used rest bound h k = ground arith

  run-bound :
      (retries : ℕ) (attempts : List (Attempt A))
      → retries ≤ 6
      → length (retry_run retries attempts).0 + retries ≤ 6 + 6 * saves attempts
  unfolding retry_run
  run-bound retries [] h = omega arith
  run-bound retries (a ∷ rest) h =
      let used = used_retries a.saved retries in
      let step = end-bound a.outcome used (retry_run (used + 1) rest) (6 + 6 * saves rest) in
      ground (arith, step, run-bound (used + 1) rest)

  end-timely :
      (r : Result A) (used : ℕ) (rest : List ℕ × Option (Result A))
      → all is_timely rest.0 ≡ true
      → all is_timely (retry_end r used rest).0 ≡ true
  unfolding retry_end
  end-timely (ok x) used rest h = refl
  end-timely (err e) used rest h = ground (arith, delay-timely used)

  run-timely :
      (retries : ℕ) (attempts : List (Attempt A))
      → all is_timely (retry_run retries attempts).0 ≡ true
  unfolding retry_run
  run-timely retries [] = refl
  run-timely retries (a ∷ rest) =
      let used = used_retries a.saved retries in
      end-timely a.outcome used (retry_run (used + 1) rest) (run-timely (used + 1) rest)

  -- A run that has not ended used all its attempts.
  end-open :
      (r : Result A) (used n : ℕ) (rest : List ℕ × Option (Result A))
      → (rest.1 ≡ none → length rest.0 ≡ n)
      → (retry_end r used rest).1 ≡ none
      → length (retry_end r used rest).0 ≡ suc n
  unfolding retry_end
  end-open (ok x) used n rest k h = cc
  end-open (err e) used n rest k h = ground (arith, k)

  run-open :
      (retries : ℕ) (attempts : List (Attempt A))
      → (retry_run retries attempts).1 ≡ none
      → length (retry_run retries attempts).0 ≡ length attempts
  unfolding retry_run
  run-open retries [] h = refl
  run-open retries (a ∷ rest) h =
      let used = used_retries a.saved retries in
      end-open a.outcome used (length rest) (retry_run (used + 1) rest) (run-open (used + 1) rest) h

  -- A run waits at most six times, and six times more for each attempt that saved a phase, from two
  -- to thirty seconds each time.
  pub retry_run_lem :
      (attempts : List (Attempt A))
      → (length (retry_run 0 attempts).0 ≤ 6 + 6 * saves attempts)
        × (all is_timely (retry_run 0 attempts).0 ≡ true)
  retry_run_lem attempts =
      (omega (arith, run-bound 0 attempts (omega arith)), run-timely 0 attempts)

  -- A run ends, whatever its attempts do, when there are more than six of them, and six more for
  -- each attempt that saved a phase.
  pub retry_run_ends :
      (attempts : List (Attempt A))
      → 6 + 6 * saves attempts < length attempts
      → (retry_run 0 attempts).1 ≢ none
  retry_run_ends attempts h =
      λ running. omega (arith, run-open 0 attempts running, run-bound 0 attempts (omega arith))

  end-late :
      (r : Result A) (used : ℕ) (e : Error) (rest : List ℕ × Option (Result A))
      → is_retried e ≡ true
      → (rest.1 ≡ some (err e) → 6 ≤ length rest.0 + used + 1)
      → (retry_end r used rest).1 ≡ some (err e)
      → 6 ≤ length (retry_end r used rest).0 + used
  unfolding retry_end
  end-late (ok x) used e rest t k h = cc
  end-late (err d) used e rest t k h = ground (arith, k)

  run-late :
      (retries : ℕ) (attempts : List (Attempt A)) (e : Error)
      → is_retried e ≡ true
      → (retry_run retries attempts).1 ≡ some (err e)
      → 6 ≤ length (retry_run retries attempts).0 + retries
  unfolding retry_run
  run-late retries [] e t h = cc
  run-late retries (a ∷ rest) e t h =
      let used = used_retries a.saved retries in
      ground (
        arith,
        end-late a.outcome used e (retry_run (used + 1) rest) t
            (λ o. omega (arith, run-late (used + 1) rest e t o)) h,
      )

  -- A run gives up with a connection error or a timeout only after six retries.
  pub retry_run_late :
      (attempts : List (Attempt A)) (e : Error)
      → is_retried e ≡ true
      → (retry_run 0 attempts).1 ≡ some (err e)
      → 6 ≤ length (retry_run 0 attempts).0
  retry_run_late attempts e t h = omega (arith, run-late 0 attempts e t h)
