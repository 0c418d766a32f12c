-- ===== src/Launcher/Batch/Counts.antt =====
-- What the counts of a batch in launcher/launcher/base.py add up to.
use de_framework.Exec.{
  Result, ok, err, Outcome, return-Outcome, if-Outcome, raise-Outcome, bind-Outcome, ok_inj,
  is_cancelled,
}
use de_framework.Launcher.Batch.{
  Batch, BatchResult, finish_attempt, remove_at, BatchStep, report_attempt_errors, takes, ends,
  leaves, BatchSteps, step, start, start_batch, pend, is_contended, prepare_attempts, new_result,
}
use de_framework.Prelude.{
  refl, ℕ, List, ◌+◌, get_elem?, length, ◌≡◌, some, ◌≤◌, suc, ◌<◌, ◌∷◌, ap, [], zero, arith, ◌*◌,
  Option, ◌⊎◌, inl, inr, min, none, subst, length-append,
}

abbrev pub attempted : BatchResult → ℕ
attempted s = s.completed + s.skipped + s.failed

length-remove_at {ℓ} :
    {A : Type ℓ} (i : ℕ) (xs : List A) (a : A)
    → get_elem? xs i ≡ some a
    → suc (length (remove_at i xs)) ≡ length xs
unfolding remove_at
length-remove_at i [] a h = cc
length-remove_at zero (x ∷ xs) a h = refl
length-remove_at (suc i) (x ∷ xs) a h = ap suc (length-remove_at i xs a h)

finish-attempted :
    (r : Result (Unit {0})) (s : BatchResult)
    → (finish_attempt r s).0 ≡ ok tt
    → attempted (finish_attempt r s).1 ≡ attempted s + 1
unfolding finish_attempt report_attempt_errors
finish-attempted (ok u) s h = omega arith
finish-attempted (err e) s h = ground arith

module _ {A : Type 0} where
  -- The tasks and the attempts of a batch, where `tasks` tasks were created for it.
  pub record Accounts (total tasks : ℕ) (b : Batch A) : Type 0 where
    pub counted : attempted b.result + length b.held + length b.waiting ≡ total
    pub bounded : length b.held + b.idle ≤ tasks
    pub served : 0 < length b.waiting → length b.held + b.idle ≡ tasks

  step-Accounts :
      (total tasks : ℕ) (b c : Batch A)
      → BatchStep b c
      → Accounts total tasks b
      → Accounts total tasks c
  step-Accounts total tasks b c (takes a rest n w i) h =
      let l = ap length w in
      let l0 : 0 < length b.waiting = omega (arith, l) in
      record {
        counted = omega (arith, l, h.counted);
        bounded = omega (arith, i, h.bounded);
        served = λ _. omega (arith, i, h.served l0);
      }
  step-Accounts total tasks b c (ends i a r e f) h =
      let l = length-remove_at i b.held a e in
      let k = finish-attempted r b.result f in
      record {
        counted = omega (arith, l, k, h.counted);
        bounded = omega (arith, l, h.bounded);
        served = λ z. omega (arith, l, h.served z);
      }
  step-Accounts total tasks b c (leaves n w i) h =
      let l = ap length w in
      record {
        counted = h.counted;
        bounded = omega (arith, i, h.bounded);
        served = λ z. absurd (omega (arith, l, z));
      }

  steps-Accounts :
      (total tasks : ℕ) (b c : Batch A)
      → BatchSteps b c
      → Accounts total tasks b
      → Accounts total tasks c
  steps-Accounts total tasks b c start h = h
  steps-Accounts total tasks b c (step {c = m} r s) h =
      step-Accounts total tasks m c s (steps-Accounts total tasks b m r h)

  -- What is left to do.
  abbrev pub remaining : Batch A → ℕ
  remaining b = 3 * length b.waiting + 2 * length b.held + b.idle

  -- Every step of a batch leaves less to do.
  pub step_shrinks : (b c : Batch A) → BatchStep b c → remaining c < remaining b
  step_shrinks b c (takes a rest n w i) = let l = ap length w in omega (arith, l, i)
  step_shrinks b c (ends i a r e f) = let l = length-remove_at i b.held a e in omega (arith, l)
  step_shrinks b c (leaves n w i) = omega (arith, i)

  waits_fall : (b c : Batch A) → BatchSteps b c → length c.waiting ≤ length b.waiting
  waits_fall b c start = omega arith
  waits_fall b c (step {c = m} r (takes a rest n w i)) =
      let l = ap length w in omega (arith, l, waits_fall b m r)
  waits_fall b c (step {c = m} r (ends i a q e f)) = waits_fall b m r
  waits_fall b c (step {c = m} r (leaves n w i)) = waits_fall b m r

  start-Accounts :
      (max_concurrency : ℕ) (pending : List A) (s : BatchResult)
      → Accounts
          (attempted s + length pending)
          (min max_concurrency (length pending))
          (start_batch max_concurrency pending s)
  unfolding start_batch
  start-Accounts max_concurrency pending s = record {
    counted = omega arith;
    bounded = omega arith;
    served = λ _. omega arith;
  }

  abbrev pub IsDone : Batch A → Type 0
  IsDone b = (b.waiting ≡ []) × (b.held ≡ []) × (b.idle ≡ 0)

  advance :
      (b : Batch A)
      → (0 < length b.waiting → 0 < length b.held + b.idle)
      → IsDone b ⊎ ((c : Batch A) × BatchStep b c)
  advance b h = by_parts b.waiting b.held b.idle refl refl refl
    where
      by_parts :
          (ws hs : List A) (n : ℕ)
          → b.waiting ≡ ws
          → b.held ≡ hs
          → b.idle ≡ n
          → IsDone b ⊎ ((c : Batch A) × BatchStep b c)
      by_parts [] hs (suc n) w x i = inr (_, leaves n w i)
      by_parts (a ∷ ws) hs (suc n) w x i = inr (_, takes a ws n w i)
      by_parts ws (a ∷ hs) zero w x i =
          inr (_, ends 0 a (ok tt) (ap (λ l. get_elem? l 0) x) (unfold finish_attempt in refl))
      by_parts [] [] zero w x i = inl (w, x, i)
      by_parts (a ∷ ws) [] zero w x i =
          let l = ap length w in
          let k = ap length x in absurd (omega (arith, l, k, i, h (omega (arith, l))))

  -- A batch with at least one task at a time never blocks: from each state that it reaches, either
  -- it is done, or some step leads on.
  pub start_batch_advances :
      (max_concurrency : ℕ) (pending : List A) (s : BatchResult) (b : Batch A)
      → 0 < max_concurrency
      → BatchSteps (start_batch max_concurrency pending s) b
      → IsDone b ⊎ ((c : Batch A) × BatchStep b c × (remaining c < remaining b))
  unfolding start_batch
  start_batch_advances max_concurrency pending s b p r =
      let first = start_batch max_concurrency pending s in
      let h = steps-Accounts _ _ first b r (start-Accounts max_concurrency pending s) in
      let f = waits_fall first b r in
      elim (advance b (λ z. omega (arith, h.served z, f))) [
        | inl d ↦ inl d
        | inr (c, t) ↦ inr (c, t, step_shrinks b c t)
      ]

abbrev given : {A : Type 0} → Option A → ℕ
given none = 0
given (some a) = 1

report_counts :
    {A : Type 0} (r : Result A) (s : BatchResult)
    → Outcome
        (λ o t. attempted t + given o ≡ attempted s + 1)
        (λ _. Unit)
        (report_attempt_errors r s)
unfolding report_attempt_errors
report_counts (ok a) s = return-Outcome (omega arith)
report_counts (err e) s =
    if-Outcome (is_cancelled e) (λ _. raise-Outcome tt)
      (λ _.
        if-Outcome (is_contended e) (λ _. return-Outcome (omega arith))
          (λ _. return-Outcome (omega arith)))

pend_counts :
    {A R : Type 0} (a : A) (o : Option (Option R)) (s : BatchResult)
    → Outcome (λ p t. attempted t + length p ≡ attempted s + given o) (λ _. Unit) (pend a o [] s)
pend_counts a none s = return-Outcome (omega arith)
pend_counts a (some none) s = return-Outcome (omega arith)
pend_counts a (some (some q)) s = return-Outcome (omega arith)

prepare_counts :
    {A R : Type 0} (prepare : A → Result (Option R)) (attempts : List A) (s : BatchResult)
    → Outcome
        (λ p t. attempted t + length p ≡ attempted s + length attempts)
        (λ _. Unit)
        (prepare_attempts prepare attempts s)
unfolding prepare_attempts
prepare_counts prepare [] s = return-Outcome (omega arith)
prepare_counts prepare (a ∷ attempts) s =
    bind-Outcome {Q = λ o t. attempted t + given o ≡ attempted s + 1}
      (report_attempt_errors (prepare a)) s (report_counts (prepare a) s)
      (λ o t h.
        bind-Outcome {Q = λ p u. attempted u + length p ≡ attempted t + given o} (pend a o []) t
          (pend_counts a o t)
          (λ p u k.
            bind-Outcome {Q = λ q v. attempted v + length q ≡ attempted u + length attempts}
              (prepare_attempts prepare attempts) u (prepare_counts prepare attempts u)
              (λ q v l. return-Outcome (omega (arith, h, k, l, length-append p q)))))

returned :
    {S A : Type 0} {Q : A → S → Type 0} {R : S → Type 0} (p : Result A × S) (a : A)
    → Outcome Q R p
    → p.0 ≡ ok a
    → Q a p.1
returned {Q = Q} (ok b, s) a h e = subst (λ x. Q x s) (ok_inj b a e) h.ends
returned (err x, s) a h e = cc

-- Where the preparation of a batch's attempts returns, then in every state of the tasks, whatever
-- their order: each attempt is either completed, skipped, failed, held by a task or waiting, and no
-- more attempts are held than may run at a time.
pub prepare_attempts_counts :
    {A R : Type 0} (prepare : A → Result (Option R)) (attempts : List A) (max_concurrency : ℕ)
    (pending : List (A × R)) (b : Batch (A × R))
    → (prepare_attempts prepare attempts new_result).0 ≡ ok pending
    → BatchSteps
        (start_batch max_concurrency pending (prepare_attempts prepare attempts new_result).1)
        b
    → (attempted b.result + length b.held + length b.waiting ≡ length attempts)
      × (length b.held ≤ max_concurrency)
unfolding start_batch
prepare_attempts_counts prepare attempts max_concurrency pending b e r =
    let p = prepare_attempts prepare attempts new_result in
    let h =
      steps-Accounts _ _ (start_batch max_concurrency pending p.1) b r
        (start-Accounts max_concurrency pending p.1) in
    let k = returned p pending (prepare_counts prepare attempts new_result) e in
    (omega (arith, h.counted, k), omega (arith, h.bounded))
