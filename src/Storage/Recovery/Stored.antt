-- ===== src/Storage/Recovery/Stored.antt =====
-- What a run of harness/self_refine/recovery.py leaves in the seed.
use de_framework.Storage.Continue.{validate_requested_state}
use de_framework.Refine.Valid.{validate_iff}
use de_framework.Storage.Manager.{Io}
use de_framework.Storage.Retry.{used_retries, is_retried, recovery_max_retries}
use de_framework.Refine.Run.{Ended, run_phases-IsStored}
use de_framework.Exec.{
  Result, Outcome, ok, return-Outcome, step-Outcome, pure, err, map-Outcome, if-Outcome,
  and-Outcome, raise-Outcome, bind-Outcome, ok-Outcome, proceed-Outcome, branch-Outcome, require,
  file_exists_error,
}
use de_framework.Refine.Saved.{SavedRuns, run_phases-SavedRuns}
use de_framework.Refine.Durable.{IsSafe, IsCalm}
use de_framework.Storage.Recovery.{
  recover, Try, end_try, try_once, connect_session, has_saved, is_quiet, loaded, open_stored,
  recovery_run,
}
use de_framework.Refine.Phases.{World, run_phases, passes}
use de_framework.Refine.State.{RefinementConfig, RefinementState, RunStatus, is_running, validate}
use de_framework.Prelude.{
  refl, ℕ, Option, List, ◌≡◌, false, none, true, false≢true, length, ◌⊎◌, some, sym, if◌then◌else◌,
  inl, ◌∙◌, inr, ◌∷◌, subst, ◌&&◌, ◌+◌, [], not, leb, Bool-cases, Bool,
}

-- A state that is safe to resume, and complete where it has stopped.
pub record IsKept (s : RefinementState) : Type 0 where
  pub safe : IsSafe s
  pub complete : is_running s.status ≡ false → length s.solution_checkpoints ≡ s.checkpoint_count

-- The loop waits for more, or it has returned the status of the stored state, which has stopped.
abbrev pub End : Option RunStatus → RefinementState → Type 0
End r s = (r ≡ none) ⊎ ((r ≡ some s.status) × (is_running s.status ≡ false))

running-IsKept : (s : RefinementState) → IsSafe s → is_running s.status ≡ true → IsKept s
running-IsKept s h b = record { safe = h; complete = λ e. absurd (false≢true (sym e ∙ b)) }

abbrev Returned : Option RunStatus → World → Type 0
Returned r v = IsKept v.saved × End r v.saved

abbrev Resumable : World → Type 0
Resumable v = IsSafe v.saved × SavedRuns v

stored_end :
    (r : Option RunStatus) (v : World)
    → ((r ≡ none × IsCalm v) ⊎ Ended r v)
    → (r ≡ none → SavedRuns v)
    → Returned r v
stored_end r v (inl (e, calm)) runs = (running-IsKept v.saved calm.saved (runs e), inl e)
stored_end r v (inr (e, stopped, j)) runs =
    subst (λ s. IsKept s × End r s) (sym j.stored)
      (record { safe = j.safe; complete = j.complete }, inr (e, stopped))

module _ (config : RefinementConfig) (t : Try) where
  try-Returned :
      (w : World)
      → IsCalm w
      → is_running w.live.status ≡ true
      → SavedRuns w
      → Outcome Returned Resumable (try_once config t w)
  unfolding try_once connect_session
  try-Returned w calm b runs =
      step-Outcome (if is_running w.live.status then t.connects else ok tt) _ w
        (λ _ _.
          map-Outcome (run_phases config t.turns w) (λ r v (x, k). stored_end r v x k) (λ v h. h)
            (and-Outcome (run_phases config t.turns w) (run_phases-IsStored config t.turns w calm b)
              (run_phases-SavedRuns config t.turns w runs)))
        (calm.saved, runs)

  -- A state that has stopped is returned as it is.
  stopped-Returned :
      (s : RefinementState)
      → IsKept s
      → is_running s.status ≡ false
      → Outcome Returned Resumable (try_once config t (loaded s))
  unfolding try_once connect_session run_phases
  stopped-Returned s h b =
      let w = loaded s in
      bind-Outcome {Q = λ _ v. v ≡ w} (connect_session t) w
        (ok-Outcome (if is_running s.status then t.connects else ok tt) (rw b refl) refl)
        (λ _ v e.
          subst (λ x. Outcome Returned Resumable (run_phases config t.turns x)) (sym e)
            (bind-Outcome {Q = λ _ x. x ≡ w} (λ x. (validate x.live, x)) w
              (ok-Outcome (validate s) ((validate_iff s).1 h.safe.valid) refl)
              (λ _ x k.
                subst
                  (λ y. Outcome Returned Resumable (
                    (if is_running s.status then passes config t.turns else pure (some s.status))
                      y))
                  (sym k)
                  (branch-Outcome (is_running s.status) _ _ w (λ c. absurd (false≢true (sym b ∙ c)))
                    (λ _. return-Outcome (h, inr (refl, b)))))))

  end-Returned :
      (r : Result (Option RunStatus)) (used : ℕ) (rest : Result (Option RunStatus) × World)
      (v : World)
      → Outcome Returned Resumable (r, v)
      → (Resumable v → Outcome Returned (λ u. IsKept u.saved) rest)
      → Outcome Returned (λ u. IsKept u.saved) (end_try t r used rest v)
  unfolding end_try
  end-Returned (ok none) used rest v h k = return-Outcome h.ends
  end-Returned (ok (some status)) used rest v h k =
      step-Outcome t.closes (λ _. pure (some status)) v (λ _ _. return-Outcome h.ends) h.ends.0
  end-Returned (err e) used rest v h k =
      let kept = running-IsKept v.saved h.ends.0 h.ends.1 in
      if-Outcome (is_retried e && is_quiet t.closes && not (leb recovery_max_retries used))
        (λ _.
          step-Outcome t.waits _ v (λ _ _. step-Outcome t.restores _ v (λ _ _. k h.ends) kept) kept)
        (λ _. raise-Outcome kept)

recover-Returned :
    (config : RefinementConfig) (retries : ℕ) (tries : List Try) (w : World)
    → IsCalm w
    → is_running w.live.status ≡ true
    → SavedRuns w
    → Outcome Returned (λ v. IsKept v.saved) (recover config retries tries w)
unfolding recover
recover-Returned config retries [] w calm b runs =
    return-Outcome (running-IsKept w.saved calm.saved runs, inl refl)
recover-Returned config retries (t ∷ tries) w calm b runs =
    let (r, v) = try_once config t w in
    let used = used_retries (has_saved w v) retries in
    end-Returned config t r used (recover config (used + 1) tries (record v { live = v.saved })) v
      (try-Returned config t w calm b runs)
      (λ (safe, going).
        recover-Returned config (used + 1) tries (record v { live = v.saved })
          (record { live = safe; saved = safe }) going going)

-- What a seed may store.
abbrev pub Kept : Option RefinementState → Type 0
Kept none = Unit
Kept (some s) = IsKept s

open-Kept :
    (has_leftovers : Bool) (io : Io) (initial : RefinementState) (stored : Option RefinementState)
    → IsSafe initial
    → is_running initial.status ≡ true
    → Kept stored
    → Outcome (λ s d. (d ≡ some s) × IsKept s) Kept (open_stored has_leftovers io initial stored)
unfolding open_stored
open-Kept has_leftovers io initial none safe b h =
    step-Outcome io.acquires _ none
      (λ _ _.
        step-Outcome (validate initial) _ none
          (λ _ _.
            step-Outcome (require (not has_leftovers) file_exists_error) _ none
              (λ _ _.
                step-Outcome io.saves _ none
                  (λ _ _.
                    step-Outcome io.exports _ (some initial)
                      (λ _ _. return-Outcome (refl, running-IsKept initial safe b))
                      (running-IsKept initial safe b))
                  tt)
              tt)
          tt)
      tt
open-Kept has_leftovers io initial (some s) safe b h =
    step-Outcome io.acquires _ (some s)
      (λ _ _.
        step-Outcome (validate initial) _ (some s)
          (λ _ _.
            step-Outcome (validate_requested_state s initial) _ (some s)
              (λ _ _. step-Outcome io.exports _ (some s) (λ _ _. return-Outcome (refl, h)) h) h)
          h)
      h

first-Returned :
    (config : RefinementConfig) (tries : List Try) (s : RefinementState)
    → IsKept s
    → Outcome Returned (λ v. IsKept v.saved) (recover config 0 tries (loaded s))
unfolding recover
first-Returned config [] s h = return-Outcome (h, inl refl)
first-Returned config (t ∷ tries) s h =
    let (r, v) = try_once config t (loaded s) in
    let used = used_retries (has_saved (loaded s) v) 0 in
    let again = recover config (used + 1) tries (record v { live = v.saved }) in
    end-Returned config t r used again v
      (elim (Bool-cases (is_running s.status)) [
        | inl b ↦ try-Returned config t (loaded s) (record { live = h.safe; saved = h.safe }) b b
        | inr b ↦ stopped-Returned config t s h b
      ])
      (λ (safe, going).
        recover-Returned config (used + 1) tries (record v { live = v.saved })
          (record { live = safe; saved = safe }) going going)

-- From a safe running request, over a seed that stores nothing or a state that was kept: whatever
-- the storage, the connections and the provider do, and however often they fail, the seed stores a
-- state that is safe to resume, and complete where it has stopped. A status that the run returns is
-- that of the stored state, which has stopped.
pub recovery_run-Kept :
    (config : RefinementConfig) (has_leftovers : Bool) (io : Io) (initial : RefinementState)
    (tries : List Try) (stored : Option RefinementState)
    → IsSafe initial
    → is_running initial.status ≡ true
    → Kept stored
    → Outcome
        (λ r d. (s : RefinementState) × (d ≡ some s) × IsKept s × End r s)
        Kept
        (recovery_run config has_leftovers io initial tries stored)
unfolding recovery_run
recovery_run-Kept config has_leftovers io initial tries stored safe b h =
    proceed-Outcome {Q = λ s d. (d ≡ some s) × IsKept s}
      (open_stored has_leftovers io initial stored).0
      (open-Kept has_leftovers io initial stored safe b h)
      (λ s _ (_, k). by_end (recover config 0 tries (loaded s)) (first-Returned config tries s k))
  where
    by_end :
        (p : Result (Option RunStatus) × World)
        → Outcome Returned (λ v. IsKept v.saved) p
        → Outcome
            (λ r d. (s : RefinementState) × (d ≡ some s) × IsKept s × End r s)
            Kept
            (p.0, some p.1.saved)
    by_end (ok r, w) o = return-Outcome (w.saved, refl, o.ends.0, o.ends.1)
    by_end (err e, w) o = raise-Outcome o.ends
