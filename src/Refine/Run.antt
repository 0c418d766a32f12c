-- ===== src/Refine/Run.antt =====
-- Whole runs of `_run_phases`: what they store, and that they end.
use de_framework.Refine.Capture.{capture-field}
use de_framework.Refine.Budget.{capture_solution_checkpoints, get_budget_status}
use de_framework.Refine.Passes.{
  IsStored, set_status-IsSafe, work-IsCalm, IsCaptured, pass-IsStored, capture_through-IsCaptured,
  checkpoint-IsStored,
}
use de_framework.Refine.Valid.{IsValid, validate_iff}
use de_framework.Exec.{
  Outcome, if-Outcome, proceed-Outcome, bind-Outcome, both-Outcome, lift-Outcome, ok-Outcome,
  return-Outcome, branch-Outcome, lift, pure, weaken-Outcome,
}
use de_framework.Refine.Durable.{IsCalm, SavedIsSafe, IsSafe}
use de_framework.Refine.Progress.{
  IsSmooth, Advanced, Gains, Never, IsSpent, warn-IsSpent, run_phase-Advanced,
}
use de_framework.Refine.State.{RefinementConfig, RunStatus, RefinementState, is_running, validate}
use de_framework.Refine.Phases.{
  passes, run_phases, Turn, World, checkpoint, pass, work, refresh_status, warn_if_needed,
  capture_through, run_phase,
}
use de_framework.Prelude.{
  Option, List, ◌≡◌, some, ℤ, false, none, true, ◌⊎◌, arith, inl, refl, ◌∷◌, subst, ◌<◌, sym, inr,
  [], All, false≢true, ◌-◌, ◌∙◌, length, ℕ, suc,
}

abbrev pub Ended : Option RunStatus → World → Type 0
Ended r v = (r ≡ some v.live.status) × (is_running v.live.status ≡ false) × IsStored v

-- From a safe state, a run that stops returns the status that is stored: the last checkpoint is the
-- shared state, it is valid, its usage lies within the pause, and every label of the allowance has
-- its solution. A run that raises leaves a checkpoint that is valid and within the pause.
passes-IsStored :
    (config : RefinementConfig) (turns : List Turn) (w : World)
    → IsCalm w
    → Outcome (λ r v. (r ≡ none × IsCalm v) ⊎ Ended r v) SavedIsSafe (passes config turns w)
unfolding passes
passes-IsStored config [] w i = return-Outcome (inl (refl, i))
passes-IsStored config (turn ∷ turns) w i =
    bind-Outcome {Q = λ _. IsStored} (pass config turn) w (pass-IsStored config turn w i) (λ _ v j.
      branch-Outcome (is_running v.live.status) _ _ v
        (λ b.
          passes-IsStored config turns v
            (record { live = j.safe; saved = subst IsSafe (sym j.stored) j.safe }))
        (λ b. return-Outcome (inr (refl, b, j))))

-- From a running state that is safe, live and saved (valid, within its pause, with every open
-- label but the last inside the allowance), whatever the session, the storage and the provider do:
-- a run that returns has stored the state that it returns with, which is valid, within its pause,
-- and complete where it stopped. A run that raises has left a safe checkpoint.
pub run_phases-IsStored :
    (config : RefinementConfig) (turns : List Turn) (w : World)
    → IsCalm w
    → is_running w.live.status ≡ true
    → Outcome (λ r v. (r ≡ none × IsCalm v) ⊎ Ended r v) SavedIsSafe (run_phases config turns w)
unfolding run_phases
run_phases-IsStored config turns w i b =
    proceed-Outcome {Q = λ _. IsCalm} (validate w.live)
      (lift-Outcome (validate w.live) (λ _. i) i.saved)
      (λ _ v j.
        branch-Outcome (is_running w.live.status) _ _ v (λ _. passes-IsStored config turns v j)
          (λ e. absurd (false≢true (sym e ∙ b))))

-- A pass makes progress: it stops the run, or it had tokens left and spent some.
abbrev Spends : RefinementState → RefinementState → Type 0
Spends s t =
    (is_running t.status ≡ false)
    ⊎ ((t.budget_tokens ≡ s.budget_tokens)
        × (s.output_tokens < t.output_tokens)
        × (s.output_tokens < s.budget_tokens))

budget_gain :
    (s t u : RefinementState)
    → t.budget_tokens ≡ s.budget_tokens
    → t.output_tokens ≡ s.output_tokens
    → Gains t u
    → Gains s u
budget_gain s t u b o g = ground arith

spending_from_gain :
    (s t : RefinementState) → s.output_tokens < s.budget_tokens → Gains s t → Spends s t
spending_from_gain s t h g = ground arith

room_of :
    (s : RefinementState)
    → is_running (get_budget_status s) ≡ true
    → s.output_tokens < s.budget_tokens
unfolding get_budget_status
room_of s h = ground arith

fewer :
    (s t : RefinementState) (n : ℕ)
    → is_running t.status ≡ true
    → s.budget_tokens - s.output_tokens < suc n
    → Spends s t
    → t.budget_tokens - t.output_tokens < n
fewer s t n b h g = ground arith

module _ (config : RefinementConfig) (turn : Turn) (smooth : IsSmooth turn) where
  -- From the usage reported so far.
  run_phase-Gains :
      (w v : World)
      → IsSpent w.live.budget_tokens w.live.output_tokens v
      → Outcome (λ _. Advanced w) Never (run_phase config turn v)
  run_phase-Gains w v i =
      weaken-Outcome _ (λ _ u g. budget_gain w.live v.live u.live i.same_budget i.spent g)
        (run_phase-Advanced config turn smooth v)

  work-Spends :
      (w : World)
      → (is_running w.live.status ≡ true → w.live.output_tokens < w.live.budget_tokens)
      → Outcome (λ _ v. Spends w.live v.live) Never (work config turn w)
  unfolding work
  work-Spends w room =
      if-Outcome (is_running w.live.status)
        (λ b.
          weaken-Outcome _ (λ _ v g. spending_from_gain w.live v.live (room b) g)
            (bind-Outcome {Q = λ _. IsSpent w.live.budget_tokens w.live.output_tokens}
              (warn_if_needed turn) w
              (warn-IsSpent turn smooth _ _ w (record { same_budget = refl; spent = refl }))
              (λ _ v j. run_phase-Gains w v j)))
        (λ e. return-Outcome (inl e))

  Spends-capture :
      (s t : RefinementState) (through : ℤ)
      → Spends s t
      → Spends s (capture_solution_checkpoints t through)
  Spends-capture s t through g = ground (
    arith,
    capture-field (λ u. is_running u.status) (λ u d. refl) t through,
    capture-field (λ u. u.budget_tokens) (λ u d. refl) t through,
    capture-field (λ u. u.output_tokens) (λ u d. refl) t through,
  )

  checkpoint_returns :
      (w : World) → IsValid w.live → Outcome (λ _ v. v.live ≡ w.live) Never (checkpoint turn w)
  unfolding checkpoint
  checkpoint_returns w i =
      let Q : Unit {0} → World → Type 0 = λ _ v. v.live ≡ w.live in
      proceed-Outcome {Q = Q} (validate w.live) (ok-Outcome _ ((validate_iff w.live).1 i) refl)
        (λ _ v j.
          proceed-Outcome {Q = Q} turn.closes (ok-Outcome turn.closes smooth.closes j) (λ _ u k.
            proceed-Outcome {Q = Q} turn.saves (ok-Outcome turn.saves smooth.saves k) (λ _ x l.
              branch-Outcome (is_running w.live.status) (lift turn.connects) (pure tt) _
                (λ _. ok-Outcome turn.connects smooth.connects l) (λ _. return-Outcome l))))

  pass-Spends :
      (w : World)
      → IsCalm w
      → Outcome (λ _ v. IsStored v × Spends w.live v.live) Never (pass config turn w)
  unfolding pass
  pass-Spends w i =
      let w' : World = (refresh_status w).1 in
      let i' : IsCalm w' = record { live = set_status-IsSafe w.live _ i.live; saved = i.saved } in
      bind-Outcome {Q = λ _ v. IsCalm v × Spends w.live v.live} (work config turn) w'
        (both-Outcome _ (work-IsCalm config turn w' i') (work-Spends w' (room_of w.live)))
        (λ _ v (j, g).
          bind-Outcome {Q = λ _ u. IsCaptured u × Spends w.live u.live} capture_through v
            (return-Outcome
              ((capture_through-IsCaptured v j).ends, Spends-capture w.live v.live _ g))
            (λ _ u (k, h). both-Outcome _ (checkpoint-IsStored turn u k) (
              weaken-Outcome _ (λ _ x e. subst (Spends w.live) (sym e) h)
                (checkpoint_returns u k.calm.live.valid))))

passes_end :
    (config : RefinementConfig) (turns : List Turn) (w : World)
    → IsCalm w
    → All IsSmooth turns
    → w.live.budget_tokens - w.live.output_tokens < length turns
    → Outcome Ended Never (passes config turns w)
unfolding passes
passes_end config [] w i smooth enough = absurd (omega arith)
passes_end config (turn ∷ turns) w i smooth enough =
    bind-Outcome {Q = λ _ v. IsStored v × Spends w.live v.live} (pass config turn) w
      (pass-Spends config turn smooth.0 w i)
      (λ _ v (j, g).
        branch-Outcome (is_running v.live.status) _ _ v
          (λ b.
            passes_end config turns v
              (record { live = j.safe; saved = subst IsSafe (sym j.stored) j.safe }) smooth.1
              (fewer w.live v.live (length turns) b enough g))
          (λ b. return-Outcome (refl, b, j)))

-- From a safe running state, with a session that answers each phase and a storage that works, one
-- turn more than the tokens left suffices: the run returns, with the status that it has stored.
pub run_phases_end :
    (config : RefinementConfig) (turns : List Turn) (w : World)
    → IsCalm w
    → is_running w.live.status ≡ true
    → All IsSmooth turns
    → w.live.budget_tokens - w.live.output_tokens < length turns
    → Outcome Ended Never (run_phases config turns w)
unfolding run_phases
run_phases_end config turns w i b smooth enough =
    proceed-Outcome {Q = λ _ v. v ≡ w} (validate w.live)
      (ok-Outcome (validate w.live) ((validate_iff w.live).1 i.live.valid) refl)
      (λ _ v e.
        branch-Outcome (is_running w.live.status) _ _ v
          (λ _.
            subst (λ x. Outcome Ended Never (passes config turns x)) (sym e)
              (passes_end config turns w i smooth enough))
          (λ f. absurd (false≢true (sym f ∙ b))))
