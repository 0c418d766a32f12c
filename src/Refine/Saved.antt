-- ===== src/Refine/Saved.antt =====
-- When the loop of harness/self_refine/self_refine.py writes a checkpoint: a phase leaves the saved
-- state alone, and a run that has not stopped has saved running work.
use de_framework.Session.Event.{SessionEvent, is_interrupted, is_usage}
use de_framework.Refine.Budget.{update_token_usage}
use de_framework.Exec.{
  Result, Outcome, bind-Outcome, if-Outcome, step-Outcome, return-Outcome, branch-Outcome,
  lift-Outcome, lift, map-Outcome, pure, raise-Outcome,
}
use de_framework.Refine.Phases.{
  World, checkpoint, pass, passes, run_phases, Turn, consume, interrupt_if_needed,
  resolve_phase_outcome, run_phase, warn_if_needed, work, on_live, restore, must_interrupt,
  needs_no_notice, Signal, beyond_pause, is_low, need_terminal, refresh_status, raised,
  capture_through, event,
}
use de_framework.Refine.State.{RefinementState, RefinementConfig, is_running, validate}
use de_framework.Prelude.{
  refl, ℕ, List, ◌≡◌, Bool, none, subst, true, Option, false, sym, ◌∷◌, [], ◌||◌, ltb, some, ◌+◌,
  ◌&&◌, not,
}

-- The saved state is `s`, whether an action returns or raises.
abbrev pub Holding : {A : Type 0} → RefinementState → Result A × World → Type 0
Holding s p = Outcome (λ _ v. v.saved ≡ s) (λ v. v.saved ≡ s) p

module _ (s : RefinementState) (turn : Turn) where
  update-Holding : (n : ℕ) (w : World) → w.saved ≡ s → Holding s (on_live (update_token_usage n) w)
  update-Holding n w h = lift-Outcome (update_token_usage n w.live).0 (λ _. h) h

  warn-Holding : (w : World) → w.saved ≡ s → Holding s (warn_if_needed turn w)
  unfolding warn_if_needed
  warn-Holding w h =
      if-Outcome (needs_no_notice w.live) (λ _. return-Outcome h)
        (λ _.
          if-Outcome (is_low w.live) (λ _. step-Outcome turn.queues _ w (λ _ _. return-Outcome h) h)
            (λ _. return-Outcome h))

  interrupt-Holding :
      (requested : Bool) (w : World)
      → w.saved ≡ s
      → Holding s (interrupt_if_needed turn requested w)
  unfolding interrupt_if_needed
  interrupt-Holding requested w h =
      if-Outcome (must_interrupt requested w.live)
        (λ _. step-Outcome turn.interrupts _ w (λ _ _. return-Outcome h) h) (λ _. return-Outcome h)

  consume-Holding :
      (starting : ℕ) (requested : Bool) (terminal : Option SessionEvent) (signals : List Signal)
      (w : World)
      → w.saved ≡ s
      → Holding s (consume turn starting requested terminal signals w)
  unfolding consume
  consume-Holding starting requested terminal [] w h = return-Outcome h
  consume-Holding starting requested terminal (raised e ∷ rest) w h = raise-Outcome h
  consume-Holding starting requested (some last) (event e ∷ rest) w h = raise-Outcome h
  consume-Holding starting requested none (event e ∷ rest) w h =
      bind-Outcome {Q = λ _ v. v.saved ≡ s}
        (on_live (update_token_usage (starting + e.output_tokens))) w (update-Holding _ w h)
        (λ _ v j.
          branch-Outcome (is_usage e.kind) _ _ v
            (λ _.
              bind-Outcome {Q = λ _ u. u.saved ≡ s} (interrupt_if_needed turn requested) v
                (interrupt-Holding requested v j)
                (λ req u k.
                  bind-Outcome {Q = λ _ x. x.saved ≡ s} (warn_if_needed turn) u (warn-Holding u k)
                    (λ _ x l. consume-Holding starting req none rest x l)))
            (λ _.
              branch-Outcome (is_interrupted e.kind && not requested) _ _ v (λ _. raise-Outcome j)
                (λ _. consume-Holding starting requested (some e) rest v j)))

  restore-Holding : (w : World) → w.saved ≡ s → Holding s (restore turn w)
  unfolding restore
  restore-Holding w h =
      step-Outcome turn.closes _ w
        (λ _ _. step-Outcome turn.restores _ w (λ _ _. return-Outcome h) h) h

  module _ (config : RefinementConfig) where
    resolve-Holding :
        (e : SessionEvent) (w : World)
        → w.saved ≡ s
        → Holding s (resolve_phase_outcome config turn e w)
    unfolding resolve_phase_outcome
    resolve-Holding e w h =
        if-Outcome (beyond_pause w.live e)
          (λ _.
            bind-Outcome {Q = λ _ v. v.saved ≡ s} (restore turn) w (restore-Holding w h)
              (λ _ v j. return-Outcome j))
          (λ _.
            if-Outcome (is_interrupted e.kind || ltb w.live.budget_tokens w.live.output_tokens)
              (λ _. return-Outcome h) (λ _. return-Outcome h))

    run_phase-Holding : (w : World) → w.saved ≡ s → Holding s (run_phase config turn w)
    unfolding run_phase
    run_phase-Holding w h =
        bind-Outcome {Q = λ _ v. v.saved ≡ s}
          (consume turn w.live.output_tokens false none turn.signals) _
          (consume-Holding w.live.output_tokens false none turn.signals _ h)
          (λ terminal v j.
            step-Outcome (need_terminal terminal) _ v (λ e _. resolve-Holding e v j) j)

    work-Holding : (w : World) → w.saved ≡ s → Holding s (work config turn w)
    unfolding work
    work-Holding w h =
        if-Outcome (is_running w.live.status)
          (λ _.
            bind-Outcome {Q = λ _ v. v.saved ≡ s} (warn_if_needed turn) w (warn-Holding w h)
              (λ _ v j. run_phase-Holding v j))
          (λ _. return-Outcome h)

-- The last checkpoint is work that goes on.
abbrev pub SavedRuns : World → Type 0
SavedRuns w = is_running w.saved.status ≡ true

checkpoint-SavedRuns :
    (turn : Turn) (w : World)
    → SavedRuns w
    → Outcome (λ _ v. v.saved ≡ v.live) SavedRuns (checkpoint turn w)
unfolding checkpoint
checkpoint-SavedRuns turn w h =
    step-Outcome (validate w.live) _ w
      (λ _ _.
        step-Outcome turn.closes _ w
          (λ _ _.
            step-Outcome turn.saves _ w
              (λ _ _.
                branch-Outcome (is_running w.live.status) (lift turn.connects) (pure tt) _
                  (λ b. lift-Outcome turn.connects (λ _. refl) b) (λ _. return-Outcome refl))
              h)
          h)
      h

pass-SavedRuns :
    (config : RefinementConfig) (turn : Turn) (w : World)
    → SavedRuns w
    → Outcome (λ _ v. v.saved ≡ v.live) SavedRuns (pass config turn w)
unfolding pass
pass-SavedRuns config turn w h =
    let runs : (v : World) → v.saved ≡ w.saved → SavedRuns v =
      λ v e. subst (λ s. is_running s.status ≡ true) (sym e) h in
    let w' : World = (refresh_status w).1 in
    bind-Outcome {Q = λ _ v. v.saved ≡ w.saved} (work config turn) w'
      (map-Outcome (work config turn w') (λ _ _ e. e) runs
        (work-Holding w.saved turn config w' refl))
      (λ _ v e.
        bind-Outcome {Q = λ _ u. u.saved ≡ w.saved} capture_through v (return-Outcome e)
          (λ _ u k. checkpoint-SavedRuns turn u (runs u k)))

passes-SavedRuns :
    (config : RefinementConfig) (turns : List Turn) (w : World)
    → SavedRuns w
    → Outcome (λ r v. r ≡ none → SavedRuns v) SavedRuns (passes config turns w)
unfolding passes
passes-SavedRuns config [] w h = return-Outcome (λ _. h)
passes-SavedRuns config (turn ∷ turns) w h =
    bind-Outcome {Q = λ _ v. v.saved ≡ v.live} (pass config turn) w (pass-SavedRuns config turn w h)
      (λ _ v e.
        branch-Outcome (is_running v.live.status) _ _ v
          (λ b. passes-SavedRuns config turns v (subst (λ s. is_running s.status ≡ true) (sym e) b))
          (λ _. return-Outcome (λ k. cc)))

-- A run that raises, or that waits for one more turn, has saved running work if it began with it.
pub run_phases-SavedRuns :
    (config : RefinementConfig) (turns : List Turn) (w : World)
    → SavedRuns w
    → Outcome (λ r v. r ≡ none → SavedRuns v) SavedRuns (run_phases config turns w)
unfolding run_phases
run_phases-SavedRuns config turns w h =
    step-Outcome (validate w.live) _ w
      (λ _ _.
        branch-Outcome (is_running w.live.status) _ _ w (λ _. passes-SavedRuns config turns w h)
          (λ _. return-Outcome (λ _. h)))
      h
