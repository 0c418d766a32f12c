-- ===== src/Refine/Passes.antt =====
-- What one pass of the loop leaves in the shared state and on disk: the end of a phase, the capture
-- of its labels and the checkpoint.
use de_framework.Refine.Capture.{
  capture-Captured, progress-Reachable, capture-IsValid, capture-Reachable, capture_at_limit,
}
use de_framework.Exec.{
  Outcome, bind-Outcome, if-Outcome, proceed-Outcome, lift-Outcome, return-Outcome, branch-Outcome,
  lift, pure,
}
use de_framework.Text.{Text}
use de_framework.Refine.Valid.{progress-IsValid}
use de_framework.Prelude.{
  ℤ, ◌≡◌, arith, false, length, none, subst, sym, ◌||◌, ltb, ap, ◌∷◌, ◌∙◌, refl,
}
use de_framework.Refine.Durable.{
  IsCalm, IsSafe, IsSteady, SavedIsSafe, WithinPause, consume-IsSteady, warn-IsCalm,
}
use de_framework.Session.Event.{SessionEvent, is_interrupted}
use de_framework.Refine.Phases.{
  World, checkpoint, pass, resolve_phase_outcome, restore, run_phase, Turn, beyond_pause,
  capture_through, consume, need_terminal, save, through_tokens, warn_if_needed, work,
  refresh_status,
}
use de_framework.Refine.Budget.{apply_result, apply_phase_result, capture_solution_checkpoints}
use de_framework.Refine.State.{
  RefinementState, Phase, RefinementConfig, RunStatus, is_running, critique, paused, active_limit,
  validate,
}

pub set_status-IsSafe :
    (s : RefinementState) (status : RunStatus) → IsSafe s → IsSafe (record s { status = status })
set_status-IsSafe s status h = record {
  valid = progress-IsValid h.valid _ _ _ _ _ _ _ h.valid.streak;
  reach = progress-Reachable s h.reach _ _ _ _ _ _ _;
  within = h.within;
}

apply_result-IsSafe :
    (phase : Phase) (config : RefinementConfig) (text : Text) (s : RefinementState)
    → IsSafe s
    → IsSafe (apply_result phase config text s).1
unfolding apply_result
apply_result-IsSafe critique config text s h = record {
  valid = progress-IsValid h.valid _ _ _ _ _ _ _ (ground (arith, h.valid.streak));
  reach = progress-Reachable s h.reach _ _ _ _ _ _ _;
  within = h.within;
}
apply_result-IsSafe _ config text s h = record {
  valid = progress-IsValid h.valid _ _ _ _ _ _ _ h.valid.streak;
  reach = progress-Reachable s h.reach _ _ _ _ _ _ _;
  within = h.within;
}

restore-IsCalm :
    (turn : Turn) (w : World) → SavedIsSafe w → Outcome (λ _. IsCalm) SavedIsSafe (restore turn w)
unfolding restore
restore-IsCalm turn w h =
    proceed-Outcome {Q = λ _. SavedIsSafe} turn.closes (lift-Outcome turn.closes (λ _. h) h)
      (λ _ v j.
        proceed-Outcome {Q = λ _. SavedIsSafe} turn.restores (lift-Outcome turn.restores (λ _. j) j)
          (λ _ u k. return-Outcome (record { live = k; saved = k })))

beyond_pause-WithinPause :
    (s : RefinementState) (e : SessionEvent) → beyond_pause s e ≡ false → WithinPause s
beyond_pause-WithinPause s e h p q = ground arith

-- A phase that is not rolled back leaves usage within the pause.
resolve-IsCalm :
    (config : RefinementConfig) (turn : Turn) (e : SessionEvent) (w : World)
    → IsSteady w
    → Outcome (λ _. IsCalm) SavedIsSafe (resolve_phase_outcome config turn e w)
unfolding resolve_phase_outcome apply_phase_result
resolve-IsCalm config turn e w i =
    if-Outcome (beyond_pause w.live e)
      (λ _.
        bind-Outcome {Q = λ _. IsCalm} (restore turn) w (restore-IsCalm turn w i.saved) (λ _ v j.
          return-Outcome
            (record { live = set_status-IsSafe v.live paused j.live; saved = j.saved })))
      (λ b.
        let safe : IsSafe w.live = record {
          valid = i.valid;
          reach = i.reach;
          within = beyond_pause-WithinPause w.live e b;
        } in
        if-Outcome (is_interrupted e.kind || ltb w.live.budget_tokens w.live.output_tokens)
          (λ _. return-Outcome (record { live = set_status-IsSafe w.live _ safe; saved = i.saved }))
          (λ _. return-Outcome (record {
            live =
                set_status-IsSafe _ _ (apply_result-IsSafe w.live.phase config e.text w.live safe);
            saved = i.saved;
          })))

run_phase-IsCalm :
    (config : RefinementConfig) (turn : Turn) (w : World)
    → IsCalm w
    → Outcome (λ _. IsCalm) SavedIsSafe (run_phase config turn w)
unfolding run_phase
run_phase-IsCalm config turn w i =
    bind-Outcome {Q = λ _. IsSteady} (consume turn w.live.output_tokens false none turn.signals) _
      (consume-IsSteady turn _ false none turn.signals _
        (record { valid = i.live.valid; reach = i.live.reach; saved = i.saved }))
      (λ terminal v j.
        proceed-Outcome {Q = λ _. IsSteady} (need_terminal terminal)
          (lift-Outcome (need_terminal terminal) (λ _. j) j.saved)
          (λ e u k. resolve-IsCalm config turn e u k))

-- After a pass the last checkpoint is the shared state, and a stopped run has a solution frozen at
-- each label of its allowance.
pub record IsStored (w : World) : Type 0 where
  pub safe : IsSafe w.live
  pub stored : w.saved ≡ w.live
  pub complete :
      is_running w.live.status ≡ false
      → length w.live.solution_checkpoints ≡ w.live.checkpoint_count

-- Before the checkpoint: the labels are captured as far as the status asks.
pub record IsCaptured (w : World) : Type 0 where
  pub calm : IsCalm w
  pub complete :
      is_running w.live.status ≡ false
      → length w.live.solution_checkpoints ≡ w.live.checkpoint_count

capture-IsSafe :
    (s : RefinementState) (through : ℤ) → IsSafe s → IsSafe (capture_solution_checkpoints s through)
capture-IsSafe s through h =
    let c = capture-Captured s through h.valid.labels in
    record {
      valid = capture-IsValid s through h.valid;
      reach = capture-Reachable s through h.valid h.reach;
      within = subst WithinPause (sym c.rest) h.within;
    }

through_stopped :
    (s : RefinementState) → is_running s.status ≡ false → through_tokens s ≡ active_limit s
through_stopped s h = rw h

pub capture_through-IsCaptured :
    (w : World) → IsCalm w → Outcome (λ _. IsCaptured) SavedIsSafe (capture_through w)
capture_through-IsCaptured w i = return-Outcome (record {
  calm = record { live = capture-IsSafe w.live _ i.live; saved = i.saved };
  complete = λ h. capture_at_limit w.live _ i.live.valid i.live.reach (
      through_stopped w.live (
        sym (ap (λ t. is_running t.status) (capture-Captured w.live _ i.live.valid.labels).rest)
        ∙ h));
})

pub checkpoint-IsStored :
    (turn : Turn) (w : World)
    → IsCaptured w
    → Outcome (λ _. IsStored) SavedIsSafe (checkpoint turn w)
unfolding checkpoint
checkpoint-IsStored turn w i =
    proceed-Outcome {Q = λ _. IsCaptured} (validate w.live) (lift-Outcome _ (λ _. i) i.calm.saved)
      (λ _ v j.
        proceed-Outcome {Q = λ _. IsCaptured} turn.closes
          (lift-Outcome turn.closes (λ _. j) j.calm.saved)
          (λ _ u k.
            proceed-Outcome {Q = λ _. IsCaptured} turn.saves
              (lift-Outcome turn.saves (λ _. k) k.calm.saved)
              (λ _ x l.
                branch-Outcome (is_running w.live.status) (lift turn.connects) (pure tt) _
                  (λ _. lift-Outcome turn.connects (λ _. store x l) l.calm.live)
                  (λ _. return-Outcome (store x l)))))
  where
    store :
        (x : World)
        → IsCaptured x
        → IsStored (record x { saved = x.live; actions = save ∷ x.actions })
    store x l = record { safe = l.calm.live; stored = refl; complete = l.complete }

pub work-IsCalm :
    (config : RefinementConfig) (turn : Turn) (w : World)
    → IsCalm w
    → Outcome (λ _. IsCalm) SavedIsSafe (work config turn w)
unfolding work
work-IsCalm config turn w i =
    if-Outcome (is_running w.live.status)
      (λ _.
        bind-Outcome {Q = λ _. IsCalm} (warn_if_needed turn) w (warn-IsCalm turn w i)
          (λ _ v j. run_phase-IsCalm config turn v j))
      (λ _. return-Outcome i)

-- One pass from a safe state, whatever the session and the storage do: it returns with the state
-- stored, or raises with a safe checkpoint on disk.
pub pass-IsStored :
    (config : RefinementConfig) (turn : Turn) (w : World)
    → IsCalm w
    → Outcome (λ _. IsStored) SavedIsSafe (pass config turn w)
unfolding pass
pass-IsStored config turn w i =
    let w' : World = (refresh_status w).1 in
    let i' : IsCalm w' = record { live = set_status-IsSafe w.live _ i.live; saved = i.saved } in
    bind-Outcome {Q = λ _. IsCalm} (work config turn) w' (work-IsCalm config turn w' i') (λ _ v j.
      bind-Outcome {Q = λ _. IsCaptured} capture_through v (capture_through-IsCaptured v j)
        (λ _ u k. checkpoint-IsStored turn u k))
