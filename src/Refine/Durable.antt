-- ===== src/Refine/Durable.antt =====
-- What one pass of the loop leaves in the shared state and on disk.
use de_framework.Refine.Capture.{Reachable, progress-Reachable, capture-IsValid, capture-Reachable}
use de_framework.Session.Event.{SessionEvent, is_usage, is_interrupted}
use de_framework.Refine.Budget.{update_token_usage}
use de_framework.Exec.{
  Outcome, bind-Outcome, lift-Outcome, if-Outcome, proceed-Outcome, return-Outcome, raise-Outcome,
  branch-Outcome,
}
use de_framework.Refine.Valid.{IsValid, progress-IsValid}
use de_framework.Refine.State.{RefinementState, RunStatus}
use de_framework.Prelude.{
  ℕ, ◌+◌, ◌≤◌, ◌≡◌, Bool, Option, List, some, true, ◌-◌, ◌∷◌, Bool-cases, ltb, inl, inr, ◌&&◌, not,
  [], none,
}
use de_framework.Refine.Phases.{
  World, consume, interrupt_if_needed, warn_if_needed, Turn, on_live, Signal, Action,
  interrupt_request, notice, must_interrupt, needs_no_notice, raised, is_low, event,
}

abbrev pub WithinPause : RefinementState → Type 0
WithinPause s = (p : ℕ) → s.pause_at_tokens ≡ some p → s.output_tokens ≤ p

-- A state that may be saved.
pub record IsSafe (s : RefinementState) : Type 0 where
  pub valid : IsValid s
  pub reach : Reachable s
  pub within : WithinPause s

-- Inside a phase, where usage may have passed the pause.
pub record IsSteady (w : World) : Type 0 where
  pub valid : IsValid w.live
  pub reach : Reachable w.live
  pub saved : IsSafe w.saved

abbrev pub SavedIsSafe : World → Type 0
SavedIsSafe w = IsSafe w.saved

-- Between phases.
pub record IsCalm (w : World) : Type 0 where
  pub live : IsSafe w.live
  pub saved : IsSafe w.saved

pub progress-IsSteady :
    (w : World)
    → IsSteady w
    → (warned : Bool) (status : RunStatus) (actions : List Action)
    → IsSteady (record w {
      live = record w.live { warning_sent = warned; status = status };
      actions = actions;
    })
progress-IsSteady w i warned status actions = record {
  valid = progress-IsValid i.valid _ _ _ _ _ _ _ i.valid.streak;
  reach = progress-Reachable _ i.reach _ _ _ _ _ _ _;
  saved = i.saved;
}

pub progress-IsCalm :
    (w : World)
    → IsCalm w
    → (warned : Bool) (status : RunStatus) (actions : List Action)
    → IsCalm (record w {
      live = record w.live { warning_sent = warned; status = status };
      actions = actions;
    })
progress-IsCalm w i warned status actions = record {
  live = record {
    valid = progress-IsValid i.live.valid _ _ _ _ _ _ _ i.live.valid.streak;
    reach = progress-Reachable _ i.live.reach _ _ _ _ _ _ _;
    within = i.live.within;
  };
  saved = i.saved;
}

-- A notice changes its flag and the record of actions, and an interrupt the record alone.
module _ (P R : World → Type 0) (turn : Turn)
    (progress : (w : World)
      → P w
      → (warned : Bool) (actions : List Action)
      → P (record w { live = record w.live { warning_sent = warned }; actions = actions })) where
  pub warn_keeps :
      ((w : World) → P w → Outcome (λ _. P) R (turn.queues, w))
      → (w : World) → P w
      → Outcome (λ _. P) R (warn_if_needed turn w)
  unfolding warn_if_needed
  warn_keeps queues w p =
      if-Outcome (needs_no_notice w.live) (λ _. return-Outcome p)
        (λ _.
          if-Outcome (is_low w.live)
            (λ _. proceed-Outcome {Q = λ _. P} turn.queues (queues w p) (λ _ v q. return-Outcome (
              progress v q true
                (notice (w.live.budget_tokens - w.live.output_tokens) ∷ v.actions))))
            (λ _. return-Outcome p))

  pub interrupt_keeps :
      ((w : World) → P w → Outcome (λ _. P) R (turn.interrupts, w))
      → (requested : Bool) (w : World) → P w
      → Outcome (λ _. P) R (interrupt_if_needed turn requested w)
  unfolding interrupt_if_needed
  interrupt_keeps interrupts requested w p =
      if-Outcome (must_interrupt requested w.live)
        (λ _. proceed-Outcome {Q = λ _. P} turn.interrupts (interrupts w p) (λ _ v q.
          return-Outcome (progress v q v.live.warning_sent (interrupt_request ∷ v.actions))))
        (λ _. return-Outcome p)

module _ (turn : Turn) where
  pub warn-IsSteady :
      (w : World) → IsSteady w → Outcome (λ _. IsSteady) SavedIsSafe (warn_if_needed turn w)
  warn-IsSteady =
      warn_keeps IsSteady SavedIsSafe turn (λ w i b a. progress-IsSteady w i b w.live.status a)
        (λ w i. lift-Outcome turn.queues (λ _. i) i.saved)

  pub warn-IsCalm :
      (w : World) → IsCalm w → Outcome (λ _. IsCalm) SavedIsSafe (warn_if_needed turn w)
  warn-IsCalm =
      warn_keeps IsCalm SavedIsSafe turn (λ w i b a. progress-IsCalm w i b w.live.status a)
        (λ w i. lift-Outcome turn.queues (λ _. i) i.saved)

  pub interrupt-IsSteady :
      (requested : Bool) (w : World)
      → IsSteady w
      → Outcome (λ _. IsSteady) SavedIsSafe (interrupt_if_needed turn requested w)
  interrupt-IsSteady =
      interrupt_keeps IsSteady SavedIsSafe turn (λ w i b a. progress-IsSteady w i b w.live.status a)
        (λ w i. lift-Outcome turn.interrupts (λ _. i) i.saved)

spent-IsValid :
    (s : RefinementState) (total : ℕ) → IsValid s → IsValid (record s { output_tokens = total })
spent-IsValid s total v = progress-IsValid v _ _ _ _ _ _ _ v.streak

spent-Reachable :
    (s : RefinementState) (total : ℕ) → Reachable s → Reachable (record s { output_tokens = total })
spent-Reachable s total r =
    progress-Reachable s r s.phase total s.rounds s.no_gap_critiques s.warning_sent s.solution
      s.status

update-IsSteady :
    (total : ℕ) (w : World)
    → IsSteady w
    → Outcome (λ _. IsSteady) SavedIsSafe (on_live (update_token_usage total) w)
unfolding update_token_usage
update-IsSteady total w i = elim (Bool-cases (ltb total w.live.output_tokens)) [
  | inl e ↦ rw e (raise-Outcome i.saved)
  | inr e ↦ rw e (
      return-Outcome (record {
        valid = capture-IsValid _ _ (spent-IsValid w.live total i.valid);
        reach =
            capture-Reachable _ _ (spent-IsValid w.live total i.valid)
              (spent-Reachable w.live total i.reach);
        saved = i.saved;
      }))
]

pub consume-IsSteady :
    (turn : Turn) (starting : ℕ) (requested : Bool) (terminal : Option SessionEvent)
    (signals : List Signal) (w : World)
    → IsSteady w
    → Outcome (λ _. IsSteady) SavedIsSafe (consume turn starting requested terminal signals w)
unfolding consume
consume-IsSteady turn starting requested terminal [] w i = return-Outcome i
consume-IsSteady turn starting requested terminal (raised e ∷ rest) w i = raise-Outcome i.saved
consume-IsSteady turn starting requested (some last) (event e ∷ rest) w i = raise-Outcome i.saved
consume-IsSteady turn starting requested none (event e ∷ rest) w i =
    bind-Outcome {Q = λ _. IsSteady} (on_live (update_token_usage (starting + e.output_tokens))) w
      (update-IsSteady _ w i)
      (λ _ v j.
        branch-Outcome (is_usage e.kind) _ _ v
          (λ _.
            bind-Outcome {Q = λ _. IsSteady} (interrupt_if_needed turn requested) v
              (interrupt-IsSteady turn requested v j)
              (λ req u k.
                bind-Outcome {Q = λ _. IsSteady} (warn_if_needed turn) u (warn-IsSteady turn u k)
                  (λ _ x l. consume-IsSteady turn starting req none rest x l)))
          (λ _.
            branch-Outcome (is_interrupted e.kind && not requested) _ _ v
              (λ _. raise-Outcome j.saved)
              (λ _. consume-IsSteady turn starting requested (some e) rest v j)))
