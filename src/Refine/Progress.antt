-- ===== src/Refine/Progress.antt =====
-- The progress of a phase of harness/self_refine/self_refine.py where the session answers.
use de_framework.Text.{Text}
use de_framework.Refine.State.{RefinementConfig, is_running, Phase, RefinementState, critique}
use de_framework.Refine.Capture.{capture-field}
use de_framework.Refine.Durable.{interrupt_keeps, warn_keeps}
use de_framework.Session.Event.{SessionEvent, completed, usage, EventKind, is_interrupted, is_usage}
use de_framework.Refine.Budget.{update_token_usage, apply_result, apply_phase_result}
use de_framework.Exec.{
  Outcome, ok, ok-Outcome, bind-Outcome, if-Outcome, return-Outcome, branch-Outcome,
  proceed-Outcome,
}
use de_framework.Refine.Phases.{
  Turn, World, consume, Signal, interrupt_if_needed, warn_if_needed, on_live, raised, event,
  resolve_phase_outcome, restore, run_phase, beyond_pause, need_terminal,
}
use de_framework.Prelude.{
  ℕ, Bool, List, Option, ◌≡◌, ◌≤◌, some, ◌+◌, ◌∷◌, none, ◌<◌, [], arith, ltb, ltb→lt, ◌∙◌,
  Bool-cases, inl, false, inr, true, ◌&&◌, not, refl, pred_ℤ, ◌⊎◌, ◌||◌, subst, sym,
}

-- The signals of a phase that a session answers: usage that does not fall, then one completed
-- event that reports output. `prev` is the usage reported before.
abbrev pub Delivers : ℕ → List Signal → Type 0
Delivers prev [] = ⊥
Delivers prev (raised e ∷ rest) = ⊥
Delivers prev (event e ∷ []) =
    (e.kind ≡ completed) × (prev ≤ e.output_tokens) × (0 < e.output_tokens)
Delivers prev (event e ∷ (next ∷ rest)) =
    (e.kind ≡ usage) × (prev ≤ e.output_tokens) × Delivers e.output_tokens (next ∷ rest)

pub record IsSmooth (turn : Turn) : Type 0 where
  pub delivers : Delivers 0 turn.signals
  pub queues : turn.queues ≡ ok tt
  pub interrupts : turn.interrupts ≡ ok tt
  pub closes : turn.closes ≡ ok tt
  pub restores : turn.restores ≡ ok tt
  pub saves : turn.saves ≡ ok tt
  pub connects : turn.connects ≡ ok tt

-- The shared state with its budget and its usage.
pub record IsSpent (budget total : ℕ) (w : World) : Type 0 where
  pub same_budget : w.live.budget_tokens ≡ budget
  pub spent : w.live.output_tokens ≡ total

abbrev pub Never : World → Type 0
Never w = ⊥

not_usage : (k : EventKind) → k ≡ completed → is_usage k ≡ true → ⊥
not_usage k e h = ground arith

not_interrupted :
    (k : EventKind) (b : Bool) → k ≡ completed → (is_interrupted k && not b) ≡ true → ⊥
not_interrupted k b e h = ground arith

is_a_usage : (k : EventKind) → k ≡ usage → is_usage k ≡ false → ⊥
is_a_usage k e h = ground arith

module _ (turn : Turn) (smooth : IsSmooth turn) (budget : ℕ) where
  pub warn-IsSpent :
      (total : ℕ) (w : World)
      → IsSpent budget total w
      → Outcome (λ _. IsSpent budget total) Never (warn_if_needed turn w)
  warn-IsSpent total =
      warn_keeps (IsSpent budget total) Never turn
        (λ w i b a. record { same_budget = i.same_budget; spent = i.spent })
        (λ w i. ok-Outcome turn.queues smooth.queues i)

  interrupt-IsSpent :
      (total : ℕ) (requested : Bool) (w : World)
      → IsSpent budget total w
      → Outcome (λ _. IsSpent budget total) Never (interrupt_if_needed turn requested w)
  interrupt-IsSpent total =
      interrupt_keeps (IsSpent budget total) Never turn
        (λ w i b a. record { same_budget = i.same_budget; spent = i.spent })
        (λ w i. ok-Outcome turn.interrupts smooth.interrupts i)

  update-IsSpent :
      (total total' : ℕ) (w : World)
      → total ≤ total'
      → IsSpent budget total w
      → Outcome (λ _. IsSpent budget total') Never (on_live (update_token_usage total') w)
  unfolding update_token_usage
  update-IsSpent total total' w h i = elim (Bool-cases (ltb total' w.live.output_tokens)) [
    | inl e ↦ absurd (omega (arith, ltb→lt total' w.live.output_tokens e, i.spent))
    | inr e ↦ rw e (
        return-Outcome (record {
          same_budget =
              capture-field (λ s. s.budget_tokens) (λ s d. refl)
                (record w.live { output_tokens = total' }) (pred_ℤ total')
              ∙ i.same_budget;
          spent =
              capture-field (λ s. s.output_tokens) (λ s d. refl)
                (record w.live { output_tokens = total' }) (pred_ℤ total');
        }))
  ]

  -- What consuming the signals of an answered phase results in.
  abbrev Answered : ℕ → Option SessionEvent → World → Type 0
  Answered starting r w =
      (last : SessionEvent) × (r ≡ some last)
      × (last.kind ≡ completed)
      × (0 < last.output_tokens)
      × IsSpent budget (starting + last.output_tokens) w

  consume-Answered :
      (starting prev : ℕ) (requested : Bool) (signals : List Signal) (w : World)
      → Delivers prev signals
      → IsSpent budget (starting + prev) w
      → Outcome (Answered starting) Never (consume turn starting requested none signals w)
  unfolding consume
  consume-Answered starting prev requested (event e ∷ []) w d i =
      bind-Outcome {Q = λ _. IsSpent budget (starting + e.output_tokens)}
        (on_live (update_token_usage (starting + e.output_tokens))) w
        (update-IsSpent (starting + prev) _ w (omega (arith, d.1)) i)
        (λ _ v j.
          branch-Outcome (is_usage e.kind) _ _ v (λ u. absurd (not_usage e.kind d.0 u))
            (λ _.
              branch-Outcome (is_interrupted e.kind && not requested) _ _ v
                (λ u. absurd (not_interrupted e.kind requested d.0 u))
                (λ _. return-Outcome (e, refl, d.0, d.2, j))))
  consume-Answered starting prev requested (event e ∷ (next ∷ rest)) w d i =
      bind-Outcome {Q = λ _. IsSpent budget (starting + e.output_tokens)}
        (on_live (update_token_usage (starting + e.output_tokens))) w
        (update-IsSpent (starting + prev) _ w (omega (arith, d.1)) i)
        (λ _ v j.
          branch-Outcome (is_usage e.kind) _ _ v
            (λ _.
              bind-Outcome {Q = λ _. IsSpent budget (starting + e.output_tokens)}
                (interrupt_if_needed turn requested) v (interrupt-IsSpent _ requested v j)
                (λ req u k.
                  bind-Outcome {Q = λ _. IsSpent budget (starting + e.output_tokens)}
                    (warn_if_needed turn) u (warn-IsSpent _ u k)
                    (λ _ x l. consume-Answered starting e.output_tokens req (next ∷ rest) x d.2 l)))
            (λ u. absurd (is_a_usage e.kind d.0 u)))
  consume-Answered starting prev requested [] w d i = absurd d
  consume-Answered starting prev requested (raised e ∷ rest) w d i = absurd d

-- A pass makes progress: it stops the run, or spends tokens of the same budget.
abbrev pub Gains : RefinementState → RefinementState → Type 0
Gains s t =
    (is_running t.status ≡ false)
    ⊎ ((t.budget_tokens ≡ s.budget_tokens) × (s.output_tokens < t.output_tokens))

abbrev pub Advanced : World → World → Type 0
Advanced w v = Gains w.live v.live

result_keeps :
    (phase : Phase) (config : RefinementConfig) (text : Text) (s : RefinementState)
    → ((apply_result phase config text s).1.budget_tokens ≡ s.budget_tokens)
      × ((apply_result phase config text s).1.output_tokens ≡ s.output_tokens)
unfolding apply_result
result_keeps critique config text s = (refl, refl)
result_keeps _ config text s = (refl, refl)

module _ (config : RefinementConfig) (turn : Turn) (smooth : IsSmooth turn) where
  restore_returns : (w : World) → Outcome (λ _ _. Unit {0}) Never (restore turn w)
  unfolding restore
  restore_returns w =
      proceed-Outcome {Q = λ _ _. Unit {0}} turn.closes (ok-Outcome turn.closes smooth.closes tt)
        (λ _ x _.
          proceed-Outcome {Q = λ _ _. Unit {0}} turn.restores
            (ok-Outcome turn.restores smooth.restores tt) (λ _ y _. return-Outcome tt))

  resolve-Advanced :
      (w v : World) (last : SessionEvent)
      → 0 < last.output_tokens
      → IsSpent w.live.budget_tokens (w.live.output_tokens + last.output_tokens) v
      → Outcome (λ _ u. Advanced w u) Never (resolve_phase_outcome config turn last v)
  unfolding resolve_phase_outcome apply_phase_result
  resolve-Advanced w v last h i =
      if-Outcome (beyond_pause v.live last)
        (λ _.
          bind-Outcome {Q = λ _ _. Unit {0}} (restore turn) v (restore_returns v)
            (λ _ x _. return-Outcome (inl refl)))
        (λ _.
          if-Outcome (is_interrupted last.kind || ltb v.live.budget_tokens v.live.output_tokens)
            (λ _. return-Outcome (inr (i.same_budget, omega (arith, i.spent))))
            (λ _. return-Outcome (
              inr (
                (result_keeps v.live.phase config last.text v.live).0 ∙ i.same_budget,
                omega (arith, (result_keeps v.live.phase config last.text v.live).1, i.spent),
              ))))

  pub run_phase-Advanced :
      (w : World) → Outcome (λ _ u. Advanced w u) Never (run_phase config turn w)
  unfolding run_phase
  run_phase-Advanced w =
      bind-Outcome {Q = Answered turn smooth w.live.budget_tokens w.live.output_tokens}
        (consume turn w.live.output_tokens false none turn.signals) _
        (consume-Answered turn smooth w.live.budget_tokens w.live.output_tokens 0 false turn.signals
          _ smooth.delivers (record { same_budget = refl; spent = omega arith }))
        (λ r v (last, e, k, h, i).
          proceed-Outcome {Q = λ a u. (a ≡ last) × (u ≡ v)} (need_terminal r)
            (ok-Outcome (need_terminal r) (rw e) (refl, refl))
            (λ a u (ea, eu).
              subst
                (λ z. Outcome (λ _ x. Advanced w x) Never (resolve_phase_outcome config turn z u))
                (sym ea)
                (subst
                  (λ y.
                    Outcome (λ _ x. Advanced w x) Never (resolve_phase_outcome config turn last y))
                  (sym eu) (resolve-Advanced w v last h i))))
