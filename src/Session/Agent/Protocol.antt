-- ===== src/Session/Agent/Protocol.antt =====
-- The protocol of the events that `AgentSession.run` yields (harness/session/agent_session.py).
use de_framework.Session.Agent.Responses.{
  count_assistant, count_delta, retain_response_text, start_stream, update_assistant,
  update_response, raise_assistant_error_if_needed, put_stream, retain_if_fresh, begin_response,
  is_fresh,
}
use de_framework.Session.Usage.Totals.{finalize_grows, update_grows}
use de_framework.Text.{Text, is_blank}
use de_framework.Session.Message.{TurnResult, Assistant}
use de_framework.Session.Event.{session_event, SessionEvent, usage, is_usage}
use de_framework.Exec.{
  Outcome, if-Outcome, return-Outcome, raise-Outcome, bind-Outcome, Exec, modify, lift-Outcome,
  proceed-Outcome,
}
use de_framework.Session.Usage.Ledger.{
  output_tokens, finalize_turn_usage, update_message_tokens, TokenUsage, is_in,
}
use de_framework.Session.Agent.Results.{
  create_terminal_event, resolve_turn_result, resume_result, settle, has_fresh_result,
  get_response_text, reported_tokens,
}
use de_framework.Session.Agent.State.{
  Agent, create_usage_event_if_changed, emit, Suspended, on_tokens, is_some,
}
use de_framework.Prelude.{
  ℕ, ℤ, List, ◌⊎◌, [], not, ◌&&◌, ◌==◌, ◌||◌, ◌∷◌, ◌≤◌, arith, inr, Bool-cases, inl, ◌≡◌, false,
  true, refl, Option, some, none, if_elim,
}

-- Usage events alone, newest first, the newest one at most `n`.
abbrev pub Usages : ℕ → List SessionEvent → Type 0
Usages n [] = Unit
Usages n (e ∷ es) = (is_usage e.kind ≡ true) × (e.output_tokens ≤ n) × Usages e.output_tokens es

abbrev pub Terminal : ℕ → List SessionEvent → Type 0
Terminal n [] = ⊥
Terminal n (e ∷ es) = (is_usage e.kind ≡ false) × (e.output_tokens ≤ n) × Usages e.output_tokens es

-- A run that goes on, and one that has ended, by what it has yielded.
abbrev pub IsOpen : Agent → Type 0
IsOpen a = Usages (output_tokens a.tokens) a.events

abbrev pub IsDone : Agent → Type 0
IsDone a = Terminal (output_tokens a.tokens) a.events

abbrev pub Follows : Agent → Type 0
Follows a = IsOpen a ⊎ IsDone a

Usages-mono : (m n : ℕ) (es : List SessionEvent) → m ≤ n → Usages m es → Usages n es
Usages-mono m n [] h u = tt
Usages-mono m n (e ∷ es) h u = (u.0, omega arith, u.2)

Terminal-mono : (m n : ℕ) (es : List SessionEvent) → m ≤ n → Terminal m es → Terminal n es
Terminal-mono m n [] h u = absurd u
Terminal-mono m n (e ∷ es) h u = (u.0, omega arith, u.2)

-- Reports only raise the total.
pub ledger-IsOpen :
    (m : Exec TokenUsage (Unit {0})) (a : Agent)
    → output_tokens a.tokens ≤ output_tokens (m a.tokens).1
    → IsOpen a
    → Outcome (λ _. IsOpen) IsOpen (on_tokens m a)
ledger-IsOpen m a h p =
    lift-Outcome (m a.tokens).0 (λ _. Usages-mono _ _ a.events h p) (Usages-mono _ _ a.events h p)

pub update-IsOpen :
    (k : ℕ) (n : ℤ) (a : Agent)
    → IsOpen a
    → Outcome (λ _. IsOpen) IsOpen (on_tokens (update_message_tokens k n) a)
update-IsOpen k n a p = ledger-IsOpen (update_message_tokens k n) a (update_grows a.tokens k n) p

pub finalize-IsOpen :
    (n : ℤ) (a : Agent)
    → IsOpen a
    → Outcome (λ _. IsOpen) IsOpen (on_tokens (finalize_turn_usage n) a)
finalize-IsOpen n a p = ledger-IsOpen (finalize_turn_usage n) a (finalize_grows a.tokens n) p

pub emit_usage-IsOpen :
    (a : Agent) → IsOpen a → Outcome (λ _. IsOpen) IsOpen (emit usage (output_tokens a.tokens) [] a)
unfolding emit
emit_usage-IsOpen a p = return-Outcome (refl, omega arith, p)

pub create_usage-IsOpen :
    (previous : ℕ) (a : Agent)
    → IsOpen a
    → Outcome (λ _. IsOpen) IsOpen (create_usage_event_if_changed previous a)
unfolding create_usage_event_if_changed
create_usage-IsOpen previous a p =
    if-Outcome (output_tokens a.tokens == previous) (λ _. return-Outcome p)
      (λ _. emit_usage-IsOpen a p)

terminal-IsDone :
    (text : Text) (a : Agent)
    → IsOpen a
    → Outcome (λ _. Follows) IsOpen (create_terminal_event text a)
unfolding create_terminal_event emit session_event
terminal-IsDone text a p =
    if-Outcome a.interrupted (λ _. return-Outcome (inr (refl, omega arith, p)))
      (λ _. elim (Bool-cases (is_blank text)) [
        | inl e ↦ rw e (raise-Outcome p)
        | inr e ↦ rw e (return-Outcome (inr (refl, omega arith, p)))
      ])

pub resume-Follows :
    (r : Suspended) (a : Agent) → IsOpen a → Outcome (λ _. Follows) IsOpen (resume_result r a)
unfolding resume_result
resume-Follows r a p =
    if-Outcome (r.failed && not a.interrupted) (λ _. raise-Outcome p)
      (λ _.
        if-Outcome (not (is_some a.pending) || a.interrupted) (λ _. terminal-IsDone r.text a p)
          (λ _. return-Outcome (inl p)))

pub settle-Follows :
    (previous : ℕ) (r : Suspended) (a : Agent)
    → IsOpen a
    → Outcome (λ _. Follows) IsOpen (settle previous r a)
unfolding settle
settle-Follows previous r a p =
    if-Outcome ((r.failed || is_some a.pending) && not (output_tokens a.tokens == previous))
      (λ _.
        bind-Outcome {Q = λ _. IsOpen} (emit usage (output_tokens a.tokens) [])
          {f = λ _. modify (λ b. record b { suspended = some r })} a (emit_usage-IsOpen a p)
          (λ _ b q. return-Outcome (inl q)))
      (λ _. resume-Follows r a p)

pub result-Follows :
    (m : TurnResult) (a : Agent)
    → IsOpen a
    → Outcome (λ _. Follows) IsOpen (resolve_turn_result m a)
unfolding resolve_turn_result
result-Follows m a p =
    if-Outcome
      (not (m.is_error || not m.is_success)
        && not a.interrupted
        && not (has_fresh_result m (get_response_text m a) a))
      (λ _. if-Outcome (is_some a.pending) (λ _. return-Outcome (inl p)) (λ _. raise-Outcome p))
      (λ _.
        bind-Outcome {Q = λ _. IsOpen} (on_tokens (finalize_turn_usage (reported_tokens m a))) a
          (finalize-IsOpen _ a p)
          (λ _ b q.
            settle-Follows (output_tokens a.tokens)
              (record {
                text = get_response_text m a;
                failed = m.is_error || not m.is_success;
                diagnostic = m.diagnostic;
              })
              (record b { last_assistant = none; has_multiple_text_envelopes = false }) q))

-- An action that leaves the run open, whatever it does to the other fields.
abbrev pub KeepsOpen : Exec Agent (Unit {0}) → Type 0
KeepsOpen m = (a : Agent) → IsOpen a → Outcome (λ _. IsOpen) IsOpen (m a)

pub response-IsOpen : (m : Exec Agent (Unit {0})) → KeepsOpen m → KeepsOpen (update_response m)
unfolding update_response
response-IsOpen m keep a p =
    bind-Outcome {Q = λ _. IsOpen} m a (keep a p)
      (λ _ b q. create_usage-IsOpen (output_tokens a.tokens) b q)

pub start-IsOpen : (parent : Option ℕ) (k : ℕ) (n : ℤ) → KeepsOpen (start_stream parent k n)
unfolding start_stream
start-IsOpen parent k n a p =
    let b = record a { stream_ids = put_stream parent k a.stream_ids } in
    update-IsOpen k n (begin_response parent k b) (
      if_elim IsOpen (not (is_some parent) && not (is_in k b.tokens.completed_ids)) _ _ (λ _. p)
        (λ _. p))

pub delta-IsOpen : (k : Option ℕ) (n : ℤ) → KeepsOpen (count_delta k n)
unfolding count_delta
delta-IsOpen none n a p = raise-Outcome p
delta-IsOpen (some k) n a p = update-IsOpen k n a p

pub count-IsOpen : (k : Option ℕ) (n : Option ℤ) → KeepsOpen (count_assistant k n)
unfolding count_assistant
count-IsOpen k none a p = return-Outcome p
count-IsOpen none (some n) a p = raise-Outcome p
count-IsOpen (some k) (some n) a p = update-IsOpen k n a p

same_events : (a b : Agent) → b.tokens ≡ a.tokens → b.events ≡ a.events → IsOpen a → IsOpen b
same_events a b t e p = rw (t, e) p

pub retain-IsOpen : (m : Assistant) (a : Agent) → IsOpen a → IsOpen (retain_response_text m a)
unfolding retain_response_text
retain-IsOpen m a p = same_events a (retain_response_text m a) (ground arith) (ground arith) p

pub assistant-IsOpen : (m : Assistant) → KeepsOpen (update_assistant m)
unfolding update_assistant
assistant-IsOpen m a p =
    proceed-Outcome {Q = λ _. IsOpen} (raise_assistant_error_if_needed m)
      (lift-Outcome _ (λ _. p) p)
      (λ _ b q. count-IsOpen m.message_id m.usage (retain_if_fresh m b) (
        if_elim IsOpen (is_fresh m.message_id b && not (is_some m.parent)) _ _
          (λ _. retain-IsOpen m b q) (λ _. q)))
