-- ===== src/Session/Agent/Runs.antt =====
-- Whole runs of `AgentSession.run` (harness/session/agent_session.py): the inputs in order.
use de_framework.Text.{is_blank}
use de_framework.Session.Event.{SessionEvent}
use de_framework.Session.Agent.Responses.{
  clear_pending_message, update_response, start_stream, count_delta, find_stream, update_assistant,
}
use de_framework.Prelude.{
  inl, Bool, ℕ, List, Option, if_elim, true, ◌≡◌, false, false≢true, inr, some, sym, ◌∷◌, [], ◌∙◌,
  refl, not, none,
}
use de_framework.Session.Agent.Protocol.{
  IsOpen, KeepsOpen, Follows, IsDone, Terminal, Usages, response-IsOpen, start-IsOpen, delta-IsOpen,
  assistant-IsOpen, result-Follows, resume-Follows,
}
use de_framework.Session.Message.{
  Message, user, rate_limit, stream_start, stream_delta, assistant, turn_result, system_message,
}
use de_framework.Session.Agent.State.{Agent, Suspended, option_eq}
use de_framework.Session.Agent.Run.{
  dispatch_sdk_message, pull, receive, take_input, take_inputs, ends_run, queue, Input, interrupt,
  received, failed, asks_interrupt, asks_queue, resume_if,
}
use de_framework.Exec.{
  Exec, Outcome, if-Outcome, weaken-Outcome, bind-Outcome, branch-Outcome, ok, pure, return-Outcome,
  raise, raise-Outcome, proceed-Outcome, lift-Outcome,
}

abbrev AgentGoes : Exec Agent (Unit {0}) → Type 0
AgentGoes m = (a : Agent) → IsOpen a → Outcome (λ _. Follows) IsOpen (m a)

goes_of_keeps : (m : Exec Agent (Unit {0})) → KeepsOpen m → AgentGoes m
goes_of_keeps m keep a p = weaken-Outcome (m a).0 (λ _ b q. inl q) (keep a p)

dispatch-Follows : (m : Message) → AgentGoes (dispatch_sdk_message m)
unfolding dispatch_sdk_message clear_pending_message
dispatch-Follows (user uuid) a p =
    if_elim (λ b. Outcome (λ _. Follows) IsOpen (ok tt, b)) (option_eq (some uuid) a.pending) _ _
      (λ _. return-Outcome (inl p)) (λ _. return-Outcome (inl p))
dispatch-Follows (rate_limit rejected resets) a p =
    branch-Outcome rejected _ _ a (λ _. raise-Outcome p) (λ _. return-Outcome (inl p))
dispatch-Follows (stream_start parent k n) a p =
    goes_of_keeps (update_response (start_stream parent k n))
      (response-IsOpen (start_stream parent k n) (start-IsOpen parent k n)) a p
dispatch-Follows (stream_delta parent n) a p =
    let count : Exec Agent (Unit {0}) = λ a. count_delta (find_stream parent a.stream_ids) n a in
    goes_of_keeps (update_response count)
      (response-IsOpen count (λ a. delta-IsOpen (find_stream parent a.stream_ids) n a)) a p
dispatch-Follows (assistant m) a p =
    goes_of_keeps (update_response (update_assistant m))
      (response-IsOpen (update_assistant m) (assistant-IsOpen m)) a p
dispatch-Follows (turn_result m) a p = result-Follows m a p
dispatch-Follows system_message a p = return-Outcome (inl p)

not_ended : (n : ℕ) (es : List SessionEvent) → Usages n es → ends_run es ≡ false
not_ended n [] u = refl
not_ended n (e ∷ es) u = rw u.0

ended : (n : ℕ) (es : List SessionEvent) → Terminal n es → ends_run es ≡ true
ended n [] u = absurd u
ended n (e ∷ es) u = rw u.0

resume_if-Follows : (s : Option Suspended) → AgentGoes (resume_if s)
unfolding resume_if
resume_if-Follows none a p = return-Outcome (inl p)
resume_if-Follows (some r) a p = resume-Follows r (record a { suspended = none }) p

pull-Follows : AgentGoes pull
unfolding pull
pull-Follows a p = resume_if-Follows a.suspended a p

receive-Follows : (m : Exec Agent (Unit {0})) → AgentGoes m → AgentGoes (receive m)
unfolding receive
receive-Follows m go a p = bind-Outcome {Q = λ _. Follows} pull a (pull-Follows a p) (λ _ b f.
    branch-Outcome (ends_run b.events) (pure tt) m b (λ e. return-Outcome f)
      (λ e. elim f [ inl q ↦ go b q | inr d ↦ absurd (false≢true (sym e ∙ ended _ b.events d)) ]))

input-Follows : (i : Input) → AgentGoes (take_input i)
unfolding take_input queue interrupt
input-Follows (received m) a p = receive-Follows (dispatch_sdk_message m) (dispatch-Follows m) a p
input-Follows (failed e) a p = receive-Follows (raise e) (λ a p. raise-Outcome p) a p
input-Follows (asks_interrupt r) a p =
    if-Outcome (not a.running) (λ _. raise-Outcome p)
      (λ _.
        if-Outcome a.interrupted (λ _. return-Outcome (inl p))
          (λ _.
            proceed-Outcome {Q = λ _. IsOpen} r (lift-Outcome r (λ _. p) p)
              (λ _ b q. return-Outcome (inl q))))
input-Follows (asks_queue t uuid r) a p =
    if-Outcome (is_blank t) (λ _. raise-Outcome p) (λ _. lift-Outcome r (λ _. inl p) p)

abbrev pub Reports : Bool → Agent → Type 0
Reports true a = IsDone a
Reports false a = IsOpen a

input_report : (r : Bool) (a : Agent) → ends_run a.events ≡ r → Follows a → Reports r a
input_report true a e (inl q) = absurd (false≢true (sym (not_ended _ a.events q) ∙ e))
input_report true a e (inr d) = d
input_report false a e (inl q) = q
input_report false a e (inr d) = absurd (false≢true (sym e ∙ ended _ a.events d))

-- Whatever the SDK delivers and the consumer asks for, the events of a run report usage that never
-- falls and never passes the ledger. The run has ended exactly when a terminal event is the last one
-- and all before it are usage; one that raises has yielded usage alone.
pub take_inputs-Reports :
    (inputs : List Input) (a : Agent) → IsOpen a → Outcome Reports IsOpen (take_inputs inputs a)
unfolding take_inputs
take_inputs-Reports [] a p =
    bind-Outcome {Q = λ _. Follows} pull a (pull-Follows a p)
      (λ _ b f. return-Outcome (input_report (ends_run b.events) b refl f))
take_inputs-Reports (i ∷ is) a p =
    bind-Outcome {Q = λ _. Follows} (take_input i) a (input-Follows i a p) (λ _ b f.
      branch-Outcome (ends_run b.events) (pure true) (take_inputs is) b
        (λ e. return-Outcome (input_report true b e f))
        (λ e. take_inputs-Reports is b (input_report false b e f)))
