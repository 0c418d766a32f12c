-- ===== src/Session/Agent/Run.antt =====
-- `AgentSession.run` of harness/session/agent_session.py: the messages that the connection delivers, with the requests that the consumer makes
-- between events.
use de_framework.Session.Event.{SessionEvent, is_usage}
use de_framework.Session.Agent.State.{Agent, Suspended}
use de_framework.Session.Usage.Ledger.{new_usage}
use de_framework.Session.Agent.Results.{resume_result, resolve_turn_result}
use de_framework.Prelude.{
  List, Bool, false, if◌then◌else◌, ℕ, not, ◌∷◌, [], some, true, none, Option,
}
use de_framework.Exec.{
  Exec, Result, Error, ok, raise, ◌>>◌, err, gets, ◌>>=◌, pure, runtime_error, value_error, lift,
  modify, rate_limit_error,
}
use de_framework.Text.{is_blank, Text}
use de_framework.Session.Message.{
  Message, user, rate_limit, stream_start, stream_delta, assistant, turn_result, system_message,
}
use de_framework.Session.Agent.Responses.{
  clear_pending_message, update_response, update_assistant, start_stream, count_delta, find_stream,
}

unfoldable pub dispatch_sdk_message : Message → Exec Agent (Unit {0})
unfolding clear_pending_message update_response update_assistant start_stream count_delta
    find_stream resolve_turn_result
dispatch_sdk_message (user uuid) = clear_pending_message uuid
dispatch_sdk_message (rate_limit rejected resets) =
    if rejected then raise (rate_limit_error resets) else pure tt
dispatch_sdk_message (stream_start parent k n) = update_response (start_stream parent k n)
dispatch_sdk_message (stream_delta parent n) =
    update_response (λ a. count_delta (find_stream parent a.stream_ids) n a)
dispatch_sdk_message (assistant m) = update_response (update_assistant m)
dispatch_sdk_message (turn_result m) = resolve_turn_result m
dispatch_sdk_message system_message = pure tt

pub data Input : Type 0 where
  received : Message → Input
  failed : Error → Input
  asks_interrupt : Result (Unit {0}) → Input
  asks_queue : Text → ℕ → Result (Unit {0}) → Input

-- `str(uuid4())` and the outcome of `ConnectionManager.query` are arguments.
unfoldable pub queue : Text → ℕ → Result (Unit {0}) → Exec Agent (Unit {0})
unfolding is_blank
queue text uuid query a =
    if is_blank text then (err value_error, a) else (query, record a { pending = some uuid })

unfoldable pub interrupt : Result (Unit {0}) → Exec Agent (Unit {0})
interrupt request a =
    if not a.running
    then (err runtime_error, a)
    else if a.interrupted
    then (ok tt, a)
    else (do lift request; modify (λ b. record b { interrupted = true })) a

abbrev pub ends_run : List SessionEvent → Bool
ends_run [] = false
ends_run (e ∷ es) = not (is_usage e.kind)

-- The consumer asks for the next event: a suspended result goes on.
unfoldable pub resume_if : Option Suspended → Exec Agent (Unit {0})
unfolding resume_result
resume_if none a = (ok tt, a)
resume_if (some r) a = resume_result r (record a { suspended = none })

unfoldable pub pull : Exec Agent (Unit {0})
unfolding resume_if
pull a = resume_if a.suspended a

-- A message is read only where the run has not ended.
unfoldable pub receive : Exec Agent (Unit {0}) → Exec Agent (Unit {0})
unfolding pull
receive handle = do pull; events ← gets (λ a. a.events); if ends_run events then pure tt else handle

unfoldable pub take_input : Input → Exec Agent (Unit {0})
unfolding receive dispatch_sdk_message queue interrupt
take_input (received m) = receive (dispatch_sdk_message m)
take_input (failed e) = receive (raise e)
take_input (asks_interrupt r) = interrupt r
take_input (asks_queue t uuid r) = queue t uuid r

-- True where the terminal event has been yielded, and false where the run waits for more input.
unfoldable pub take_inputs : List Input → Exec Agent Bool
unfolding take_input
take_inputs [] = do pull; gets (λ a. ends_run a.events)
take_inputs (i ∷ is) = do
  take_input i
  events ← gets (λ a. a.events)
  if ends_run events then pure true else take_inputs is

-- A run that ends or raises is over; one that waits goes on.
abbrev finish : Result Bool × Agent → Result Bool × Agent
finish (ok false, a) = (ok false, a)
finish (r, a) = (r, record a { running = false })

unfoldable pub run : Text → ℕ → Result (Unit {0}) → List Input → Exec Agent Bool
unfolding queue take_inputs new_usage
run prompt uuid query inputs a =
    if a.running
    then (err runtime_error, a)
    else finish (
        (do queue prompt uuid query; take_inputs inputs)
          (record a {
            tokens = new_usage a.tokens.completed_ids;
            stream_ids = [];
            running = true;
            interrupted = false;
            last_assistant = none;
            has_multiple_text_envelopes = false;
            suspended = none;
            events = [];
          }))
