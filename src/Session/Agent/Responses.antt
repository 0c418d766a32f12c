-- ===== src/Session/Agent/Responses.antt =====
-- Stream events, assistant messages and echoes of the input: `_update_response` and its like in
-- harness/session/agent_session.py.
use de_framework.Session.Errors.{
  normalize_provider_error, starts_with, to_lower, is_transient_provider_error,
  is_spend_limit_error,
}
use de_framework.Exec.{
  Exec, Result, modify, pure, raise, ◌>>=◌, ◌>>◌, gets, key_error, lift, value_error, err,
  runtime_error, ok,
}
use de_framework.Session.Agent.State.{
  create_usage_event_if_changed, Agent, on_tokens, option_eq, is_some,
}
use de_framework.Session.Message.{Assistant}
use de_framework.Session.Usage.Ledger.{update_message_tokens, output_tokens, is_in}
use de_framework.Text.{Text, is_blank, strip, codes}
use de_framework.Prelude.{
  Option, ℕ, List, ℤ, Bool, none, ◌∷◌, false, if◌then◌else◌, some, not, ◌&&◌, ◌||◌, [],
}

unfoldable pub clear_pending_message : ℕ → Exec Agent (Unit {0})
clear_pending_message uuid =
    modify (λ a. if option_eq (some uuid) a.pending then record a { pending = none } else a)

unfoldable pub retain_response_text : Assistant → Agent → Agent
unfolding is_blank
retain_response_text m a = elim a.last_assistant [
  | none ↦ record a { last_assistant = some m; has_multiple_text_envelopes = false }
  | some previous ↦
      if not (option_eq previous.message_id m.message_id)
      then record a { last_assistant = some m; has_multiple_text_envelopes = false }
      else if is_blank m.text
      then a
      else record a {
        last_assistant = some m;
        has_multiple_text_envelopes = a.has_multiple_text_envelopes || not (is_blank previous.text);
      }
]

unfoldable pub api_error_prefix : Text
api_error_prefix = codes "api error:"

unfoldable pub raise_assistant_error_if_needed : Assistant → Result (Unit {0})
unfolding api_error_prefix strip normalize_provider_error
raise_assistant_error_if_needed m =
    let text = strip m.text in
    if m.has_error
      || (starts_with api_error_prefix (to_lower text)
          && (is_transient_provider_error text || is_spend_limit_error text))
    then err (normalize_provider_error runtime_error m.diagnostic)
    else ok tt

unfoldable pub is_fresh : Option ℕ → Agent → Bool
is_fresh none a = false
is_fresh (some k) a = not (is_in k a.tokens.completed_ids)

unfoldable pub count_assistant : Option ℕ → Option ℤ → Exec Agent (Unit {0})
unfolding update_message_tokens
count_assistant k none = pure tt
count_assistant none (some n) = raise value_error
count_assistant (some k) (some n) = on_tokens (update_message_tokens k n)

abbrev pub retain_if_fresh : Assistant → Agent → Agent
retain_if_fresh m a =
    if is_fresh m.message_id a && not (is_some m.parent) then retain_response_text m a else a

unfoldable pub update_assistant : Assistant → Exec Agent (Unit {0})
unfolding raise_assistant_error_if_needed is_fresh retain_response_text count_assistant
update_assistant m = do
  lift (raise_assistant_error_if_needed m)
  modify (retain_if_fresh m)
  count_assistant m.message_id m.usage

unfoldable pub find_stream : Option ℕ → List (Option ℕ × ℕ) → Option ℕ
find_stream p [] = none
find_stream p ((q, k) ∷ d) = if option_eq q p then some k else find_stream p d

unfoldable pub put_stream : Option ℕ → ℕ → List (Option ℕ × ℕ) → List (Option ℕ × ℕ)
put_stream p k [] = (p, k) ∷ []
put_stream p k ((q, j) ∷ d) = if option_eq q p then (q, k) ∷ d else (q, j) ∷ put_stream p k d

-- A new response of the main conversation supersedes the message retained before.
abbrev pub begin_response : Option ℕ → ℕ → Agent → Agent
begin_response parent k a =
    if not (is_some parent) && not (is_in k a.tokens.completed_ids)
    then record a { last_assistant = none; has_multiple_text_envelopes = false }
    else a

unfoldable pub start_stream : Option ℕ → ℕ → ℤ → Exec Agent (Unit {0})
unfolding put_stream update_message_tokens
start_stream parent k n = do
  modify (λ a. record a { stream_ids = put_stream parent k a.stream_ids })
  modify (begin_response parent k)
  on_tokens (update_message_tokens k n)

-- `self._stream_ids[parent]` raises KeyError where no message of that parent has started.
unfoldable pub count_delta : Option ℕ → ℤ → Exec Agent (Unit {0})
unfolding update_message_tokens
count_delta none n = raise key_error
count_delta (some k) n = on_tokens (update_message_tokens k n)

unfoldable pub update_response : Exec Agent (Unit {0}) → Exec Agent (Unit {0})
unfolding create_usage_event_if_changed
update_response m = do
  previous ← gets (λ a. output_tokens a.tokens)
  m
  create_usage_event_if_changed previous
