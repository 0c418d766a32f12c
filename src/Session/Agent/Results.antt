-- ===== src/Session/Agent/Results.antt =====
-- `_resolve_turn_result` of harness/session/agent_session.py and what it calls: the text of a turn,
-- its usage, and whether it ends the run.
use de_framework.Session.Event.{interrupted, completed, usage}
use de_framework.Exec.{Exec, err, ok, connection_error, runtime_error, ◌>>◌, modify}
use de_framework.Session.Usage.Ledger.{
  finalize_turn_usage, message_output_tokens, output_tokens, turn_output_tokens,
}
use de_framework.Session.Errors.{normalize_provider_error}
use de_framework.Session.Agent.State.{emit, Agent, Suspended, is_some, on_tokens}
use de_framework.Session.Message.{TurnResult, Assistant}
use de_framework.Text.{is_blank, Text}
use de_framework.Prelude.{
  Option, ℤ, Bool, ℕ, [], if◌then◌else◌, pos, some, ◌&&◌, ◌||◌, leb, ltb, none, not, negsuc, ◌==◌,
  false,
}

-- The text of an identified message that has reported output.
abbrev metered_text : Option ℕ → Text → Agent → Text
metered_text none t a = []
metered_text (some k) t a = if leb (message_output_tokens k a.tokens) 0 then [] else t

abbrev assistant_text : Option Assistant → Agent → Text
assistant_text none a = []
assistant_text (some last) a =
    if a.has_multiple_text_envelopes then [] else metered_text last.message_id last.text a

abbrev result_text : Option Text → Agent → Text
result_text none a = assistant_text a.last_assistant a
result_text (some t) a = if is_blank t then assistant_text a.last_assistant a else t

abbrev structured_text : Option Text → Option Text → Agent → Text
structured_text (some t) r a = t
structured_text none r a = result_text r a

unfoldable pub get_response_text : TurnResult → Agent → Text
unfolding is_blank message_output_tokens
get_response_text m a = structured_text m.structured_output m.result a

unfoldable pub is_positive : ℤ → Bool
is_positive (pos n) = ltb 0 n
is_positive (negsuc n) = false

unfoldable pub has_fresh_result : TurnResult → Text → Agent → Bool
unfolding is_positive is_blank turn_output_tokens
has_fresh_result m text a =
    is_positive m.num_turns && ltb 0 (turn_output_tokens a.tokens) && not (is_blank text)

abbrev pub reported_tokens : TurnResult → Agent → ℤ
reported_tokens m a = elim m.usage [ none ↦ pos (turn_output_tokens a.tokens) | some n ↦ n ]

unfoldable pub create_terminal_event : Text → Exec Agent (Unit {0})
unfolding emit
create_terminal_event text a =
    if a.interrupted
    then emit interrupted (output_tokens a.tokens) [] a
    else emit completed (output_tokens a.tokens) text a

-- The rest of `_resolve_turn_result`, after the usage event that it may yield.
unfoldable pub resume_result : Suspended → Exec Agent (Unit {0})
unfolding normalize_provider_error create_terminal_event
resume_result r a =
    if r.failed && not a.interrupted
    then (err (normalize_provider_error runtime_error r.diagnostic), a)
    else if not (is_some a.pending) || a.interrupted
    then create_terminal_event r.text a
    else (ok tt, a)

-- Where the turn failed or input is pending, a change of usage is yielded and the generator waits.
unfoldable pub settle : ℕ → Suspended → Exec Agent (Unit {0})
unfolding emit output_tokens resume_result
settle previous r a =
    if (r.failed || is_some a.pending) && not (output_tokens a.tokens == previous)
    then (do emit usage (output_tokens a.tokens) []; modify (λ b. record b { suspended = some r }))
        a
    else resume_result r a

unfoldable pub resolve_turn_result : TurnResult → Exec Agent (Unit {0})
unfolding get_response_text has_fresh_result finalize_turn_usage settle
resolve_turn_result m a =
    let text = get_response_text m a in
    let failed = m.is_error || not m.is_success in
    if not failed && not a.interrupted && not (has_fresh_result m text a)
    then (if is_some a.pending then (ok tt, a) else (err connection_error, a))
    else (do
      on_tokens (finalize_turn_usage (reported_tokens m a))
      modify (λ b. record b { last_assistant = none; has_multiple_text_envelopes = false })
      settle (output_tokens a.tokens)
          (record { text = text; failed = failed; diagnostic = m.diagnostic }))
        a
