-- ===== src/Session/Agent/State.antt =====
-- The state of `AgentSession`, and the events that it yields.
-- The generator `_resolve_turn_result` suspends where it yields a usage event, and reads the flags
-- again when it resumes. The events yielded so far are kept in the state, newest first, so a raise
-- keeps them.
use de_framework.Session.Message.{Assistant}
use de_framework.Exec.{Exec, modify, ok, ◌>>=◌, lift}
use de_framework.Session.Event.{EventKind, SessionEvent, usage, session_event}
use de_framework.Prelude.{
  Option, Bool, List, ℕ, false, if◌then◌else◌, some, ◌==◌, ◌∷◌, true, none, [], pos,
}
use de_framework.Session.Usage.Ledger.{TokenUsage, output_tokens}
use de_framework.Text.{Text}

pub record Suspended : Type 0 where
  pub text : Text
  pub failed : Bool
  pub diagnostic : Text

pub record Agent : Type 0 where
  pub tokens : TokenUsage
  pub stream_ids : List (Option ℕ × ℕ)
  pub running : Bool
  pub interrupted : Bool
  pub pending : Option ℕ
  pub last_assistant : Option Assistant
  pub has_multiple_text_envelopes : Bool
  pub suspended : Option Suspended
  pub events : List SessionEvent

abbrev pub option_eq : Option ℕ → Option ℕ → Bool
option_eq none none = true
option_eq (some a) (some b) = a == b
option_eq none (some b) = false
option_eq (some a) none = false

abbrev pub is_some {ℓ} : {A : Type ℓ} → Option A → Bool
is_some none = false
is_some (some a) = true

-- `yield SessionEvent(kind, n, text)`
unfoldable pub emit : EventKind → ℕ → Text → Exec Agent (Unit {0})
unfolding session_event
emit kind n text = do
  e ← lift (session_event kind (pos n) text)
  modify (λ a. record a { events = e ∷ a.events })

-- A step of the ledger alone.
abbrev pub on_tokens : Exec TokenUsage (Unit {0}) → Exec Agent (Unit {0})
on_tokens m a = let (r, u) = m a.tokens in (r, record a { tokens = u })

unfoldable pub create_usage_event_if_changed : ℕ → Exec Agent (Unit {0})
unfolding emit output_tokens
create_usage_event_if_changed previous a =
    if output_tokens a.tokens == previous
    then (ok tt, a)
    else emit usage (output_tokens a.tokens) [] a
