-- ===== src/Session/Event.antt =====
-- `SessionEvent` of harness/session/models.py: what `AgentSession.run` reports to its consumer.
use de_framework.Prelude.{ℕ, Bool, true, false, [], ◌∷◌, if◌then◌else◌, ℤ, pos, negsuc}
use de_framework.Exec.{Result, ok, err, value_error}
use de_framework.Text.{Text, is_blank}

pub data EventKind : Type 0 where
  usage completed interrupted : EventKind

pub record SessionEvent : Type 0 where
  pub kind : EventKind
  pub output_tokens : ℕ
  pub text : Text

-- `if self.text`
abbrev nonempty : Text → Bool
nonempty [] = false
nonempty (c ∷ t) = true

-- The text that `kind` forbids.
bad_text : EventKind → Text → Bool
bad_text usage text = nonempty text
bad_text completed text = is_blank text
bad_text interrupted text = false

unfoldable pub session_event : EventKind → ℤ → Text → Result SessionEvent
unfolding bad_text
session_event kind (negsuc n) text = err value_error
session_event kind (pos n) text =
    if bad_text kind text
    then err value_error
    else ok (record { kind = kind; output_tokens = n; text = text })

abbrev pub is_interrupted : EventKind → Bool
is_interrupted interrupted = true
is_interrupted _ = false

abbrev pub is_usage : EventKind → Bool
is_usage usage = true
is_usage _ = false
