-- ===== src/Session/Message.antt =====
-- The SDK messages that harness/session/agent_session.py reads. Identities are numbers, since they
-- are only compared; texts that Python builds by formatting (`json.dumps`, diagnostics) come with
-- the message.
use de_framework.Text.{Text}
use de_framework.Prelude.{Bool, Option, ℕ, ℤ}

pub record Assistant : Type 0 where
  pub message_id : Option ℕ
  pub usage : Option ℤ
  pub has_error : Bool
  pub parent : Option ℕ
  pub text : Text
  pub diagnostic : Text

pub record TurnResult : Type 0 where
  pub is_error : Bool
  pub is_success : Bool
  pub num_turns : ℤ
  pub usage : Option ℤ
  pub structured_output : Option Text
  pub result : Option Text
  pub diagnostic : Text

pub data Message : Type 0 where
  user : ℕ → Message
  rate_limit : Bool → Option ℕ → Message
  stream_start : Option ℕ → ℕ → ℤ → Message
  stream_delta : Option ℕ → ℤ → Message
  assistant : Assistant → Message
  turn_result : TurnResult → Message
  system_message : Message
