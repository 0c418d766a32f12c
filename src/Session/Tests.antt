-- ===== src/Session/Tests.antt =====
-- The theorems about sessions at small runs.
use de_framework.Session.Connection.Lifecycle.{connect-IsLive, Connects}
use de_framework.Session.Connection.{Connection, connect, new_connection, connected, returns}
use de_framework.Session.Usage.Totals.{output_tokens-update, Reported}
use de_framework.Text.{codes}
use de_framework.Session.Agent.Protocol.{IsOpen}
use de_framework.Session.Agent.Runs.{Reports, take_inputs-Reports}
use de_framework.Session.Agent.Run.{take_inputs, Input, received}
use de_framework.Exec.{Outcome, ok}
use de_framework.Prelude.{List, [], false, pos, some, ◌∷◌, ◌≡◌, none, true, refl}
use de_framework.Session.Message.{Assistant, TurnResult, stream_start, assistant, turn_result}
use de_framework.Session.Agent.State.{Agent}
use de_framework.Session.Usage.Ledger.{TokenUsage, update_message_tokens}

abbrev ledger : TokenUsage
ledger = record { completed_ids = 1 ∷ []; message_tokens = (2, 30) ∷ []; completed_tokens = 100 }

abbrev idle : Agent
idle = record {
  tokens = ledger;
  stream_ids = [];
  running = true;
  interrupted = false;
  pending = none;
  last_assistant = none;
  has_multiple_text_envelopes = false;
  suspended = none;
  events = [];
}

abbrev reply : Assistant
reply = record {
  message_id = some 2;
  usage = some (pos 40);
  has_error = false;
  parent = none;
  text = codes "ok";
  diagnostic = [];
}

abbrev turn : TurnResult
turn = record {
  is_error = false;
  is_success = true;
  num_turns = pos 1;
  usage = some (pos 50);
  structured_output = none;
  result = some (codes "ok");
  diagnostic = [];
}

abbrev inputs : List Input
inputs =
    received (stream_start none 2 (pos 35))
    ∷ received (assistant reply)
    ∷ received (turn_result turn)
    ∷ []

take_inputs-Reports_example : Outcome Reports IsOpen (take_inputs inputs idle)
take_inputs-Reports_example = take_inputs-Reports inputs idle tt

run_ends : (take_inputs inputs idle).0 ≡ ok true
unfolding take_inputs
run_ends = refl

output_tokens-update_example : Reported ledger 2 (pos 45) (update_message_tokens 2 (pos 45) ledger)
output_tokens-update_example = output_tokens-update ledger 2 (pos 45)

abbrev free : Connection
free = new_connection

connect-IsLive_example :
    Connects true free (connect true true (some (pos 5)) (ok tt) returns returns free)
connect-IsLive_example =
    connect-IsLive true true (some (pos 5)) (ok tt) returns returns free (λ _. (refl, refl, refl))

abbrev live : Connection
live = record new_connection { status = connected; has_client = true; has_reader = true }
