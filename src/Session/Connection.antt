-- ===== src/Session/Connection.antt =====
-- The lifecycle of harness/session/connection_manager.py: connect, close, close_after_failure, the
-- buffered messages and the normalisation of SDK errors. An operation of the SDK comes with its
-- outcome. A message is a number, since the transport does not look into it. The
-- options of a connection are those of Session.Options.
pub mod Lifecycle
use de_framework.Text.{Text}
use de_framework.Exec.{
  Error, Exec, Result, err, ok, cancelled, connection_error, runtime_error, spend_limit_error,
  value_error,
}
use de_framework.Prelude.{
  Bool, List, Option, false, ℕ, [], if◌then◌else◌, none, true, ℤ, not, some, ◌∷◌, pos, ◌&&◌, ◌++◌,
  map, suc,
}
use de_framework.Session.Errors.{SdkError, is_spend_limit_error, normalize_connection_error}

pub data ConnectionStatus : Type 0 where
  disconnected connecting connected closing : ConnectionStatus

-- An operation returns, raises an exception of the SDK, or is cancelled, which `except Exception`
-- does not catch.
pub data Operation : Type 0 where
  returns is_cancelled : Operation
  fails : SdkError → Operation

pub data Item : Type 0 where
  message : ℕ → Item
  failure : Error → Item
  stream_end : Item

pub record Connection : Type 0 where
  pub status : ConnectionStatus
  pub has_client : Bool
  pub has_reader : Bool
  pub spend_limited : Bool
  pub messages : List Item

abbrev pub new_connection : Connection
new_connection = record {
  status = disconnected;
  has_client = false;
  has_reader = false;
  spend_limited = false;
  messages = [];
}

unfoldable pub call_sdk : Operation → Bool → Result (Unit {0})
unfolding normalize_connection_error
call_sdk returns spend_limited = ok tt
call_sdk is_cancelled spend_limited = err cancelled
call_sdk (fails e) spend_limited =
    err (if spend_limited then spend_limit_error else normalize_connection_error e)

-- The `finally` blocks of `close`.
abbrev pub reset : Connection → Connection
reset c = record c { status = disconnected; has_client = false; has_reader = false }

unfoldable pub disconnect : Operation → Exec Connection (Unit {0})
unfolding call_sdk
disconnect disconnects c =
    ((if c.has_client then call_sdk disconnects c.spend_limited else ok tt), reset c)

unfoldable pub close_at : ConnectionStatus → Operation → Exec Connection (Unit {0})
unfolding disconnect
close_at disconnected disconnects c = (ok tt, c)
close_at closing disconnects c = (err runtime_error, c)
close_at _ disconnects c = disconnect disconnects c

unfoldable pub close : Operation → Exec Connection (Unit {0})
unfolding close_at
close disconnects c = close_at c.status disconnects c

-- A shutdown error becomes a note of the first error, but a cancellation is raised in its place.
unfoldable pub prevail : Result (Unit {0}) → Error → Error
prevail (err cancelled) e = cancelled
prevail _ e = e

unfoldable pub close_after_failure : Error → Operation → Exec Connection (Unit {0})
unfolding prevail close
close_after_failure e disconnects c = let (r, d) = close disconnects c in (err (prevail r e), d)

unfoldable pub finish_connect : Result (Unit {0}) → Operation → Exec Connection (Unit {0})
unfolding close_after_failure
finish_connect (ok x) disconnects c = (ok tt, record c { status = connected; has_reader = true })
finish_connect (err e) disconnects c = close_after_failure e disconnects c

-- `factory` is the outcome of making the client, and `connects` that of its `connect`.
unfoldable pub start_client : Result (Unit {0}) → Operation → Operation → Exec Connection (Unit {0})
unfolding call_sdk close_after_failure finish_connect
start_client (err e) connects disconnects c = close_after_failure e disconnects c
start_client (ok x) connects disconnects c =
    finish_connect (call_sdk connects c.spend_limited) disconnects (record c { has_client = true })

abbrev pub is_disconnected : ConnectionStatus → Bool
is_disconnected disconnected = true
is_disconnected _ = false

abbrev pub is_positive? : Option ℤ → Bool
is_positive? none = true
is_positive? (some (pos (suc n))) = true
is_positive? (some _) = false

unfoldable pub connect :
    (has_target fork_session : Bool)
    → Option ℤ
    → Result (Unit {0})
    → Operation
    → Operation
    → Exec Connection (Unit {0})
unfolding start_client
connect has_target fork_session remaining factory connects disconnects c =
    if not (is_disconnected c.status)
    then (err runtime_error, c)
    else if fork_session && not has_target
    then (err value_error, c)
    else if not (is_positive? remaining)
    then (err value_error, c)
    else start_client factory connects disconnects
        (record c { status = connecting; messages = []; spend_limited = false })

abbrev pub is_active : Connection → Bool
is_active c = elim c.status [ connected ↦ c.has_client | _ ↦ false ]

-- `query` and `interrupt`
unfoldable pub submit : Operation → Exec Connection (Unit {0})
unfolding call_sdk
submit operation c =
    ((if is_active c then call_sdk operation c.spend_limited else err runtime_error), c)

abbrev pub take_item : Item → Result ℕ
take_item (message m) = ok m
take_item (failure e) = err e
take_item stream_end = err connection_error

-- The first message of the buffer; none where `receive` waits.
unfoldable pub receive_item : List Item → Connection → Option (Result ℕ) × Connection
receive_item [] c = (none, c)
receive_item (i ∷ rest) c = (some (take_item i), record c { messages = rest })

unfoldable pub receive_next : Connection → Option (Result ℕ) × Connection
unfolding receive_item
receive_next c = if is_active c then receive_item c.messages c else (some (err runtime_error), c)

abbrev pub last_items : Bool → Operation → List Item
last_items spend_limited (fails e) =
    failure (if spend_limited then spend_limit_error else normalize_connection_error e)
    ∷ stream_end
    ∷ []
last_items spend_limited _ = stream_end ∷ []

-- What the reader puts in the buffer for what the stream delivers and how it ends.
unfoldable pub read_messages : List ℕ → Operation → Connection → Connection
unfolding normalize_connection_error
read_messages delivered end c = record c {
  messages = c.messages ++ map message delivered ++ last_items c.spend_limited end;
}

unfoldable pub read_stderr : Text → Connection → Connection
unfolding is_spend_limit_error
read_stderr line c =
    if not c.spend_limited && is_spend_limit_error line
    then record c { spend_limited = true; messages = c.messages ++ failure spend_limit_error ∷ [] }
    else c
