-- ===== src/Session/Connection/Lifecycle.antt =====
-- The states in which harness/session/connection_manager.py leaves a connection.
use de_framework.Exec.{
  Result, Error, Outcome, err, ok, return-Outcome, raise-Outcome, if-Outcome, runtime_error,
}
use de_framework.Prelude.{◌≡◌, false, inl, ◌⊎◌, true, Bool, arith, refl, Option, ℤ, not, ◌&&◌, []}
use de_framework.Session.Connection.{
  Connection, close, disconnect, Operation, disconnected, connected, close_after_failure, close_at,
  connect, connecting, finish_connect, reset, start_client, ConnectionStatus, call_sdk, closing,
  is_disconnected, is_positive?,
}

abbrev pub IsFree : Connection → Type 0
IsFree c = (c.status ≡ disconnected) × (c.has_client ≡ false) × (c.has_reader ≡ false)

abbrev pub IsLive : Connection → Type 0
IsLive c = (c.status ≡ connected) × (c.has_client ≡ true) × (c.has_reader ≡ true)

reset-IsFree : (c : Connection) → IsFree (reset c)
reset-IsFree c = (refl, refl, refl)

close_at-IsFree :
    (status : ConnectionStatus) (disconnects : Operation) (c : Connection)
    → c.status ≡ status
    → (status ≡ closing → ⊥)
    → (status ≡ disconnected → IsFree c)
    → IsFree (close_at status disconnects c).1
unfolding close_at disconnect
close_at-IsFree disconnected disconnects c e n f = f refl
close_at-IsFree closing disconnects c e n f = absurd (n refl)
close_at-IsFree connecting disconnects c e n f = reset-IsFree c
close_at-IsFree connected disconnects c e n f = reset-IsFree c

-- Closing a connection that is connecting or connected frees it, whatever the SDK does.
pub close-IsFree :
    (disconnects : Operation) (c : Connection)
    → (c.status ≡ connecting) ⊎ (c.status ≡ connected)
    → IsFree (close disconnects c).1
unfolding close
close-IsFree disconnects c h =
    close_at-IsFree c.status disconnects c refl (λ e. ground arith) (λ e. ground arith)

abbrev Connected : Result (Unit {0}) × Connection → Type 0
Connected (ok x, c) = IsLive c
Connected (err e, c) = IsFree c

failure-Connected :
    (e : Error) (disconnects : Operation) (c : Connection)
    → c.status ≡ connecting
    → Connected (close_after_failure e disconnects c)
unfolding close_after_failure
failure-Connected e disconnects c s = close-IsFree disconnects c (inl s)

finish-Connected :
    (r : Result (Unit {0})) (disconnects : Operation) (c : Connection)
    → c.status ≡ connecting
    → c.has_client ≡ true
    → Connected (finish_connect r disconnects c)
unfolding finish_connect
finish-Connected (ok x) disconnects c s h = (refl, h, refl)
finish-Connected (err e) disconnects c s h = failure-Connected e disconnects c s

start-Connected :
    (factory : Result (Unit {0})) (connects disconnects : Operation) (c : Connection)
    → c.status ≡ connecting
    → Connected (start_client factory connects disconnects c)
unfolding start_client
start-Connected (err e) connects disconnects c s = failure-Connected e disconnects c s
start-Connected (ok x) connects disconnects c s =
    finish-Connected (call_sdk connects c.spend_limited) disconnects
      (record c { has_client = true }) s refl

connect_ends : (p : Result (Unit {0}) × Connection) → Connected p → Outcome (λ _. IsLive) IsFree p
connect_ends (ok x, c) h = return-Outcome h
connect_ends (err e, c) h = raise-Outcome h

-- What `connect` promises of a connection, disconnected or not.
abbrev pub Connects : Bool → Connection → Result (Unit {0}) × Connection → Type 0
Connects true c r = Outcome (λ _. IsLive) IsFree r
Connects false c r = (r.0 ≡ err runtime_error) × (r.1 ≡ c)

connect-Connects :
    (has_target fork_session : Bool) (remaining : Option ℤ) (factory : Result (Unit {0}))
    (connects disconnects : Operation) (c : Connection) (b : Bool)
    → is_disconnected c.status ≡ b
    → (b ≡ true → IsFree c)
    → Connects b c (connect has_target fork_session remaining factory connects disconnects c)
unfolding connect
connect-Connects has_target fork_session remaining factory connects disconnects c true h free =
    let f = free refl in
    rw h (
      if-Outcome (fork_session && not has_target) (λ _. raise-Outcome f)
        (λ _.
          if-Outcome (not (is_positive? remaining)) (λ _. raise-Outcome f)
            (λ _. connect_ends _ (
              start-Connected factory connects disconnects
                (record c { status = connecting; messages = []; spend_limited = false }) refl))))
connect-Connects has_target fork_session remaining factory connects disconnects c false h free =
    rw h (refl, refl)

-- Of a connection that is free where it is disconnected: from a disconnected one, `connect` leaves a
-- live one where it returns, and a free one where it raises, whatever the factory and the SDK do; from
-- one that is connecting, connected or closing, it raises RuntimeError and changes nothing.
pub connect-IsLive :
    (has_target fork_session : Bool) (remaining : Option ℤ) (factory : Result (Unit {0}))
    (connects disconnects : Operation) (c : Connection)
    → (is_disconnected c.status ≡ true → IsFree c)
    → Connects
        (is_disconnected c.status)
        c
        (connect has_target fork_session remaining factory connects disconnects c)
connect-IsLive has_target fork_session remaining factory connects disconnects c free =
    connect-Connects has_target fork_session remaining factory connects disconnects c
      (is_disconnected c.status) refl free
