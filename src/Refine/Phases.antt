-- ===== src/Refine/Phases.antt =====
-- The loop of harness/self_refine/self_refine.py: `_run_phases`, `_run_phase`,
-- `_resolve_phase_outcome` and `_warn_if_needed`.
-- A `Turn` holds what the session, the storage and the provider do during one pass of the loop: the
-- events of the phase, and the outcome of each call that leaves the controller. `World.live` is the
-- state that the controller and the session manager share, and `World.saved` the last checkpoint.
use de_framework.Prelude.{
  ℕ, ◌+◌, ◌-◌, Bool, true, false, ◌&&◌, ◌||◌, not, Option, none, some, List, [], ◌∷◌, ltb, leb,
  if◌then◌else◌, pos,
}
use de_framework.Exec.{
  Error, runtime_error, Result, ok, err, Exec, pure, raise, lift, gets, modify, ◌>>=◌, ◌>>◌,
}
use de_framework.Session.Event.{SessionEvent, is_interrupted, is_usage}
use de_framework.Refine.State.{
  Phase, RunStatus, finished, paused, is_running, RefinementConfig, RefinementState, active_limit,
  warning_tokens, validate,
}
use de_framework.Refine.Budget.{
  get_budget_status, capture_solution_checkpoints, update_token_usage, apply_phase_result,
}

pub data Signal : Type 0 where
  event : SessionEvent → Signal
  raised : Error → Signal

pub record Turn : Type 0 where
  pub signals : List Signal
  pub queues : Result (Unit {0})
  pub interrupts : Result (Unit {0})
  pub closes : Result (Unit {0})
  pub restores : Result (Unit {0})
  pub saves : Result (Unit {0})
  pub connects : Result (Unit {0})

pub data Action : Type 0 where
  instruct : Phase → Action
  notice : ℕ → Action
  interrupt_request save rollback : Action

pub record World : Type 0 where
  pub live : RefinementState
  pub saved : RefinementState
  pub actions : List Action

-- A step of the shared state alone.
abbrev pub on_live : Exec RefinementState (Unit {0}) → Exec World (Unit {0})
on_live m w = let (r, s) = m w.live in (r, record w { live = s })

abbrev pub set_status : RunStatus → Exec World (Unit {0})
set_status status = modify (λ w. record w { live = record w.live { status = status } })

abbrev pub act : Action → Exec World (Unit {0})
act a = modify (λ w. record w { actions = a ∷ w.actions })

abbrev pub needs_no_notice : RefinementState → Bool
needs_no_notice s =
    s.warning_sent || not (is_running s.status) || not (is_running (get_budget_status s))

abbrev pub is_low : RefinementState → Bool
is_low s = leb (s.budget_tokens - s.output_tokens) warning_tokens

-- The newest action stands first. A call that raises did not send its notice.
unfoldable pub warn_if_needed : Turn → Exec World (Unit {0})
unfolding get_budget_status
warn_if_needed turn w =
    if needs_no_notice w.live
    then (ok tt, w)
    else if is_low w.live
    then (do
      lift turn.queues
      act (notice (w.live.budget_tokens - w.live.output_tokens))
      modify (λ v. record v { live = record v.live { warning_sent = true } }))
        w
    else (ok tt, w)

abbrev pub must_interrupt : Bool → RefinementState → Bool
must_interrupt requested s = not requested && not (is_running (get_budget_status s))

-- An interrupt is requested once, by the first usage event at which the budget has run out.
unfoldable pub interrupt_if_needed : Turn → Bool → Exec World Bool
unfolding get_budget_status
interrupt_if_needed turn requested w =
    if must_interrupt requested w.live
    then (do lift turn.interrupts; act interrupt_request; pure true) w
    else (ok requested, w)

-- The loop over the events of a phase; the result is its terminal event.
unfoldable pub consume :
    Turn → ℕ → Bool → Option SessionEvent → List Signal → Exec World (Option SessionEvent)
unfolding update_token_usage warn_if_needed interrupt_if_needed
consume turn starting requested terminal [] = pure terminal
consume turn starting requested terminal (raised e ∷ rest) = raise e
consume turn starting requested (some last) (event e ∷ rest) = raise runtime_error
consume turn starting requested none (event e ∷ rest) = do
  on_live (update_token_usage (starting + e.output_tokens))
  if is_usage e.kind
      then (do
        requested' ← interrupt_if_needed turn requested
        warn_if_needed turn
        consume turn starting requested' none rest)
      else if is_interrupted e.kind && not requested
      then raise runtime_error
      else consume turn starting requested (some e) rest

abbrev pub beyond_pause : RefinementState → SessionEvent → Bool
beyond_pause s e = elim s.pause_at_tokens [
  | none ↦ false
  | some p ↦ ltb p s.output_tokens || (is_interrupted e.kind && leb p s.output_tokens)
]

-- `Recovery.restore` closes the connection, then rolls the shared state back.
unfoldable pub restore : Turn → Exec World (Unit {0})
restore turn = do
  lift turn.closes
  lift turn.restores
  act rollback
  modify (λ w. record w { live = w.saved })

unfoldable pub resolve_phase_outcome :
    RefinementConfig → Turn → SessionEvent → Exec World (Unit {0})
unfolding restore get_budget_status apply_phase_result
resolve_phase_outcome config turn e w =
    let s = w.live in
    if beyond_pause s e
    then (do restore turn; set_status paused) w
    else if is_interrupted e.kind || ltb s.budget_tokens s.output_tokens
    then set_status (get_budget_status s) w
    else let (converged, s') = apply_phase_result config e.text s in
      let status = if converged then finished else get_budget_status s' in
      (ok tt, record w { live = record s' { status = status } })

abbrev pub need_terminal : Option SessionEvent → Result SessionEvent
need_terminal none = err runtime_error
need_terminal (some e) = ok e

unfoldable pub run_phase : RefinementConfig → Turn → Exec World (Unit {0})
unfolding consume resolve_phase_outcome
run_phase config turn w =
    (do
      act (instruct w.live.phase)
      terminal ← consume turn w.live.output_tokens false none turn.signals
      e ← lift (need_terminal terminal)
      resolve_phase_outcome config turn e)
      w

-- `Recovery.checkpoint`: validate, close, save, and reconnect work that goes on.
unfoldable pub checkpoint : Turn → Exec World (Unit {0})
unfolding validate
checkpoint turn = do
  s ← gets (λ w. w.live)
  lift (validate s)
  lift turn.closes
  lift turn.saves
  act save
  modify (λ w. record w { saved = w.live })
  if is_running s.status then lift turn.connects else pure tt

abbrev pub through_tokens : RefinementState → ℕ
through_tokens s = if is_running s.status then s.output_tokens else active_limit s

abbrev pub capture_through : Exec World (Unit {0})
capture_through w =
    (ok tt, record w { live = capture_solution_checkpoints w.live (pos (through_tokens w.live)) })

abbrev pub refresh_status : Exec World (Unit {0})
refresh_status =
    modify (λ w. record w { live = record w.live { status = get_budget_status w.live } })

-- The phase of a pass, where the budget allows one.
unfoldable pub work : RefinementConfig → Turn → Exec World (Unit {0})
unfolding run_phase
work config turn w =
    if is_running w.live.status
    then (do warn_if_needed turn; run_phase config turn) w
    else (ok tt, w)

-- One pass of the loop.
unfoldable pub pass : RefinementConfig → Turn → Exec World (Unit {0})
unfolding work checkpoint active_limit
pass config turn = do refresh_status; work config turn; capture_through; checkpoint turn

-- The status at which the loop stops, or none where it waits for one more turn.
unfoldable pub passes : RefinementConfig → List Turn → Exec World (Option RunStatus)
unfolding pass
passes config [] = pure none
passes config (turn ∷ turns) = do
  pass config turn
  s ← gets (λ w. w.live)
  if is_running s.status then passes config turns else pure (some s.status)

unfoldable pub run_phases : RefinementConfig → List Turn → Exec World (Option RunStatus)
unfolding passes
run_phases config turns = do
  s ← gets (λ w. w.live)
  lift (validate s)
  if is_running s.status then passes config turns else pure (some s.status)
