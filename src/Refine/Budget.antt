-- ===== src/Refine/Budget.antt =====
-- The pure rules of harness/self_refine/self_refine.py: budget status, checkpoint capture, token
-- usage, the critique verdict, and the result of a completed phase.
use de_framework.Prelude.{
  ℕ, zero, suc, ◌+◌, ◌-◌, ◌*◌, Bool, false, ◌&&◌, none, some, List, [], ◌∷◌, ltb, leb, ◌==◌,
  if◌then◌else◌, length, ℤ, pred_ℤ, exceeds,
}
use de_framework.Exec.{Exec, ok, err, value_error}
use de_framework.Text.{Text, codes, strip, splitlines, text_eq}
use de_framework.Refine.State.{
  critique, revise, RunStatus, running, exhausted, paused, RefinementConfig, RefinementState,
  active_limit, put, output_tokens_per_block, Phase,
}

unfoldable pub get_budget_status : RefinementState → RunStatus
get_budget_status s =
    if leb s.budget_tokens s.output_tokens then exhausted else elim s.pause_at_tokens [
      | none ↦ running
      | some p ↦ if leb p s.output_tokens then paused else running
    ]

unfoldable pub boundary : RefinementState → ℕ → ℕ
unfolding active_limit
boundary s multiplier =
    if multiplier == s.checkpoint_count
    then active_limit s
    else multiplier * output_tokens_per_block

abbrev pub freeze : RefinementState → ℕ → RefinementState
freeze s multiplier = record s {
  solution_checkpoints = put multiplier s.solution s.solution_checkpoints;
}

-- The loop over the labels not captured yet: `count` of them from `multiplier` on.
unfoldable pub capture_from : RefinementState → ℤ → ℕ → ℕ → RefinementState
unfolding boundary put
capture_from s through zero multiplier = s
capture_from s through (suc count) multiplier =
    let rest = capture_from (freeze s multiplier) through count (suc multiplier) in
    if exceeds (boundary s multiplier) through then s else rest

unfoldable pub capture_solution_checkpoints : RefinementState → ℤ → RefinementState
unfolding capture_from
capture_solution_checkpoints s through =
    let taken = length s.solution_checkpoints in
    capture_from s through (s.checkpoint_count - taken) (taken + 1)

unfoldable pub update_token_usage : ℕ → Exec RefinementState (Unit {0})
unfolding capture_solution_checkpoints
update_token_usage total s =
    if ltb total s.output_tokens
    then (err value_error, s)
    else (ok tt, capture_solution_checkpoints (record s { output_tokens = total }) (pred_ℤ total))

abbrev pub no_gaps_verdict : Text
no_gaps_verdict = codes "VERDICT: NO_GAPS"

last_line_is : List Text → Bool
last_line_is [] = false
last_line_is (l ∷ []) = text_eq (strip l) no_gaps_verdict
last_line_is (l ∷ ls) = last_line_is ls

unfoldable pub critique_has_no_gaps : Text → Bool
unfolding strip splitlines text_eq last_line_is
critique_has_no_gaps text = last_line_is (splitlines (strip text))

-- The result of a phase that ended in `phase`: whether the run has converged, and the new state.
unfoldable pub apply_result :
    Phase → RefinementConfig → Text → RefinementState → Bool × RefinementState
unfolding critique_has_no_gaps
apply_result critique config text s =
    let rounds = s.rounds + 1 in
    let streak = if critique_has_no_gaps text then s.no_gap_critiques + 1 else 0 in
    (
      leb config.min_rounds rounds && leb config.min_no_gap_critiques streak,
      record s { rounds = rounds; no_gap_critiques = streak; phase = revise },
    )
apply_result _ config text s = (false, record s { solution = some text; phase = critique })

unfoldable pub apply_phase_result :
    RefinementConfig → Text → RefinementState → Bool × RefinementState
unfolding apply_result
apply_phase_result config text s = apply_result s.phase config text s
