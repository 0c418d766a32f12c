-- ===== src/Storage/Continue.antt =====
-- `SessionManager._continue_state` of harness/session/session_manager.py.
use de_framework.Refine.Durable.{IsSafe}
use de_framework.Refine.Valid.{IsValid}
use de_framework.Exec.{Result, ok, require, err, value_error}
use de_framework.Refine.State.{
  active_limit, RefinementState, ceil_div, is_running, output_tokens_per_block, running,
}
use de_framework.Text.{text_eq}
use de_framework.Prelude.{
  ℕ, ◌<◌, ◌≡◌, if◌then◌else◌, arith, true, ◌&&◌, false, length, ◌==◌, leb, ltb, ◌+◌, ◌-◌, none,
  refl, ◌⊎◌, ◌≤◌, inl, inr,
}

abbrev reopened : ℕ → RefinementState → RefinementState
reopened budget s = record s {
  warning_sent = if ltb s.budget_tokens budget then false else s.warning_sent;
  checkpoint_count =
      length s.solution_checkpoints + ceil_div (budget - s.output_tokens) output_tokens_per_block;
  budget_tokens = budget;
  pause_at_tokens = none;
  no_gap_critiques = 0;
  status = running;
}

unfoldable pub continue_state : ℕ → RefinementState → Result RefinementState
continue_state budget s =
    if is_running s.status
    then err value_error
    else if leb budget s.output_tokens
    then err value_error
    else ok (reopened budget s)

-- `SessionManager._validate_requested_state`
unfoldable pub validate_requested_state : RefinementState → RefinementState → Result (Unit {0})
unfolding text_eq
validate_requested_state saved expected =
    require
      (text_eq saved.problem expected.problem && saved.budget_tokens == expected.budget_tokens)
      value_error

-- What continuation makes of the state `s`.
pub record Continued (budget : ℕ) (s t : RefinementState) : Type 0 where
  pub valid : IsValid t
  pub running : is_running t.status ≡ true
  pub allowance : (t.budget_tokens ≡ budget) × (t.output_tokens < active_limit t)
  pub progress : (t.solution ≡ s.solution) × (t.rounds ≡ s.rounds) × (t.phase ≡ s.phase)
  pub frozen : t.solution_checkpoints ≡ s.solution_checkpoints
  pub room : length t.solution_checkpoints < t.checkpoint_count

ceil_div_pos : (a : ℕ) → 0 < a → 0 < ceil_div a output_tokens_per_block
ceil_div_pos a h = omega arith

reopened-IsValid :
    (budget : ℕ) (s : RefinementState)
    → IsValid s
    → s.output_tokens < budget
    → IsValid (reopened budget s)
reopened-IsValid budget s v above =
    let more = ceil_div_pos (budget - s.output_tokens) (omega arith) in
    record {
      stated = v.stated;
      budgeted = omega arith;
      pause = tt;
      streak = omega arith;
      counted = omega arith;
      within = omega arith;
      labels = v.labels;
    }

-- Continuing a valid stopped state with a budget above what it spent succeeds, and gives a valid
-- running state below its limit, with the same progress and frozen solutions, and room for at least
-- one more label.
pub continue_state-Continued :
    (budget : ℕ) (s : RefinementState)
    → IsValid s
    → is_running s.status ≡ false
    → s.output_tokens < budget
    → (t : RefinementState) × (continue_state budget s ≡ ok t) × Continued budget s t
unfolding continue_state active_limit
continue_state-Continued budget s v stopped above =
    let more = ceil_div_pos (budget - s.output_tokens) (omega arith) in
    (
      reopened budget s,
      ground arith,
      record {
        valid = reopened-IsValid budget s v above;
        running = refl;
        allowance = (refl, above);
        progress = (refl, refl, refl);
        frozen = refl;
        room = omega arith;
      },
    )

-- Continuation raises ValueError for a running state, and for a budget that is already spent.
pub continue_state-err :
    (budget : ℕ) (s : RefinementState)
    → (is_running s.status ≡ true) ⊎ (budget ≤ s.output_tokens)
    → continue_state budget s ≡ err value_error
unfolding continue_state
continue_state-err budget s (inl h) = ground arith
continue_state-err budget s (inr h) = ground arith

one_more :
    (o b : ℕ) → b ≡ o + output_tokens_per_block → ceil_div (b - o) output_tokens_per_block ≡ 1
one_more o b h = omega arith

-- A continuation of one block, from a valid stopped state, succeeds and is safe to run: it is
-- valid, its usage lies within its pause, and its labels lie in its allowance.
pub continue_state-IsSafe :
    (s : RefinementState)
    → IsValid s
    → is_running s.status ≡ false
    → (t : RefinementState) × (continue_state (s.output_tokens + output_tokens_per_block) s ≡ ok t)
      × IsSafe t
continue_state-IsSafe s v stopped =
    let budget = s.output_tokens + output_tokens_per_block in
    (
      reopened budget s,
      unfold continue_state in ground arith,
      record {
        valid = reopened-IsValid budget s v (omega arith);
        reach = λ k l h. absurd (omega (arith, one_more s.output_tokens budget refl, l, h));
        within = λ p e. cc;
      },
    )
