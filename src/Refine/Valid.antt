-- ===== src/Refine/Valid.antt =====
-- What `RefinementState.validate` accepts, and which rules of the loop keep it.
use de_framework.Prelude.{
  ℕ, ◌≤◌, ◌<◌, ◌≡◌, ◌⊎◌, ◌↔◌, false, Option, none, some, arith, length, Bool,
}
use de_framework.Exec.{ok, err, value_error}
use de_framework.Text.{is_blank, Text}
use de_framework.Refine.State.{RefinementState, validate, new_state, Phase, RunStatus}
use de_framework.Refine.Labels.{
  Contiguous, same_set-Contiguous, Contiguous-same_set, length-range_from,
}

abbrev pub PauseInside : ℕ → Option ℕ → Type 0
PauseInside budget none = Unit
PauseInside budget (some p) = (0 < p) × (p < budget)

-- A state that can be run, saved or restored.
pub record IsValid (s : RefinementState) : Type 0 where
  pub stated : is_blank s.problem ≡ false
  pub budgeted : 0 < s.budget_tokens
  pub pause : PauseInside s.budget_tokens s.pause_at_tokens
  pub streak : s.no_gap_critiques ≤ s.rounds
  pub counted : 0 < s.checkpoint_count
  pub within : length s.solution_checkpoints ≤ s.checkpoint_count
  pub labels : Contiguous s.solution_checkpoints

-- `validate` accepts a state exactly when it is valid, and raises ValueError at every other.
pub validate_iff : (s : RefinementState) → (validate s ≡ ok tt) ↔ IsValid s
unfolding validate
validate_iff s =
    let d = s.solution_checkpoints in
    (
      λ h. record {
        stated = ground arith;
        budgeted = ground arith;
        pause = ground arith;
        streak = ground arith;
        counted = ground arith;
        within = ground (arith, length-range_from 1 (length d));
        labels = same_set-Contiguous d (ground arith);
      },
      λ v.
          ground
            (arith, v.labels 0, length-range_from 1 (length d), Contiguous-same_set d v.labels),
    )

pub validate-err : (s : RefinementState) → (validate s ≡ ok tt) ⊎ (validate s ≡ err value_error)
unfolding validate
validate-err s = ground arith

pub new_state-IsValid :
    (problem : Text) (budget : ℕ) (pause : Option ℕ)
    → is_blank problem ≡ false
    → 0 < budget
    → PauseInside budget pause
    → IsValid (new_state problem budget pause)
unfolding new_state
new_state-IsValid problem budget pause named spent inside = record {
  stated = named;
  budgeted = spent;
  pause = inside;
  streak = omega arith;
  counted = ground arith;
  within = omega arith;
  labels = λ k. ground arith;
}

-- Progress may change freely where the streak stays within the rounds.
pub progress-IsValid :
    {s : RefinementState}
    → IsValid s
    → (phase : Phase) (tokens rounds streak : ℕ) (warned : Bool) (solution : Option Text)
      (status : RunStatus)
    → streak ≤ rounds
    → IsValid (record s {
      phase = phase;
      output_tokens = tokens;
      rounds = rounds;
      no_gap_critiques = streak;
      warning_sent = warned;
      solution = solution;
      status = status;
    })
progress-IsValid v phase tokens rounds streak warned solution status h = record {
  stated = v.stated;
  budgeted = v.budgeted;
  pause = v.pause;
  streak = h;
  counted = v.counted;
  within = v.within;
  labels = v.labels;
}
