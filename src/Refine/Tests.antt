-- ===== src/Refine/Tests.antt =====
-- The theorems about the refinement loop at small runs.
use de_framework.Refine.Run.{Ended, run_phases_end, run_phases-IsStored}
use de_framework.Refine.Labels.{Contiguous}
use de_framework.Exec.{Outcome, ok}
use de_framework.Text.{codes, is_blank}
use de_framework.Refine.Budget.{capture_solution_checkpoints}
use de_framework.Refine.Capture.{Captured, new_state-Reachable, capture-Captured, capture-full}
use de_framework.Refine.Progress.{IsSmooth, Never}
use de_framework.Refine.Durable.{IsCalm, IsSafe, SavedIsSafe}
use de_framework.Refine.Valid.{IsValid, new_state-IsValid, validate_iff}
use de_framework.Prelude.{
  List, length, [], arith, map, pos, ◌∷◌, ◌≡◌, none, refl, ◌-◌, some, ◌↔◌, ◌⊎◌,
}
use de_framework.Refine.State.{
  exhausted, RefinementConfig, RefinementState, new_state, validate, active_limit,
}
use de_framework.Refine.Phases.{Turn, World, run_phases, event}
use de_framework.Session.Event.{SessionEvent, completed, usage}

abbrev done_event : SessionEvent
done_event = record { kind = completed; output_tokens = 2; text = codes "x" }

abbrev some_usage : SessionEvent
some_usage = record { kind = usage; output_tokens = 1; text = [] }

abbrev good_turn : Turn
good_turn = record {
  signals = event some_usage ∷ event done_event ∷ [];
  queues = ok tt;
  interrupts = ok tt;
  closes = ok tt;
  restores = ok tt;
  saves = ok tt;
  connects = ok tt;
}

abbrev start : RefinementState
start = new_state (codes "P") 2 none

abbrev world : World
world = record { live = start; saved = start; actions = [] }

abbrev settings : RefinementConfig
settings = record { min_rounds = 1; min_no_gap_critiques = 1 }

abbrev good_turns : List Turn
good_turns = good_turn ∷ good_turn ∷ good_turn ∷ []

start-IsValid : IsValid start
start-IsValid = new_state-IsValid (codes "P") 2 none (unfold is_blank in refl) (omega arith) tt

start-IsSafe : IsSafe start
start-IsSafe = record {
  valid = start-IsValid;
  reach = new_state-Reachable (codes "P") 2 none;
  within = λ p e. unfold new_state in cc;
}

world-IsCalm : IsCalm world
world-IsCalm = record { live = start-IsSafe; saved = start-IsSafe }

good_turn-IsSmooth : IsSmooth good_turn
good_turn-IsSmooth = record {
  delivers = (refl, omega arith, (refl, omega arith, omega arith));
  queues = refl;
  interrupts = refl;
  closes = refl;
  restores = refl;
  saves = refl;
  connects = refl;
}

run_phases_end_example : Outcome Ended Never (run_phases settings good_turns world)
unfolding new_state
run_phases_end_example =
    run_phases_end settings good_turns world world-IsCalm refl
      (good_turn-IsSmooth, (good_turn-IsSmooth, (good_turn-IsSmooth, tt))) (omega arith)

run_phases-IsStored_example :
    Outcome
      (λ r v. (r ≡ none × IsCalm v) ⊎ Ended r v)
      SavedIsSafe
      (run_phases settings good_turns world)
unfolding new_state
run_phases-IsStored_example = run_phases-IsStored settings good_turns world world-IsCalm refl

-- A state of three blocks, and the capture of its first two labels.
abbrev blocks : RefinementState
blocks = new_state (codes "P") 600000 none

blocks-Contiguous : Contiguous blocks.solution_checkpoints
unfolding new_state
blocks-Contiguous k = ground arith

capture-Captured_example :
    Captured blocks
      (pos 450000)
      (blocks.checkpoint_count - length blocks.solution_checkpoints)
      (capture_solution_checkpoints blocks (pos 450000))
capture-Captured_example = capture-Captured blocks (pos 450000) blocks-Contiguous

blocks-IsValid : IsValid blocks
blocks-IsValid =
    new_state-IsValid (codes "P") 600000 none (unfold is_blank in refl) (omega arith) tt

capture-full_example :
    length (capture_solution_checkpoints blocks (pos (active_limit blocks))).solution_checkpoints
    ≡ blocks.checkpoint_count
capture-full_example =
    capture-full blocks blocks-IsValid (new_state-Reachable (codes "P") 600000 none)

validate-iff_example : (validate blocks ≡ ok tt) ↔ IsValid blocks
validate-iff_example = validate_iff blocks

-- A solution of the budget runs out after one phase.
two_labels :
    map (λ e. e.0) (capture_solution_checkpoints blocks (pos 450000)).solution_checkpoints
    ≡ 1 ∷ 2 ∷ []
unfolding capture_solution_checkpoints new_state
two_labels = refl

stops_exhausted : (run_phases settings good_turns world).0 ≡ ok (some exhausted)
unfolding run_phases new_state is_blank
stops_exhausted = refl
