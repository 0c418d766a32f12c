-- ===== src/Refine/State.antt =====
-- harness/self_refine/models.py: phases, statuses, settings and the resumable progress of an
-- attempt. Counts and token totals are natural numbers here; integers that may be negative are
-- checked where they enter (`config` below).
use de_framework.Prelude.{
  ℕ, zero, suc, ◌+◌, ◌-◌, ◌/◌, Bool, true, false, ◌&&◌, ◌||◌, not, Option, none, some, List, [],
  ◌∷◌, map, ltb, leb, ◌==◌, if◌then◌else◌, length, any, all, ℤ, pos, negsuc,
}
use de_framework.Exec.{Result, ok, err, value_error}
use de_framework.Text.{Text, is_blank}

pub data Phase : Type 0 where
  solve critique revise continue : Phase

pub data RunStatus : Type 0 where
  running finished exhausted paused : RunStatus

pub Phase-discrete : Discrete Phase
Phase-discrete = hlevel

pub RunStatus-discrete : Discrete RunStatus
RunStatus-discrete = hlevel

-- `status == RunStatus.RUNNING`
abbrev pub is_running : RunStatus → Bool
is_running running = true
is_running _ = false

abbrev pub output_tokens_per_block : ℕ
output_tokens_per_block = 200000

abbrev pub warning_tokens : ℕ
warning_tokens = 20000

pub record RefinementConfig : Type 0 where
  pub min_rounds : ℕ
  pub min_no_gap_critiques : ℕ

unfoldable pub config : ℤ → ℤ → Result RefinementConfig
config (negsuc r) c = err value_error
config (pos r) (negsuc c) = err value_error
config (pos r) (pos zero) = err value_error
config (pos r) (pos (suc c)) = ok (record { min_rounds = r; min_no_gap_critiques = suc c })

-- A dictionary from checkpoint labels to the solution frozen there, in insertion order.
abbrev pub Checkpoints : Type 0
Checkpoints = List (ℕ × Option Text)

abbrev pub keys : Checkpoints → List ℕ
keys = map (λ e. e.0)

-- d[k] = v
unfoldable pub put : ℕ → Option Text → Checkpoints → Checkpoints
put k v [] = (k, v) ∷ []
put k v ((j, w) ∷ d) = if j == k then (j, v) ∷ d else (j, w) ∷ put k v d

pub record RefinementState : Type 0 where
  pub problem : Text
  pub budget_tokens : ℕ
  pub pause_at_tokens : Option ℕ
  pub phase : Phase
  pub output_tokens : ℕ
  pub rounds : ℕ
  pub no_gap_critiques : ℕ
  pub warning_sent : Bool
  pub solution : Option Text
  pub status : RunStatus
  pub solution_checkpoints : Checkpoints
  pub checkpoint_count : ℕ

-- math.ceil(a / b) for a positive b. The source divides floats, which is exact below 2 ^ 53.
abbrev pub ceil_div : ℕ → ℕ → ℕ
ceil_div a b = (a + (b - 1)) / b

abbrev limit_of : ℕ → Option ℕ → ℕ
limit_of budget none = budget
limit_of budget (some p) = p

unfoldable pub active_limit : RefinementState → ℕ
active_limit s = limit_of s.budget_tokens s.pause_at_tokens

-- RefinementState(problem, budget_tokens, pause_at_tokens)
unfoldable pub new_state : Text → ℕ → Option ℕ → RefinementState
new_state problem budget pause = record {
  problem = problem;
  budget_tokens = budget;
  pause_at_tokens = pause;
  phase = solve;
  output_tokens = 0;
  rounds = 0;
  no_gap_critiques = 0;
  warning_sent = false;
  solution = none;
  status = running;
  solution_checkpoints = [];
  checkpoint_count = ceil_div (limit_of budget pause) output_tokens_per_block;
}

-- range(start, start + count)
unfoldable pub range_from : ℕ → ℕ → List ℕ
range_from start zero = []
range_from start (suc n) = start ∷ range_from (suc start) n

abbrev pub member : ℕ → List ℕ → Bool
member k = any (λ j. j == k)

-- The comparison of two sets of numbers.
unfoldable pub same_set : List ℕ → List ℕ → Bool
same_set a b = all (λ k. member k b) a && all (λ k. member k a) b

pause_inside : ℕ → Option ℕ → Bool
pause_inside budget none = true
pause_inside budget (some p) = ltb 0 p && ltb p budget

unfoldable pub validate : RefinementState → Result (Unit {0})
unfolding pause_inside same_set range_from
validate s =
    if is_blank s.problem
    then err value_error
    else if leb s.budget_tokens 0
    then err value_error
    else if not (pause_inside s.budget_tokens s.pause_at_tokens)
    then err value_error
    else if not (leb s.no_gap_critiques s.rounds)
    then err value_error
    else if leb s.checkpoint_count 0
    then err value_error
    else let expected = range_from 1 (length s.solution_checkpoints) in
      if not (same_set (keys s.solution_checkpoints) expected)
        || ltb s.checkpoint_count (length expected)
      then err value_error
      else ok tt
