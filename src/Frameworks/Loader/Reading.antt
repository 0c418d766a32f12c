-- ===== src/Frameworks/Loader/Reading.antt =====
-- `_read_runs` and `load` of frameworks/utils/dataloader.py.
use de_framework.Storage.Manager.{is_none}
use de_framework.Launcher.Dataset.{Problem, Row}
use de_framework.Exec.{Result, ok, after, err, value_error, key_error}
use de_framework.Frameworks.Counts.{
  cumulative_successes, observe, Observation, Run, total_budget, table, as_int,
}
use de_framework.Frameworks.Loader.{
  AuditRow, Seeds, add_run, at_checkpoint, select_problems, Checkpoints, Groups, Runs,
  InputSelection, min_audit_score, min_short_seeds, min_oracle_seeds,
}
use de_framework.Text.{Text, is_blank, text_eq, codes, in_texts}
use de_framework.Prelude.{
  ℕ, List, Option, Bool, [], all, false, if◌then◌else◌, leb, ltb, map, ◌&&◌, ◌∷◌, length, none, not,
  some, ◌++◌, ◌||◌, suc, true, ◌+◌, zero,
}

-- The directory of the rows: its dataset, the model, its name and the last checkpoint.
pub record Source : Type 0 where
  pub dataset : Text
  pub model : Text
  pub name : Text
  pub horizon : ℕ

-- What the code calls to read a line: `json.loads`, the `problem_id` of the value, the validation by
-- the schema, and `str` of a number.
pub record RowReader : Type 1 where
  pub Json : Type 0
  pub loads : Text → Result Json
  pub problem_id_of : Json → Result Text
  pub validated : Json → Result AuditRow
  pub str : ℕ → Text

abbrev pub passes : AuditRow → Bool
passes row = leb min_audit_score row.score

unfoldable pub is_from_source : (ℕ → Text) → Source → AuditRow → Bool
unfolding text_eq
is_from_source str source row =
    text_eq row.dataset source.dataset
    && text_eq row.solver_model source.model
    && text_eq (row.experiment ++ codes "-" ++ str row.compute_multiplier_k ++ codes "x")
        source.name

unfoldable pub add_row : (ℕ → Text) → Source → AuditRow → Runs → Result Runs
unfolding is_from_source add_run
add_row str source row runs =
    if not (is_from_source str source row)
    then err value_error
    else add_run source.horizon row.problem_id row.seed row.checkpoint_multiplier_k (passes row)
        runs

-- The validated row of a line; none where the line is blank or of another problem.
unfoldable pub read_row : RowReader → List Text → Text → Result (Option AuditRow)
unfolding is_blank text_eq
read_row r problems line =
    if is_blank line
    then ok none
    else after (r.loads line) (λ j. after (r.problem_id_of j) (λ id.
      if in_texts id problems then after (r.validated j) (λ row. ok (some row)) else ok none))

abbrev pub add_read : (ℕ → Text) → Source → Option AuditRow → Runs → Result Runs
add_read str source none runs = ok runs
add_read str source (some row) runs = add_row str source row runs

unfoldable pub read_lines : RowReader → Source → List Text → List Text → Runs → Result Runs
unfolding read_row add_row
read_lines r source problems [] runs = ok runs
read_lines r source problems (line ∷ rest) runs =
    after (read_row r problems line) (λ row.
      after (add_read r.str source row runs) (λ more. read_lines r source problems rest more))

-- `checkpoints.keys() == set(range(1, horizon + 1))`
unfoldable pub is_complete : ℕ → Checkpoints → Bool
unfolding at_checkpoint
is_complete horizon cs =
    all (λ e. leb 1 e.0 && leb e.0 horizon) cs
    && all (λ c. not (is_none (at_checkpoint c cs))) (table (λ k. k) 1 horizon)

unfoldable pub seeds_of : Text → Runs → Seeds
unfolding text_eq
seeds_of id [] = []
seeds_of id ((p, seeds) ∷ runs) =
    let rest = seeds_of id runs in if text_eq p id then seeds else rest

unfoldable pub complete_runs : ℕ → Seeds → List Checkpoints
unfolding is_complete
complete_runs horizon [] = []
complete_runs horizon ((s, cs) ∷ seeds) =
    let rest = complete_runs horizon seeds in if is_complete horizon cs then cs ∷ rest else rest

-- The complete runs of each problem; a file that is not there has none.
unfoldable pub read_runs :
    RowReader → Source → List Text → Option (List Text) → Result (Text → List Checkpoints)
unfolding read_lines seeds_of complete_runs
read_runs r source problems none = ok (λ id. [])
read_runs r source problems (some lines) =
    after (read_lines r source problems lines [])
      (λ runs. ok (λ id. complete_runs source.horizon (seeds_of id runs)))

abbrev pub found : Option Bool → Result Bool
found none = err key_error
found (some b) = ok b

-- `run[checkpoint]`, with KeyError where the run lacks the checkpoint.
unfoldable pub get_checkpoint : ℕ → Checkpoints → Result Bool
unfolding at_checkpoint
get_checkpoint c cs = found (at_checkpoint c cs)

-- `sum(run[1] for run in short_runs)`
unfoldable pub sum_short : List Checkpoints → Result ℕ
unfolding get_checkpoint
sum_short [] = ok 0
sum_short (cs ∷ runs) =
    after (get_checkpoint 1 cs) (λ b. after (sum_short runs) (λ n. ok (as_int b + n)))

-- The lookups of `solved or run[checkpoint]` for the `left` checkpoints from `checkpoint` on: none
-- once the run is solved.
unfoldable pub look_up : Checkpoints → Bool → ℕ → ℕ → Result (Unit {0})
unfolding get_checkpoint
look_up cs true checkpoint left = ok tt
look_up cs false checkpoint zero = ok tt
look_up cs false checkpoint (suc left) =
    after (get_checkpoint checkpoint cs) (λ b. look_up cs b (suc checkpoint) left)

unfoldable pub look_up_all : List Checkpoints → Result (Unit {0})
unfolding look_up
look_up_all [] = ok tt
look_up_all (cs ∷ runs) = after (look_up cs false 1 total_budget) (λ _. look_up_all runs)

abbrev pub passed : Option Bool → Bool
passed none = false
passed (some b) = b

-- The values of the lookups, which are counted where none of them raised.
unfoldable pub solved_at : Checkpoints → Run
unfolding at_checkpoint
solved_at cs c = passed (at_checkpoint c cs)

abbrev pub observation : Text → Text → List Checkpoints → List Checkpoints → ℕ → Observation
observation dataset id short oracle successes = record {
  dataset = dataset;
  problem_id = id;
  short_attempts = length short;
  short_successes = successes;
  oracle_attempts = length oracle;
  oracle_successes = cumulative_successes (map solved_at oracle);
}

unfoldable pub observation_of :
    Text → Text → List Checkpoints → List Checkpoints → Result Observation
unfolding sum_short look_up_all solved_at cumulative_successes
observation_of dataset id short oracle = after (sum_short short) (λ successes.
    after (look_up_all oracle) (λ _. ok (observation dataset id short oracle successes)))

abbrev pub is_short_of_runs : List Checkpoints → List Checkpoints → Bool
is_short_of_runs short oracle =
    ltb (length short) min_short_seeds || ltb (length oracle) min_oracle_seeds

-- The observations of one dataset; the other problems are skipped.
unfoldable pub observe_problems :
    Text → (short oracle : Text → List Checkpoints) → List Problem → Result (List Observation)
unfolding observation_of observe
observe_problems dataset short oracle [] = ok []
observe_problems dataset short oracle (p ∷ ps) =
    let id = p.problem_id in
    let rest = observe_problems dataset short oracle ps in
    if is_short_of_runs (short id) (oracle id)
    then rest
    else after (after (observation_of dataset id (short id) (oracle id)) observe)
        (λ o. after rest (λ os. ok (o ∷ os)))

abbrev pub ids_of : List Problem → List Text
ids_of = map (λ p. p.problem_id)

-- The compiled audits of a dataset and an experiment's directory, for the model that is selected.
abbrev pub Files : Type 0
Files = Text → Text → Option (List Text)

-- The runs in the directory of one experiment.
unfoldable pub read_experiment :
    RowReader → Files → Text → Text → List Problem → Text → ℕ → Result (Text → List Checkpoints)
unfolding read_runs
read_experiment r files model dataset ps name horizon =
    read_runs r (record { dataset = dataset; model = model; name = name; horizon = horizon })
      (ids_of ps) (files dataset name)

unfoldable pub load_dataset :
    RowReader → Files → Text → Text → List Problem → Result (List Observation)
unfolding read_experiment observe_problems
load_dataset r files model dataset ps =
    after (read_experiment r files model dataset ps (codes "unaided-1x") 1) (λ short.
      after (read_experiment r files model dataset ps (codes "oracle-execution-8x") total_budget)
        (λ oracle. observe_problems dataset short oracle ps))

unfoldable pub load_all : RowReader → Files → Text → Groups → Result (List Observation)
unfolding load_dataset
load_all r files model [] = ok []
load_all r files model (g ∷ gs) =
    after (load_dataset r files model g.0 g.1)
      (λ os. after (load_all r files model gs) (λ more. ok (os ++ more)))

unfoldable pub load_observations :
    RowReader → Files → (Text → List Row) → InputSelection → Result (List Observation)
unfolding select_problems load_all
load_observations r files rows s =
    after (select_problems rows s) (λ gs. load_all r files s.model gs)
