-- ===== src/Frameworks/Loader/Tests.antt =====
-- The theorems about the loader at small files.
use de_framework.Frameworks.Estimators.{simple_geometric, discovery_execution}
use de_framework.Frameworks.Estimators.Predictions.{
  FitsAndPredicts, IsSampled, simple_geometric-IsEstimator, IsAccepted,
  discovery_execution-IsEstimator,
}
use de_framework.Frameworks.Base.{validate_observations, are_unique}
use de_framework.Frameworks.Loader.Loaded.{
  key, key_in, sampled, IsLoaded, observe_problems-IsLoaded, load_observations-FitsAndPredicts,
}
use de_framework.Frameworks.Loader.Index.{rows_of, Indexes, read_lines-Indexes}
use de_framework.Exec.{Result, err, ok, value_error}
use de_framework.Frameworks.Counts.{Observation}
use de_framework.Launcher.Dataset.{Problem, Row}
use de_framework.Frameworks.Loader.{
  InputSelection, Runs, AuditRow, Checkpoints, add_run, add_seed, add_checkpoint, at_checkpoint,
  Seeds,
}
use de_framework.Frameworks.Loader.Reading.{
  Files, RowReader, Source, load_observations, read_lines, observe_problems, read_row, add_row,
  is_from_source, complete_runs, read_experiment, seeds_of,
}
use de_framework.Text.{Text, codes, is_blank, text_eq, is_space, is_line_break}
use de_framework.Prelude.{
  refl, ℕ, List, [], some, ◌+◌, ◌∷◌, if◌then◌else◌, none, suc, true, ◌≡◌, map, zero, ◌==◌, length,
  ◌/◌, All, ◌%◌,
}

-- A line is the letter of its experiment and a number in unary: the seed of a short run, or the
-- checkpoints of the seeds of the other runs in a row.
abbrev audit_row : Text → ℕ → ℕ → ℕ → AuditRow
audit_row experiment multiplier seed checkpoint = record {
  dataset = codes "aobench";
  solver_model = codes "m";
  experiment = experiment;
  problem_id = codes "p";
  seed = seed;
  compute_multiplier_k = multiplier;
  checkpoint_multiplier_k = checkpoint;
  score = 6;
}

abbrev parse : Text → Result AuditRow
parse [] = err value_error
parse (c ∷ t) =
    if c == 115
    then ok (audit_row (codes "unaided") 1 (length t) 1)
    else ok (audit_row (codes "oracle-execution") 8 (length t / 8) (length t % 8 + 1))

abbrev digit : ℕ → Text
digit n = (48 + n) ∷ []

abbrev reader : RowReader
reader = record {
  Json = AuditRow;
  loads = parse;
  problem_id_of = λ row. ok row.problem_id;
  validated = ok;
  str = digit;
}

abbrev unary : ℕ → Text
unary zero = []
unary (suc n) = 49 ∷ unary n

abbrev lines : ℕ → ℕ → List Text
lines c zero = []
lines c (suc n) = (c ∷ unary n) ∷ lines c n

abbrev short_source : Source
short_source = record {
  dataset = codes "aobench";
  model = codes "m";
  name = codes "unaided-1x";
  horizon = 1;
}

abbrev oracle_source : Source
oracle_source = record short_source { name = codes "oracle-execution-8x"; horizon = 8 }

abbrev checkpoints : ℕ → Checkpoints
checkpoints zero = []
checkpoints (suc n) = (suc n, true) ∷ checkpoints n

abbrev seeds : ℕ → ℕ → Seeds
seeds h zero = []
seeds h (suc n) = (n, checkpoints h) ∷ seeds h n

abbrev read : ℕ → ℕ → Runs
read h n = (codes "p", seeds h n) ∷ []

short_lines : read_lines reader short_source (codes "p" ∷ []) (lines 115 24) [] ≡ ok (read 1 24)
unfolding read_lines read_row add_row is_blank is_from_source text_eq add_run add_seed
    add_checkpoint at_checkpoint is_space is_line_break
short_lines = refl

oracle_lines : read_lines reader oracle_source (codes "p" ∷ []) (lines 111 24) [] ≡ ok (read 8 3)
unfolding read_lines read_row add_row is_blank is_from_source text_eq add_run add_seed
    add_checkpoint at_checkpoint is_space is_line_break
oracle_lines = refl

read_lines-Indexes_example :
    (rows : List AuditRow) × (rows_of reader (codes "p" ∷ []) (lines 115 24) ≡ ok rows)
    × Indexes digit short_source [] (read 1 24) rows
read_lines-Indexes_example =
    read_lines-Indexes reader short_source (codes "p" ∷ []) (lines 115 24) [] (read 1 24)
      short_lines

abbrev problem : Problem
problem = record {
  problem_id = codes "p";
  statement = codes "s";
  domain = codes "d";
  sketch = none;
}

abbrev row : Row
row = record { problem_id = codes "p"; statement = codes "s"; domain = codes "d"; solutions = [] }

abbrev selection : InputSelection
selection = record {
  model = codes "m";
  datasets = codes "aobench" ∷ [];
  problems = none;
  domain = none;
}

abbrev files : Files
files dataset name = some (if text_eq name (codes "unaided-1x") then lines 115 24 else lines 111 24)

abbrev runs : ℕ → ℕ → Text → List Checkpoints
runs h n id = complete_runs h (seeds_of id (read h n))

short_read :
    read_experiment reader files (codes "m") (codes "aobench") (problem ∷ []) (codes "unaided-1x") 1
    ≡ ok (runs 1 24)
unfolding read_experiment
short_read = refl

oracle_read :
    read_experiment reader files
      (codes "m")
      (codes "aobench")
      (problem ∷ [])
      (codes "oracle-execution-8x")
      8
    ≡ ok (runs 8 3)
unfolding read_experiment
oracle_read = refl

observe_problems-IsLoaded_example :
    (os : List Observation) × (observe_problems
        (codes "aobench")
        (runs 1 24)
        (runs 8 3)
        (problem ∷ [])
      ≡ ok os)
    × (map key os ≡ map (key_in (codes "aobench")) (sampled (runs 1 24) (runs 8 3) (problem ∷ [])))
    × All IsLoaded os
observe_problems-IsLoaded_example =
    observe_problems-IsLoaded reader files (codes "m") (codes "aobench") (problem ∷ []) (runs 1 24)
      (runs 8 3) short_read oracle_read refl (refl, tt)

abbrev observed : Observation
observed = record {
  dataset = codes "aobench";
  problem_id = codes "p";
  short_attempts = 24;
  short_successes = 24;
  oracle_attempts = 3;
  oracle_successes = 3 ∷ 3 ∷ 3 ∷ 3 ∷ 3 ∷ 3 ∷ 3 ∷ 3 ∷ [];
}

loads_observed : load_observations reader files (λ d. row ∷ []) selection ≡ ok (observed ∷ [])
unfolding load_observations
loads_observed = refl

load_observations-FitsAndPredicts_example :
    FitsAndPredicts simple_geometric IsSampled simple_geometric-IsEstimator (observed ∷ []) []
    × FitsAndPredicts discovery_execution IsAccepted discovery_execution-IsEstimator
        (observed ∷ [])
        []
unfolding validate_observations are_unique
load_observations-FitsAndPredicts_example =
    load_observations-FitsAndPredicts reader files (λ d. row ∷ []) selection (observed ∷ [])
      loads_observed refl
