-- ===== src/Frameworks/Loader/Complete.antt =====
-- The runs that `_read_runs` of frameworks/utils/dataloader.py returns have the checkpoints that the
-- loader reads of them.
use de_framework.Exec.{ok, after-ok, ok_inj}
use de_framework.Frameworks.Counts.{Observation, as_int, table}
use de_framework.Frameworks.Loader.{Checkpoints, Seeds, at_checkpoint, Runs}
use de_framework.Frameworks.Loader.Reading.{
  observation_of, observation, is_complete, complete_runs, read_runs, read_experiment, RowReader,
  Files, Source, get_checkpoint, sum_short, look_up, look_up_all, found, seeds_of, read_lines,
}
use de_framework.Launcher.Dataset.{Problem}
use de_framework.Storage.Manager.{is_none}
use de_framework.Text.{Text}
use de_framework.Prelude.{
  refl, ℕ, List, Bool, length, not, ◌≡◌, false, true, ◌≤◌, All, arith, ◌∷◌, [], Bool-cases, zero,
  suc, inl, inr, all, subst, Option, none, some, ◌+◌,
}

abbrev pub AreComplete : ℕ → List Checkpoints → Type 0
AreComplete horizon = All (λ cs. is_complete horizon cs ≡ true)

complete_runs-AreComplete :
    (horizon : ℕ) (seeds : Seeds) → AreComplete horizon (complete_runs horizon seeds)
unfolding complete_runs
complete_runs-AreComplete horizon [] = tt
complete_runs-AreComplete horizon ((s, cs) ∷ seeds) = elim (Bool-cases (is_complete horizon cs)) [
  | inl whole ↦ rw whole (whole, complete_runs-AreComplete horizon seeds)
  | inr not_whole ↦ rw not_whole (complete_runs-AreComplete horizon seeds)
]

read_runs-AreComplete :
    (r : RowReader) (source : Source) (problems : List Text) (file : Option (List Text))
    (runs : Text → List Checkpoints)
    → read_runs r source problems file ≡ ok runs
    → (id : Text) → AreComplete source.horizon (runs id)
unfolding read_runs
read_runs-AreComplete r source problems none runs h id =
    subst (λ f. AreComplete source.horizon (f id)) (ok_inj (λ id. []) runs h) tt
read_runs-AreComplete r source problems (some lines) runs h id =
    let selected : Runs → Text → List Checkpoints =
      λ rows id. complete_runs source.horizon (seeds_of id rows) in
    let (rows, e, k) =
      after-ok (read_lines r source problems lines []) (λ rows. ok (selected rows)) runs h in
    subst (λ f. AreComplete source.horizon (f id)) (ok_inj (selected rows) runs k)
      (complete_runs-AreComplete source.horizon (seeds_of id rows))

pub read_experiment-AreComplete :
    (r : RowReader) (files : Files) (model dataset : Text) (ps : List Problem) (name : Text)
    (horizon : ℕ) (runs : Text → List Checkpoints)
    → read_experiment r files model dataset ps name horizon ≡ ok runs
    → (id : Text) → AreComplete horizon (runs id)
unfolding read_experiment
read_experiment-AreComplete r files model dataset ps name horizon runs =
    read_runs-AreComplete r _ _ (files dataset name) runs

found-returns : (o : Option Bool) → not (is_none o) ≡ true → (b : Bool) × (found o ≡ ok b)
found-returns none h = cc
found-returns (some b) h = (b, refl)

get_checkpoint-returns :
    (c : ℕ) (cs : Checkpoints)
    → not (is_none (at_checkpoint c cs)) ≡ true
    → (b : Bool) × (get_checkpoint c cs ≡ ok b)
unfolding get_checkpoint
get_checkpoint-returns c cs h = found-returns (at_checkpoint c cs) h

look_up-returns :
    (cs : Checkpoints) (b : Bool) (c n : ℕ)
    → all (λ c. not (is_none (at_checkpoint c cs))) (table (λ k. k) c n) ≡ true
    → look_up cs b c n ≡ ok tt
unfolding look_up
look_up-returns cs true c n h = refl
look_up-returns cs false c zero h = refl
look_up-returns cs false c (suc n) h =
    let (b, found) = get_checkpoint-returns c cs (ground (arith, h)) in
    rw found (look_up-returns cs b (suc c) n (ground (arith, h)))

look_up_all-returns : (runs : List Checkpoints) → AreComplete 8 runs → look_up_all runs ≡ ok tt
unfolding look_up_all is_complete
look_up_all-returns [] h = refl
look_up_all-returns (cs ∷ runs) h =
    rw (look_up-returns cs false 1 8 (ground (arith, h.0))) (look_up_all-returns runs h.1)

sum_short-returns :
    (runs : List Checkpoints)
    → AreComplete 1 runs
    → (n : ℕ) × (sum_short runs ≡ ok n) × (n ≤ length runs)
unfolding sum_short is_complete
sum_short-returns [] h = (0, refl, omega arith)
sum_short-returns (cs ∷ runs) h =
    let (n, e, bound) = sum_short-returns runs h.1 in
    let (b, found) = get_checkpoint-returns 1 cs (ground (arith, h.0)) in
    (as_int b + n, rw (found, e) refl, ground (arith, bound))

pub observation_of-returns :
    (dataset id : Text) (short oracle : List Checkpoints)
    → AreComplete 1 short
    → AreComplete 8 oracle
    → (n : ℕ) × (observation_of dataset id short oracle
        ≡ ok (observation dataset id short oracle n))
      × (n ≤ length short)
unfolding observation_of
observation_of-returns dataset id short oracle hs ho =
    let (n, e, bound) = sum_short-returns short hs in
    (n, rw (e, look_up_all-returns oracle ho) refl, bound)

pub observation_of-ok :
    (dataset id : Text) (short oracle : List Checkpoints) (o : Observation)
    → observation_of dataset id short oracle ≡ ok o
    → (n : ℕ) × (observation dataset id short oracle n ≡ o)
unfolding observation_of
observation_of-ok dataset id short oracle o h =
    let (n, e, k) = after-ok (sum_short short) _ o h in
    let (u, e1, k1) = after-ok (look_up_all oracle) _ o k in (n, ok_inj _ _ k1)
