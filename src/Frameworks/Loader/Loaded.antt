-- ===== src/Frameworks/Loader/Loaded.antt =====
-- The observations that dataloader.py gives to the estimators.
use de_framework.Frameworks.Loader.Complete.{
  AreComplete, observation_of-ok, read_experiment-AreComplete, observation_of-returns,
}
use de_framework.Frameworks.Estimators.{simple_geometric, discovery_execution}
use de_framework.Frameworks.Estimators.Predictions.{
  FitsAndPredicts, IsSampled, simple_geometric-IsEstimator, IsAccepted,
  discovery_execution-IsEstimator, simple_geometric-FitsAndPredicts,
  discovery_execution-FitsAndPredicts,
}
use de_framework.Frameworks.Base.{validate_observations}
use de_framework.Exec.{ok, ok_inj, Result, after, after-ok}
use de_framework.Launcher.Dataset.{Problem, Row}
use de_framework.Frameworks.Loader.Reading.{
  observation_of, observe_problems, is_short_of_runs, solved_at, load_all, load_observations,
  RowReader, load_dataset, Files, read_experiment, observation,
}
use de_framework.Frameworks.Loader.{Checkpoints, keep, Groups, InputSelection, select_problems}
use de_framework.Text.{Text, codes}
use de_framework.Frameworks.Counts.{
  Observation, is_empty, observe, observe-cumulative, total_budget,
}
use de_framework.Prelude.{
  refl, List, length, map, not, ◌≡◌, false, ◌≤◌, All, arith, ◌∷◌, Bool-cases, [], ap, subst, inl,
  suc, inr, ◌++◌, if_elim, ◌∙◌, sym, ℕ,
}

-- An observation of a dataset that rests on enough runs, and that the estimators accept.
pub record IsLoaded (o : Observation) : Type 0 where
  pub accepted : observe o ≡ ok o
  pub short_runs : 24 ≤ o.short_attempts
  pub oracle_runs : 3 ≤ o.oracle_attempts

-- The problems of a dataset with enough runs.
unfoldable pub sampled : (short oracle : Text → List Checkpoints) → List Problem → List Problem
sampled short oracle = keep (λ p. not (is_short_of_runs (short p.problem_id) (oracle p.problem_id)))

-- What identifies an observation.
abbrev pub key : Observation → Text × Text
key o = (o.dataset, o.problem_id)

abbrev pub key_in : Text → Problem → Text × Text
key_in dataset p = (dataset, p.problem_id)

length-map : (xs : List Checkpoints) → length (map solved_at xs) ≡ length xs
length-map [] = refl
length-map (x ∷ xs) = ap suc (length-map xs)

observation-IsLoaded :
    (dataset id : Text) (short oracle : List Checkpoints) (n : ℕ)
    → is_empty dataset ≡ false
    → is_empty id ≡ false
    → is_short_of_runs short oracle ≡ false
    → n ≤ length short
    → IsLoaded (observation dataset id short oracle n)
observation-IsLoaded dataset id short oracle n d i enough bound =
    let s : 24 ≤ length short = ground (arith, enough) in
    let l : 3 ≤ length oracle = ground (arith, enough) in
    let o = observation dataset id short oracle n in
    record {
      accepted =
          subst
            (λ m.
              observe (record o { oracle_attempts = m }) ≡ ok (record o { oracle_attempts = m }))
            (length-map oracle)
            (observe-cumulative o (map solved_at oracle) d i (omega (arith, s)) bound
              (omega (arith, l, length-map oracle)));
      short_runs = s;
      oracle_runs = l;
    }

-- Where every run is complete.
complete-IsLoaded :
    (dataset : Text) (short oracle : Text → List Checkpoints) (ps : List Problem)
    → ((id : Text) → AreComplete 1 (short id))
    → ((id : Text) → AreComplete 8 (oracle id))
    → is_empty dataset ≡ false
    → All (λ p. is_empty p.problem_id ≡ false) ps
    → (os : List Observation) × (observe_problems dataset short oracle ps ≡ ok os)
      × (map key os ≡ map (key_in dataset) (sampled short oracle ps))
      × All IsLoaded os
unfolding observe_problems sampled keep
complete-IsLoaded dataset short oracle [] cs co d h = ([], refl, refl, tt)
complete-IsLoaded dataset short oracle (p ∷ ps) cs co d h =
    let id = p.problem_id in
    let (os, eq, same, loaded) = complete-IsLoaded dataset short oracle ps cs co d h.1 in
    elim (Bool-cases (is_short_of_runs (short id) (oracle id))) [
      | inl few ↦ (os, ground (arith, few, eq), ground (arith, few, same), loaded)
      | inr enough ↦
          let (n, returns, bound) =
            observation_of-returns dataset id (short id) (oracle id) (cs id) (co id) in
          let good = observation-IsLoaded dataset id (short id) (oracle id) n d h.0 enough bound in
          (
            observation dataset id (short id) (oracle id) n ∷ os,
            ground (arith, enough, eq, returns, good.accepted),
            ground (arith, enough, same),
            (good, loaded),
          )
    ]

-- Observing the problems of a named dataset, from the runs that were read of its two experiments,
-- does not raise: it gives an observation that is accepted for each problem with enough runs, in
-- order.
pub observe_problems-IsLoaded :
    (r : RowReader) (files : Files) (model dataset : Text) (ps : List Problem)
    (short oracle : Text → List Checkpoints)
    → read_experiment r files model dataset ps (codes "unaided-1x") 1 ≡ ok short
    → read_experiment r files model dataset ps (codes "oracle-execution-8x") 8 ≡ ok oracle
    → is_empty dataset ≡ false
    → All (λ p. is_empty p.problem_id ≡ false) ps
    → (os : List Observation) × (observe_problems dataset short oracle ps ≡ ok os)
      × (map key os ≡ map (key_in dataset) (sampled short oracle ps))
      × All IsLoaded os
observe_problems-IsLoaded r files model dataset ps short oracle hs ho =
    complete-IsLoaded dataset short oracle ps
      (read_experiment-AreComplete r files model dataset ps (codes "unaided-1x") 1 short hs)
      (read_experiment-AreComplete r files model dataset ps (codes "oracle-execution-8x") 8 oracle
        ho)

observe_same : (o x : Observation) → observe o ≡ ok x → o ≡ x
unfolding observe
observe_same o x h = ground (arith, h)

observe_problems-ok :
    (dataset : Text) (short oracle : Text → List Checkpoints) (ps : List Problem)
    (os : List Observation)
    → observe_problems dataset short oracle ps ≡ ok os
    → All IsLoaded os
unfolding observe_problems
observe_problems-ok dataset short oracle [] os h = subst (All IsLoaded) (ok_inj [] os h) tt
observe_problems-ok dataset short oracle (p ∷ ps) os h =
    let id = p.problem_id in
    let seen = observation_of dataset id (short id) (oracle id) in
    let rest = observe_problems dataset short oracle ps in
    let add : Observation → Result (List Observation) = λ x. after rest (λ xs. ok (x ∷ xs)) in
    if_elim (λ r. r ≡ ok os → All IsLoaded os) (is_short_of_runs (short id) (oracle id)) rest
      (after (after seen observe) add) (λ few k. observe_problems-ok dataset short oracle ps os k)
      (λ enough k.
        let (x, e, k1) = after-ok (after seen observe) add os k in
        let (o, e0, e2) = after-ok seen observe x e in
        let (xs, e1, k2) = after-ok rest (λ xs. ok (x ∷ xs)) os k1 in
        let (n, is) = observation_of-ok dataset id (short id) (oracle id) o e0 in
        let same = observe_same o x e2 in
        let good : IsLoaded o = record {
          accepted = e2 ∙ ap ok (sym same);
          short_runs = subst (λ y. 24 ≤ y.short_attempts) is (ground (arith, enough));
          oracle_runs = subst (λ y. 3 ≤ y.oracle_attempts) is (ground (arith, enough));
        } in
        subst (All IsLoaded) (ok_inj (x ∷ xs) os k2)
          (subst IsLoaded same good, observe_problems-ok dataset short oracle ps xs e1))
      h

All-map :
    (P Q : Observation → Type 0)
    → ((o : Observation) → P o → Q o)
    → (os : List Observation) → All P os
    → All Q os
All-map P Q f [] h = tt
All-map P Q f (o ∷ os) h = (f o h.0, All-map P Q f os h.1)

All-append :
    (xs ys : List Observation) → All IsLoaded xs → All IsLoaded ys → All IsLoaded (xs ++ ys)
All-append [] ys h k = k
All-append (x ∷ xs) ys h k = (h.0, All-append xs ys h.1 k)

load_all-IsLoaded :
    (r : RowReader) (files : Files) (model : Text) (gs : Groups) (os : List Observation)
    → load_all r files model gs ≡ ok os
    → All IsLoaded os
unfolding load_all load_dataset
load_all-IsLoaded r files model [] os h = subst (All IsLoaded) (ok_inj [] os h) tt
load_all-IsLoaded r files model (g ∷ gs) os h =
    let (xs, here, h1) = after-ok (load_dataset r files model g.0 g.1) _ os h in
    let (ys, there, h2) = after-ok (load_all r files model gs) (λ more. ok (xs ++ more)) os h1 in
    let long = read_experiment r files model g.0 g.1 (codes "oracle-execution-8x") total_budget in
    let observed : (Text → List Checkpoints)
        → (Text → List Checkpoints)
        → Result (List Observation) =
      λ a b. observe_problems g.0 a b g.1 in
    let (short, e, h3) =
      after-ok (read_experiment r files model g.0 g.1 (codes "unaided-1x") 1)
        (λ a. after long (observed a)) xs here in
    let (oracle, e1, h4) = after-ok long (observed short) xs h3 in
    subst (All IsLoaded) (ok_inj (xs ++ ys) os h2) (
      All-append xs ys (observe_problems-ok g.0 short oracle g.1 xs h4)
        (load_all-IsLoaded r files model gs ys there))

-- Observations that were loaded are estimated: if their problems are distinct, fitting SG and DE to
-- them returns, and so does predicting, with a probability for each setting and problem.
pub load_observations-FitsAndPredicts :
    (r : RowReader) (files : Files) (rows : Text → List Row) (s : InputSelection)
    (os : List Observation)
    → load_observations r files rows s ≡ ok os
    → validate_observations os ≡ ok tt
    → FitsAndPredicts simple_geometric IsSampled simple_geometric-IsEstimator os []
      × FitsAndPredicts discovery_execution IsAccepted discovery_execution-IsEstimator os []
unfolding load_observations
load_observations-FitsAndPredicts r files rows s os h k =
    let (gs, selected, h1) =
      after-ok (select_problems rows s) (λ gs. load_all r files s.model gs) os h in
    let loaded = load_all-IsLoaded r files s.model gs os h1 in
    (
      simple_geometric-FitsAndPredicts os [] k
          (All-map IsLoaded IsSampled (λ o l. (l.accepted, omega (arith, l.short_runs))) os loaded),
      discovery_execution-FitsAndPredicts os [] k
          (All-map IsLoaded IsAccepted (λ o l. l.accepted) os loaded),
    )
