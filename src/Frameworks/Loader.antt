-- ===== src/Frameworks/Loader.antt =====
-- `DataLoader` of frameworks/utils/dataloader.py and `InputSelection` of frameworks/models.py. The
-- parsing of a line and the validation of a row by the schema are parameters, and so is `str` of a
-- number.
pub mod Complete
pub mod Reading
pub mod Index
pub mod Loaded
mod Tests
use de_framework.Launcher.Config.{dataset_names}
use de_framework.Storage.Manager.{is_empty_list, is_none}
use de_framework.Exec.{Result, after, ok, err, require, value_error}
use de_framework.Launcher.Dataset.{Problem, load, Row}
use de_framework.Launcher.Directory.{validate_model}
use de_framework.Text.{Text, text_eq, in_texts, has_repeats}
use de_framework.Prelude.{
  refl, ℕ, Bool, List, Option, ◌∷◌, any, false, if◌then◌else◌, map, none, [], not, ◌==◌, some, ◌||◌,
  all, ltb, ◌++◌,
}

abbrev pub min_short_seeds : ℕ
min_short_seeds = 24

abbrev pub min_oracle_seeds : ℕ
min_oracle_seeds = 3

abbrev pub min_audit_score : ℕ
min_audit_score = 5

pub record InputSelection : Type 0 where
  pub model : Text
  pub datasets : List Text
  pub problems : Option (List Text)
  pub domain : Option Text

abbrev pub check_names : Option (List Text) → Result (Unit {0})
check_names none = ok tt
check_names (some []) = err value_error
check_names (some (t ∷ ts)) = require (not (has_repeats (t ∷ ts))) value_error

unfoldable pub input_selection : InputSelection → Result (Unit {0})
unfolding validate_model has_repeats
input_selection s = after (validate_model s.model) (λ _. after (check_names (some s.datasets)) (λ _.
    after (require (all (λ d. in_texts d dataset_names) s.datasets) value_error)
      (λ _. check_names s.problems)))

abbrev pub Groups : Type 0
Groups = List (Text × List Problem)

unfoldable pub keep : (Problem → Bool) → List Problem → List Problem
keep f [] = []
keep f (p ∷ ps) = let rest = keep f ps in if f p then p ∷ rest else rest

abbrev pub keep_groups : (Problem → Bool) → Groups → Groups
keep_groups f = map (λ g. (g.0, keep f g.1))

abbrev pub in_groups : (Problem → Bool) → Groups → Bool
in_groups f = any (λ g. any f g.1)

abbrev pub filter_domain : Option Text → Groups → Result Groups
filter_domain none gs = ok gs
filter_domain (some d) gs =
    if in_groups (λ p. text_eq p.domain d) gs
    then ok (keep_groups (λ p. text_eq p.domain d) gs)
    else err value_error

abbrev pub filter_problems : Option (List Text) → Groups → Result Groups
filter_problems none gs = ok gs
filter_problems (some ids) gs =
    if all (λ id. in_groups (λ p. text_eq p.problem_id id) gs) ids
    then ok (keep_groups (λ p. in_texts p.problem_id ids) gs)
    else err value_error

unfoldable pub nonempty_groups : Groups → Groups
nonempty_groups [] = []
nonempty_groups (g ∷ gs) =
    let rest = nonempty_groups gs in if is_empty_list g.1 then rest else g ∷ rest

unfoldable pub load_groups : (Text → List Row) → List Text → Result Groups
unfolding load
load_groups rows [] = ok []
load_groups rows (d ∷ ds) =
    after (load d none none none (rows d))
      (λ ps. after (load_groups rows ds) (λ gs. ok ((d, ps) ∷ gs)))

unfoldable pub select_problems : (Text → List Row) → InputSelection → Result Groups
unfolding load_groups keep text_eq nonempty_groups
select_problems rows s = after (load_groups rows s.datasets) (λ gs.
    after (filter_domain s.domain gs)
      (λ hs. after (filter_problems s.problems hs) (λ is. ok (nonempty_groups is))))

-- The dictionaries of `_read_runs`, in the order of insertion.
abbrev pub Checkpoints : Type 0
Checkpoints = List (ℕ × Bool)

abbrev pub Seeds : Type 0
Seeds = List (ℕ × Checkpoints)

abbrev pub Runs : Type 0
Runs = List (Text × Seeds)

pub record AuditRow : Type 0 where
  pub dataset : Text
  pub solver_model : Text
  pub experiment : Text
  pub problem_id : Text
  pub seed : ℕ
  pub compute_multiplier_k : ℕ
  pub checkpoint_multiplier_k : ℕ
  pub score : ℕ

unfoldable pub at_checkpoint : ℕ → Checkpoints → Option Bool
at_checkpoint c [] = none
at_checkpoint c ((d, b) ∷ cs) = let rest = at_checkpoint c cs in if d == c then some b else rest

unfoldable pub add_checkpoint : ℕ → ℕ → Bool → Checkpoints → Result Checkpoints
unfolding at_checkpoint
add_checkpoint horizon c b cs =
    if not (is_none (at_checkpoint c cs)) || ltb horizon c
    then err value_error
    else ok (cs ++ (c, b) ∷ [])

unfoldable pub add_seed : ℕ → ℕ → ℕ → Bool → Seeds → Result Seeds
unfolding add_checkpoint
add_seed horizon s c b [] = after (add_checkpoint horizon c b []) (λ cs. ok ((s, cs) ∷ []))
add_seed horizon s c b ((t, cs) ∷ seeds) =
    let later = add_seed horizon s c b seeds in
    if t == s
    then after (add_checkpoint horizon c b cs) (λ ds. ok ((t, ds) ∷ seeds))
    else after later (λ rest. ok ((t, cs) ∷ rest))

unfoldable pub add_run : ℕ → Text → ℕ → ℕ → Bool → Runs → Result Runs
unfolding add_seed text_eq
add_run horizon id s c b [] = after (add_seed horizon s c b []) (λ seeds. ok ((id, seeds) ∷ []))
add_run horizon id s c b ((p, seeds) ∷ runs) =
    let later = add_run horizon id s c b runs in
    if text_eq p id
    then after (add_seed horizon s c b seeds) (λ ts. ok ((p, ts) ∷ runs))
    else after later (λ rest. ok ((p, seeds) ∷ rest))
