-- ===== src/Launcher/Config.antt =====
-- `Unaided.resolve_multiplier` of experiments/unaided.py and `LaunchConfig` of launcher/models.py.
use de_framework.Refine.State.{output_tokens_per_block}
use de_framework.Launcher.Directory.{validate_model}
use de_framework.Exec.{Result, err, value_error, ok, after, require}
use de_framework.Text.{Text, text_eq, codes, in_texts}
use de_framework.Prelude.{
  Option, ℕ, Bool, List, if◌then◌else◌, some, not, true, ℤ, leb, none, ◌==◌, suc, ◌&&◌, zero, ◌∷◌,
  [], all, any, false, pos, ◌*◌, negsuc,
}

abbrev pub min_multiplier : ℕ
min_multiplier = 1

abbrev pub max_multiplier : ℕ
max_multiplier = 8

-- `requested`, else `fixed or DEFAULT_COMPUTE_MULTIPLIER_K`.
abbrev pub choose_multiplier : Option ℕ → Option ℕ → ℕ
choose_multiplier fixed (some r) = r
choose_multiplier none none = 1
choose_multiplier (some zero) none = 1
choose_multiplier (some (suc k)) none = suc k

abbrev pub agrees : Option ℕ → ℕ → Bool
agrees none m = true
agrees (some k) m = m == k

unfoldable pub resolve_multiplier : Option ℕ → Option ℕ → Result ℕ
resolve_multiplier fixed requested =
    let m = choose_multiplier fixed requested in
    if not (leb min_multiplier m && leb m max_multiplier)
    then err value_error
    else if not (agrees fixed m)
    then err value_error
    else ok m

-- The compute multiplier of an experiment, by its name; none where no such experiment is registered.
unfoldable pub fixed_multiplier : Text → Option (Option ℕ)
unfolding text_eq
fixed_multiplier name =
    if text_eq name (codes "unaided")
    then some none
    else if text_eq name (codes "oracle-execution")
    then some (some 8)
    else if in_texts name (codes "no-sketch" ∷ codes "oracle-sketch" ∷ codes "alt-sketch" ∷ [])
    then some (some 1)
    else if in_texts name (codes "continue-at-3x" ∷ codes "continue-oracle-at-3x" ∷ [])
    then some (some 4)
    else none

pub record LaunchConfig : Type 0 where
  pub dataset : Text
  pub experiment : Text
  pub compute_multiplier_k : ℕ
  pub model : Text
  pub seeds : List ℤ
  pub max_concurrency : ℤ
  pub problems : Option (List Text)

abbrev pub dataset_names : List Text
dataset_names = codes "aobench" ∷ codes "imoproofbench" ∷ []

abbrev seed_eq : ℤ → ℤ → Bool
seed_eq (pos a) (pos b) = a == b
seed_eq (negsuc a) (negsuc b) = a == b
seed_eq _ _ = false

abbrev pub is_nonnegative : ℤ → Bool
is_nonnegative (pos a) = true
is_nonnegative (negsuc a) = false

-- len(set(xs)) == len(xs), and xs
unfoldable pub is_unique {ℓ} : {A : Type ℓ} → (A → A → Bool) → List A → Bool
is_unique eq [] = true
is_unique eq (x ∷ xs) = not (any (eq x) xs) && is_unique eq xs

abbrev pub is_nonempty {ℓ} : {A : Type ℓ} → List A → Bool
is_nonempty [] = false
is_nonempty _ = true

abbrev pub has_seeds : List ℤ → Bool
has_seeds seeds = is_nonempty seeds && all is_nonnegative seeds && is_unique seed_eq seeds

abbrev pub has_problems : Option (List Text) → Bool
has_problems none = true
has_problems (some ids) = is_nonempty ids && is_unique text_eq ids

abbrev pub is_positive : ℤ → Bool
is_positive (pos (suc n)) = true
is_positive _ = false

-- `LaunchConfig.__post_init__`
unfoldable pub check_multiplier : Option (Option ℕ) → ℕ → Result ℕ
unfolding resolve_multiplier
check_multiplier none k = err value_error
check_multiplier (some fixed) k = resolve_multiplier fixed (some k)

unfoldable pub check_rest : LaunchConfig → Result (Unit {0})
unfolding is_unique text_eq validate_model
check_rest c =
    if not (is_positive c.max_concurrency)
    then err value_error
    else if not (has_seeds c.seeds)
    then err value_error
    else after (validate_model c.model) (λ _. require (has_problems c.problems) value_error)

unfoldable pub launch : LaunchConfig → Result (Unit {0})
unfolding fixed_multiplier check_multiplier text_eq check_rest
launch c =
    if not (in_texts c.dataset dataset_names)
    then err value_error
    else after (check_multiplier (fixed_multiplier c.experiment) c.compute_multiplier_k)
        (λ _. check_rest c)

unfoldable pub launch_budget : LaunchConfig → ℕ
launch_budget c = c.compute_multiplier_k * output_tokens_per_block
