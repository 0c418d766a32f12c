-- ===== src/Session/Options/Permitted.antt =====
-- What the options of every connection guarantee, whatever the caller asked for.
use de_framework.Session.Tools.{
  disallowed_tool_names, provider_min_task_budget_tokens, bash_denials, tool_policy_args,
}
use de_framework.Exec.{ok}
use de_framework.Session.Options.{
  insert_sorted, sorted_set, without, text_lt, AgentOptions, get_options, put_items, task_budget_of,
  turns, Target, check_options, is_muse, reserved_env, reserved_args, put_item,
}
use de_framework.Text.{
  Text, text_eq, in_texts, text_eq_sound, text_eq_refl, has_repeats, text_eq_apart,
}
use de_framework.Prelude.{
  refl, ℕ, List, Option, all, none, not, ◌≡◌, [], true, ◌||◌, ◌∷◌, arith, if◌then◌else◌, some, Bool,
  map, ◌≤◌, any, ap, false, if_elim, All, max, ◌++◌, ◌∙◌, any-append, sym,
}

unfoldable pub lookup {ℓ} : {V : Type ℓ} → Text → List (Text × V) → Option V
lookup key [] = none
lookup key ((k, v) ∷ d) = let rest = lookup key d in if text_eq k key then some v else rest

-- A test does not tell equal texts apart.
same_test : (f : Text → Bool) (t u : Text) → text_eq t u ≡ true → f t ≡ f u
same_test f t u h = ap f (text_eq_sound t u h)

in_insert :
    (t u : Text) (us : List Text) → in_texts u (insert_sorted t us) ≡ (text_eq t u || in_texts u us)
unfolding insert_sorted text_eq text_lt
in_insert t u [] = refl
in_insert t u (w ∷ us) = grind (arith, in_insert t u us, same_test (λ x. text_eq x u) t w)

in_sorted_set : (u : Text) (ts : List Text) → in_texts u (sorted_set ts) ≡ in_texts u ts
unfolding sorted_set
in_sorted_set u [] = refl
in_sorted_set u (t ∷ ts) = ground (arith, in_insert t u (sorted_set ts), in_sorted_set u ts)

without-all :
    (denied ts : List Text) → all (λ t. not (in_texts t denied)) (without denied ts) ≡ true
unfolding without
without-all denied [] = refl
without-all denied (t ∷ ts) = ground (arith, without-all denied ts)

abbrev keys {ℓ} : {V : Type ℓ} → List (Text × V) → List Text
keys d = map (λ e. e.0) d

lookup-put_item {ℓ} :
    {V : Type ℓ} (key k : Text) (v : V) (d : List (Text × V))
    → lookup k (put_item key v d) ≡ (if text_eq key k then some v else lookup k d)
unfolding lookup put_item
lookup-put_item key k v [] = refl
lookup-put_item key k v ((l, w) ∷ d) =
    grind
      (arith, lookup-put_item key k v d, same_test (λ x. text_eq x k) l key, text_eq_apart l key k)

lookup-put_items {ℓ} :
    {V : Type ℓ} (k : Text) (items d : List (Text × V))
    → in_texts k (keys items) ≡ false
    → lookup k (put_items items d) ≡ lookup k d
unfolding put_items
lookup-put_items k [] d h = refl
lookup-put_items k ((l, v) ∷ items) d h =
    ground (
      arith,
      lookup-put_items k items (put_item l v d) (ground (arith, h)),
      lookup-put_item l k v d,
    )

-- The items that are put_item hold afterwards, where their keys are distinct.
put_items-holds {ℓ} :
    {V : Type ℓ} (items d : List (Text × V))
    → has_repeats (keys items) ≡ false
    → All (λ e. lookup e.0 (put_items items d) ≡ some e.1) items
unfolding put_items has_repeats
put_items-holds [] d h = tt
put_items-holds ((k, v) ∷ items) d h = (
  lookup-put_items k items (put_item k v d) (ground (arith, h))
      ∙ ground (arith, lookup-put_item k k v d, text_eq_refl k),
  put_items-holds items (put_item k v d) (ground (arith, h)),
)

any-put_item {ℓ} :
    {V : Type ℓ} (f : Text → Bool) (key : Text) (v : V) (d : List (Text × V))
    → any f (keys (put_item key v d)) ≡ (f key || any f (keys d))
unfolding put_item
any-put_item f key v [] = refl
any-put_item f key v ((k, w) ∷ d) = grind (arith, any-put_item f key v d, same_test f k key)

any-put_items {ℓ} :
    {V : Type ℓ} (f : Text → Bool) (items d : List (Text × V))
    → any f (keys (put_items items d)) ≡ (any f (keys items) || any f (keys d))
unfolding put_items
any-put_items f [] d = refl
any-put_items f ((k, v) ∷ items) d =
    ground (arith, any-put_items f items (put_item k v d), any-put_item f k v d)

-- No budget without an allowance, and none below the provider's minimum or the allowance.
abbrev pub HasFloor : Option ℕ → Option ℕ → Type 0
HasFloor remaining none = Unit
HasFloor none (some b) = ⊥
HasFloor (some r) (some b) = (20000 ≤ b) × (r ≤ b)

any-keys {ℓ} :
    {V : Type ℓ} (f : Text → Bool) (d : List (Text × V)) → any (λ a. f a.0) d ≡ any f (keys d)
any-keys f [] = refl
any-keys f (e ∷ d) = ap (λ b. f e.0 || b) (any-keys f d)

-- The options of a connection.
pub record IsPermitted (o : AgentOptions) (t : Target) (made : AgentOptions) : Type 0 where
  pub none_denied_allowed :
      all (λ tool. not (in_texts tool disallowed_tool_names)) made.allowed_tools ≡ true
  pub denied :
      (tool : Text)
      → in_texts tool made.disallowed_tools ≡ (
          in_texts tool o.disallowed_tools
          || in_texts tool disallowed_tool_names
          || in_texts tool bash_denials)
  pub reserved_env_holds : All (λ e. lookup e.0 made.env ≡ some e.1) (reserved_env t)
  pub reserved_args_hold : All (λ e. lookup e.0 made.extra_args ≡ some e.1) (reserved_args t)
  pub no_policy_arg : any (λ k. in_texts k tool_policy_args) (keys made.extra_args) ≡ false
  pub few_turns : (n : ℕ) × (made.max_turns ≡ some n) × (n ≤ 128)
  pub task_budget : HasFloor t.remaining_tokens made.task_budget

few : (n : Option ℕ) → turns n ≤ 128
few none = omega arith
few (some n) = omega arith

floor : (model : Option Text) (r : Option ℕ) → HasFloor r (task_budget_of model r)
unfolding task_budget_of
floor model none = tt
floor model (some r) =
    if_elim (HasFloor (some r)) (is_muse model) none (some (max provider_min_task_budget_tokens r))
      (λ _. tt) (λ _. (omega arith, omega arith))

-- Whatever the options that the constructor accepted, those of a connection allow no denied tool and
-- deny the caller's, the mandatory and the shell's; the reserved variables and arguments have their
-- values, no argument sets a tool policy, there are at most 128 turns, and a task budget covers the
-- allowance and the provider's minimum.
pub get_options-IsPermitted :
    (o : AgentOptions) (t : Target) → check_options o ≡ ok tt → IsPermitted o t (get_options o t)
unfolding has_repeats get_options check_options task_budget_of
get_options-IsPermitted o t h = record {
  none_denied_allowed = without-all disallowed_tool_names o.allowed_tools;
  denied = λ tool. ground (
    arith,
    in_sorted_set tool (o.disallowed_tools ++ disallowed_tool_names ++ bash_denials),
    any-append (λ u. text_eq u tool) (o.disallowed_tools ++ disallowed_tool_names) bash_denials,
    any-append (λ u. text_eq u tool) o.disallowed_tools disallowed_tool_names,
  );
  reserved_env_holds = put_items-holds (reserved_env t) o.env refl;
  reserved_args_hold = put_items-holds (reserved_args t) o.extra_args refl;
  no_policy_arg =
      any-put_items (λ k. in_texts k tool_policy_args) (reserved_args t) o.extra_args
      ∙ sym (any-keys (λ k. in_texts k tool_policy_args) o.extra_args)
      ∙ ground (arith, h);
  few_turns = (turns o.max_turns, refl, few o.max_turns);
  task_budget = floor o.model t.remaining_tokens;
}
