-- ===== src/Session/Options.antt =====
-- The constructor's checks and `_get_options` of harness/session/connection_manager.py; the tool
-- settings are in Session.Tools. The SDK's options are a record of the fields that the
-- code reads or sets. `stderr` is a callback of its own operation.
pub mod Permitted
mod Tests
use de_framework.Session.Tools.{
  local_tools, max_turns_per_phase, muse_prefix, provider_min_task_budget_tokens, tool_policy_args,
  disallowed_tool_names, bash_denials,
}
use de_framework.Storage.Manager.{is_none}
use de_framework.Exec.{Result, err, value_error, ok}
use de_framework.Text.{Text, after_prefix, text_eq, codes, in_texts}
use de_framework.Prelude.{
  refl, ℕ, List, Option, some, Bool, [], if◌then◌else◌, min, none, ◌++◌, ◌∷◌, any, false, max, true,
  ltb, not, ◌||◌, ◌==◌, ◌&&◌,
}

pub record AgentOptions : Type 0 where
  pub cwd : Option Text
  pub cli_path : Option Text
  pub model : Option Text
  pub include_partial_messages : Bool
  pub effort : Option Text
  pub max_turns : Option ℕ
  pub task_budget : Option ℕ
  pub tools : List Text
  pub system_prompt : Option Text
  pub allowed_tools : List Text
  pub disallowed_tools : List Text
  pub setting_sources : Option (List Text)
  pub env : List (Text × Text)
  pub extra_args : List (Text × Option Text)
  pub session_id : Option Text
  pub resume : Option Text
  pub continue_conversation : Bool
  pub fork_session : Bool

-- `d[key] = value`
unfoldable pub put_item {ℓ} : {V : Type ℓ} → Text → V → List (Text × V) → List (Text × V)
unfolding text_eq
put_item key v [] = (key, v) ∷ []
put_item key v ((k, w) ∷ d) =
    let rest = put_item key v d in if text_eq k key then (k, v) ∷ d else (k, w) ∷ rest

-- `{**d, **items}`
unfoldable pub put_items {ℓ} : {V : Type ℓ} → List (Text × V) → List (Text × V) → List (Text × V)
unfolding put_item
put_items [] d = d
put_items ((k, v) ∷ items) d = put_items items (put_item k v d)

-- `str` compares by code points.
unfoldable pub text_lt : Text → Text → Bool
text_lt [] [] = false
text_lt [] (d ∷ u) = true
text_lt (c ∷ t) [] = false
text_lt (c ∷ t) (d ∷ u) = ltb c d || (c == d && text_lt t u)

-- A sorted list without repetitions, with one more element.
unfoldable pub insert_sorted : Text → List Text → List Text
unfolding text_eq text_lt
insert_sorted t [] = t ∷ []
insert_sorted t (u ∷ us) =
    let rest = insert_sorted t us in
    if text_eq t u then u ∷ us else if text_lt t u then t ∷ u ∷ us else u ∷ rest

-- `sorted(set(ts))`
unfoldable pub sorted_set : List Text → List Text
unfolding insert_sorted
sorted_set [] = []
sorted_set (t ∷ ts) = insert_sorted t (sorted_set ts)

unfoldable pub without : List Text → List Text → List Text
unfolding text_eq
without denied [] = []
without denied (t ∷ ts) =
    let rest = without denied ts in if in_texts t denied then rest else t ∷ rest

unfoldable pub check_options : AgentOptions → Result (Unit {0})
unfolding text_eq
check_options o =
    if any (λ a. in_texts a.0 tool_policy_args) o.extra_args
    then err value_error
    else if not (is_none o.task_budget)
    then err value_error
    else ok tt

abbrev pub is_muse : Option Text → Bool
is_muse none = false
is_muse (some model) = not (is_none (after_prefix muse_prefix model))

-- `a or b`, where the empty text counts as missing.
abbrev pub text_or : Option Text → Option Text → Option Text
text_or (some (c ∷ t)) b = some (c ∷ t)
text_or _ b = b

abbrev pub or_default {ℓ} : {A : Type ℓ} → Option A → A → A
or_default none d = d
or_default (some a) d = a

abbrev pub turns : Option ℕ → ℕ
turns none = max_turns_per_phase
turns (some n) = min n max_turns_per_phase

unfoldable pub task_budget_of : Option Text → Option ℕ → Option ℕ
unfolding after_prefix
task_budget_of model none = none
task_budget_of model (some remaining) =
    if is_muse model then none else some (max provider_min_task_budget_tokens remaining)

-- What a connection is made for, and what `_get_options` reads besides: the environment's CLI path
-- and the default system prompt.
pub record Target : Type 0 where
  pub runtime : Text
  pub native_id : Text
  pub resume_id : Option Text
  pub fork_session : Bool
  pub remaining_tokens : Option ℕ
  pub environment_cli_path : Option Text
  pub default_system_prompt : Text

abbrev pub reserved_env : Target → List (Text × Text)
reserved_env t =
    (codes "CLAUDE_CONFIG_DIR", t.runtime ++ codes "/sdk")
    ∷ (codes "CLAUDE_CODE_MAX_OUTPUT_TOKENS", codes "64000")
    ∷ (codes "API_TIMEOUT_MS", codes "3600000")
    ∷ (codes "CLAUDE_STREAM_IDLE_TIMEOUT_MS", codes "3600000")
    ∷ (codes "CLAUDE_ENABLE_STREAM_WATCHDOG", codes "1")
    ∷ (codes "CLAUDE_CODE_DISABLE_NONSTREAMING_FALLBACK", codes "1")
    ∷ (codes "CLAUDE_CODE_MAX_RETRIES", codes "0")
    ∷ []

abbrev pub reserved_args : Target → List (Text × Option Text)
reserved_args t =
    (codes "autocompact", some (codes "900000"))
    ∷ (codes "setting-sources", some [])
    ∷ (codes "replay-user-messages", none)
    ∷ (codes "name", some t.native_id)
    ∷ []

unfoldable pub get_options : AgentOptions → Target → AgentOptions
unfolding task_budget_of put_items without sorted_set
get_options o t = record {
  cwd = some (t.runtime ++ codes "/workspace");
  cli_path = text_or o.cli_path t.environment_cli_path;
  model = o.model;
  include_partial_messages = true;
  effort = some (codes "high");
  max_turns = some (turns o.max_turns);
  task_budget = task_budget_of o.model t.remaining_tokens;
  tools = local_tools;
  system_prompt = some (or_default o.system_prompt t.default_system_prompt);
  allowed_tools = without disallowed_tool_names o.allowed_tools;
  disallowed_tools = sorted_set (o.disallowed_tools ++ disallowed_tool_names ++ bash_denials);
  setting_sources = some [];
  env = put_items (reserved_env t) o.env;
  extra_args = put_items (reserved_args t) o.extra_args;
  session_id = if is_none t.resume_id || t.fork_session then some t.native_id else none;
  resume = t.resume_id;
  continue_conversation = false;
  fork_session = t.fork_session;
}
