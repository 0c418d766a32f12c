-- ===== src/Session/Options/Tests.antt =====
-- The theorem about the options at a caller's options.
use de_framework.Session.Options.Permitted.{IsPermitted, get_options-IsPermitted}
use de_framework.Text.{codes, text_eq}
use de_framework.Session.Options.{AgentOptions, Target, check_options, get_options, without}
use de_framework.Prelude.{refl, none, false, some, ◌≡◌, [], ◌∷◌, true}

abbrev options : AgentOptions
options = record {
  cwd = none;
  cli_path = none;
  model = some (codes "m");
  include_partial_messages = false;
  effort = none;
  max_turns = some 200;
  task_budget = none;
  tools = [];
  system_prompt = none;
  allowed_tools = codes "Read" ∷ codes "Task" ∷ [];
  disallowed_tools = codes "X" ∷ [];
  setting_sources = none;
  env = (codes "API_TIMEOUT_MS", codes "1") ∷ [];
  extra_args = (codes "name", none) ∷ [];
  session_id = none;
  resume = none;
  continue_conversation = true;
  fork_session = false;
}

abbrev target : Target
target = record {
  runtime = codes "/r";
  native_id = codes "id";
  resume_id = none;
  fork_session = false;
  remaining_tokens = some 5;
  environment_cli_path = none;
  default_system_prompt = codes "s";
}

only_read : (get_options options target).allowed_tools ≡ codes "Read" ∷ []
unfolding get_options without text_eq
only_read = refl

get_options-IsPermitted_example : IsPermitted options target (get_options options target)
unfolding check_options text_eq
get_options-IsPermitted_example = get_options-IsPermitted options target refl
