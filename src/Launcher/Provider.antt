-- ===== src/Launcher/Provider.antt =====
-- `resolve_provider` of launcher/provider.py, and `ProviderConfig` of harness/proxy/models.py. The
-- environment is the list of its variables, digits are those of ASCII, and `check_url` stands for
-- `ProviderEndpoint.from_url`.
pub mod Families
pub mod Tests
use de_framework.Launcher.Directory.{slash}
use de_framework.Storage.Manager.{is_empty_list, is_none}
use de_framework.Exec.{Result, after, ok, err, require, value_error}
use de_framework.Proxy.Requests.{
  AuthVariable, text_ltb, is_some, auth_token_env, api_key_env, oauth_token_env,
}
use de_framework.Text.{Text, after_prefix, text_eq, codes, is_blank, in_texts, strip}
use de_framework.Prelude.{
  refl, ℕ, Bool, List, Option, [], if◌then◌else◌, leb, ltb, not, some, ◌∷◌, length, map, none, ◌&&◌,
  ◌*◌, ◌++◌, ◌==◌, ◌||◌, all, false, ◌+◌, any, ◌-◌, true,
}

pub record ProviderConfig : Type 0 where
  pub url : Text
  pub auth_variable : AuthVariable
  pub credential : Text

pub record ProviderRoute : Type 0 where
  pub model : Text
  pub providers : List ProviderConfig
  pub use_anthropic_resets : Bool

abbrev pub Environment : Type 0
Environment = List (Text × Text)

abbrev pub is_digit : ℕ → Bool
is_digit c = leb 48 c && leb c 57

-- int(digits)
unfoldable pub number_from : ℕ → Text → ℕ
number_from n [] = n
number_from n (c ∷ t) = number_from (n * 10 + (c - 48)) t

-- What CREDENTIAL_ENV_PATTERN reads after the name of a variable.
abbrev pub suffix_index : Option Text → Option ℕ
suffix_index none = none
suffix_index (some []) = some 0
suffix_index (some (c ∷ [])) = none
suffix_index (some (c ∷ (d ∷ t))) =
    if c == 95 && all is_digit (d ∷ t) then some (number_from 0 (d ∷ t)) else none

abbrev pub Entry : Type 0
Entry = ℕ × Text × Text

-- The order of two entries of different variables.
abbrev pub is_before : Entry → Entry → Bool
is_before (i, v, x) (j, u, y) = ltb i j || (i == j && text_ltb v u)

unfoldable pub insert_entry : Entry → List Entry → List Entry
unfolding text_ltb
insert_entry e [] = e ∷ []
insert_entry e (f ∷ es) = if is_before f e then f ∷ insert_entry e es else e ∷ f ∷ es

abbrev pub add_entry : Option ℕ → Text → Text → List Entry → List Entry
add_entry none variable value es = es
add_entry (some i) variable value es =
    if is_blank value then es else insert_entry (i, variable, strip value) es

unfoldable pub read_entries : Text → Environment → List Entry
unfolding after_prefix number_from insert_entry is_blank strip
read_entries name [] = []
read_entries name ((variable, value) ∷ env) =
    add_entry (suffix_index (after_prefix name variable)) variable value (read_entries name env)

-- tuple(dict.fromkeys(...))
unfoldable pub distinct_values : List Entry → List Text → List Text
unfolding text_eq
distinct_values [] seen = []
distinct_values ((i, variable, value) ∷ es) seen =
    let rest = distinct_values es (value ∷ seen) in
    let same = distinct_values es seen in if in_texts value seen then same else value ∷ rest

unfoldable pub read_numbered_values : Environment → Text → List Text
unfolding read_entries distinct_values
read_numbered_values env name = distinct_values (read_entries name env) []

-- url.rstrip("/")
unfoldable pub strip_slashes : Text → Text
strip_slashes [] = []
strip_slashes (c ∷ t) =
    let rest = strip_slashes t in if c == slash && is_empty_list rest then [] else c ∷ rest

unfoldable pub get_value : Text → Text → Environment → Text
unfolding text_eq
get_value name default [] = default
get_value name default ((variable, value) ∷ env) =
    if text_eq variable name then value else get_value name default env

unfoldable pub pairs : List Text → List Text → List (Text × Text)
pairs [] keys = []
pairs (url ∷ urls) keys = map (λ key. (strip_slashes url, key)) keys ++ pairs urls keys

abbrev pub starts_with : Text → Text → Bool
starts_with p t = not (is_none (after_prefix p t))

abbrev pub litellm_prefix : Text
litellm_prefix = codes "litellm/"

abbrev pub remove_prefix : Option Text → Text → Text
remove_prefix none t = t
remove_prefix (some rest) t = rest

abbrev pub several : List Text → Bool
several ts = ltb 1 (length ts)

abbrev pub family : Environment → AuthVariable × Text → List (AuthVariable × List Text)
family env (auth, name) =
    if is_empty_list (read_numbered_values env name)
    then []
    else (auth, read_numbered_values env name) ∷ []

unfoldable pub populated :
    Environment → List (AuthVariable × Text) → List (AuthVariable × List Text)
unfolding read_numbered_values
populated env [] = []
populated env (n ∷ names) = family env n ++ populated env names

abbrev pub exactly_one : List (AuthVariable × List Text) → Result (AuthVariable × List Text)
exactly_one (f ∷ []) = ok f
exactly_one _ = err value_error

abbrev pub meta_url : Environment → Text
meta_url = get_value (codes "META_BASE_URL") (codes "https://api.meta.ai")

abbrev pub meta_names : List (AuthVariable × Text)
meta_names = (auth_token_env, codes "META_API_KEY") ∷ []

abbrev pub anthropic_url : Environment → Text
anthropic_url = get_value (codes "ANTHROPIC_BASE_URL") (codes "https://api.anthropic.com")

abbrev pub claude_names : List (AuthVariable × Text)
claude_names =
    (api_key_env, codes "ANTHROPIC_API_KEY")
    ∷ (auth_token_env, codes "ANTHROPIC_AUTH_TOKEN")
    ∷ (oauth_token_env, codes "CLAUDE_CODE_OAUTH_TOKEN")
    ∷ []

module _ (check_url : Text → Result (Unit {0})) where
  unfoldable pub provider_config : Text → AuthVariable → Text → Result ProviderConfig
  unfolding is_blank
  provider_config url auth credential = after (check_url url) (λ _.
      after
        (require (not (is_blank credential) && not (any (λ c. c == 13 || c == 10) credential))
          value_error)
        (λ _. ok (record { url = url; auth_variable = auth; credential = credential })))

  unfoldable pub provider_configs : AuthVariable → List (Text × Text) → Result (List ProviderConfig)
  unfolding provider_config
  provider_configs auth [] = ok []
  provider_configs auth ((url, key) ∷ rest) =
      after (provider_config url auth key)
        (λ p. after (provider_configs auth rest) (λ ps. ok (p ∷ ps)))

  abbrev pub route : Text → Bool → AuthVariable → List (Text × Text) → Result ProviderRoute
  route model resets auth ps = after (provider_configs auth ps) (λ providers.
      ok (record { model = model; providers = providers; use_anthropic_resets = resets }))

  unfoldable pub resolve_litellm : Text → Environment → Result ProviderRoute
  unfolding read_numbered_values pairs provider_configs strip_slashes
  resolve_litellm model env =
      let urls = read_numbered_values env (codes "LITELLM_BASE_URL") in
      let keys = read_numbered_values env (codes "LITELLM_API_KEY") in
      if is_empty_list model || is_empty_list urls || is_empty_list keys
      then err value_error
      else if several urls && several keys
      then err value_error
      else route model false auth_token_env (pairs urls keys)

  -- One family of credentials at one endpoint.
  unfoldable pub resolve_family :
      Text → Bool → Text → List (AuthVariable × Text) → Environment → Result ProviderRoute
  unfolding populated pairs provider_configs strip_slashes
  resolve_family model resets url names env =
      after (exactly_one (populated env names)) (λ f. route model resets f.0 (pairs (url ∷ []) f.1))

  unfoldable pub resolve_provider : Text → Environment → Result ProviderRoute
  unfolding resolve_litellm resolve_family get_value after_prefix
  resolve_provider model env =
      if starts_with litellm_prefix model || starts_with (codes "gpt-") model
      then resolve_litellm (remove_prefix (after_prefix litellm_prefix model) model) env
      else if starts_with (codes "muse-") model
      then resolve_family model false (meta_url env) meta_names env
      else if starts_with (codes "claude-") model
      then resolve_family model true (anthropic_url env) claude_names env
      else err value_error
