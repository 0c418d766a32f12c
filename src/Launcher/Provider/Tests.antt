-- ===== src/Launcher/Provider/Tests.antt =====
-- The theorem about provider routes in a small environment.
use de_framework.Proxy.Requests.{auth_token_env, text_ltb}
use de_framework.Exec.{Result, ok}
use de_framework.Launcher.Provider.Families.{IsUsable, resolve_provider-IsUsable}
use de_framework.Launcher.Provider.{
  Environment, ProviderRoute, resolve_provider, ProviderConfig, resolve_family, populated,
  read_numbered_values, read_entries, insert_entry, distinct_values, number_from, provider_configs,
  provider_config, pairs, strip_slashes, get_value,
}
use de_framework.Text.{
  Text, codes, after_prefix, is_blank, is_space, is_line_break, strip, lstrip, text_eq,
}
use de_framework.Prelude.{refl, ◌∷◌, [], false, ◌≡◌}

abbrev any_url : Text → Result (Unit {0})
any_url t = ok tt

abbrev environment : Environment
environment =
    (codes "META_API_KEY_2", codes "b")
    ∷ (codes "META_API_KEY", codes " a ")
    ∷ (codes "META_API_KEY_10", codes "a")
    ∷ []

abbrev provider : Text → ProviderConfig
provider key = record {
  url = codes "https://api.meta.ai";
  auth_variable = auth_token_env;
  credential = key;
}

-- In numeric order, and each credential once.
abbrev meta_route : ProviderRoute
meta_route = record {
  model = codes "muse-1";
  providers = provider (codes "a") ∷ provider (codes "b") ∷ [];
  use_anthropic_resets = false;
}

resolves : resolve_provider any_url (codes "muse-1") environment ≡ ok meta_route
unfolding resolve_provider resolve_family populated read_numbered_values read_entries insert_entry
    distinct_values number_from text_ltb provider_configs provider_config pairs strip_slashes
    get_value after_prefix is_blank is_space is_line_break strip lstrip text_eq
resolves = refl

resolve_provider-IsUsable_example : IsUsable any_url meta_route
resolve_provider-IsUsable_example =
    resolve_provider-IsUsable any_url (codes "muse-1") environment meta_route resolves
