-- ===== src/Launcher/Provider/Families.antt =====
-- The credentials of a route that launcher/provider.py resolves.
use de_framework.Exec.{Result, ok, after-ok, ok_inj, require, err, value_error, require_ok}
use de_framework.Storage.Manager.{is_empty_list}
use de_framework.Text.{Text, is_blank, codes}
use de_framework.Launcher.Provider.{
  meta_url, meta_names, anthropic_url, claude_names, pairs, ProviderConfig, ProviderRoute,
  exactly_one, populated, provider_config, provider_configs, resolve_family, resolve_litellm,
  resolve_provider, Environment, read_numbered_values, route, starts_with, litellm_prefix, several,
}
use de_framework.Proxy.Requests.{AuthVariable, auth_token_env}
use de_framework.Prelude.{
  refl, List, ◌∷◌, Bool, ◌≡◌, false, [], if_elim, subst, true, ◌++◌, not, ◌∙◌, ◌&&◌, ◌||◌, any,
  ◌==◌, arith, if◌then◌else◌,
}

-- Every provider authenticates by the one variable, with a credential.
abbrev pub AllUse : AuthVariable → List ProviderConfig → Type 0
AllUse auth [] = Unit
AllUse auth (p ∷ ps) = (p.auth_variable ≡ auth) × (is_blank p.credential ≡ false) × AllUse auth ps

abbrev AllUsable : List (AuthVariable × List Text) → Type 0
AllUsable [] = Unit
AllUsable (f ∷ fs) = (is_empty_list f.1 ≡ false) × AllUsable fs

pairs_nonempty :
    (urls keys : List Text)
    → is_empty_list urls ≡ false
    → is_empty_list keys ≡ false
    → is_empty_list (pairs urls keys) ≡ false
unfolding pairs
pairs_nonempty [] keys h k = cc
pairs_nonempty (url ∷ urls) [] h k = cc
pairs_nonempty (url ∷ urls) (key ∷ keys) h k = refl

module _ (check_url : Text → Result (Unit {0})) where
  -- A route that can be used.
  pub record IsUsable (r : ProviderRoute) : Type 0 where
    pub auth : AuthVariable
    pub uses : AllUse auth r.providers
    pub some_provider : is_empty_list r.providers ≡ false

  config_lem :
      (url : Text) (auth : AuthVariable) (key : Text) (p : ProviderConfig)
      → provider_config check_url url auth key ≡ ok p
      → (p.auth_variable ≡ auth) × (is_blank p.credential ≡ false)
  unfolding provider_config
  config_lem url auth key p h =
      let (_, _, h1) = after-ok (check_url url) _ p h in
      let (_, k, h2) =
        after-ok
          (require (not (is_blank key) && not (any (λ c. c == 13 || c == 10) key)) value_error)
          (λ _. ok (record { url = url; auth_variable = auth; credential = key })) p h1 in
      subst (λ x. (x.auth_variable ≡ auth) × (is_blank x.credential ≡ false))
        (ok_inj (record { url = url; auth_variable = auth; credential = key }) p h2)
        (refl, ground (arith, require_ok _ _ k))

  configs_lem :
      (auth : AuthVariable) (l : List (Text × Text)) (ps : List ProviderConfig)
      → provider_configs check_url auth l ≡ ok ps
      → AllUse auth ps × (is_empty_list ps ≡ is_empty_list l)
  unfolding provider_configs
  configs_lem auth [] ps h =
      subst (λ x. AllUse auth x × (is_empty_list x ≡ true)) (ok_inj [] ps h) (tt, refl)
  configs_lem auth ((url, key) ∷ rest) ps h =
      let (p, h0, h1) = after-ok (provider_config check_url url auth key) _ ps h in
      let (qs, h2, h3) =
        after-ok (provider_configs check_url auth rest) (λ qs. ok (p ∷ qs)) ps h1 in
      let (same, filled) = config_lem url auth key p h0 in
      subst (λ x. AllUse auth x × (is_empty_list x ≡ false)) (ok_inj (p ∷ qs) ps h3)
        ((same, filled, (configs_lem auth rest qs h2).0), refl)

  route-IsUsable :
      (model : Text) (resets : Bool) (auth : AuthVariable) (l : List (Text × Text))
      (r : ProviderRoute)
      → is_empty_list l ≡ false
      → route check_url model resets auth l ≡ ok r
      → IsUsable r
  route-IsUsable model resets auth l r e h =
      let (ps, h0, h1) =
        after-ok (provider_configs check_url auth l)
          (λ ps. ok (record { model = model; providers = ps; use_anthropic_resets = resets })) r
          h in
      let (uses, same) = configs_lem auth l ps h0 in
      subst IsUsable
        (ok_inj (record { model = model; providers = ps; use_anthropic_resets = resets }) r h1)
        (record { auth = auth; uses = uses; some_provider = same ∙ e })

  populated-AllUsable :
      (env : Environment) (names : List (AuthVariable × Text)) → AllUsable (populated env names)
  unfolding populated
  populated-AllUsable env [] = tt
  populated-AllUsable env ((auth, name) ∷ names) =
      let keys = read_numbered_values env name in
      if_elim (λ x. is_empty_list keys ≡ is_empty_list keys → AllUsable (x ++ populated env names))
        (is_empty_list keys) [] ((auth, keys) ∷ []) (λ _ _. populated-AllUsable env names)
        (λ e _. (e, populated-AllUsable env names)) refl

  one_usable :
      (fs : List (AuthVariable × List Text)) (f : AuthVariable × List Text)
      → AllUsable fs
      → exactly_one fs ≡ ok f
      → is_empty_list f.1 ≡ false
  one_usable [] f a h = cc
  one_usable (g ∷ []) f a h = subst (λ x. is_empty_list x.1 ≡ false) (ok_inj g f h) a.0
  one_usable (g ∷ (k ∷ fs)) f a h = cc

  litellm-IsUsable :
      (model : Text) (env : Environment) (r : ProviderRoute)
      → resolve_litellm check_url model env ≡ ok r
      → IsUsable r
  unfolding resolve_litellm
  litellm-IsUsable model env r h =
      let urls = read_numbered_values env (codes "LITELLM_BASE_URL") in
      let keys = read_numbered_values env (codes "LITELLM_API_KEY") in
      let last = route check_url model false auth_token_env (pairs urls keys) in
      if_elim (λ x. x ≡ ok r → IsUsable r)
        (is_empty_list model || is_empty_list urls || is_empty_list keys) (err value_error)
        (if several urls && several keys then err value_error else last) (λ _ k. cc)
        (λ e.
          if_elim (λ x. x ≡ ok r → IsUsable r) (several urls && several keys) (err value_error) last
            (λ _ k. cc)
            (λ _ k.
              route-IsUsable model false auth_token_env (pairs urls keys) r
                (pairs_nonempty urls keys (ground (arith, e)) (ground (arith, e))) k))
        h

  family-IsUsable :
      (model : Text) (resets : Bool) (url : Text) (names : List (AuthVariable × Text))
      (env : Environment) (r : ProviderRoute)
      → resolve_family check_url model resets url names env ≡ ok r
      → IsUsable r
  unfolding resolve_family
  family-IsUsable model resets url names env r h =
      let (f, h0, h1) =
        after-ok (exactly_one (populated env names))
          (λ f. route check_url model resets f.0 (pairs (url ∷ []) f.1)) r h in
      route-IsUsable model resets f.0 (pairs (url ∷ []) f.1) r
        (pairs_nonempty (url ∷ []) f.1 refl
          (one_usable (populated env names) f (populated-AllUsable env names) h0))
        h1

  -- A resolved route has at least one provider, and all its providers authenticate by the same
  -- variable, each with a credential that is not blank.
  pub resolve_provider-IsUsable :
      (model : Text) (env : Environment) (r : ProviderRoute)
      → resolve_provider check_url model env ≡ ok r
      → IsUsable r
  unfolding resolve_provider
  resolve_provider-IsUsable model env r h =
      if_elim (λ x. x ≡ ok r → IsUsable r)
        (starts_with litellm_prefix model || starts_with (codes "gpt-") model) _ _
        (λ _ k. litellm-IsUsable _ env r k)
        (λ _.
          if_elim (λ x. x ≡ ok r → IsUsable r) (starts_with (codes "muse-") model) _ _
            (λ _ k. family-IsUsable model false (meta_url env) meta_names env r k)
            (λ _.
              if_elim (λ x. x ≡ ok r → IsUsable r) (starts_with (codes "claude-") model) _ _
                (λ _ k. family-IsUsable model true (anthropic_url env) claude_names env r k)
                (λ _ k. cc)))
        h
