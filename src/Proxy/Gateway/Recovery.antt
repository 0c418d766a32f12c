-- ===== src/Proxy/Gateway/Recovery.antt =====
-- What `Proxy.recover_credential` of harness/proxy/proxy.py acquires after a spend limit.
use de_framework.Proxy.Pool.Cooldown.{disable_lem}
use de_framework.Proxy.Gateway.{recover_credential, recover_pool}
use de_framework.Proxy.Pool.Rotation.{Serves, acquire_round-Serves}
use de_framework.Proxy.Pool.Turns.{Unique}
use de_framework.Proxy.Requests.{AuthVariable}
use de_framework.Text.{Text}
use de_framework.Prelude.{
  Bool, ℕ, List, Option, [], if_elim, ◌∷◌, ◌≡◌, arith, ◌==◌, refl, true, ◌∙◌, subst, ◌≢◌, some,
  ==_iff,
}
use de_framework.Proxy.Pool.{
  Round, disable, set_until, Provider, CredentialPool, Until, has_provider, granted, is_disabled,
  is_available, never, acquire_round,
}

has_provider-set_until :
    (j p : Provider) (u : Until) (d : List (Provider × Until))
    → has_provider j (set_until p u d) ≡ has_provider j d
unfolding set_until
has_provider-set_until j p u [] = refl
has_provider-set_until j p u ((q, v) ∷ d) = ground (arith, has_provider-set_until j p u d)

set_until-Unique :
    (p : Provider) (u : Until) (d : List (Provider × Until)) → Unique d → Unique (set_until p u d)
unfolding set_until
set_until-Unique p u [] n = tt
set_until-Unique p u ((q, v) ∷ d) n =
    if_elim Unique (q == p) ((q, u) ∷ d) ((q, v) ∷ set_until p u d) (λ _. n)
      (λ _. (has_provider-set_until q p u d ∙ n.0, set_until-Unique p u d n.1))

disable-Unique :
    (p : Provider) (pool : CredentialPool)
    → Unique pool.cool_until
    → Unique (disable p pool).cool_until
unfolding disable
disable-Unique p pool n =
    if_elim (λ q. Unique q.cool_until) (is_disabled p pool) pool
      (record pool { cool_until = set_until p never pool.cool_until }) (λ _. n)
      (λ _. set_until-Unique p never pool.cool_until n)

granted-available :
    (current : Option Provider) (r : Round) (now : ℕ) (pool : CredentialPool) (q : Provider)
    (after : CredentialPool)
    → Serves current now pool r
    → r ≡ granted q after
    → is_available q now pool ≡ true
granted-available current r now pool q after s e = (subst (Serves current now pool) e s).0

module _ (use_anthropic_resets : Bool) (token : Text) (mode : Provider → AuthVariable)
    (parse : Text → Option Text) (float : Text → Option Until) where
  -- After a spend limit the credential acquired next is another one, and was eligible before.
  pub recover_credential_switches :
      (resets : Option Until) (p q : Provider) (now : ℕ) (pool after : CredentialPool)
      → Unique pool.cool_until
      → recover_credential use_anthropic_resets token mode parse float true resets p now pool
        ≡ granted q after
      → (p ≢ q) × (is_available q now pool ≡ true)
  unfolding recover_credential recover_pool
  recover_credential_switches resets p q now pool after n e =
      let served =
        granted-available (some p) (acquire_round (some p) now (disable p pool)) now
          (disable p pool) q after
          (acquire_round-Serves (some p) now (disable p pool) (disable-Unique p pool n)) e in
      let known = disable_lem p q now pool in
      (λ same. ground (arith, served, known, ==_iff p q, same), ground (arith, served, known))
