-- ===== src/Proxy/Tests.antt =====
-- The theorems about the proxy at small inputs.
use de_framework.Proxy.Gateway.Recovery.{recover_credential_switches}
use de_framework.Prelude.{refl, [], true, ◌≡◌, false, none, some, ◌∷◌, ◌≢◌, ℕ}
use de_framework.Text.{codes}
use de_framework.Proxy.Gateway.Safety.{Guarded, Admitted, forward_request-Guarded}
use de_framework.Proxy.Gateway.{Answer, Handled, forward_request, whole, recover_credential}
use de_framework.Proxy.Requests.{HttpRequest, api_key_env}
use de_framework.Proxy.Pool.Rotation.{Serves, acquire_round-Serves}
use de_framework.Proxy.Pool.Turns.{Unique}
use de_framework.Proxy.Pool.{CredentialPool, is_available, acquire_round, at, never}

abbrev pool : CredentialPool
pool = record { cool_until = (7, at 0) ∷ (8, at 50) ∷ (9, never) ∷ []; next_index = 1 }

pool-Unique : Unique pool.cool_until
pool-Unique = (refl, (refl, (refl, tt)))

acquire_round-Serves_example : Serves (some 8) 10 pool (acquire_round (some 8) 10 pool)
acquire_round-Serves_example = acquire_round-Serves (some 8) 10 pool pool-Unique

abbrev request : HttpRequest
request = record {
  method = codes "POST";
  raw_path = codes "/v1/messages?beta=true";
  query_string = codes "beta=true";
  content_type = codes "application/json";
  headers =
      (codes "x-api-key", codes "run") ∷ (codes "anthropic-beta", codes "effort-2025-11-24") ∷ [];
  body = some (codes "ok");
}

abbrev refused : Answer
refused = record { status = 429; headers = []; text = codes "slow down"; delivery = whole }

abbrev handled : Handled
handled =
    forward_request true (codes "run") (λ _. api_key_env) some (λ _. none) request (some refused) 7
      10 pool

forward_request-Guarded_example :
    Guarded
      (Admitted true (codes "run") (λ _. api_key_env) some (λ _. none) request 7 10 pool)
      pool
      handled
forward_request-Guarded_example =
    forward_request-Guarded true (codes "run") (λ _. api_key_env) some (λ _. none) request
      (some refused) 7 10 pool

passes_the_limit_on : handled.status ≡ 429
unfolding forward_request
passes_the_limit_on = refl

cools_the_credential : is_available 7 309 handled.pool ≡ false
unfolding forward_request is_available
cools_the_credential = refl

abbrev two : CredentialPool
two = record { cool_until = (7, at 0) ∷ (8, at 5) ∷ []; next_index = 0 }

two-Unique : Unique two.cool_until
two-Unique = (refl, (refl, tt))

recover_credential_switches_example : (◌≢◌ {A = ℕ} 7 8) × (is_available 8 10 two ≡ true)
unfolding recover_credential
recover_credential_switches_example =
    recover_credential_switches true (codes "run") (λ _. api_key_env) some (λ _. none) none 7 8 10
      two (record { cool_until = (7, never) ∷ (8, at 5) ∷ []; next_index = 0 }) two-Unique refl
