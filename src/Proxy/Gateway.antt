-- ===== src/Proxy/Gateway.antt =====
-- `_forward_request`, `_stream_provider_response`, `_get_error_response`, `_get_reset_time` and
-- `recover_credential` of harness/proxy/proxy.py. The provider's answer is an argument, the clock is
-- read once for a request, and a reply is its HTTP status.
pub mod Safety
pub mod Recovery
use de_framework.Exec.{Result, err, ok}
use de_framework.Session.Errors.{is_spend_limit_error}
use de_framework.Proxy.Pool.{
  CredentialPool, Provider, Until, at, mark_rate_limited, disable, acquire_round, is_available,
  is_disabled, Round,
}
use de_framework.Text.{Text, codes, text_eq}
use de_framework.Proxy.Requests.{
  Headers, get_header, AuthVariable, HttpRequest, oauth_beta, comma, oauth_token_env, or_empty,
  validate_http_request, is_some, validate_betas,
}
use de_framework.Prelude.{
  Bool, ℕ, none, Option, false, some, if◌then◌else◌, true, [], ltb, not, ◌++◌, ◌==◌, leb, ◌+◌, ◌||◌,
  ◌&&◌, ◌∷◌,
}

-- The connection failed before an answer; the answer was cut off while its content was streamed; or
-- it came whole.
pub data Delivery : Type 0 where
  cut_off whole : Delivery

pub record Answer : Type 0 where
  pub status : ℕ
  pub headers : Headers
  pub text : Text
  pub delivery : Delivery

-- What a request comes to: the reply's status, whether the provider was asked, and the pool.
pub record Handled : Type 0 where
  pub status : ℕ
  pub asked : Bool
  pub pool : CredentialPool

abbrev pub limit_rejected : Headers → Bool
limit_rejected h = elim (get_header (codes "anthropic-ratelimit-unified-status") h) [
  | none ↦ false
  | some v ↦ text_eq v (codes "rejected")
]

-- Settings, and what is not under the program's control: parsing with the request schema (none
-- where it raises), and `float` (none where it raises ValueError, `never` for what is not finite).
module _ (use_anthropic_resets : Bool) (token : Text) (mode : Provider → AuthVariable)
    (parse : Text → Option Text) (float : Text → Option Until) where
  unfoldable pub delay_from : Option Until → ℕ → Option Until
  delay_from (some (at delay)) now = if ltb 0 delay then some (at (now + delay)) else none
  delay_from _ now = none

  unfoldable pub reset_from : Option Text → Option Text → ℕ → Option Until
  unfolding delay_from
  reset_from (some reset) _ now = float reset
  reset_from none (some delay) now = delay_from (float delay) now
  reset_from none none now = none

  unfoldable pub get_reset_time : Headers → ℕ → Option Until
  unfolding reset_from get_header
  get_reset_time h now =
      if not use_anthropic_resets
      then none
      else reset_from (get_header (codes "anthropic-ratelimit-unified-reset") h)
          (get_header (codes "retry-after") h) now

  unfoldable pub get_error_response : Answer → Provider → CredentialPool → Handled
  unfolding is_spend_limit_error disable
  get_error_response a p pool =
      if leb 400 a.status && is_spend_limit_error a.text
      then record { status = 402; asked = true; pool = disable p pool }
      else record { status = if leb 400 a.status then a.status else 502; asked = true; pool = pool }

  unfoldable pub note_limit : Answer → Provider → ℕ → CredentialPool → CredentialPool
  unfolding mark_rate_limited get_reset_time text_eq get_header
  note_limit a p now pool =
      if a.status == 429 || (use_anthropic_resets && limit_rejected a.headers)
      then mark_rate_limited p (get_reset_time a.headers now) now pool
      else pool

  -- An error text that is cut off is a failed connection.
  unfoldable pub error_reply : Delivery → Answer → Provider → CredentialPool → Handled
  unfolding get_error_response
  error_reply whole a p pool = get_error_response a p pool
  error_reply cut_off a p pool = record { status = 502; asked = true; pool = pool }

  -- A stream that is cut off ends with its status sent.
  unfoldable pub stream_provider_response : Option Answer → Provider → ℕ → CredentialPool → Handled
  unfolding note_limit error_reply
  stream_provider_response none p now pool = record { status = 502; asked = true; pool = pool }
  stream_provider_response (some a) p now pool =
      let noted = note_limit a p now pool in
      if a.status == 200
      then record { status = 200; asked = true; pool = noted }
      else error_reply a.delivery a p noted

  unfoldable pub refuse : ℕ → CredentialPool → Handled
  refuse status pool = record { status = status; asked = false; pool = pool }

  -- The credential's own beta flag, for the OAuth mode.
  abbrev own_betas : AuthVariable → Text
  own_betas oauth_token_env = oauth_beta
  own_betas _ = []

  unfoldable pub request_betas : Provider → HttpRequest → Text
  unfolding get_header
  request_betas p r =
      own_betas (mode p) ++ comma ∷ or_empty (get_header (codes "anthropic-beta") r.headers)

  unfoldable pub forward_checked :
      Result Text → Option Text → Option Answer → Provider → ℕ → CredentialPool → Handled
  unfolding refuse is_disabled is_available stream_provider_response
  forward_checked (err e) body answer p now pool = refuse 400 pool
  forward_checked (ok betas) none answer p now pool = refuse 400 pool
  forward_checked (ok betas) (some body) answer p now pool =
      if is_disabled p pool
      then refuse 402 pool
      else if not (is_available p now pool)
      then refuse 429 pool
      else stream_provider_response answer p now pool

  unfoldable pub forward_body :
      Option Text → HttpRequest → Option Answer → Provider → ℕ → CredentialPool → Handled
  unfolding refuse forward_checked request_betas validate_betas
  forward_body none r answer p now pool = refuse 413 pool
  forward_body (some body) r answer p now pool =
      forward_checked (validate_betas (request_betas p r)) (parse body) answer p now pool

  unfoldable pub forward_validated :
      Option ℕ → HttpRequest → Option Answer → Provider → ℕ → CredentialPool → Handled
  unfolding refuse forward_body
  forward_validated (some status) r answer p now pool = refuse status pool
  forward_validated none r answer p now pool = forward_body r.body r answer p now pool

  unfoldable pub forward_request :
      HttpRequest → Option Answer → Provider → ℕ → CredentialPool → Handled
  unfolding validate_http_request forward_validated
  forward_request r answer p now pool =
      forward_validated (validate_http_request (mode p) token r) r answer p now pool

  -- The pool with which `recover_credential` then acquires a credential, the present one first.
  unfoldable pub recover_pool : Bool → Option Until → Provider → ℕ → CredentialPool → CredentialPool
  unfolding disable is_available mark_rate_limited
  recover_pool spend_limited resets p now pool =
      if spend_limited
      then disable p pool
      else if is_available p now pool || (use_anthropic_resets && is_some resets)
      then mark_rate_limited p (if use_anthropic_resets then resets else none) now pool
      else pool

  unfoldable pub recover_credential : Bool → Option Until → Provider → ℕ → CredentialPool → Round
  unfolding recover_pool acquire_round
  recover_credential spend_limited resets p now pool =
      acquire_round (some p) now (recover_pool spend_limited resets p now pool)
