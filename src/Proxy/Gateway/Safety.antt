-- ===== src/Proxy/Gateway/Safety.antt =====
-- `Proxy._forward_request` of harness/proxy/proxy.py: what reaches the provider, what the container is answered, and what a request does to the pool.
use de_framework.Proxy.Requests.Checks.{CarriesToken, rejected-high, validated-CarriesToken}
use de_framework.Session.Errors.{is_spend_limit_error}
use de_framework.Exec.{Result, ok, err}
use de_framework.Proxy.Pool.Cooldown.{disable_lem, mark_rate_limited_lem}
use de_framework.Proxy.Gateway.{
  Handled, forward_checked, forward_request, get_error_response, note_limit, refuse,
  stream_provider_response, Answer, request_betas, get_reset_time, forward_validated, error_reply,
  Delivery, whole, cut_off, forward_body,
}
use de_framework.Text.{Text, codes}
use de_framework.Proxy.Requests.{
  AuthVariable, HttpRequest, validate_http_request, validate_betas, is_some,
}
use de_framework.Prelude.{
  ℕ, ◌≡◌, true, false, ◌⊎◌, ◌≤◌, none, Bool, Option, arith, some, inr, if_elim, refl, leb, ◌&&◌,
  if◌then◌else◌, ◌==◌, not, inl,
}
use de_framework.Proxy.Pool.{CredentialPool, Provider, is_available, disable, Until, is_disabled}

-- No credential that was not eligible is so afterwards, at any time.
abbrev pub NoWorse : CredentialPool → CredentialPool → Type 0
NoWorse before after =
    (j : Provider) (t : ℕ) → is_available j t after ≡ true → is_available j t before ≡ true

-- What is promised of a request: it changes no credential for the better; one that is not forwarded
-- leaves the pool alone; a reply is 200 or an error; and one that is forwarded passed the checks of
-- route, token, query and encoding, carries reviewed betas and a body that parses, and its
-- credential was eligible.
pub record Guarded (asks : Type 0) (pool : CredentialPool) (h : Handled) : Type 0 where
  pub no_worse : NoWorse pool h.pool
  pub idle : h.asked ≡ false → h.pool ≡ pool
  pub answered : (h.status ≡ 200) ⊎ (400 ≤ h.status)
  pub gate : h.asked ≡ true → asks

weaken-Guarded :
    {P Q : Type 0} {pool : CredentialPool} {h : Handled}
    → (P → Q)
    → Guarded P pool h
    → Guarded Q pool h
weaken-Guarded f g = record {
  no_worse = g.no_worse;
  idle = g.idle;
  answered = g.answered;
  gate = λ e. f (g.gate e);
}

disable-NoWorse : (p : Provider) (pool : CredentialPool) → NoWorse pool (disable p pool)
disable-NoWorse p pool j t h = ground (arith, disable_lem p j t pool)

module _ (use_anthropic_resets : Bool) (token : Text) (mode : Provider → AuthVariable)
    (parse : Text → Option Text) (float : Text → Option Until) where
  refuse-Guarded :
      {P : Type 0} (status : ℕ) (pool : CredentialPool)
      → 400 ≤ status
      → Guarded P pool (refuse use_anthropic_resets token mode parse float status pool)
  unfolding refuse
  refuse-Guarded status pool h = record {
    no_worse = λ j t a. a;
    idle = λ _. refl;
    answered = inr h;
    gate = λ e. cc;
  }

  note-NoWorse :
      (a : Answer) (p : Provider) (now : ℕ) (pool : CredentialPool)
      → NoWorse pool (note_limit use_anthropic_resets token mode parse float a p now pool)
  unfolding note_limit
  note-NoWorse a p now pool j t h = grind (
    arith,
    mark_rate_limited_lem p j
        (get_reset_time use_anthropic_resets token mode parse float a.headers now) now t pool,
  )

  error-Guarded :
      (a : Answer) (p : Provider) (before pool : CredentialPool)
      → NoWorse before pool
      → Guarded Unit before
          (get_error_response use_anthropic_resets token mode parse float a p pool)
  unfolding get_error_response
  error-Guarded a p before pool w =
      if_elim (Guarded Unit before) (leb 400 a.status && is_spend_limit_error a.text)
        (record { status = 402; asked = true; pool = disable p pool })
        (record { status = if leb 400 a.status then a.status else 502; asked = true; pool = pool })
        (λ _. record {
          no_worse = λ j t h. w j t (disable-NoWorse p pool j t h);
          idle = λ e. cc;
          answered = inr (omega arith);
          gate = λ _. tt;
        })
        (λ _. record {
          no_worse = w;
          idle = λ e. cc;
          answered = inr (ground arith);
          gate = λ _. tt;
        })

  reply-Guarded :
      (d : Delivery) (a : Answer) (p : Provider) (before pool : CredentialPool)
      → NoWorse before pool
      → Guarded Unit before (error_reply use_anthropic_resets token mode parse float d a p pool)
  unfolding error_reply
  reply-Guarded whole a p before pool w = error-Guarded a p before pool w
  reply-Guarded cut_off a p before pool w = record {
    no_worse = w;
    idle = λ e. cc;
    answered = inr (omega arith);
    gate = λ _. tt;
  }

  stream-Guarded :
      (answer : Option Answer) (p : Provider) (now : ℕ) (pool : CredentialPool)
      → Guarded Unit pool
          (stream_provider_response use_anthropic_resets token mode parse float answer p now pool)
  unfolding stream_provider_response
  stream-Guarded none p now pool = record {
    no_worse = λ j t a. a;
    idle = λ e. cc;
    answered = inr (omega arith);
    gate = λ _. tt;
  }
  stream-Guarded (some a) p now pool =
      let noted = note_limit use_anthropic_resets token mode parse float a p now pool in
      let w = note-NoWorse a p now pool in
      if_elim (Guarded Unit pool) (a.status == 200)
        (record { status = 200; asked = true; pool = noted })
        (error_reply use_anthropic_resets token mode parse float a.delivery a p noted)
        (λ _. record { no_worse = w; idle = λ e. cc; answered = inl refl; gate = λ _. tt })
        (λ _. reply-Guarded a.delivery a p pool noted w)

  checked-Guarded :
      (betas : Result Text) (body : Option Text) (answer : Option Answer) (p : Provider) (now : ℕ)
      (pool : CredentialPool)
      → Guarded
          (((b : Text) × (betas ≡ ok b)) × (is_some body ≡ true) × (is_available p now pool ≡ true))
          pool
          (forward_checked use_anthropic_resets token mode parse float betas body answer p now pool)
  unfolding forward_checked
  checked-Guarded (err e) body answer p now pool = refuse-Guarded 400 pool (omega arith)
  checked-Guarded (ok betas) none answer p now pool = refuse-Guarded 400 pool (omega arith)
  checked-Guarded (ok betas) (some body) answer p now pool =
      let P =
        ((b : Text) × (ok betas ≡ ok b))
        × (is_some (some body) ≡ true)
        × (is_available p now pool ≡ true) in
      let stream =
        stream_provider_response use_anthropic_resets token mode parse float answer p now pool in
      let refused = refuse use_anthropic_resets token mode parse float in
      if_elim (Guarded P pool) (is_disabled p pool) (refused 402 pool)
        (if not (is_available p now pool) then refused 429 pool else stream)
        (λ _. refuse-Guarded 402 pool (omega arith))
        (λ _.
          if_elim (Guarded P pool) (not (is_available p now pool)) (refused 429 pool) stream
            (λ _. refuse-Guarded 429 pool (omega arith))
            (λ h.
              weaken-Guarded (λ _. ((betas, refl), refl, ground arith))
                (stream-Guarded answer p now pool)))

  -- A forwarded request passed every check.
  abbrev pub Admitted : HttpRequest → Provider → ℕ → CredentialPool → Type 0
  Admitted r p now pool =
      (validate_http_request (mode p) token r ≡ none)
      × CarriesToken token (mode p) r
      × (r.method ≡ codes "POST")
      × (r.content_type ≡ codes "application/json")
      × ((b : Text) × (validate_betas
              (request_betas use_anthropic_resets token mode parse float p r)
            ≡ ok b))
      × ((body : Text) × (r.body ≡ some body) × (is_some (parse body) ≡ true))
      × (is_available p now pool ≡ true)

  body-Guarded :
      (o : Option Text) (r : HttpRequest) (answer : Option Answer) (p : Provider) (now : ℕ)
      (pool : CredentialPool)
      → r.body ≡ o
      → Guarded
          (((b : Text) × (validate_betas
                  (request_betas use_anthropic_resets token mode parse float p r)
                ≡ ok b))
            × ((body : Text) × (r.body ≡ some body) × (is_some (parse body) ≡ true))
            × (is_available p now pool ≡ true))
          pool
          (forward_body use_anthropic_resets token mode parse float o r answer p now pool)
  unfolding forward_body
  body-Guarded none r answer p now pool e = refuse-Guarded 413 pool (omega arith)
  body-Guarded (some body) r answer p now pool e =
      weaken-Guarded (λ (betas, parses, due). (betas, (body, e, parses), due))
        (checked-Guarded
          (validate_betas (request_betas use_anthropic_resets token mode parse float p r))
          (parse body) answer p now pool)

  validated-Guarded :
      (o : Option ℕ) (r : HttpRequest) (answer : Option Answer) (p : Provider) (now : ℕ)
      (pool : CredentialPool)
      → validate_http_request (mode p) token r ≡ o
      → ((status : ℕ) → o ≡ some status → 400 ≤ status)
      → Guarded
          (Admitted r p now pool)
          pool
          (forward_validated use_anthropic_resets token mode parse float o r answer p now pool)
  unfolding forward_validated
  validated-Guarded (some status) r answer p now pool e k =
      refuse-Guarded status pool (k status refl)
  validated-Guarded none r answer p now pool e k =
      weaken-Guarded
        (λ (betas, body, due).
          let (carries, posts, plain) = validated-CarriesToken token (mode p) r e in
          (e, carries, posts, plain, betas, body, due))
        (body-Guarded r.body r answer p now pool refl)

  -- A request is forwarded only when it carries the run token, a permitted route, query and encoding,
  -- reviewed betas and a body that parses, and its credential is eligible; one that is not forwarded
  -- leaves the pool alone, no request makes a credential eligible that was not, at any time, and
  -- every reply is 200 or an error status.
  pub forward_request-Guarded :
      (r : HttpRequest) (answer : Option Answer) (p : Provider) (now : ℕ) (pool : CredentialPool)
      → Guarded
          (Admitted r p now pool)
          pool
          (forward_request use_anthropic_resets token mode parse float r answer p now pool)
  unfolding forward_request
  forward_request-Guarded r answer p now pool =
      validated-Guarded (validate_http_request (mode p) token r) r answer p now pool refl
        (rejected-high token (mode p) r)
