-- ===== src/Proxy/Requests/Checks.antt =====
-- What `_validate_http_request` of harness/proxy/proxy.py refuses, and what a request has that it lets
-- through.
use de_framework.Proxy.Requests.{
  AuthVariable, HttpRequest, validate_http_request, has_token, rejection, has_route, has_query,
  is_plain_json, get_header, get_auth_header, or_empty,
}
use de_framework.Text.{Text, codes, text_eq_sound}
use de_framework.Prelude.{◌≡◌, true, false, none, some, Bool, ℕ, ◌≤◌, arith, refl}

-- The header of the credential's mode has the run token.
abbrev pub CarriesToken : Text → AuthVariable → HttpRequest → Type 0
CarriesToken token m r =
    let (header, expected) = get_auth_header m token in
    or_empty (get_header header r.headers) ≡ expected

passed : (a b c d : Bool) → rejection a b c d ≡ none → (a ≡ true) × (b ≡ true) × (d ≡ true)
passed false b c d h = cc
passed true false c d h = cc
passed true true false d h = cc
passed true true true false h = cc
passed true true true true h = (refl, refl, refl)

pub validated-CarriesToken :
    (token : Text) (m : AuthVariable) (r : HttpRequest)
    → validate_http_request m token r ≡ none
    → CarriesToken token m r
      × (r.method ≡ codes "POST")
      × (r.content_type ≡ codes "application/json")
unfolding validate_http_request has_token
validated-CarriesToken token m r h =
    let (carried, routed, plain) =
      passed (has_token m token r) (has_route r) (has_query r) (is_plain_json r) h in
    (
      text_eq_sound _ _ carried,
      text_eq_sound r.method (codes "POST") (ground (arith, routed)),
      text_eq_sound r.content_type (codes "application/json") (ground (arith, plain)),
    )

rejection-high : (a b c d : Bool) (status : ℕ) → rejection a b c d ≡ some status → 400 ≤ status
rejection-high false b c d status h = ground arith
rejection-high true false c d status h = ground arith
rejection-high true true false d status h = ground arith
rejection-high true true true false status h = ground arith
rejection-high true true true true status h = cc

pub rejected-high :
    (token : Text) (m : AuthVariable) (r : HttpRequest) (status : ℕ)
    → validate_http_request m token r ≡ some status
    → 400 ≤ status
unfolding validate_http_request
rejected-high token m r status h =
    rejection-high (has_token m token r) (has_route r) (has_query r) (is_plain_json r) status h
