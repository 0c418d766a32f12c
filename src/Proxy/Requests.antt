-- ===== src/Proxy/Requests.antt =====
-- What the gateway lets through: `_validate_http_request` of harness/proxy/proxy.py,
-- `validate_betas` of harness/proxy/request_policy.py, `get_auth_header` of harness/proxy/models.py,
-- and their settings in harness/proxy/constants.py.
pub mod Checks
use de_framework.Session.Errors.{to_lower}
use de_framework.Exec.{Result, ok, err, value_error}
use de_framework.Text.{Text, strip, text_eq, codes, in_texts, split_from}
use de_framework.Prelude.{
  Bool, List, Option, ℕ, [], false, if◌then◌else◌, none, ◌∷◌, all, not, some, true, ◌&&◌, ◌++◌,
  ◌==◌, ltb, ◌||◌,
}

pub data AuthVariable : Type 0 where
  api_key_env auth_token_env oauth_token_env : AuthVariable

-- A dictionary of header values, whose names are compared without regard to case.
abbrev pub Headers : Type 0
Headers = List (Text × Text)

unfoldable pub get_header : Text → Headers → Option Text
unfolding text_eq to_lower
get_header k [] = none
get_header k ((j, v) ∷ d) = if text_eq (to_lower j) (to_lower k) then some v else get_header k d

abbrev pub or_empty : Option Text → Text
or_empty none = []
or_empty (some v) = v

unfoldable pub get_auth_header : AuthVariable → Text → Text × Text
get_auth_header api_key_env credential = (codes "x-api-key", credential)
get_auth_header _ credential = (codes "authorization", codes "Bearer " ++ credential)

-- The body is none where reading it raises, being too large (status 413).
pub record HttpRequest : Type 0 where
  pub method : Text
  pub raw_path : Text
  pub query_string : Text
  pub content_type : Text
  pub headers : Headers
  pub body : Option Text

-- text.split(separator)[0]
unfoldable pub split_first : ℕ → Text → Text
split_first c [] = []
split_first c (x ∷ t) = if x == c then [] else x ∷ split_first c t

abbrev pub inference_paths : List Text
inference_paths = codes "/v1/messages" ∷ codes "/v1/messages/count_tokens" ∷ []

abbrev pub question_mark : ℕ
question_mark = 63

-- Whether the request carries the run token in the header of the credential's mode.
unfoldable pub has_token : AuthVariable → Text → HttpRequest → Bool
unfolding get_auth_header get_header text_eq
has_token mode token r =
    let (header, expected) = get_auth_header mode token in
    text_eq (or_empty (get_header header r.headers)) expected

abbrev pub is_some {ℓ} : {A : Type ℓ} → Option A → Bool
is_some none = false
is_some (some a) = true

abbrev pub has_route : HttpRequest → Bool
has_route r =
    text_eq r.method (codes "POST")
    && in_texts (split_first question_mark r.raw_path) inference_paths

abbrev pub has_query : HttpRequest → Bool
has_query r = in_texts r.query_string ([] ∷ codes "beta=true" ∷ [])

abbrev pub is_plain_json : HttpRequest → Bool
is_plain_json r =
    text_eq r.content_type (codes "application/json")
    && not (is_some (get_header (codes "Content-Encoding") r.headers))

-- The HTTP status of the rejection, where the request is rejected.
-- The status of the first check that fails.
abbrev pub rejection : Bool → Bool → Bool → Bool → Option ℕ
rejection false _ _ _ = some 401
rejection true false _ _ = some 403
rejection true true false _ = some 403
rejection true true true false = some 415
rejection true true true true = none

unfoldable pub validate_http_request : AuthVariable → Text → HttpRequest → Option ℕ
unfolding has_token split_first text_eq get_header
validate_http_request mode token r =
    rejection (has_token mode token r) (has_route r) (has_query r) (is_plain_json r)

abbrev pub comma : ℕ
comma = 44

-- The order of Python strings.
unfoldable pub text_ltb : Text → Text → Bool
text_ltb [] [] = false
text_ltb [] (d ∷ u) = true
text_ltb (c ∷ t) [] = false
text_ltb (c ∷ t) (d ∷ u) = ltb c d || (c == d && text_ltb t u)

-- A set as a sorted list without repetition.
unfoldable pub insert : Text → List Text → List Text
unfolding text_eq text_ltb
insert a [] = a ∷ []
insert a (b ∷ s) = if text_eq b a then b ∷ s else if text_ltb a b then a ∷ b ∷ s else b ∷ insert a s

abbrev nonempty_text : Text → Bool
nonempty_text [] = false
nonempty_text _ = true

unfoldable pub beta_set : List Text → List Text
unfolding insert strip
beta_set [] = []
beta_set (p ∷ ps) =
    let part = strip p in
    let rest = beta_set ps in if nonempty_text part then insert part rest else rest

unfoldable pub join : Text → List Text → Text
join sep [] = []
join sep (a ∷ []) = a
join sep (a ∷ (b ∷ s)) = a ++ sep ++ join sep (b ∷ s)

abbrev pub oauth_beta : Text
oauth_beta = codes "oauth-2025-04-20"

abbrev pub allowed_betas : List Text
allowed_betas =
    oauth_beta
    ∷ codes "claude-code-20250219"
    ∷ codes "interleaved-thinking-2025-05-14"
    ∷ codes "context-1m-2025-08-07"
    ∷ codes "context-management-2025-06-27"
    ∷ codes "prompt-caching-scope-2026-01-05"
    ∷ codes "output-128k-2025-02-19"
    ∷ codes "effort-2025-11-24"
    ∷ codes "adaptive-thinking-2026-01-28"
    ∷ codes "thinking-token-count-2026-05-13"
    ∷ codes "structured-outputs-2025-12-15"
    ∷ codes "extended-cache-ttl-2025-04-11"
    ∷ codes "mid-conversation-system-2026-04-07"
    ∷ codes "task-budgets-2026-03-13"
    ∷ []

unfoldable pub betas_of : Text → List Text
unfolding beta_set split_from
betas_of value = beta_set (split_from comma [] value)

unfoldable pub validate_betas : Text → Result Text
unfolding betas_of join text_eq
validate_betas value =
    if all (λ b. in_texts b allowed_betas) (betas_of value)
    then ok (join (codes ",") (betas_of value))
    else err value_error
