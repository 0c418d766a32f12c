-- ===== src/Session/Errors.antt =====
-- harness/session/errors.py, with the markers of harness/session/constants.py: the class of a
-- provider failure by its diagnostic text. Lower case and word boundaries are those of ASCII.
use de_framework.Exec.{
  Error, cli_not_found_error, connection_error, spend_limit_error, other_error, rate_limit_error,
}
use de_framework.Prelude.{
  Bool, List, Option, ℕ, any, false, if◌then◌else◌, leb, true, ℤ, ◌||◌, ◌∷◌, [], not, some, ◌&&◌,
  ◌==◌, negsuc, ◌+◌, none,
}
use de_framework.Text.{Text, codes}

unfoldable pub to_lower : Text → Text
to_lower [] = []
to_lower (c ∷ t) = (if leb b'A' c && leb c b'Z' then c + 32 else c) ∷ to_lower t

unfoldable pub starts_with : Text → Text → Bool
starts_with [] t = true
starts_with (c ∷ p) [] = false
starts_with (c ∷ p) (d ∷ t) = c == d && starts_with p t

-- `marker in text`
unfoldable pub contains : Text → Text → Bool
unfolding starts_with
contains p [] = starts_with p []
contains p (c ∷ t) = starts_with p (c ∷ t) || contains p t

unfoldable pub is_word : ℕ → Bool
is_word c =
    (leb b'0' c && leb c b'9')
    || (leb b'A' c && leb c b'Z')
    || (leb b'a' c && leb c b'z')
    || c == b'_'

abbrev pub word_at : Text → Bool
word_at [] = false
word_at (c ∷ t) = is_word c

-- \b429\b, where `before` tells whether a word character stands before the text.
unfoldable pub has_429 : Bool → Text → Bool
unfolding is_word
has_429 before (b1 ∷ (b2 ∷ (b3 ∷ t))) =
    (not before && b1 == b'4' && b2 == b'2' && b3 == b'9' && not (word_at t))
    || has_429 (is_word b1) (b2 ∷ (b3 ∷ t))
has_429 before _ = false

abbrev pub rate_limit_words : List Text
rate_limit_words = codes "rate_limit" ∷ codes "rate limit" ∷ codes "rate-limit" ∷ []

abbrev pub spend_limit_markers : List Text
spend_limit_markers =
    codes "spend limit" ∷ codes "usage limit reached" ∷ codes "credit balance is too low" ∷ []

abbrev pub transient_error_markers : List Text
transient_error_markers =
    codes "rate_limit"
    ∷ codes "server_error"
    ∷ codes "overloaded_error"
    ∷ codes "connection reset"
    ∷ codes "connection closed"
    ∷ codes "connection refused"
    ∷ codes "econnreset"
    ∷ codes "econnrefused"
    ∷ codes "socket hang up"
    ∷ codes "stream disconnected"
    ∷ codes "timed out"
    ∷ codes "timeout"
    ∷ codes "status code: 429"
    ∷ codes "status code: 500"
    ∷ codes "status code: 502"
    ∷ codes "status code: 503"
    ∷ codes "status code: 504"
    ∷ codes "stream ended without receiving any events"
    ∷ codes "peer closed connection"
    ∷ codes "incomplete chunked read"
    ∷ codes "remoteprotocolerror"
    ∷ codes "connection terminated"
    ∷ codes "disconnect/reset before headers"
    ∷ codes "service unavailable"
    ∷ codes "bad gateway"
    ∷ codes "api error: 502"
    ∷ codes "api error: 503"
    ∷ codes "api error: 504"
    ∷ []

unfoldable pub is_rate_limit_error : Text → Bool
unfolding has_429 to_lower contains
is_rate_limit_error t = has_429 false t || any (λ m. contains m (to_lower t)) rate_limit_words

unfoldable pub is_spend_limit_error : Text → Bool
unfolding to_lower contains
is_spend_limit_error t = any (λ m. contains m (to_lower t)) spend_limit_markers

unfoldable pub is_transient_provider_error : Text → Bool
unfolding is_rate_limit_error
is_transient_provider_error t =
    is_rate_limit_error t || any (λ m. contains m (to_lower t)) transient_error_markers

-- `error` is the class of the exception whose text is given.
unfoldable pub normalize_provider_error : Error → Text → Error
unfolding is_spend_limit_error is_rate_limit_error is_transient_provider_error
normalize_provider_error error t =
    if is_spend_limit_error t
    then spend_limit_error
    else if is_rate_limit_error t
    then rate_limit_error none
    else if is_transient_provider_error t
    then connection_error
    else error

-- The exceptions of the SDK: a missing CLI, a broken CLI connection, a process that failed with an
-- exit code, and any other.
pub data SdkError : Type 0 where
  cli_not_found cli_connection : SdkError
  process : Option ℤ → Text → SdkError
  other : Error → SdkError

is_negative : Option ℤ → Bool
is_negative (some (negsuc n)) = true
is_negative _ = false

-- A `ProcessError` that no marker classifies stays as it is, unless a signal ended the process.
unfoldable pub normalize_connection_error : SdkError → Error
unfolding normalize_provider_error is_negative
normalize_connection_error cli_not_found = cli_not_found_error
normalize_connection_error cli_connection = connection_error
normalize_connection_error (process code t) =
    if is_spend_limit_error t || is_rate_limit_error t || is_transient_provider_error t
    then normalize_provider_error other_error t
    else if is_negative code
    then connection_error
    else other_error
normalize_connection_error (other e) = e
