-- ===== src/Proxy/Pool.antt =====
-- harness/proxy/credential_pool.py: rotation among credentials with cooldowns. A credential is a
-- number (the source compares frozen records), a time is a natural number of clock ticks, and
-- `never` is `math.inf`. The clock is an argument, read anew on each round of `acquire`.
-- The callers pass credentials of the pool only; for another one the source raises KeyError, and
-- here nothing is found or changed.
pub mod Cooldown
pub mod Rotation
pub mod Turns
use de_framework.Exec.{Result, err, value_error, ok}
use de_framework.Prelude.{
  Bool, List, Option, if◌then◌else◌, max, min, ℕ, [], any, false, leb, length, none, some, ◌-◌, ◌∷◌,
  ltb, suc, true, ◌++◌, ◌+◌, ◌==◌, ◌%◌, all, get_elem?, zero,
}

pub data Until : Type 0 where
  at : ℕ → Until
  never : Until

abbrev pub Provider : Type 0
Provider = ℕ

-- The dictionary `_cool_until` in insertion order, and the rotation index.
pub record CredentialPool : Type 0 where
  pub cool_until : List (Provider × Until)
  pub next_index : ℕ

abbrev pub has_provider : Provider → List (Provider × Until) → Bool
has_provider p = any (λ e. e.0 == p)

-- dict.fromkeys(providers, 0.0), the entries so far coming first.
unfoldable pub from_keys : List Provider → List (Provider × Until) → List (Provider × Until)
from_keys [] d = d
from_keys (p ∷ ps) d = from_keys ps (if has_provider p d then d else d ++ (p, at 0) ∷ [])

-- `auth` gives the authentication mode of a credential.
unfoldable pub new_pool : (Provider → ℕ) → List Provider → Result CredentialPool
unfolding from_keys
new_pool auth [] = err value_error
new_pool auth (p ∷ ps) =
    if all (λ q. auth q == auth p) ps
    then ok (record { cool_until = from_keys (p ∷ ps) []; next_index = 0 })
    else err value_error

unfoldable pub get_until : Provider → List (Provider × Until) → Option Until
get_until p [] = none
get_until p ((q, u) ∷ d) = if q == p then some u else get_until p d

unfoldable pub set_until : Provider → Until → List (Provider × Until) → List (Provider × Until)
set_until p u [] = []
set_until p u ((q, v) ∷ d) = if q == p then (q, u) ∷ d else (q, v) ∷ set_until p u d

-- `cool_until <= now`
abbrev pub is_due : Until → ℕ → Bool
is_due (at t) now = leb t now
is_due never now = false

abbrev pub is_due? : Option Until → ℕ → Bool
is_due? none now = false
is_due? (some u) now = is_due u now

unfoldable pub is_available : Provider → ℕ → CredentialPool → Bool
unfolding get_until
is_available p now pool = is_due? (get_until p pool.cool_until) now

abbrev pub is_never : Option Until → Bool
is_never (some never) = true
is_never _ = false

unfoldable pub is_disabled : Provider → CredentialPool → Bool
unfolding get_until
is_disabled p pool = is_never (get_until p pool.cool_until)

-- The credentials in turn from the rotation index: `count` offsets from `offset` on. The result is
-- the credential found and its index.
unfoldable pub scan_entry :
    Option (Provider × Until) → ℕ → ℕ → Option (Provider × ℕ) → Option (Provider × ℕ)
scan_entry none index now rest = none
scan_entry (some (p, u)) index now rest = if is_due u now then some (p, index) else rest

unfoldable pub scan : ℕ → CredentialPool → ℕ → ℕ → Option (Provider × ℕ)
unfolding scan_entry
scan now pool zero offset = none
scan now pool (suc count) offset =
    let index = (pool.next_index + offset) % length pool.cool_until in
    scan_entry (get_elem? pool.cool_until index) index now (scan now pool count (suc offset))

abbrev pub earlier : Until → Until → Until
earlier (at a) (at b) = at (min a b)
earlier (at a) never = at a
earlier never u = u

-- min(self._cool_until.values())
unfoldable pub earliest : List (Provider × Until) → Until
earliest [] = never
earliest ((p, u) ∷ d) = earlier u (earliest d)

-- One round of `acquire`: a credential with the pool after it, a wait, or RuntimeError where every
-- credential is disabled.
pub data Round : Type 0 where
  granted : Provider → CredentialPool → Round
  waits : ℕ → Round
  exhausted : Round

unfoldable pub keeps_current : Option Provider → ℕ → CredentialPool → Bool
unfolding is_available
keeps_current none now pool = false
keeps_current (some p) now pool = is_available p now pool

unfoldable pub current_or : Option Provider → Provider
current_or none = 0
current_or (some p) = p

unfoldable pub wait_until : Until → ℕ → Round
wait_until never now = exhausted
wait_until (at t) now = waits (t - now)

unfoldable pub rotate : Option (Provider × ℕ) → ℕ → CredentialPool → Round
unfolding wait_until earliest
rotate none now pool = wait_until (earliest pool.cool_until) now
rotate (some (p, index)) now pool =
    granted p (record pool { next_index = (index + 1) % length pool.cool_until })

unfoldable pub acquire_round : Option Provider → ℕ → CredentialPool → Round
unfolding keeps_current current_or rotate scan
acquire_round current now pool =
    if keeps_current current now pool
    then granted (current_or current) pool
    else rotate (scan now pool (length pool.cool_until) 0) now pool

abbrev pub credential_cooldown_seconds : ℕ
credential_cooldown_seconds = 300

abbrev pub later : Until → Until → Until
later (at a) (at b) = at (max a b)
later (at a) never = never
later never u = never

-- A reset time that is missing, infinite or past counts as five minutes from now.
unfoldable pub cooling : Option Until → ℕ → Until
cooling (some (at t)) now = if ltb now t then at t else at (now + credential_cooldown_seconds)
cooling _ now = at (now + credential_cooldown_seconds)

unfoldable pub extend : Option Until → Until → Provider → CredentialPool → CredentialPool
unfolding set_until
extend none until p pool = pool
extend (some u) until p pool = record pool {
  cool_until = set_until p (later u until) pool.cool_until;
}

unfoldable pub mark_rate_limited : Provider → Option Until → ℕ → CredentialPool → CredentialPool
unfolding is_disabled cooling extend
mark_rate_limited p resets now pool =
    if is_disabled p pool
    then pool
    else extend (get_until p pool.cool_until) (cooling resets now) p pool

unfoldable pub disable : Provider → CredentialPool → CredentialPool
unfolding is_disabled set_until
disable p pool =
    if is_disabled p pool
    then pool
    else record pool { cool_until = set_until p never pool.cool_until }
