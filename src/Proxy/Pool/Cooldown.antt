-- ===== src/Proxy/Pool/Cooldown.antt =====
-- The pool of harness/proxy/credential_pool.py after a rate-limit report and after disabling.
use de_framework.Proxy.Pool.{
  Until, cooling, disable, get_until, mark_rate_limited, is_available, set_until, Provider,
  is_disabled, is_due, CredentialPool, later, at, never, extend, is_due?, is_never,
}
use de_framework.Prelude.{
  ap, Option, some, ℕ, none, List, ◌≡◌, false, if◌then◌else◌, true, arith, ◌==◌, [], ◌∷◌,
  Bool-cases, inl, inr, ==_iff, refl, ==_refl,
}

abbrev replaced : Option Until → Until → Option Until
replaced none u = none
replaced (some v) u = some u

pub get_until-set_until :
    (p j : Provider) (u : Until) (d : List (Provider × Until))
    → get_until j (set_until p u d) ≡ (if p == j then replaced (get_until j d) u else get_until j d)
unfolding get_until set_until
get_until-set_until p j u [] = ground arith
get_until-set_until p j u ((q, v) ∷ d) = ground (arith, get_until-set_until p j u d)

-- The later of two times is due only when both are.
later_due :
    (u v : Until) (t : ℕ) → is_due (later u v) t ≡ true → (is_due u t ≡ true) × (is_due v t ≡ true)
later_due (at a) (at b) t h = ground arith
later_due (at a) never t h = cc
later_due never v t h = cc

cooling_later : (resets : Option Until) (now : ℕ) → is_due (cooling resets now) now ≡ false
unfolding cooling
cooling_later none now = ground arith
cooling_later (some never) now = ground arith
cooling_later (some (at t)) now = ground arith

-- The same pool without a change, or with one entry replaced.
available-set :
    (p j : Provider) (u : Until) (t : ℕ) (pool : CredentialPool)
    → is_due? (get_until j (set_until p u pool.cool_until)) t
      ≡ is_due?
          (if p == j then replaced (get_until j pool.cool_until) u else get_until j pool.cool_until)
          t
available-set p j u t pool = ap (λ o. is_due? o t) (get_until-set_until p j u pool.cool_until)

never_due : (o : Option Until) (t : ℕ) → is_never o ≡ true → is_due? o t ≡ false
never_due none t h = cc
never_due (some never) t h = refl
never_due (some (at a)) t h = cc

replaced_never : (o : Option Until) (t : ℕ) → is_due? (replaced o never) t ≡ false
replaced_never none t = refl
replaced_never (some u) t = refl

replaced-due :
    (o : Option Until) (u v : Until) (t : ℕ)
    → o ≡ some v
    → is_due? (replaced o (later v u)) t ≡ true
    → is_due? o t ≡ true
replaced-due none u v t e h = h
replaced-due (some w) u v t e h = grind (arith, later_due v u t)

extend-available :
    (o : Option Until) (p j : Provider) (u : Until) (t : ℕ) (pool : CredentialPool)
    → get_until p pool.cool_until ≡ o
    → is_available j t (extend o u p pool) ≡ true
    → is_available j t pool ≡ true
unfolding is_available extend
extend-available none p j u t pool e h = h
extend-available (some v) p j u t pool e h = grind (
  arith,
  ==_iff p j,
  available-set p j (later v u) t pool,
  replaced-due (get_until p pool.cool_until) u v t,
)

disabled_cools :
    (p : Provider) (t : ℕ) (pool : CredentialPool)
    → is_disabled p pool ≡ true
    → is_available p t pool ≡ false
unfolding is_disabled is_available
disabled_cools p t pool h = never_due (get_until p pool.cool_until) t h

-- A rate limit shortens no cooldown, its own credential's included: a credential that is eligible
-- after the report was eligible before.
pub mark_rate_limited_lem :
    (p j : Provider) (resets : Option Until) (now t : ℕ) (pool : CredentialPool)
    → is_available j t (mark_rate_limited p resets now pool) ≡ true
    → is_available j t pool ≡ true
unfolding mark_rate_limited
mark_rate_limited_lem p j resets now t pool h =
    grind (arith, extend-available (get_until p pool.cool_until) p j (cooling resets now) t pool)

later_not_due :
    (o : Option Until) (v w : Until) (t : ℕ)
    → is_due w t ≡ false
    → o ≡ some v
    → is_due? (replaced o (later v w)) t ≡ false
later_not_due none v w t h e = refl
later_not_due (some u) v w t h e = grind (arith, later_due v w t, Bool-cases (is_due (later v w) t))

extend_cools :
    (o : Option Until) (p : Provider) (u : Until) (t : ℕ) (pool : CredentialPool)
    → get_until p pool.cool_until ≡ o
    → is_due u t ≡ false
    → is_available p t (extend o u p pool) ≡ false
unfolding is_available extend
extend_cools none p u t pool e h = grind arith
extend_cools (some v) p u t pool e h = grind (
  arith,
  available-set p p (later v u) t pool,
  ==_refl p,
  later_not_due (get_until p pool.cool_until) v u t h,
)

-- The credential of a rate-limit report is not eligible at the time of the report.
pub mark_rate_limited_cools :
    (p : Provider) (resets : Option Until) (now : ℕ) (pool : CredentialPool)
    → is_available p now (mark_rate_limited p resets now pool) ≡ false
unfolding mark_rate_limited
mark_rate_limited_cools p resets now pool = elim (Bool-cases (is_disabled p pool)) [
  | inl h ↦ grind (arith, disabled_cools p now pool h)
  | inr h ↦ grind (
    arith,
    extend_cools (get_until p pool.cool_until) p (cooling resets now) now pool refl,
    cooling_later resets now,
  )
]

-- Disabling excludes that credential for ever and changes no other.
pub disable_lem :
    (p j : Provider) (t : ℕ) (pool : CredentialPool)
    → is_available j t (disable p pool) ≡ (if p == j then false else is_available j t pool)
unfolding disable is_available is_disabled
disable_lem p j t pool = elim (Bool-cases (is_never (get_until p pool.cool_until))) [
  | inl h ↦ grind (arith, ==_iff p j, never_due (get_until p pool.cool_until) t)
  | inr h ↦ grind (
    arith,
    ==_iff p j,
    available-set p j never t pool,
    replaced_never (get_until j pool.cool_until) t,
  )
]
