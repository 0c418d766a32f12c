-- ===== src/Proxy/Pool/Rotation.antt =====
-- Which credential a round of `CredentialPool.acquire` (harness/proxy/credential_pool.py) grants, and
-- when it waits or gives up.
use de_framework.Proxy.Pool.Turns.{Unique, earliest_attained, get_until-elem, scan-none}
use de_framework.Proxy.Pool.{
  acquire_round, get_until, scan, Provider, is_available, Until, CredentialPool, granted, rotate,
  scan_entry, is_due, Round, earliest, keeps_current, wait_until, current_or, earlier, is_due?,
  waits, at, exhausted, never,
}
use de_framework.Prelude.{
  refl, if_elim, Bool-cases, List, Option, ℕ, [], get_elem?, ◌∷◌, ◌≡◌, false, some, arith, true,
  suc, zero, ◌+◌, Bool-cases, none, ◌%◌, length, ◌⊎◌, inl, ==_iff, inr, ◌≤◌, ◌<◌, subst,
}

entry-due :
    (o : Option (Provider × Until)) (index now : ℕ) (pool : CredentialPool)
    (rest : Option (Provider × ℕ)) (p : Provider) (found : ℕ)
    → Unique pool.cool_until
    → get_elem? pool.cool_until index ≡ o
    → (rest ≡ some (p, found) → is_available p now pool ≡ true)
    → scan_entry o index now rest ≡ some (p, found)
    → is_available p now pool ≡ true
unfolding scan_entry is_available
entry-due none index now pool rest p found n e k h = cc
entry-due (some (q, u)) index now pool rest p found n e k h =
    grind (arith, k, get_until-elem pool.cool_until index q u n e, Bool-cases (is_due u now))

scan-due :
    (now : ℕ) (pool : CredentialPool) (count offset : ℕ) (p : Provider) (index : ℕ)
    → Unique pool.cool_until
    → scan now pool count offset ≡ some (p, index)
    → is_available p now pool ≡ true
unfolding scan
scan-due now pool zero offset p index n h = cc
scan-due now pool (suc count) offset p index n h =
    let i = (pool.next_index + offset) % length pool.cool_until in
    entry-due (get_elem? pool.cool_until i) i now pool (scan now pool count (suc offset)) p index n
      refl (scan-due now pool count (suc offset) p index n) h

earlier_due :
    (u v : Until) (t : ℕ)
    → (is_due u t ≡ true) ⊎ (is_due v t ≡ true)
    → is_due (earlier u v) t ≡ true
earlier_due (at a) (at b) t (inl h) = ground arith
earlier_due (at a) (at b) t (inr h) = ground arith
earlier_due (at a) never t (inl h) = h
earlier_due (at a) never t (inr h) = cc
earlier_due never v t (inl h) = cc
earlier_due never v t (inr h) = h

-- A credential that is eligible at a time makes the earliest cooldown due by then.
earliest_due :
    (d : List (Provider × Until)) (j : Provider) (t : ℕ)
    → is_due? (get_until j d) t ≡ true
    → is_due (earliest d) t ≡ true
unfolding get_until earliest
earliest_due [] j t h = cc
earliest_due ((q, u) ∷ d) j t h =
    grind (arith, earliest_due d j t, earlier_due u (earliest d) t, ==_iff q j)

-- What a round promises. It grants a credential that is eligible now, the current one where that is
-- eligible, and changes no cooldown; or none is eligible before the wait is over, and one is at its
-- end, in the future; or none is for any time.
abbrev pub Serves : Option Provider → ℕ → CredentialPool → Round → Type 0
Serves current now pool (granted p after) =
    (is_available p now pool ≡ true)
    × ((current ≡ some p) ⊎ (keeps_current current now pool ≡ false))
    × (after.cool_until ≡ pool.cool_until)
Serves current now pool (waits d) =
    (0 < d)
    × ((j : Provider) (t : ℕ) → is_available j t pool ≡ true → now + d ≤ t)
    × ((j : Provider) × (is_available j (now + d) pool ≡ true))
Serves current now pool exhausted = (j : Provider) (t : ℕ) → is_available j t pool ≡ false

still_cooling :
    (o : Option Until) (a now : ℕ) → is_due? o a ≡ true → is_due? o now ≡ false → now < a
still_cooling none a now h k = cc
still_cooling (some (at t)) a now h k = ground (arith, h, k)
still_cooling (some never) a now h k = cc

later_than :
    (a now : ℕ) (j : Provider) (pool : CredentialPool)
    → is_available j a pool ≡ true
    → ((j : Provider) → is_available j now pool ≡ false)
    → now < a
unfolding is_available
later_than a now j pool due cools = still_cooling (get_until j pool.cool_until) a now due (cools j)

wait-Serves :
    (u : Until) (current : Option Provider) (now : ℕ) (pool : CredentialPool)
    → ((j : Provider) (t : ℕ) → is_available j t pool ≡ true → is_due u t ≡ true)
    → ((t : ℕ) → u ≡ at t → (j : Provider) × (is_available j t pool ≡ true))
    → ((j : Provider) → is_available j now pool ≡ false)
    → Serves current now pool (wait_until u now)
unfolding wait_until
wait-Serves never current now pool k attained cools =
    λ j t. elim (Bool-cases (is_available j t pool)) [ inl h ↦ grind (arith, k j t) | inr h ↦ h ]
wait-Serves (at a) current now pool k attained cools =
    let (j, due) = attained a refl in
    let ahead : now < a = later_than a now j pool due cools in
    (
      omega (arith, ahead),
      λ j t h. grind (arith, k j t h, ahead),
      (j, subst (λ t. is_available j t pool ≡ true) (omega (arith, ahead)) due),
    )

rotate-Serves :
    (found : Option (Provider × ℕ)) (current : Option Provider) (now : ℕ) (pool : CredentialPool)
    → Unique pool.cool_until
    → keeps_current current now pool ≡ false
    → ((q : Provider) (i : ℕ) → found ≡ some (q, i) → is_available q now pool ≡ true)
    → (found ≡ none → (j : Provider) → is_available j now pool ≡ false)
    → Serves current now pool (rotate found now pool)
unfolding rotate
rotate-Serves none current now pool n c k cools =
    wait-Serves (earliest pool.cool_until) current now pool
      (λ j t. unfold is_available in earliest_due pool.cool_until j t)
      (λ t. earliest_attained pool t n) (cools refl)
rotate-Serves (some (q, i)) current now pool n c k cools = (k q i refl, inr c, refl)

kept :
    (current : Option Provider) (now : ℕ) (pool : CredentialPool)
    → keeps_current current now pool ≡ true
    → (is_available (current_or current) now pool ≡ true) × (current ≡ some (current_or current))
unfolding keeps_current current_or
kept none now pool h = cc
kept (some p) now pool h = (h, refl)

-- Where no credential stands twice, a round of `acquire` grants the current credential where that is
-- eligible, else another that is eligible now, and changes no cooldown; it waits only where none is
-- eligible now, until the first time at which one is; and it gives up only where none ever is.
pub acquire_round-Serves :
    (current : Option Provider) (now : ℕ) (pool : CredentialPool)
    → Unique pool.cool_until
    → Serves current now pool (acquire_round current now pool)
unfolding acquire_round
acquire_round-Serves current now pool n =
    let found = scan now pool (length pool.cool_until) 0 in
    if_elim (Serves current now pool) (keeps_current current now pool)
      (granted (current_or current) pool) (rotate found now pool)
      (λ h. let (due, same) = kept current now pool h in (due, inl same, refl))
      (λ c.
        rotate-Serves found current now pool n c
          (λ q i. scan-due now pool (length pool.cool_until) 0 q i n)
          (λ h j. scan-none now pool j h))
