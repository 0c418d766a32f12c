-- ===== src/Proxy/Pool/Turns.antt =====
-- Every credential has its turn in the loop of `CredentialPool.acquire`
-- (harness/proxy/credential_pool.py).
use native.Mathlib.Nat.{mod-lt, mod-eq_of_lt, mod-add-mod, add-mod-mod, add-mod_right}
use de_framework.Proxy.Pool.{
  CredentialPool, Provider, Until, earlier, earliest, at, get_until, is_available, is_due, is_due?,
  never, scan, scan_entry, has_provider,
}
use de_framework.Prelude.{
  ℕ, List, Option, get_elem?, length, none, some, zero, suc, true, false, ◌≡◌, ◌<◌, ◌+◌, ◌-◌, ◌%◌,
  arith, ap, ◌∙◌, sym, refl, [], ◌∷◌, Bool-cases, inl, inr, subst, ==_iff, ◌⊎◌, ◌==◌, leb,
}

-- No credential stands twice in the dictionary.
abbrev pub Unique : List (Provider × Until) → Type 0
Unique [] = Unit
Unique ((p, u) ∷ d) = (has_provider p d ≡ false) × Unique d

has-get :
    (d : List (Provider × Until)) (i : ℕ) (p : Provider) (u : Until)
    → get_elem? d i ≡ some (p, u)
    → has_provider p d ≡ true
has-get [] i p u h = cc
has-get ((q, v) ∷ d) zero p u h = ground arith
has-get ((q, v) ∷ d) (suc i) p u h = ground (arith, has-get d i p u)

pub get_until-elem :
    (d : List (Provider × Until)) (i : ℕ) (p : Provider) (u : Until)
    → Unique d
    → get_elem? d i ≡ some (p, u)
    → get_until p d ≡ some u
unfolding get_until
get_until-elem [] i p u n h = cc
get_until-elem ((q, v) ∷ d) zero p u n h = ground arith
get_until-elem ((q, v) ∷ d) (suc i) p u n h =
    ground (arith, get_until-elem d i p u n.1, has-get d i p u)

-- The offset at which the loop comes to an index.
turn : (next i n : ℕ) → i < n → (k : ℕ) × (k < n) × ((next + k) % n ≡ i)
turn next i n h =
    let r = next % n in
    let x = i + (n - r) in
    (
      x % n,
      mod-lt x (omega (arith, h)),
      add-mod-mod next x n
          ∙ sym (mod-add-mod next n x)
          ∙ ap (λ m. m % n) (omega (arith, mod-lt next {m = n} (omega (arith, h))))
          ∙ add-mod_right i n
          ∙ mod-eq_of_lt h,
    )

-- The entry is that of a credential that cools still.
abbrev Cools : ℕ → Option (Provider × Until) → Type 0
Cools now none = ⊥
Cools now (some (p, u)) = is_due u now ≡ false

entry-Cools :
    (o : Option (Provider × Until)) (index now : ℕ) (rest : Option (Provider × ℕ))
    → ((o ≡ none) → ⊥)
    → scan_entry o index now rest ≡ none
    → Cools now o × (rest ≡ none)
unfolding scan_entry
entry-Cools none index now rest n h = absurd (n refl)
entry-Cools (some (p, u)) index now rest n h = (ground (arith, h), ground (arith, h))

get-some : (d : List (Provider × Until)) (i : ℕ) → i < length d → (get_elem? d i ≡ none) → ⊥
get-some [] i h e = omega (arith, h)
get-some (x ∷ d) zero h e = cc
get-some (x ∷ d) (suc i) h e = get-some d i (omega (arith, h)) e

scan-Cools :
    (now : ℕ) (pool : CredentialPool) (count offset k m : ℕ)
    → 0 < length pool.cool_until
    → scan now pool count offset ≡ none
    → k < count
    → offset + k ≡ m
    → Cools now (get_elem? pool.cool_until ((pool.next_index + m) % length pool.cool_until))
unfolding scan
scan-Cools now pool zero offset k m has h lt is = absurd (omega (arith, lt))
scan-Cools now pool (suc count) offset zero m has h lt is =
    let i = (pool.next_index + offset) % length pool.cool_until in
    subst
      (λ m. Cools now (get_elem? pool.cool_until ((pool.next_index + m) % length pool.cool_until)))
      (omega (arith, is))
      (entry-Cools (get_elem? pool.cool_until i) i now (scan now pool count (suc offset))
        (get-some pool.cool_until i (mod-lt (pool.next_index + offset) has)) h).0
scan-Cools now pool (suc count) offset (suc k) m has h lt is =
    let i = (pool.next_index + offset) % length pool.cool_until in
    scan-Cools now pool count (suc offset) k m has
      (entry-Cools (get_elem? pool.cool_until i) i now (scan now pool count (suc offset))
        (get-some pool.cool_until i (mod-lt (pool.next_index + offset) has)) h).1
      (omega (arith, lt)) (omega (arith, is))

-- A loop that finds nothing has seen each credential cool.
all-Cools :
    (now : ℕ) (pool : CredentialPool) (i : ℕ)
    → scan now pool (length pool.cool_until) 0 ≡ none
    → i < length pool.cool_until
    → Cools now (get_elem? pool.cool_until i)
all-Cools now pool i h lt =
    let (k, less, is) = turn pool.next_index i (length pool.cool_until) lt in
    subst (λ j. Cools now (get_elem? pool.cool_until j)) is
      (scan-Cools now pool (length pool.cool_until) 0 k k (omega (arith, lt)) h less (omega arith))

entry_of :
    (d : List (Provider × Until)) (p : Provider) (u : Until)
    → get_until p d ≡ some u
    → (i : ℕ) × (i < length d) × (get_elem? d i ≡ some (p, u))
unfolding get_until
entry_of [] p u h = cc
entry_of ((q, v) ∷ d) p u h = elim (Bool-cases (q == p)) [
  | inl same ↦ (0, omega arith, grind (arith, h, same, ==_iff q p))
  | inr other ↦
      let (i, lt, e) = entry_of d p u (ground (arith, h, other)) in (suc i, omega (arith, lt), e)
]

none_due :
    (now : ℕ) (o : Option Until)
    → ((u : Until) → o ≡ some u → is_due u now ≡ false)
    → is_due? o now ≡ false
none_due now none k = refl
none_due now (some u) k = k u refl

earlier_is : (u v : Until) (t : ℕ) → earlier u v ≡ at t → (u ≡ at t) ⊎ (v ≡ at t)
earlier_is (at a) (at b) t h = elim (Bool-cases (leb a b)) [
  | inl le ↦ inl (ap at (ground (arith, h, le)))
  | inr gt ↦ inr (ap at (ground (arith, h, gt)))
]
earlier_is (at a) never t h = inl h
earlier_is never v t h = inr h

earliest_entry :
    (d : List (Provider × Until)) (t : ℕ)
    → earliest d ≡ at t
    → (i : ℕ) × (p : Provider) × (get_elem? d i ≡ some (p, at t))
unfolding earliest
earliest_entry [] t h = cc
earliest_entry ((p, u) ∷ d) t h = elim (earlier_is u (earliest d) t h) [
  | inl here ↦ (0, p, ap (λ v. some (p, v)) here)
  | inr later ↦ let (i, q, e) = earliest_entry d t later in (suc i, q, e)
]

-- The earliest cooldown that ends is that of some credential.
pub earliest_attained :
    (pool : CredentialPool) (t : ℕ)
    → Unique pool.cool_until
    → earliest pool.cool_until ≡ at t
    → (j : Provider) × (is_available j t pool ≡ true)
unfolding is_available
earliest_attained pool t n h =
    let (i, p, is) = earliest_entry pool.cool_until t h in
    (p, rw (get_until-elem pool.cool_until i p (at t) n is) (ground arith))

-- None is eligible then.
pub scan-none :
    (now : ℕ) (pool : CredentialPool) (j : Provider)
    → scan now pool (length pool.cool_until) 0 ≡ none
    → is_available j now pool ≡ false
unfolding is_available
scan-none now pool j h = none_due now (get_until j pool.cool_until) (λ u e.
    let (i, lt, is) = entry_of pool.cool_until j u e in
    subst (Cools now) is (all-Cools now pool i h lt))
