-- ===== src/Exec.antt =====
-- Methods that mutate an object and may raise. What was written before a raise stays written, so
-- the state comes back beside the error too. `Error` has a constructor for each exception class
-- that the program raises or handles by its class; messages are not modelled.
use de_framework.Prelude.{
  ℕ, ◌≡◌, refl, ◌⊎◌, inl, inr, Bool, true, false, Option, if◌then◌else◌, if_elim, subst, sym,
}

pub data Error : Type 0 where
  value_error runtime_error key_error permission_error : Error
  connection_error timeout_error spend_limit_error cli_not_found_error : Error
  file_exists_error file_not_found_error attempt_already_running : Error
  cancelled arithmetic_error other_error : Error
  rate_limit_error : Option ℕ → Error

pub data Result {ℓ} (A : Type ℓ) : Type ℓ where
  ok : A → Result A
  err : Error → Result A

abbrev pub after {ℓ κ} : {A : Type ℓ} {B : Type κ} → Result A → (A → Result B) → Result B
after (ok a) f = f a
after (err e) f = err e

-- Inversion of a chain that returns.
pub after-ok {ℓ κ} :
    {A : Type ℓ} {B : Type κ} (r : Result A) (f : A → Result B) (b : B)
    → after r f ≡ ok b
    → (a : A) × (r ≡ ok a) × (f a ≡ ok b)
after-ok (ok a) f b h = (a, refl, h)
after-ok (err e) f b h = cc

pub ok_inj {ℓ} : {A : Type ℓ} (a b : A) → ok a ≡ ok b → a ≡ b
ok_inj a b h = cc

-- `raise` unless the test holds.
abbrev pub require : Bool → Error → Result (Unit {0})
require true e = ok tt
require false e = err e

pub require_ok : (b : Bool) (e : Error) → require b e ≡ ok tt → b ≡ true
require_ok true e h = refl
require_ok false e h = cc

-- Cancellation is no `Exception`.
abbrev pub is_cancelled : Error → Bool
is_cancelled cancelled = true
is_cancelled _ = false

abbrev pub Exec {ℓ} : Type ℓ → Type ℓ → Type ℓ
Exec S A = S → Result A × S

module _ {ℓ} {S A : Type ℓ} where
  abbrev pub pure : A → Exec S A
  pure a s = (ok a, s)

  abbrev pub raise : Error → Exec S A
  raise e s = (err e, s)

  abbrev pub lift : Result A → Exec S A
  lift r s = (r, s)

  abbrev pub gets : (S → A) → Exec S A
  gets f s = (ok (f s), s)

module _ {ℓ} {S A B : Type ℓ} where
  abbrev pub proceed : Result A → (A → Exec S B) → Exec S B
  proceed (ok a) f s = f a s
  proceed (err e) f s = (err e, s)

  infixl 10 ◌>>=◌ ◌>>◌
  abbrev pub ◌>>=◌ : Exec S A → (A → Exec S B) → Exec S B
  ◌>>=◌ m f s = let (r, s') = m s in proceed r f s'

  abbrev pub ◌>>◌ : Exec S A → Exec S B → Exec S B
  m >> n = m >>= λ _. n

abbrev pub modify {ℓ} : {S : Type ℓ} → (S → S) → Exec S (Unit {ℓ})
modify f s = (ok tt, f s)

module _ {ℓ} {A : Type ℓ} where
  pub Result-cases : (r : Result A) → ((a : A) × (r ≡ ok a)) ⊎ ((e : Error) × (r ≡ err e))
  Result-cases (ok a) = inl (a, refl)
  Result-cases (err e) = inr (e, refl)

-- What holds of the result and the state where an action returns, and of the state where it raises.
abbrev pub Ends {ℓ κ} : {S A : Type ℓ} → (A → S → Type κ) → (S → Type κ) → Result A → S → Type κ
Ends Q R (ok a) s = Q a s
Ends Q R (err e) s = R s

pub record Outcome {ℓ κ} {S A : Type ℓ} (Q : A → S → Type κ) (R : S → Type κ) (p : Result A × S)
    : Type κ where
  pub ends : Ends Q R p.0 p.1

module _ {ℓ κ} {S A : Type ℓ} {Q : A → S → Type κ} {R : S → Type κ} where
  pub return-Outcome : {a : A} {s : S} → Q a s → Outcome Q R (ok a, s)
  return-Outcome h = record { ends = h }

  pub raise-Outcome : {e : Error} {s : S} → R s → Outcome Q R (err e, s)
  raise-Outcome h = record { ends = h }

  pub lift-Outcome : (r : Result A) {s : S} → ((a : A) → Q a s) → R s → Outcome Q R (r, s)
  lift-Outcome (ok a) h k = return-Outcome (h a)
  lift-Outcome (err e) h k = raise-Outcome k

  -- The same with what the result is.
  pub decide-Outcome :
      (r : Result A) (s : S)
      → ((a : A) → r ≡ ok a → Q a s)
      → ((e : Error) → r ≡ err e → R s)
      → Outcome Q R (r, s)
  decide-Outcome (ok a) s h k = return-Outcome (h a refl)
  decide-Outcome (err e) s h k = raise-Outcome (k e refl)

  pub ok-Outcome : (r : Result A) {a : A} {s : S} → r ≡ ok a → Q a s → Outcome Q R (r, s)
  ok-Outcome r {s = s} e h = subst (λ x. Outcome Q R (x, s)) (sym e) (return-Outcome h)

  pub if-Outcome :
      (b : Bool) {p q : Result A × S}
      → (b ≡ true → Outcome Q R p)
      → (b ≡ false → Outcome Q R q)
      → Outcome Q R (if b then p else q)
  if-Outcome b {p} {q} h k = if_elim (Outcome Q R) b p q h k

  -- The same for a choice between two actions.
  pub branch-Outcome :
      (b : Bool) (m n : Exec S A) (s : S)
      → (b ≡ true → Outcome Q R (m s))
      → (b ≡ false → Outcome Q R (n s))
      → Outcome Q R ((if b then m else n) s)
  branch-Outcome true m n s h k = h refl
  branch-Outcome false m n s h k = k refl

module _ {ℓ κ} {S A B : Type ℓ} {Q : A → S → Type κ} {P : B → S → Type κ} {R : S → Type κ} where
  pub proceed-Outcome :
      (r : Result A) {s : S} {f : A → Exec S B}
      → Outcome Q R (r, s)
      → ((a : A) (s' : S) → Q a s' → Outcome P R (f a s'))
      → Outcome P R (proceed r f s)
  proceed-Outcome (ok a) {s = s} h k = k a s h.ends
  proceed-Outcome (err e) h k = raise-Outcome h.ends

  -- The rule for a `do` block.
  pub bind-Outcome :
      (m : Exec S A) {f : A → Exec S B} (s : S)
      → Outcome Q R (m s)
      → ((a : A) (s' : S) → Q a s' → Outcome P R (f a s'))
      → Outcome P R ((m >>= f) s)
  bind-Outcome m s h k = proceed-Outcome (m s).0 h k

-- An action that never raises, by one account of it, returns what another says of its results.
pub both-Outcome {ℓ} :
    {S A : Type ℓ} {Q P : A → S → Type 0} {R : S → Type 0} (r : Result A) {s : S}
    → Outcome Q R (r, s)
    → Outcome P (λ _. ⊥) (r, s)
    → Outcome (λ a t. Q a t × P a t) (λ _. ⊥) (r, s)
both-Outcome (ok a) h k = return-Outcome (h.ends, k.ends)
both-Outcome (err e) h k = raise-Outcome k.ends

pub weaken-Outcome {ℓ κ} :
    {S A : Type ℓ} {Q P : A → S → Type κ} {R : S → Type κ} (r : Result A) {s : S}
    → ((a : A) (t : S) → Q a t → P a t)
    → Outcome Q R (r, s)
    → Outcome P R (r, s)
weaken-Outcome (ok a) {s} f h = return-Outcome (f a s h.ends)
weaken-Outcome (err e) f h = raise-Outcome h.ends

module _ {ℓ κ} {S A B : Type ℓ} {P : B → S → Type κ} {R : S → Type κ} where
  -- A step that computes a result and leaves the state alone.
  pub step-Outcome :
      (r : Result A) (f : A → Exec S B) (s : S)
      → ((a : A) → r ≡ ok a → Outcome P R (f a s))
      → R s
      → Outcome P R (proceed r f s)
  step-Outcome (ok a) f s h k = h a refl
  step-Outcome (err e) f s h k = raise-Outcome k

module _ {ℓ κ} {S A : Type ℓ} {Q P : A → S → Type κ} {R T : S → Type κ} where
  pub map-Outcome :
      (p : Result A × S)
      → ((a : A) (s : S) → Q a s → P a s)
      → ((s : S) → R s → T s)
      → Outcome Q R p
      → Outcome P T p
  map-Outcome (ok a, s) f g h = return-Outcome (f a s h.ends)
  map-Outcome (err e, s) f g h = raise-Outcome (g s h.ends)

-- Two accounts of one action.
pub and-Outcome {ℓ κ} :
    {S A : Type ℓ} {Q P : A → S → Type κ} {R T : S → Type κ} (p : Result A × S)
    → Outcome Q R p
    → Outcome P T p
    → Outcome (λ a s. Q a s × P a s) (λ s. R s × T s) p
and-Outcome (ok a, s) h k = return-Outcome (h.ends, k.ends)
and-Outcome (err e, s) h k = raise-Outcome (h.ends, k.ends)
