-- ===== src/Audit/Reuse/Cells.antt =====
-- Single checkpoints of a record, and what is copied between them, in audit/audit_runner.py.
use de_framework.Storage.Manager.{is_none}
use de_framework.Text.{Text, text_eq, text_eq_refl, text_eq_sound}
use de_framework.Audit.Reuse.{
  copy_missing_verdicts, find, Cache, Labelled, store, at, cached, verdict, or_else, put_at,
  put_cached, has,
}
use de_framework.Audit.Models.{Audited, Kind, Verdict, correctness, step_recognition}
use de_framework.Prelude.{
  refl, ℕ, Option, Bool, ◌≡◌, List, not, some, ◌==◌, ◌||◌, false, true, arith, none, subst, [], ◌∷◌,
  ap, ◌∙◌, Bool-cases, inl, sym, inr,
}

module _ {V : Type 0} where
  has_or_else :
      (o p : Option (Verdict V))
      → not (is_none (or_else o p)) ≡ (not (is_none o) || not (is_none p))
  has_or_else none p = refl
  has_or_else (some v) p = refl

  pub has-copy :
      (kind : Kind) (d s : Audited V)
      → has kind (copy_missing_verdicts d s) ≡ (has kind d || has kind s)
  unfolding copy_missing_verdicts
  has-copy correctness d s = has_or_else d.correct s.correct
  has-copy step_recognition d s = has_or_else d.recognised s.recognised

  -- Every verdict of the one stands in the other.
  abbrev pub Keeps : Audited V → Audited V → Type 0
  Keeps c d = (kind : Kind) (v : Verdict V) → verdict kind c ≡ some v → verdict kind d ≡ some v

  or_else_keeps : (o p : Option (Verdict V)) (v : Verdict V) → o ≡ some v → or_else o p ≡ some v
  or_else_keeps none p v h = cc
  or_else_keeps (some w) p v h = h

  pub copy-Keeps : (d s : Audited V) → Keeps d (copy_missing_verdicts d s)
  unfolding copy_missing_verdicts
  copy-Keeps d s correctness v h = or_else_keeps d.correct s.correct v h
  copy-Keeps d s step_recognition v h = or_else_keeps d.recognised s.recognised v h

  find-store :
      {K : Type 0} (f : K → Bool) (k : K) (c : Audited V) (cs : List (K × Audited V))
      → f k ≡ true
      → find f (store f k c cs) ≡ c
  unfolding find store
  find-store f k c [] h = ground arith
  find-store f k c ((j, d) ∷ cs) h = ground (arith, find-store f k c cs h)

  find-other :
      {K : Type 0} (f g : K → Bool) (k : K) (c : Audited V) (cs : List (K × Audited V))
      → g k ≡ false
      → ((x : K) → f x ≡ true → g x ≡ false)
      → find g (store f k c cs) ≡ find g cs
  unfolding find store
  find-other f g k c [] h o = ground arith
  find-other f g k c ((j, d) ∷ cs) h o = ground (arith, o j, find-other f g k c cs h o)

  pub at_put : (k : ℕ) (c : Audited V) (cs : Labelled V) → at k (put_at k c cs) ≡ c
  at_put k c cs = find-store (λ j. j == k) k c cs (ground arith)

  pub at_other :
      (k j : ℕ) (c : Audited V) (cs : Labelled V)
      → (j == k) ≡ false
      → at k (put_at j c cs) ≡ at k cs
  at_other k j c cs h = find-other (λ x. x == j) (λ x. x == k) j c cs h (λ x e. ground arith)

  cached_put : (t : Text) (c : Audited V) (cs : Cache V) → cached t (put_cached t c cs) ≡ c
  cached_put t c cs = find-store (text_eq t) t c cs (text_eq_refl t)

  pub cached_copy :
      (kind : Kind) (t : Text) (c : Audited V) (saved : Cache V)
      → has kind (cached t (put_cached t (copy_missing_verdicts (cached t saved) c) saved))
        ≡ (has kind (cached t saved) || has kind c)
  cached_copy kind t c saved =
      ap (has kind) (cached_put t (copy_missing_verdicts (cached t saved) c) saved)
      ∙ has-copy kind (cached t saved) c

  pub cached_other :
      (t u : Text) (c : Audited V) (cs : Cache V)
      → text_eq u t ≡ false
      → cached u (put_cached t c cs) ≡ cached u cs
  cached_other t u c cs h =
      find-other (text_eq t) (text_eq u) t c cs h
        (λ x e. subst (λ y. text_eq u y ≡ false) (text_eq_sound t x e) h)

  pub put-Keeps :
      (k j : ℕ) (c : Audited V) (cs : Labelled V)
      → Keeps (at j cs) c
      → Keeps (at k cs) (at k (put_at j c cs))
  put-Keeps k j c cs h kind v e = elim (Bool-cases (j == k)) [
    | inl same ↦
        let eq : j ≡ k = ground arith in
        subst (λ x. verdict kind (at x (put_at j c cs)) ≡ some v) eq
          (ap (verdict kind) (at_put j c cs)
            ∙ h kind v (subst (λ x. verdict kind (at x cs) ≡ some v) (sym eq) e))
    | inr differ ↦ ap (verdict kind) (at_other k j c cs differ) ∙ e
  ]
