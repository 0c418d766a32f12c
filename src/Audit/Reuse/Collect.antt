-- ===== src/Audit/Reuse/Collect.antt =====
-- The first loop of `_reuse_saved_verdicts` in audit/audit_runner.py: what the cache collects.
use de_framework.Storage.Manager.{content}
use de_framework.Audit.Reuse.Items.{Each}
use de_framework.Session.State.RoundTrip.{DistinctLabels}
use de_framework.Audit.Reuse.Cells.{Keeps, cached_other, at_other, cached_copy, at_put}
use de_framework.Exec.{ok, after-ok, ok_inj, err, value_error}
use de_framework.Refine.State.{Checkpoints, member, keys}
use de_framework.Audit.Models.{
  Kind, Audited, Verdict, correctness, skipped, step_recognition, judged,
}
use de_framework.Text.{Text, text_eq, is_blank, text_eq_sound}
use de_framework.Audit.Reuse.{
  collect, settle, Labelled, Cache, at, cached, put_cached, copy_missing_verdicts, is_clear,
  empty_record, has,
}
use de_framework.Prelude.{
  none, some, refl, ℕ, ◌≡◌, Option, true, [], false, subst, ◌∷◌, ap, if_elim, sym, arith, ◌∙◌, Bool,
  Bool-cases, if◌then◌else◌, inl, inr, ◌||◌, ◌⊎◌,
}

or_true : (a b : Bool) → (a ≡ true) ⊎ (b ≡ true) → (a || b) ≡ true
or_true true b h = refl
or_true false b (inl h) = cc
or_true false b (inr h) = h

module _ {V : Type 0} where
  clear_keeps :
      (o p : Option (Verdict V)) (v : Verdict V)
      → is_clear o p ≡ true
      → (o ≡ some v → some skipped ≡ some v) × (p ≡ some v → some skipped ≡ some v)
  clear_keeps none none v h = (λ k. cc, λ k. cc)
  clear_keeps none (some w) v h = cc
  clear_keeps (some skipped) none v h = cc
  clear_keeps (some skipped) (some skipped) v h = (λ k. k, λ k. k)
  clear_keeps (some skipped) (some (judged x m)) v h = cc
  clear_keeps (some (judged x m)) p v h = cc

  empty-Keeps : (c : Audited V) → is_clear c.correct c.recognised ≡ true → Keeps c empty_record
  empty-Keeps c h correctness v = (clear_keeps c.correct c.recognised v h).0
  empty-Keeps c h step_recognition v = (clear_keeps c.correct c.recognised v h).1

  pub settle-Keeps : (t : Text) (c d : Audited V) → settle t c ≡ ok d → Keeps c d
  unfolding settle
  settle-Keeps t c d h =
      if_elim (λ r. r ≡ ok d → Keeps c d) (is_blank t)
        (if is_clear c.correct c.recognised then ok empty_record else err value_error) (ok c)
        (λ _.
          if_elim (λ r. r ≡ ok d → Keeps c d) (is_clear c.correct c.recognised) (ok empty_record)
            (err value_error) (λ e k. subst (Keeps c) (ok_inj empty_record d k) (empty-Keeps c e))
            (λ _ k. cc))
        (λ _ k. subst (Keeps c) (ok_inj c d k) (λ kind v e. e)) h

  put_grows :
      (t : Text) (c : Audited V) (saved : Cache V) (kind : Kind) (u : Text)
      → has kind (cached u saved) ≡ true
      → has kind (cached u (put_cached t (copy_missing_verdicts (cached t saved) c) saved)) ≡ true
  put_grows t c saved kind u k =
      let d = copy_missing_verdicts (cached t saved) c in
      elim (Bool-cases (text_eq u t)) [
        | inl e ↦
            let same = text_eq_sound u t e in
            subst (λ x. has kind (cached x (put_cached t d saved)) ≡ true) (sym same)
              (cached_copy kind t c saved
                ∙ or_true (has kind (cached t saved)) (has kind c)
                    (inl (subst (λ x. has kind (cached x saved) ≡ true) same k)))
        | inr e ↦ ap (has kind) (cached_other t u d saved e) ∙ k
      ]

  -- The cache only grows.
  collect_grows :
      (items : Checkpoints) (cs : Labelled V) (saved : Cache V) (a : Labelled V × Cache V)
      (kind : Kind) (u : Text)
      → collect items cs saved ≡ ok a
      → has kind (cached u saved) ≡ true
      → has kind (cached u a.1) ≡ true
  unfolding collect
  collect_grows [] cs saved a kind u h k =
      subst (λ x. has kind (cached u x.1) ≡ true) (ok_inj (cs, saved) a h) k
  collect_grows ((j, v) ∷ rest) cs saved a kind u h k =
      let (c, _, h1) = after-ok (settle (content v) (at j cs)) _ a h in
      collect_grows rest _ _ a kind u h1 (put_grows (content v) c saved kind u k)

  collect_other :
      (items : Checkpoints) (cs : Labelled V) (saved : Cache V) (a : Labelled V × Cache V) (k : ℕ)
      → collect items cs saved ≡ ok a
      → member k (keys items) ≡ false
      → at k a.0 ≡ at k cs
  unfolding collect
  collect_other [] cs saved a k h m = ap (λ x. at k x.0) (sym (ok_inj (cs, saved) a h))
  collect_other ((j, v) ∷ rest) cs saved a k h m =
      let (c, _, h1) = after-ok (settle (content v) (at j cs)) _ a h in
      collect_other rest _ _ a k h1 (ground arith) ∙ at_other k j c cs (ground arith)

  -- What a checkpoint has, the cache has for its text.
  abbrev pub Cached : Kind → Labelled V × Cache V → ℕ × Option Text → Type 0
  Cached kind a e = has kind (at e.0 a.0) ≡ true → has kind (cached (content e.1) a.1) ≡ true

  pub collect-Cached :
      (items : Checkpoints) (cs : Labelled V) (saved : Cache V) (a : Labelled V × Cache V)
      (kind : Kind)
      → collect items cs saved ≡ ok a
      → DistinctLabels items
      → Each (Cached kind a) items
  unfolding collect
  collect-Cached [] cs saved a kind h u = tt
  collect-Cached ((j, v) ∷ rest) cs saved a kind h u =
      let (c, _, h1) = after-ok (settle (content v) (at j cs)) _ a h in
      (
        λ k. collect_grows rest _ _ a kind (content v) h1 (
            cached_copy kind (content v) c saved
            ∙ or_true (has kind (cached (content v) saved)) (has kind c) (
                inr (ap (has kind) (sym (collect_other rest _ _ a j h1 u.0 ∙ at_put j c cs)) ∙ k))),
        collect-Cached rest _ _ a kind h1 u.1,
      )
