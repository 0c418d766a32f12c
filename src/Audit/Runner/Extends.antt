-- ===== src/Audit/Runner/Extends.antt =====
-- Records of audit/audit_runner.py that keep the verdicts of one another.
use de_framework.Storage.Manager.{is_none}
use de_framework.Audit.Runner.{set_verdict}
use de_framework.Text.{Text}
use de_framework.Audit.Reuse.Cells.{Keeps}
use de_framework.Audit.Models.{Audited, Kind, Verdict, correctness, step_recognition}
use de_framework.Audit.Reuse.{Labelled, at, has, verdict}
use de_framework.Prelude.{
  refl, ℕ, Option, ◌≡◌, ap, false, some, true, not, false≢true, none, ◌∙◌, sym,
}

module _ {V : Type 0} where
  -- Every verdict of the one record stands in the other.
  abbrev pub Extends : Labelled V → Labelled V → Type 0
  Extends cs ds = (k : ℕ) → Keeps (at k cs) (at k ds)

  -- The record `ds` extends `cs`, and `w` stores it.
  pub record Published (cs ds w : Labelled V) : Type 0 where
    pub extends : Extends cs ds
    pub stored : (k : ℕ) → at k w ≡ at k ds

  abbrev pub IsAudited : Labelled V → ℕ × Option Text → Type 0
  IsAudited w e = (kind : Kind) → has kind (at e.0 w) ≡ true

  some-has : (o : Option (Verdict V)) (v : Verdict V) → o ≡ some v → not (is_none o) ≡ true
  some-has none v h = cc
  some-has (some x) v h = refl

  pub Keeps-has :
      (c d : Audited V) (kind : Kind) → Keeps c d → has kind c ≡ true → has kind d ≡ true
  Keeps-has c d kind h e = has_of (verdict kind c) refl e
    where
      has_of :
          (o : Option (Verdict V)) → verdict kind c ≡ o → not (is_none o) ≡ true → has kind d ≡ true
      has_of none k e = cc
      has_of (some v) k e = some-has (verdict kind d) v (h kind v k)

  pub Extends-trans : (cs ds es : Labelled V) → Extends cs ds → Extends ds es → Extends cs es
  Extends-trans cs ds es h j k kind v e = j k kind v (h k kind v e)

  pub stored-Extends : (ds w : Labelled V) → ((k : ℕ) → at k w ≡ at k ds) → Extends ds w
  stored-Extends ds w h k kind v e = ap (verdict kind) (h k) ∙ e

  pub set-Keeps :
      (kind : Kind) (v : Verdict V) (c : Audited V)
      → has kind c ≡ false
      → Keeps c (set_verdict kind v c)
  set-Keeps correctness v c h correctness x e = absurd (false≢true (sym h ∙ some-has c.correct x e))
  set-Keeps correctness v c h step_recognition x e = e
  set-Keeps step_recognition v c h correctness x e = e
  set-Keeps step_recognition v c h step_recognition x e =
      absurd (false≢true (sym h ∙ some-has c.recognised x e))

  pub set-verdict :
      (kind : Kind) (v : Verdict V) (c : Audited V) → has kind (set_verdict kind v c) ≡ true
  set-verdict correctness v c = refl
  set-verdict step_recognition v c = refl
