-- ===== src/Audit/Reuse.antt =====
-- `AuditRunner` of audit/audit_runner.py: how saved verdicts are carried across identical
-- solutions. The record of a seed is a list by checkpoint label, where a missing label reads as
-- the empty checkpoint.
pub mod Items
pub mod Cells
pub mod Collect
pub mod Sharing
use de_framework.Storage.Manager.{content, is_none}
use de_framework.Exec.{Result, after, ok, err, value_error}
use de_framework.Refine.State.{Checkpoints}
use de_framework.Text.{Text, is_blank, text_eq}
use de_framework.Audit.Models.{
  Audited, Kind, Verdict, correctness, skipped, judged, step_recognition,
}
use de_framework.Prelude.{
  ℕ, Bool, List, Option, [], none, not, some, ◌==◌, ◌∷◌, false, if◌then◌else◌, leb, ◌&&◌, ◌||◌,
  true,
}

abbrev pub Labelled : Type 0 → Type 0
Labelled V = List (ℕ × Audited V)

abbrev pub Cache : Type 0 → Type 0
Cache V = List (Text × Audited V)

module _ {V : Type 0} where
  abbrev pub not_audited : Audited V
  not_audited = record { correct = none; recognised = none }

  -- EMPTY_AUDIT_RECORD
  abbrev pub empty_record : Audited V
  empty_record = record { correct = some skipped; recognised = some skipped }

  abbrev pub verdict : Kind → Audited V → Option (Verdict V)
  verdict correctness c = c.correct
  verdict step_recognition c = c.recognised

  -- verdict_field in checkpoint
  abbrev pub has : Kind → Audited V → Bool
  has kind c = not (is_none (verdict kind c))

  unfoldable pub is_checkpoint_audited : Audited V → Bool
  is_checkpoint_audited c = not (is_none c.correct) && not (is_none c.recognised)

  -- Whether a checkpoint is empty or the empty record.
  abbrev pub is_clear : Option (Verdict V) → Option (Verdict V) → Bool
  is_clear none none = true
  is_clear (some skipped) (some skipped) = true
  is_clear _ _ = false

  abbrev pub or_else : Option (Verdict V) → Option (Verdict V) → Option (Verdict V)
  or_else none o = o
  or_else (some v) o = some v

  unfoldable pub copy_missing_verdicts : Audited V → Audited V → Audited V
  copy_missing_verdicts d s = record {
    correct = or_else d.correct s.correct;
    recognised = or_else d.recognised s.recognised;
  }

  unfoldable pub find : {K : Type 0} → (K → Bool) → List (K × Audited V) → Audited V
  find is_key [] = not_audited
  find is_key ((j, c) ∷ cs) = if is_key j then c else find is_key cs

  unfoldable pub store :
      {K : Type 0} → (K → Bool) → K → Audited V → List (K × Audited V) → List (K × Audited V)
  store is_key k c [] = (k, c) ∷ []
  store is_key k c ((j, d) ∷ cs) = if is_key j then (j, c) ∷ cs else (j, d) ∷ store is_key k c cs

  abbrev pub at : ℕ → Labelled V → Audited V
  at k = find (λ j. j == k)

  abbrev pub put_at : ℕ → Audited V → Labelled V → Labelled V
  put_at k = store (λ j. j == k) k

  abbrev pub cached : Text → Cache V → Audited V
  cached t = find (text_eq t)

  abbrev pub put_cached : Text → Audited V → Cache V → Cache V
  put_cached t = store (text_eq t) t

  -- A checkpoint of an empty solution takes the empty record.
  unfoldable pub settle : Text → Audited V → Result (Audited V)
  unfolding is_blank
  settle t c =
      if is_blank t
      then if is_clear c.correct c.recognised then ok empty_record else err value_error
      else ok c

  -- The first loop: the cache collects what each text has.
  unfoldable pub collect : Checkpoints → Labelled V → Cache V → Result (Labelled V × Cache V)
  unfolding find store settle copy_missing_verdicts text_eq
  collect [] cs saved = ok (cs, saved)
  collect ((k, v) ∷ rest) cs saved = after (settle (content v) (at k cs)) (λ c.
      collect rest (put_at k c cs)
        (put_cached (content v) (copy_missing_verdicts (cached (content v) saved) c) saved))

  -- The second loop: each checkpoint takes what its text has.
  unfoldable pub spread : Checkpoints → Labelled V → Cache V → Labelled V
  unfolding find store copy_missing_verdicts text_eq
  spread [] cs saved = cs
  spread ((k, v) ∷ rest) cs saved =
      spread rest (put_at k (copy_missing_verdicts (at k cs) (cached (content v) saved)) cs) saved

unfoldable pub insert_item : ℕ × Option Text → Checkpoints → Checkpoints
insert_item e [] = e ∷ []
insert_item e (f ∷ d) = if leb e.0 f.0 then e ∷ f ∷ d else f ∷ insert_item e d

-- sorted(solutions.items())
unfoldable pub sorted_items : Checkpoints → Checkpoints
unfolding insert_item
sorted_items [] = []
sorted_items (e ∷ d) = insert_item e (sorted_items d)

unfoldable pub reuse_saved_verdicts : {V : Type 0} → Checkpoints → Labelled V → Result (Labelled V)
unfolding collect spread sorted_items
reuse_saved_verdicts solutions cs =
    after (collect (sorted_items solutions) cs []) (λ a. ok (spread solutions a.0 a.1))
