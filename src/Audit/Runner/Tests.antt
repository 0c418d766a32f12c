-- ===== src/Audit/Runner/Tests.antt =====
-- The theorems about audits at a small record. A judgement is a score.
use de_framework.Audit.Runner.Extends.{IsAudited, Extends}
use de_framework.Audit.Reuse.Sharing.{reuse_saved_verdicts_lem}
use de_framework.Audit.Reuse.Items.{Each}
use de_framework.Audit.Runner.Complete.{run-IsAudited}
use de_framework.Text.{Text, codes, is_blank, is_space, text_eq}
use de_framework.Exec.{Outcome, Result, ok}
use de_framework.Audit.Runner.{Disk, run, run_stages, run_stage, prepare_record, get_reference}
use de_framework.Audit.Reuse.Cells.{Keeps}
use de_framework.Audit.Reuse.{
  Labelled, reuse_saved_verdicts, at, collect, empty_record, has, spread, sorted_items, insert_item,
  find, store, settle, copy_missing_verdicts,
}
use de_framework.Audit.Models.{
  AuditRequest, Audited, SeedAudit, AuditReference, judged, correctness, audit_request,
  audit_reference,
}
use de_framework.Refine.State.{Checkpoints}
use de_framework.Prelude.{ℕ, List, Bool, some, ◌∷◌, ◌≡◌, [], none, true, false, refl}

abbrev solutions : Checkpoints
solutions = (1, some (codes "x")) ∷ (2, none) ∷ (3, some (codes "x")) ∷ []

abbrev first_judged : Audited ℕ
first_judged = record { correct = some (judged 7 (codes "m")); recognised = none }

abbrev saved : Labelled ℕ
saved = (1, first_judged) ∷ []

abbrev reused : Labelled ℕ
reused = (1, first_judged) ∷ (2, empty_record) ∷ (3, first_judged) ∷ []

reuses : reuse_saved_verdicts solutions saved ≡ ok reused
unfolding reuse_saved_verdicts collect spread sorted_items insert_item find store settle is_blank
    copy_missing_verdicts text_eq
reuses = refl

reuse_saved_verdicts_lem_example :
    Keeps (at 1 saved) (at 1 reused)
    × (has correctness (at 1 reused) ≡ has correctness (at 3 reused))
reuse_saved_verdicts_lem_example =
    reuse_saved_verdicts_lem solutions saved reused 0 2 1 3 (some (codes "x")) (some (codes "x"))
      correctness (refl, (refl, (refl, tt))) reuses refl refl refl

-- Two empty records are the same.
abbrev both_empty : Labelled ℕ → Labelled ℕ → Bool
both_empty [] [] = true
both_empty _ _ = false

both_empty_lookups : (cs ds : Labelled ℕ) → both_empty cs ds ≡ true → (k : ℕ) → at k ds ≡ at k cs
both_empty_lookups [] [] h k = refl
both_empty_lookups [] (d ∷ ds) h k = cc
both_empty_lookups (c ∷ cs) ds h k = cc

abbrev disk : Disk
disk = record { reads = ok tt; publishes = ok tt; saves = λ _ _. ok tt }

abbrev references : List (Text × AuditReference)
references =
    (codes "P1", record { solution = codes "r"; steps = codes "a" ∷ codes "b" ∷ codes "c" ∷ [] })
    ∷ []

abbrev seed : SeedAudit
seed = record {
  model = codes "s";
  problem_id = codes "P1";
  problem = codes "p";
  solutions = solutions;
}

abbrev scores : ℕ → AuditRequest → Result ℕ
scores k r = ok 6

run-IsAudited_example :
    Outcome
      (λ _ v. Extends saved v × Each (IsAudited v) solutions)
      (λ v. Extends saved v)
      (run both_empty disk scores (codes "j") references seed saved)
run-IsAudited_example =
    run-IsAudited both_empty both_empty_lookups disk scores (codes "j") references seed saved

-- One stage is judged, for the first checkpoint, and the third one takes its verdict.
runs : run both_empty disk scores (codes "j") references seed saved ≡ (
  ok tt,
  (1, record first_judged { recognised = some (judged 6 (codes "j")) })
      ∷ (2, empty_record)
      ∷ (3, record first_judged { recognised = some (judged 6 (codes "j")) })
      ∷ [],
)
unfolding run run_stages run_stage prepare_record get_reference audit_request audit_reference
    reuse_saved_verdicts collect spread sorted_items insert_item find store settle is_blank is_space
    copy_missing_verdicts text_eq
runs = refl
