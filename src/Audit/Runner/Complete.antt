-- ===== src/Audit/Runner/Complete.antt =====
-- What `AuditRunner.run` of audit/audit_runner.py has stored when it ends.
use de_framework.Audit.Runner.Extends.{
  Extends, Published, Extends-trans, IsAudited, set-Keeps, stored-Extends, Keeps-has, set-verdict,
}
use de_framework.Audit.Reuse.Items.{Each, Each-sorted}
use de_framework.Audit.Reuse.Sharing.{reuse-Keeps}
use de_framework.Exec.{
  Result, Outcome, step-Outcome, require, if-Outcome, return-Outcome, value_error, bind-Outcome,
  pure, ◌>>◌, lift, modify, branch-Outcome, map-Outcome,
}
use de_framework.Refine.State.{Checkpoints}
use de_framework.Storage.Manager.{is_empty_list}
use de_framework.Audit.Runner.{
  set_verdict, Disk, prepare_record, run_stage, labels_match, get_reference, run, run_stages,
  stage_request,
}
use de_framework.Text.{Text}
use de_framework.Audit.Reuse.Cells.{put-Keeps, at_put}
use de_framework.Audit.Models.{
  Kind, correctness, AuditRequest, step_recognition, AuditReference, SeedAudit, judged,
  audit_request,
}
use de_framework.Audit.Reuse.{Labelled, at, has, reuse_saved_verdicts, put_at, sorted_items}
use de_framework.Prelude.{
  ℕ, Option, Bool, ◌≡◌, ap, true, not, refl, ◌∙◌, sym, List, ◌&&◌, if◌then◌else◌, [], ◌∷◌, subst,
}

module _ {V : Type 0} (same : Labelled V → Labelled V → Bool)
    (same_lookups : (cs ds : Labelled V) → same cs ds ≡ true → (k : ℕ) → at k ds ≡ at k cs)
    (disk : Disk) where
  prepare_record-Published :
      (solutions : Checkpoints) (w : Labelled V)
      → Outcome (λ cs v. Published w cs v) (λ v. v ≡ w) (prepare_record same disk solutions w)
  unfolding prepare_record
  prepare_record-Published solutions w =
      step-Outcome disk.reads _ w
        (λ _ _.
          step-Outcome
            (require (not (is_empty_list solutions) && labels_match solutions w) value_error) _ w
            (λ _ _.
              step-Outcome (reuse_saved_verdicts solutions w) _ w
                (λ cs h.
                  bind-Outcome {Q = λ _ v. Published w cs v}
                    (if same cs w then pure tt else (do lift disk.publishes; modify (λ _. cs))) w
                    (branch-Outcome (same cs w) (pure tt) (do lift disk.publishes; modify (λ _. cs))
                      w
                      (λ e. return-Outcome (record {
                        extends = λ k. reuse-Keeps solutions w cs k h;
                        stored = same_lookups cs w e;
                      }))
                      (λ _.
                        step-Outcome disk.publishes _ w
                          (λ _ _. return-Outcome (record {
                            extends = λ k. reuse-Keeps solutions w cs k h;
                            stored = λ k. refl;
                          }))
                          refl))
                    (λ _ v p. return-Outcome p))
                refl)
            refl)
        refl

  module _ (judge : ℕ → AuditRequest → Result V) (judge_model : Text)
      (references : List (Text × AuditReference)) (seed : SeedAudit) where
    run_stage-Published :
        (k : ℕ) (solution : Option Text) (kind : Kind) (cs w : Labelled V)
        → ((j : ℕ) → at j w ≡ at j cs)
        → Outcome
            (λ ds v. Published cs ds v × (has kind (at k ds) ≡ true))
            (λ v. v ≡ w)
            (run_stage same disk judge judge_model references seed k solution kind cs w)
    unfolding run_stage
    run_stage-Published k solution kind cs w stands =
        if-Outcome (has kind (at k cs))
          (λ e. return-Outcome (record { extends = λ j kind v h. h; stored = stands }, e))
          (λ e.
            step-Outcome (get_reference seed.problem_id references) _ w
              (λ reference _.
                step-Outcome (audit_request (stage_request seed kind solution reference)) _ w
                  (λ request _.
                    step-Outcome (judge k request) _ w
                      (λ result _.
                        step-Outcome (reuse_saved_verdicts seed.solutions _) _ w
                          (λ ds h.
                            let v = judged result judge_model in
                            let c = set_verdict kind v (at k cs) in
                            let added = reuse-Keeps seed.solutions (put_at k c cs) ds in
                            step-Outcome (disk.saves k kind) _ w
                              (λ _ _. return-Outcome (
                                record {
                                  extends =
                                      Extends-trans cs (put_at k c cs) ds
                                        (λ j. put-Keeps j k c cs (set-Keeps kind v (at k cs) e))
                                        (λ j. added j h);
                                  stored = λ j. refl;
                                },
                                Keeps-has (at k (put_at k c cs)) (at k ds) kind (added k h)
                                    (ap (has kind) (at_put k c cs) ∙ set-verdict kind v (at k cs)),
                              ))
                              refl)
                          refl)
                      refl)
                  refl)
              refl)

    run_stages-IsAudited :
        (items : Checkpoints) (cs w w0 : Labelled V)
        → Extends w0 cs
        → ((k : ℕ) → at k w ≡ at k cs)
        → Outcome
            (λ ds v. Published cs ds v × Each (IsAudited v) items)
            (λ v. Extends w0 v)
            (run_stages same disk judge judge_model references seed items cs w)
    unfolding run_stages
    run_stages-IsAudited [] cs w w0 h stands =
        return-Outcome (record { extends = λ j kind v e. e; stored = stands }, tt)
    run_stages-IsAudited ((k, solution) ∷ rest) cs w w0 h stands =
        bind-Outcome {Q = λ ds v. Published cs ds v × (has correctness (at k ds) ≡ true)}
          (run_stage same disk judge judge_model references seed k solution correctness cs) w
          (map-Outcome
            (run_stage same disk judge judge_model references seed k solution correctness cs w)
            (λ _ _ x. x) (λ v e. unchanged cs w w0 v h stands e)
            (run_stage-Published k solution correctness cs w stands))
          (λ ds v (p, c).
            let h1 = Extends-trans w0 cs ds h p.extends in
            bind-Outcome {Q = λ es u. Published ds es u × (has step_recognition (at k es) ≡ true)}
              (run_stage same disk judge judge_model references seed k solution step_recognition ds)
              v
              (map-Outcome
                (run_stage same disk judge judge_model references seed k solution step_recognition
                  ds v)
                (λ _ _ x. x) (λ u e. unchanged ds v w0 u h1 p.stored e)
                (run_stage-Published k solution step_recognition ds v p.stored))
              (λ es u (q, s).
                map-Outcome (run_stages same disk judge judge_model references seed rest es u)
                  (λ fs t (r, all_audited). (
                    record {
                      extends =
                          Extends-trans cs ds fs p.extends
                            (Extends-trans ds es fs q.extends r.extends);
                      stored = r.stored;
                    },
                    (both k ds es fs t p.extends q.extends r c s, all_audited),
                  ))
                  (λ _ x. x)
                  (run_stages-IsAudited rest es u w0 (Extends-trans w0 ds es h1 q.extends)
                    q.stored)))
      where
        unchanged :
            (cs w w0 v : Labelled V)
            → Extends w0 cs
            → ((k : ℕ) → at k w ≡ at k cs)
            → v ≡ w
            → Extends w0 v
        unchanged cs w w0 v h stands e =
            subst (Extends w0) (sym e) (Extends-trans w0 cs w h (stored-Extends cs w stands))

        both :
            (k : ℕ) (ds es fs t : Labelled V)
            → Extends cs ds
            → Extends ds es
            → Published es fs t
            → has correctness (at k ds) ≡ true
            → has step_recognition (at k es) ≡ true
            → IsAudited t (k, solution)
        both k ds es fs t p q r c s correctness =
            Keeps-has (at k ds) (at k t) correctness
              (Extends-trans ds es t q
                (Extends-trans es fs t r.extends (stored-Extends fs t r.stored)) k)
              c
        both k ds es fs t p q r c s step_recognition =
            Keeps-has (at k es) (at k t) step_recognition
              (Extends-trans es fs t r.extends (stored-Extends fs t r.stored) k) s

    -- Whatever reading, the judges and writing do: where an audit returns, the stored record has
    -- both verdicts of every solution, and it keeps each verdict that was stored before; that much
    -- also holds where it raises. Equality of records gives equal checkpoints.
    pub run-IsAudited :
        (w : Labelled V)
        → Outcome
            (λ _ v. Extends w v × Each (IsAudited v) seed.solutions)
            (λ v. Extends w v)
            (run same disk judge judge_model references seed w)
    unfolding run
    run-IsAudited w =
        bind-Outcome {Q = λ cs v. Published w cs v} (prepare_record same disk seed.solutions) w
          (map-Outcome (prepare_record same disk seed.solutions w) (λ _ _ x. x)
            (λ v e. subst (Extends w) (sym e) (λ k kind x h. h))
            (prepare_record-Published seed.solutions w))
          (λ cs v p.
            bind-Outcome
              {Q = λ ds u. Published cs ds u × Each (IsAudited u) (sorted_items seed.solutions)}
              (run_stages same disk judge judge_model references seed (sorted_items seed.solutions)
                cs)
              v (run_stages-IsAudited (sorted_items seed.solutions) cs v w p.extends p.stored)
              (λ ds u (q, done). return-Outcome (
                Extends-trans w cs u p.extends
                    (Extends-trans cs ds u q.extends (stored-Extends ds u q.stored)),
                Each-sorted (IsAudited u) seed.solutions done,
              )))
