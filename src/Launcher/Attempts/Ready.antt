-- ===== src/Launcher/Attempts/Ready.antt =====
-- What the worker of a branch finds in the archive that `_prepare_fork` of
-- launcher/launcher/continuation_launcher.py left.
use de_framework.Launcher.Attempts.Forks.{prepare_fork-Forked}
use de_framework.Storage.Manager.Durable.{IsStorable, from_json-IsStorable}
use de_framework.Launcher.Attempts.{RunRequest, Branch, prepare_fork}
use de_framework.Session.State.RoundTrip.{from_json-IsValid, from_json-to_json, DistinctLabels}
use de_framework.Storage.Runtime.{Files}
use de_framework.Launcher.Attempts.Branches.{Forked}
use de_framework.Session.State.{SessionState, from_json, sorted_set}
use de_framework.Storage.Manager.{Seed, read_archive, need_archive, Io, is_none}
use de_framework.Storage.Archive.{PurePosixPath}
use de_framework.Exec.{Result, ok, ok_inj, after-ok, Exec, Outcome, map-Outcome, after}
use de_framework.Refine.Valid.{IsValid}
use de_framework.Text.{Text}
use de_framework.Refine.State.{RefinementState, continue, is_running}
use de_framework.Storage.Continue.{continue_state, Continued, continue_state-Continued}
use de_framework.Prelude.{refl, ℕ, ◌≡◌, Bool, List, false, subst, ◌<◌, arith, sym, ◌∙◌, ap, not}

continue_state_inv :
    (budget : ℕ) (s t : RefinementState)
    → continue_state budget s ≡ ok t
    → (is_running s.status ≡ false) × (s.output_tokens < budget)
unfolding continue_state
continue_state_inv budget s t h = (ground arith, ground arith)

continue-Continued :
    (budget : ℕ) (s t : RefinementState)
    → IsValid s
    → continue_state budget s ≡ ok t
    → Continued budget s t
continue-Continued budget s t v h =
    let (stopped, above) = continue_state_inv budget s t h in
    let (u, e, c) = continue_state-Continued budget s v stopped above in
    subst (Continued budget s) (ok_inj u t (sym e ∙ h)) c

phase-IsValid : (t : RefinementState) → IsValid t → IsValid (record t { phase = continue })
phase-IsValid t v = record {
  stated = v.stated;
  budgeted = v.budgeted;
  pause = v.pause;
  streak = v.streak;
  counted = v.counted;
  within = v.within;
  labels = v.labels;
}

module _ (show : ℕ → Text) (read : Text → Result ℕ) (is_uuid : Text → Bool)
    (reads : (n : ℕ) → read (show n) ≡ ok n) (root : List Text)
    (relpath : List Text → List Text → PurePosixPath) where
  -- The branch's archive reads as a continuation of what the source's reads as.
  pub record IsReady (budget : ℕ) (source target : Seed) : Type 0 where
    pub saved : SessionState
    pub branch : SessionState
    pub files : Files
    pub state : RefinementState
    pub reads_source : read_archive show read is_uuid root relpath source ≡ ok (saved, files)
    pub reads_branch : read_archive show read is_uuid root relpath target ≡ ok (branch, files)
    pub continued : Continued budget saved.refinement state
    pub begins : branch.refinement ≡ record state { phase = continue }

  Forked-IsReady :
      (budget : ℕ) (source target : Seed)
      → Forked show read is_uuid root relpath budget source target
      → IsReady budget source target
  unfolding read_archive
  Forked-IsReady budget source target f =
      let (y, _, h1) = after-ok (need_archive source.session) _ (f.saved, f.files) f.reads_source in
      let (s, decoded, h2) =
        after-ok (from_json show read is_uuid y.0) (λ s. ok (s, y.1)) (f.saved, f.files) h1 in
      let same : s ≡ f.saved = ap (λ x. x.0) (ok_inj (s, y.1) (f.saved, f.files) h2) in
      let valid =
        subst (λ x. IsValid x.refinement) same
          (from_json-IsValid show read is_uuid reads y.0 s decoded) in
      let kept =
        subst (IsStorable show read is_uuid reads root relpath) same
          (from_json-IsStorable show read is_uuid reads root relpath y.0 s decoded) in
      let c = continue-Continued budget f.saved.refinement f.state valid f.continues in
      let written : SessionState = record f.saved {
        refinement = record f.state { phase = continue };
        fork_session = not (is_none f.saved.session_id);
      } in
      let decodes =
        from_json-to_json show read is_uuid reads written (phase-IsValid f.state c.valid)
          (subst DistinctLabels (sym c.frozen) kept.distinct) kept.identified in
      record {
        saved = f.saved;
        branch = record written {
          completed_message_ids = sorted_set written.completed_message_ids;
        };
        files = f.files;
        state = f.state;
        reads_source = f.reads_source;
        reads_branch =
            ap
              (λ x.
                after (need_archive x)
                  (λ a. after (from_json show read is_uuid a.0) (λ s. ok (s, a.1))))
              f.archive
            ∙ ap (λ r. after r (λ s. ok (s, f.files))) decodes;
        continued = c;
        begins = refl;
      }

  -- Where the fork of a branch returns a request, the archive that the branch's worker opens reads
  -- as the source's progress, continued to the request's budget in the phase of a continuation: it
  -- is valid and running below its limit, with room for another label. The labels of a checkpoint
  -- are numbers that `int` reads back from `str`.
  pub prepare_fork-IsReady :
      (io opening forking : Io) (worker : RunRequest → Exec Seed (Unit {0})) (request : RunRequest)
      (b : Branch)
      → Outcome
          (λ q c. IsReady q.budget_tokens c.source c.target)
          (λ _. Unit)
          (prepare_fork show read is_uuid root relpath io opening forking worker request b)
  prepare_fork-IsReady io opening forking worker request b =
      map-Outcome (prepare_fork show read is_uuid root relpath io opening forking worker request b)
        (λ q c ((fresh, f), k). Forked-IsReady q.budget_tokens c.source c.target f) (λ _ _. tt)
        (prepare_fork-Forked show read is_uuid root relpath io opening forking worker request b)
