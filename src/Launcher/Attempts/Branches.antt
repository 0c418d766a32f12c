-- ===== src/Launcher/Attempts/Branches.antt =====
-- What a branch of launcher/launcher/continuation_launcher.py starts from.
use de_framework.Storage.Manager.Durable.{write_solutions-keeps}
use de_framework.Json.{Json}
use de_framework.Storage.Continue.{continue_state}
use de_framework.Refine.State.{RefinementState, continue}
use de_framework.Storage.Runtime.{Files}
use de_framework.Session.State.{SessionState, to_json}
use de_framework.Storage.Manager.{
  Seed, fork_attempt, require_new_attempt, Io, Manager, read_archive, continued_fork, is_none,
  is_empty_list, need, write_solutions,
}
use de_framework.Storage.Archive.{PurePosixPath}
use de_framework.Exec.{
  Result, Outcome, ok, require, after-ok, ok_inj, file_exists_error, step-Outcome, bind-Outcome,
  map-Outcome, return-Outcome,
}
use de_framework.Text.{Text}
use de_framework.Prelude.{
  ℕ, Bool, List, ◌≡◌, ◌∙◌, none, some, ◌⊎◌, Option, not, ◌&&◌, subst, sym, inr, inl, refl,
}

module _ (show : ℕ → Text) (read : Text → Result ℕ) (is_uuid : Text → Bool) (root : List Text)
    (relpath : List Text → List Text → PurePosixPath) where
  -- The archive of the branch `target` is that of the source, with its progress continued up to
  -- `budget` in the phase of a continuation.
  pub record Forked (budget : ℕ) (source target : Seed) : Type 0 where
    pub saved : SessionState
    pub files : Files
    pub state : RefinementState
    pub reads_source : read_archive show read is_uuid root relpath source ≡ ok (saved, files)
    pub continues : continue_state budget saved.refinement ≡ ok state
    pub archive :
        target.session
        ≡ some (
          to_json show read is_uuid (record saved {
            refinement = record state { phase = continue };
            fork_session = not (is_none saved.session_id);
          }),
          files,
        )

  moved :
      (budget : ℕ) (source d e : Seed)
      → Forked budget source d
      → e.session ≡ d.session
      → Forked budget source e
  moved budget source d e f same = record {
    saved = f.saved;
    files = f.files;
    state = f.state;
    reads_source = f.reads_source;
    continues = f.continues;
    archive = same ∙ f.archive;
  }

  Forked-from :
      (budget : ℕ) (source d : Seed) (a : SessionState × Files) (s : SessionState)
      → read_archive show read is_uuid root relpath source ≡ ok a
      → continued_fork show read is_uuid root relpath (some budget) a.0 ≡ ok s
      → d.session
        ≡ some (
          to_json show read is_uuid (record s { fork_session = not (is_none s.session_id) }),
          a.1,
        )
      → Forked budget source d
  Forked-from budget source d a s h k e =
      let (t, c, k1) =
        after-ok (continue_state budget a.0.refinement)
          (λ t. ok (record a.0 { refinement = record t { phase = continue } })) s k in
      let same = ok_inj (record a.0 { refinement = record t { phase = continue } }) s k1 in
      record {
        saved = a.0;
        files = a.1;
        state = t;
        reads_source = h;
        continues = c;
        archive =
            subst
              (λ x.
                d.session
                ≡ some (
                  to_json show read is_uuid
                      (record x { fork_session = not (is_none x.session_id) }),
                  a.1,
                ))
              (sym same) e;
      }

  pub fork-Forked :
      (io : Io) (budget : ℕ) (source : Manager) (d : Seed)
      → Outcome
          (λ _ e. (d.session ≡ none) × Forked budget source.seed e)
          (λ e. (e.session ≡ d.session) ⊎ ((d.session ≡ none) × Forked budget source.seed e))
          (fork_attempt show read is_uuid root relpath io (some budget) source d)
  unfolding fork_attempt require_new_attempt
  fork-Forked io budget source d =
      step-Outcome (need source.session_state) _ d
        (λ _ _.
          step-Outcome io.acquires _ d
            (λ _ _.
              step-Outcome
                (require (is_none d.session && is_none d.runtime && is_empty_list d.solutions)
                  file_exists_error)
                _ d
                (λ _ new.
                  step-Outcome (read_archive show read is_uuid root relpath source.seed) _ d
                    (λ a h.
                      step-Outcome (continued_fork show read is_uuid root relpath (some budget) a.0)
                        _ d
                        (λ s k.
                          step-Outcome io.saves _ d
                            (λ _ _.
                              let forked = record s { fork_session = not (is_none s.session_id) } in
                              let e = record d {
                                session = some (to_json show read is_uuid forked, a.1);
                              } in
                              let f = Forked-from budget source.seed e a s h k refl in
                              let fresh = was_none d.session d.runtime d.solutions new in
                              bind-Outcome {Q = λ _ x. x.session ≡ e.session}
                                (write_solutions io s.refinement) e
                                (map-Outcome (write_solutions io s.refinement e) (λ _ _ x. x)
                                  (λ x same. inr (fresh, moved budget source.seed e x f same))
                                  (write_solutions-keeps io s.refinement e))
                                (λ _ x same.
                                  return-Outcome (fresh, moved budget source.seed e x f same)))
                            (inl refl))
                        (inl refl))
                    (inl refl))
                (inl refl))
            (inl refl))
        (inl refl)
    where
      was_none :
          (o : Option (Json × Files)) (r : Option Files) (l : List (ℕ × Text))
          → require (is_none o && is_none r && is_empty_list l) file_exists_error ≡ ok tt
          → o ≡ none
      was_none none r l h = refl
      was_none (some x) r l h = cc
