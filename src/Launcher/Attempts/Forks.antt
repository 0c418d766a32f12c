-- ===== src/Launcher/Attempts/Forks.antt =====
-- What `_prepare_fork` of launcher/launcher/continuation_launcher.py leaves in a branch.
use de_framework.Session.State.{from_json}
use de_framework.Refine.State.{RefinementState, output_tokens_per_block, is_running}
use de_framework.Launcher.Attempts.Branches.{Forked, fork-Forked}
use de_framework.Storage.Archive.{PurePosixPath}
use de_framework.Launcher.Attempts.{
  Branch, on_source, on_target, RunRequest, fork_open, prepare_fork, open_prefix, prefix_request,
  initial_state,
}
use de_framework.Text.{Text}
use de_framework.Exec.{
  Exec, Result, Outcome, lift-Outcome, ok, return-Outcome, err, map-Outcome, raise-Outcome, proceed,
  after, bind-Outcome, step-Outcome, require, pure, branch-Outcome, runtime_error,
}
use de_framework.Storage.Manager.{
  Seed, Io, close_attempt, read_archive, Manager, prepare_attempt, is_none, need_archive,
  fork_attempt, open_attempt, new_manager,
}
use de_framework.Prelude.{
  refl, ℕ, Bool, List, ◌≡◌, inl, none, ◌⊎◌, ap, if_elim, sym, ◌+◌, ◌∙◌, inr, subst, if◌then◌else◌,
  not, some,
}

target-Outcome :
    {A : Type 0} {Q : A → Seed → Type 0} {R : Seed → Type 0} (m : Exec Seed A) (b : Branch)
    → Outcome Q R (m b.target)
    → Outcome
        (λ a c. Q a c.target × (c.source ≡ b.source))
        (λ c. R c.target × (c.source ≡ b.source))
        (on_target m b)
target-Outcome {Q = Q} {R = R} m b o = go (m b.target) o
  where
    go :
        {A : Type 0} {Q : A → Seed → Type 0} {R : Seed → Type 0} (p : Result A × Seed)
        → Outcome Q R p
        → Outcome
            (λ a c. Q a c.target × (c.source ≡ b.source))
            (λ c. R c.target × (c.source ≡ b.source))
            (p.0, record b { target = p.1 })
    go (ok a, d) o = return-Outcome (o.ends, refl)
    go (err e, d) o = raise-Outcome (o.ends, refl)

source-Outcome :
    {A : Type 0} (m : Exec Seed A) (b : Branch)
    → Outcome (λ _ c. c.target ≡ b.target) (λ c. c.target ≡ b.target) (on_source m b)
source-Outcome m b = lift-Outcome (m b.source).0 (λ _. refl) refl

module _ (show : ℕ → Text) (read : Text → Result ℕ) (is_uuid : Text → Bool) (root : List Text)
    (relpath : List Text → List Text → PurePosixPath) (io : Io) where
  abbrev Archive : ℕ → Seed → Seed → Type 0
  Archive = Forked show read is_uuid root relpath

  -- A branch that `b` did not have, made of what the source now holds.
  abbrev pub IsBranch : Branch → ℕ → Branch → Type 0
  IsBranch b budget c = (b.target.session ≡ none) × Archive budget c.source c.target

  abbrev pub IsWhole : Branch → Branch → Type 0
  IsWhole b c = (c.target.session ≡ b.target.session) ⊎ ((budget : ℕ) × IsBranch b budget c)

  closed-Archive :
      (budget : ℕ) (w : Manager) (d : Seed)
      → Archive budget w.seed d
      → Archive budget (close_attempt w).seed d
  unfolding close_attempt read_archive
  closed-Archive budget w d f =
      let same : (close_attempt w).seed.session ≡ w.seed.session =
        if_elim (λ x. x.session ≡ w.seed.session) (is_none w.session_state) w.seed
          (record w.seed { runtime = none }) (λ _. refl) (λ _. refl) in
      record {
        saved = f.saved;
        files = f.files;
        state = f.state;
        reads_source =
            ap
              (λ x.
                after (need_archive x)
                  (λ a. after (from_json show read is_uuid a.0) (λ s. ok (s, a.1))))
              same
            ∙ f.reads_source;
        continues = f.continues;
        archive = f.archive;
      }

  fork_open-Forked :
      (forking : Io) (request : RunRequest) (s : RefinementState) (w : Manager) (b : Branch)
      → Outcome
          (λ q c.
            IsBranch b q.budget_tokens c × (q ≡ record request { budget_tokens = q.budget_tokens }))
          (IsWhole b)
          (fork_open show read is_uuid root relpath io forking request s w b)
  unfolding fork_open
  fork_open-Forked forking request s w b =
      let budget = s.output_tokens + output_tokens_per_block in
      let opened = record b { source = (close_attempt w).seed } in
      let of_source : (c : Branch)
          → c.source ≡ (close_attempt w).seed
          → Archive budget w.seed c.target
          → Archive budget c.source c.target =
        λ c e f.
          subst (λ x. Archive budget x c.target) (sym e) (closed-Archive budget w c.target f) in
      step-Outcome (require (not (is_running s.status)) runtime_error) _ opened
        (λ _ _.
          bind-Outcome {Q = λ _ c. IsBranch b budget c}
            (on_target (fork_attempt show read is_uuid root relpath forking (some budget) w)) opened
            (map-Outcome
              (on_target (fork_attempt show read is_uuid root relpath forking (some budget) w)
                opened)
              (λ _ c ((fresh, f), e). (fresh, of_source c e f))
              (λ c (x, e). elim x [
                | inl same ↦ inl same
                | inr (fresh, f) ↦ inr (budget, (fresh, of_source c e f))
              ])
              (target-Outcome (fork_attempt show read is_uuid root relpath forking (some budget) w)
                opened (fork-Forked show read is_uuid root relpath forking budget w b.target)))
            (λ _ c k. return-Outcome (k, refl)))
        (inl refl)

  kept : (b c : Branch) → c.target ≡ b.target → IsWhole b c
  kept b c e = inl (ap (λ d. d.session) e)

  abbrev pub Asked : RunRequest → Branch → RunRequest → Branch → Type 0
  Asked request b q c =
      IsBranch b q.budget_tokens c × (q ≡ record request { budget_tokens = q.budget_tokens })

  -- The source alone has changed since `b`.
  since :
      (request : RunRequest) (b c : Branch) (p : Result RunRequest × Branch)
      → c.target ≡ b.target
      → Outcome (Asked request c) (IsWhole c) p
      → Outcome (Asked request b) (IsWhole b) p
  since request b c p e o =
      let same = ap (λ d. d.session) e in
      map-Outcome p (λ _ _ ((fresh, f), k). ((sym same ∙ fresh, f), k))
        (λ _ x. elim x [
          | inl k ↦ inl (k ∙ same)
          | inr (budget, (fresh, f)) ↦ inr (budget, (sym same ∙ fresh, f))
        ])
        o

  opened-Forked :
      (forking : Io) (request : RunRequest) (b : Branch) (p : Result RefinementState × Manager)
      → Outcome (Asked request b) (IsWhole b) (
          proceed p.0
            (λ s. fork_open show read is_uuid root relpath io forking request s p.1)
            (record b { source = p.1.seed }))
  opened-Forked forking request b (ok s, w) =
      let c = record b { source = w.seed } in
      since request b c (fork_open show read is_uuid root relpath io forking request s w c) refl
        (fork_open-Forked forking request s w c)
  opened-Forked forking request b (err e, w) = raise-Outcome (inl refl)

  -- Whatever the prefix's worker does and wherever the preparation fails, the branch's archive is
  -- as it was, or the branch is new and its archive is the source's with its progress continued;
  -- where a request comes back, it is the given one with the budget of that continuation.
  pub prepare_fork-Forked :
      (opening forking : Io) (worker : RunRequest → Exec Seed (Unit {0})) (request : RunRequest)
      (b : Branch)
      → Outcome
          (λ q c.
            IsBranch b q.budget_tokens c × (q ≡ record request { budget_tokens = q.budget_tokens }))
          (IsWhole b)
          (prepare_fork show read is_uuid root relpath io opening forking worker request b)
  unfolding prepare_fork open_prefix
  prepare_fork-Forked opening forking worker request b =
      let prefix = prefix_request request in
      let prepared = prepare_attempt show read is_uuid root relpath io (initial_state prefix) in
      bind-Outcome {Q = λ _ c. c.target ≡ b.target} (on_source prepared) b
        (map-Outcome (on_source prepared b) (λ _ _ x. x) (kept b) (source-Outcome prepared b))
        (λ s c e.
          bind-Outcome {Q = λ _ d. d.target ≡ b.target}
            (if is_running s.status then on_source (worker prefix) else pure tt) c
            (branch-Outcome (is_running s.status) (on_source (worker prefix)) (pure tt) c
              (λ _.
                map-Outcome (on_source (worker prefix) c) (λ _ _ x. x ∙ e) (λ d x. kept b d (x ∙ e))
                  (source-Outcome (worker prefix) c))
              (λ _. return-Outcome e))
            (λ _ d k.
              since request b d
                (open_prefix show read is_uuid root relpath io opening forking request d) k
                (opened-Forked forking request d (
                  open_attempt show read is_uuid root relpath opening (initial_state prefix)
                    (new_manager d.source)))))
