-- ===== src/Storage/Manager/Refinement.antt =====
-- `SessionManager` of harness/session/session_manager.py refines the durable cell.
use de_framework.Refine.Valid.{IsValid}
use de_framework.Session.State.RoundTrip.{DistinctLabels}
use de_framework.Storage.Manager.Durable.{
  IsStorable, Says, on_seed-Outcome, restore_files-keeps, from_json-IsStorable,
  write_checkpoint-Says,
}
use de_framework.Storage.Runtime.{Files, new_runtime}
use de_framework.Json.{Json}
use de_framework.Session.State.{SessionState, from_json, new_session}
use de_framework.Refine.State.{RefinementState}
use de_framework.Storage.Manager.{
  restore_checkpoint, read_archive, Io, Manager, Seed, on_seed, need_archive, restore_files,
  check_expected, is_final, write_solutions, close_attempt, is_none, close_on_error,
  write_checkpoint,
}
use de_framework.Storage.Manager.Cell.{
  Cell, CellSteps, Holds, Refines, reseed, export-Refines, next, loads, close-Refines, begins,
  closes,
}
use de_framework.Storage.Archive.{PurePosixPath}
use de_framework.Exec.{
  Result, ok, Outcome, after, step-Outcome, map-Outcome, bind-Outcome, ok_inj, after-ok, pure,
  return-Outcome, branch-Outcome, err, raise-Outcome,
}
use de_framework.Text.{Text}
use de_framework.Prelude.{
  ℕ, Bool, ◌≡◌, List, Option, some, refl, ◌∙◌, ap, if◌then◌else◌, sym, subst, none, true,
}

module _ (show : ℕ → Text) (read : Text → Result ℕ) (is_uuid : Text → Bool)
    (reads : (n : ℕ) → read (show n) ≡ ok n) (root : List Text)
    (relpath : List Text → List Text → PurePosixPath) where
  abbrev pub Stands : Manager → Cell → Type 0
  Stands = Holds show read is_uuid reads root relpath

  abbrev pub Reaches : Cell → Manager → Type 0
  Reaches = Refines show read is_uuid reads root relpath

  abbrev pub Storable : SessionState → Type 0
  Storable = IsStorable show read is_uuid reads root relpath

  pub archive-Says :
      (o : Option RefinementState) (x : Option (Json × Files)) (a : SessionState × Files) (d : Seed)
      → d.session ≡ x
      → Says show read is_uuid reads root relpath o x
      → after (need_archive x) (λ y. after (from_json show read is_uuid y.0) (λ s. ok (s, y.1)))
        ≡ ok a
      → (o ≡ some a.0.refinement) × Storable a.0
  archive-Says o none a d e h k = cc
  archive-Says o (some y) a d e (s, decoded, held) k =
      let (t, decoded', k1) = after-ok (from_json show read is_uuid y.0) (λ s. ok (s, y.1)) a k in
      let same : s ≡ a.0 = same_state s t (ok_inj s t (sym decoded ∙ decoded')) y.1 a k1 in
      (
        held ∙ ap (λ z. some z.refinement) same,
        subst Storable same
            (from_json-IsStorable show read is_uuid reads root relpath y.0 s decoded),
      )
    where
      same_state :
          (s t : SessionState)
          → s ≡ t
          → (fs : Files) (a : SessionState × Files)
          → ◌≡◌ {A = Result (SessionState × Files)} (ok (t, fs)) (ok a)
          → s ≡ a.0
      same_state s t e fs a k = e ∙ ap (λ z. z.0) (ok_inj (t, fs) a k)

  pub load_held :
      (d : Cell) (s : SessionState) (v : Manager)
      → Stands v d
      → Storable s
      → Stands (record v { session_state = some s }) (record d { live = some s.refinement })
  load_held d s v h i = record { says = h.says; live = refl; ready = i }

  pub files-Holds :
      (c d : Cell) (s : SessionState) (es : Files) (w : Manager)
      → CellSteps c d
      → Stands w d
      → Outcome
          (λ _ v. Stands v d)
          (Reaches c)
          (on_seed (restore_files show read is_uuid root relpath s es) w)
  files-Holds c d s es w r h =
      map-Outcome (on_seed (restore_files show read is_uuid root relpath s es) w)
        (λ _ v k. reseed show read is_uuid reads root relpath d w v h k)
        (λ v k. (d, r, reseed show read is_uuid reads root relpath d w v h k))
        (on_seed-Outcome (λ x. x ≡ w.seed.session) (λ x. x ≡ w.seed.session)
          (restore_files show read is_uuid root relpath s es) w
          (restore_files-keeps show read is_uuid reads root relpath s es w.seed))

  pub restore-Refines :
      (c d : Cell) (io : Io) (expected : Option RefinementState) (w : Manager)
      → CellSteps c d
      → Stands w d
      → Outcome
          (λ _. Reaches c)
          (Reaches c)
          (restore_checkpoint show read is_uuid root relpath io expected w)
  unfolding restore_checkpoint read_archive
  restore-Refines c d io expected w r h =
      step-Outcome (read_archive show read is_uuid root relpath w.seed) _ w
        (λ a e.
          let known = archive-Says d.stored w.seed.session a w.seed refl h.says e in
          step-Outcome (check_expected show read is_uuid root relpath expected a.0.refinement) _ w
            (λ _ _.
              bind-Outcome {Q = λ _ v. Stands v d}
                (if is_final a.0.refinement.status
                  then pure tt
                  else on_seed (restore_files show read is_uuid root relpath a.0 a.1))
                w
                (branch-Outcome (is_final a.0.refinement.status) (pure tt)
                  (on_seed (restore_files show read is_uuid root relpath a.0 a.1)) w
                  (λ _. return-Outcome h) (λ _. files-Holds c d a.0 a.1 w r h))
                (λ _ v k.
                  bind-Outcome {Q = λ _. Reaches c} (on_seed (write_solutions io a.0.refinement))
                    (record v { session_state = some a.0 })
                    (export-Refines show read is_uuid reads root relpath c io a.0.refinement
                      (record v { session_state = some a.0 })
                      (
                        record d { live = some a.0.refinement },
                        next r (loads a.0.refinement known.0),
                        load_held d a.0 v k known.1,
                      ))
                    (λ _ u k. return-Outcome k)))
            (d, r, h))
        (d, r, h)

  -- The end of an `open` that raises: the manager is closed.
  pub close_on_error-Refines :
      (c : Cell) (p : Result RefinementState × Manager)
      → Outcome (λ _. Reaches c) (λ v. Reaches c (close_attempt v)) p
      → Outcome (λ _. Reaches c) (Reaches c) (close_on_error show read is_uuid root relpath p)
  close_on_error-Refines c (ok a, w) o = return-Outcome o.ends
  close_on_error-Refines c (err e, w) o = raise-Outcome o.ends

  pub closing_too :
      {A : Type 0} (c : Cell) (p : Result A × Manager)
      → Outcome (λ _. Reaches c) (Reaches c) p
      → Outcome (λ _. Reaches c) (λ v. Reaches c (close_attempt v)) p
  closing_too c p o =
      map-Outcome p (λ _ v k. k)
        (λ v (d, r, h). close-Refines show read is_uuid reads root relpath c d v r h) o

  pub stored_none :
      (o : Option RefinementState) (x : Option (Json × Files))
      → is_none x ≡ true
      → Says show read is_uuid reads root relpath o x
      → o ≡ none
  stored_none o none e h = h
  stored_none o (some y) e h = cc

  new-Storable :
      (s : RefinementState) → DistinctLabels s.solution_checkpoints → Storable (new_session s none)
  new-Storable s u = record { distinct = u; identified = tt }

  pub begin-Refines :
      (c d : Cell) (io : Io) (s : RefinementState) (w : Manager)
      → CellSteps c d
      → Stands w d
      → d.stored ≡ none
      → IsValid s
      → DistinctLabels s.solution_checkpoints
      → let fresh = record w {
        session_state = some (new_session s none);
        seed = record w.seed { runtime = some new_runtime };
      } in
        Outcome
          (λ _. Reaches c)
          (λ v. Reaches c (close_attempt v))
          (on_seed (write_checkpoint show read is_uuid root relpath io (new_session s none)) fresh)
  unfolding close_attempt
  begin-Refines c d io s w r h e valid u =
      let fresh : Manager = record w {
        session_state = some (new_session s none);
        seed = record w.seed { runtime = some new_runtime };
      } in
      map-Outcome
        (on_seed (write_checkpoint show read is_uuid root relpath io (new_session s none)) fresh)
        (λ _ v k. (
          record d { stored = some s; live = some s },
          next (next r (begins s e valid)) (loads s refl),
          subst (λ x. Stands x (record d { stored = some s; live = some s })) (sym k.rest)
              (record { says = k.session; live = refl; ready = new-Storable s u }),
        ))
        (λ v k. (
          record d { live = none },
          next r closes,
          subst (λ x. Stands (close_attempt x) (record d { live = none })) (sym k.rest)
              (record {
                says =
                    subst (Says show read is_uuid reads root relpath d.stored) (sym k.session)
                      h.says;
                live = refl;
                ready = tt;
              }),
        ))
        (on_seed-Outcome (Says show read is_uuid reads root relpath (some s))
          (λ x. x ≡ w.seed.session)
          (write_checkpoint show read is_uuid root relpath io (new_session s none)) fresh
          (write_checkpoint-Says show read is_uuid reads root relpath io (new_session s none)
            fresh.seed valid (new-Storable s u)))
