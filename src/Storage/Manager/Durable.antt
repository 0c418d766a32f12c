-- ===== src/Storage/Manager/Durable.antt =====
-- What the archive of an attempt says after an operation of `SessionManager`
-- (harness/session/session_manager.py) on the seed directory.
use de_framework.Refine.Valid.{IsValid}
use de_framework.Session.State.{
  SessionState, read_labels, from_json, sorted_set, as_labels, check_uuid, read_refinement,
  read_session, read_fields, labels_of, status_of, with_session,
}
use de_framework.Refine.Labels.{member-put}
use de_framework.Storage.Archive.{PurePosixPath}
use de_framework.Session.State.RoundTrip.{DistinctLabels, HasUuid, from_json-to_json}
use de_framework.Exec.{
  Result, Exec, Outcome, ok, proceed-Outcome, lift-Outcome, return-Outcome, err, raise-Outcome,
  after, after-ok, ok_inj,
}
use de_framework.Storage.Runtime.{Files, restore_runtime, write_archive, require_transcript}
use de_framework.Text.{Text, codes}
use de_framework.Json.{
  Json, Fields, field, as_option, as_text, no_fields, get_field, object, boolean, as_texts, number,
  as_bool, string, array, null,
}
use de_framework.Refine.State.{put, Checkpoints, RefinementState, RunStatus, validate}
use de_framework.Storage.Manager.{
  write_solutions, Io, Manager, Seed, on_seed, restore_files, write_checkpoint, files_of,
}
use de_framework.Prelude.{
  Option, ℕ, Bool, [], ◌∷◌, ◌≡◌, if_elim, List, ◌==◌, arith, some, refl, none, subst,
}

-- What a step on the directory does to the archive, and that it leaves the rest of the manager.
pub record Seeded (P : Option (Json × Files) → Type 0) (w v : Manager) : Type 0 where
  pub session : P v.seed.session
  pub rest : v ≡ record w { seed = v.seed }

module _ {A : Type 0} (P R : Option (Json × Files) → Type 0) where
  pub on_seed-Outcome :
      (m : Exec Seed A) (w : Manager)
      → Outcome (λ _ d. P d.session) (λ d. R d.session) (m w.seed)
      → Outcome (λ _ v. Seeded P w v) (λ v. Seeded R w v) (on_seed m w)
  on_seed-Outcome m w h = go (m w.seed) h
    where
      go :
          (p : Result A × Seed)
          → Outcome (λ _ d. P d.session) (λ d. R d.session) p
          → Outcome (λ _ v. Seeded P w v) (λ v. Seeded R w v) (p.0, record w { seed = p.1 })
      go (ok a, d) o = return-Outcome (record { session = o.ends; rest = refl })
      go (err e, d) o = raise-Outcome (record { session = o.ends; rest = refl })

pub write_solutions-keeps :
    (io : Io) (s : RefinementState) (d : Seed)
    → Outcome (λ _ e. e.session ≡ d.session) (λ e. e.session ≡ d.session) (write_solutions io s d)
unfolding write_solutions
write_solutions-keeps io s d =
    proceed-Outcome {Q = λ _ e. e.session ≡ d.session} io.exports
      (lift-Outcome io.exports (λ _. refl) refl) (λ _ e h. return-Outcome h)

put-DistinctLabels :
    (k : ℕ) (v : Option Text) (d : Checkpoints) → DistinctLabels d → DistinctLabels (put k v d)
unfolding put
put-DistinctLabels k v [] u = (refl, tt)
put-DistinctLabels k v ((j, w) ∷ d) u =
    if_elim DistinctLabels (j == k) ((j, v) ∷ d) ((j, w) ∷ put k v d) (λ _. u)
      (λ e. (ground (arith, member-put k j v d, u.0), put-DistinctLabels k v d u.1))

module _ (show : ℕ → Text) (read : Text → Result ℕ) (is_uuid : Text → Bool)
    (reads : (n : ℕ) → read (show n) ≡ ok n) (root : List Text)
    (relpath : List Text → List Text → PurePosixPath) where
  -- A state that its checkpoint gives back, once it is validated.
  pub record IsStorable (s : SessionState) : Type 0 where
    pub distinct : DistinctLabels s.refinement.solution_checkpoints
    pub identified : HasUuid show read is_uuid reads s.session_id

  -- What an attempt's archive says: nothing yet, or the progress of a state that it gives back.
  abbrev pub Says : Option RefinementState → Option (Json × Files) → Type 0
  Says o none = o ≡ none
  Says o (some a) =
      (s : SessionState) × (from_json show read is_uuid a.0 ≡ ok s) × (o ≡ some s.refinement)

  pub write_checkpoint-Says :
      (io : Io) (s : SessionState) (d : Seed)
      → IsValid s.refinement
      → IsStorable s
      → Outcome
          (λ _ e. Says (some s.refinement) e.session)
          (λ e. e.session ≡ d.session)
          (write_checkpoint show read is_uuid root relpath io s d)
  unfolding write_checkpoint
  write_checkpoint-Says io s d v i =
      let packed = write_archive root relpath (files_of d.runtime) in
      proceed-Outcome {Q = λ _ e. e.session ≡ d.session} packed
        (lift-Outcome packed (λ _. refl) refl)
        (λ es e h.
          proceed-Outcome {Q = λ _ f. f.session ≡ d.session} io.saves
            (lift-Outcome io.saves (λ _. h) h)
            (λ _ f k. return-Outcome (
              record s { completed_message_ids = sorted_set s.completed_message_ids },
              from_json-to_json show read is_uuid reads s v i.distinct i.identified,
              refl,
            )))

  pub restore_files-keeps :
      (s : SessionState) (es : Files) (d : Seed)
      → Outcome
          (λ _ e. e.session ≡ d.session)
          (λ e. e.session ≡ d.session)
          (restore_files show read is_uuid root relpath s es d)
  unfolding restore_files
  restore_files-keeps s es d =
      proceed-Outcome {Q = λ _ e. e.session ≡ d.session} (restore_runtime es)
        (lift-Outcome (restore_runtime es) (λ _. refl) refl)
        (λ fs e h.
          lift-Outcome (after (require_transcript s.session_id fs) (λ _. ok tt)) (λ _. h) h)

  read_labels-distinct :
      (fs : Fields) (acc d : Checkpoints)
      → DistinctLabels acc
      → read_labels show read is_uuid fs acc ≡ ok d
      → DistinctLabels d
  unfolding read_labels
  read_labels-distinct no_fields acc d u e = subst DistinctLabels (cc) u
  read_labels-distinct (field t j rest) acc d u e =
      let (k, _, e1) = after-ok (read t) _ d e in
      let (v, _, e2) =
        after-ok (as_option as_text j) (λ v. read_labels show read is_uuid rest (put k v acc)) d
          e1 in
      read_labels-distinct rest (put k v acc) d (put-DistinctLabels k v acc u) e2

  as_labels-distinct :
      (j : Json) (d : Checkpoints) → as_labels show read is_uuid j ≡ ok d → DistinctLabels d
  unfolding as_labels
  as_labels-distinct (object fs) d e = read_labels-distinct fs [] d tt e
  as_labels-distinct null d e = cc
  as_labels-distinct (boolean b) d e = cc
  as_labels-distinct (number n) d e = cc
  as_labels-distinct (string t) d e = cc
  as_labels-distinct (array xs) d e = cc

  read_refinement-distinct :
      (j : Json) (s : RefinementState)
      → read_refinement show read is_uuid j ≡ ok s
      → DistinctLabels s.solution_checkpoints
  unfolding read_refinement
  read_refinement-distinct j s e =
      let (t, _, e1) = after-ok (read_fields show read is_uuid j) _ s e in
      let (d, labelled, e2) =
        after-ok (labels_of show read is_uuid j)
          (λ d.
            after (status_of show read is_uuid j)
              (λ status. ok (record t { solution_checkpoints = d; status = status })))
          s e1 in
      let (status, _, e3) =
        after-ok (status_of show read is_uuid j)
          (λ status. ok (record t { solution_checkpoints = d; status = status })) s e2 in
      let (o, _, e4) =
        after-ok (get_field (codes "solution_checkpoints") j) (as_labels show read is_uuid) d
          labelled in
      subst DistinctLabels (labels_eq t d status s e3) (as_labels-distinct o d e4)
    where
      labels_eq :
          (t : RefinementState) (d : Checkpoints) (status : RunStatus) (s : RefinementState)
          → ◌≡◌ {A = Result RefinementState}
              (ok (record t { solution_checkpoints = d; status = status }))
              (ok s)
          → d ≡ s.solution_checkpoints
      labels_eq t d status s e = cc

  check_uuid_has :
      (o : Option Text) → check_uuid show read is_uuid o ≡ ok tt → HasUuid show read is_uuid reads o
  check_uuid_has none h = tt
  check_uuid_has (some id) h = ground arith

  read_session-identified :
      (j : Json) (r : Option Text × List Text × Bool)
      → read_session show read is_uuid j ≡ ok r
      → HasUuid show read is_uuid reads r.0
  unfolding read_session
  read_session-identified j r e =
      let (j0, _, e1) = after-ok (get_field (codes "session_id") j) _ r e in
      let (id, _, e2) = after-ok (as_option as_text j0) _ r e1 in
      let (x, checked, e3) = after-ok (check_uuid show read is_uuid id) _ r e2 in
      let (j1, _, e4) = after-ok (get_field (codes "completed_message_ids") j) _ r e3 in
      let (ids, _, e5) = after-ok (as_texts j1) _ r e4 in
      let (j2, _, e6) = after-ok (get_field (codes "fork_session") j) _ r e5 in
      let (fork, _, e7) = after-ok (as_bool j2) (λ fork. ok (id, ids, fork)) r e6 in
      subst (HasUuid show read is_uuid reads) (id_eq id ids fork r e7) (check_uuid_has id checked)
    where
      id_eq :
          (id : Option Text) (ids : List Text) (fork : Bool) (r : Option Text × List Text × Bool)
          → ◌≡◌ {A = Result (Option Text × List Text × Bool)} (ok (id, ids, fork)) (ok r)
          → id ≡ r.0
      id_eq id ids fork r e = cc

  pub from_json-IsStorable :
      (j : Json) (s : SessionState) → from_json show read is_uuid j ≡ ok s → IsStorable s
  unfolding from_json
  from_json-IsStorable j s e =
      let (saved, _, e1) = after-ok (get_field (codes "state") j) _ s e in
      let (state, known, e2) = after-ok (read_refinement show read is_uuid saved) _ s e1 in
      let (x, _, e3) =
        after-ok (validate state)
          (λ _.
            after (read_session show read is_uuid j)
              (λ r. ok (with_session show read is_uuid state r)))
          s e2 in
      let (r, read_as, e4) =
        after-ok (read_session show read is_uuid j)
          (λ r. ok (with_session show read is_uuid state r)) s e3 in
      IsStorable-of state r s e4 (read_refinement-distinct saved state known)
        (read_session-identified j r read_as)
    where
      IsStorable-of :
          (state : RefinementState) (r : Option Text × List Text × Bool) (s : SessionState)
          → ◌≡◌ {A = Result SessionState} (ok (with_session show read is_uuid state r)) (ok s)
          → DistinctLabels state.solution_checkpoints
          → HasUuid show read is_uuid reads r.0
          → IsStorable s
      IsStorable-of state (id, ids, fork) s e u h =
          subst IsStorable (ok_inj _ _ e) (record { distinct = u; identified = h })
