-- ===== src/Session/State/RoundTrip.antt =====
-- What `SessionState.from_json` (harness/session/models.py) reads of what `to_json` wrote.
use de_framework.Refine.Valid.{IsValid, validate_iff}
use de_framework.Json.{as_option-of_text, as_option-of_nat, Json, read_items-texts, get_field}
use de_framework.Exec.{Result, ok, after-ok, after}
use de_framework.Text.{Text, codes}
use de_framework.Prelude.{
  ℕ, Option, [], ◌∷◌, Bool, ◌++◌, ◌≡◌, false, ◌||◌, arith, refl, append-nil, ◌∙◌, ap, append_assoc,
  some, none, true, List, subst,
}
use de_framework.Refine.State.{
  exhausted, Checkpoints, put, member, Phase, RunStatus, keys, running, solve, critique, finished,
  revise, continue, paused, RefinementState, validate,
}
use de_framework.Session.State.{
  read_phase, read_status, phase_text, status_text, read_labels, labels_json, read_refinement,
  refinement_json, check_uuid, from_json, to_json, SessionState, sorted_set, with_session,
  read_session,
}

pub read_phase-text : (p : Phase) → read_phase (phase_text p) ≡ ok p
unfolding read_phase phase_text
read_phase-text solve = refl
read_phase-text critique = refl
read_phase-text revise = refl
read_phase-text continue = refl

pub read_status-text : (s : RunStatus) → read_status (status_text s) ≡ ok s
unfolding read_status status_text
read_status-text running = refl
read_status-text finished = refl
read_status-text exhausted = refl
read_status-text paused = refl

-- No label stands twice, as in every dictionary.
abbrev pub DistinctLabels : Checkpoints → Type 0
DistinctLabels [] = Unit
DistinctLabels ((k, v) ∷ d) = (member k (keys d) ≡ false) × DistinctLabels d

put-append :
    (k : ℕ) (v : Option Text) (d : Checkpoints)
    → member k (keys d) ≡ false
    → put k v d ≡ d ++ (k, v) ∷ []
unfolding put
put-append k v [] h = refl
put-append k v ((j, w) ∷ d) h = ground (arith, put-append k v d)

member-append :
    (k : ℕ) (d e : Checkpoints)
    → member k (keys (d ++ e)) ≡ (member k (keys d) || member k (keys e))
member-append k [] e = refl
member-append k ((j, w) ∷ d) e = ground (arith, member-append k d e)

-- No label of the one stands in the other.
abbrev Apart : Checkpoints → Checkpoints → Type 0
Apart acc [] = Unit
Apart acc ((k, v) ∷ d) = (member k (keys acc) ≡ false) × Apart acc d

Apart-snoc :
    (acc : Checkpoints) (k : ℕ) (v : Option Text) (d : Checkpoints)
    → Apart acc d
    → member k (keys d) ≡ false
    → Apart (acc ++ (k, v) ∷ []) d
Apart-snoc acc k v [] a h = tt
Apart-snoc acc k v ((j, w) ∷ d) a h = (
  ground (arith, member-append j acc ((k, v) ∷ []), a.0),
  Apart-snoc acc k v d a.1 (ground arith),
)

Apart-nil : (d : Checkpoints) → Apart [] d
Apart-nil [] = tt
Apart-nil ((k, v) ∷ d) = (refl, Apart-nil d)

module _ (show : ℕ → Text) (read : Text → Result ℕ) (is_uuid : Text → Bool)
    (reads : (n : ℕ) → read (show n) ≡ ok n) where
  read_labels-json :
      (d acc : Checkpoints)
      → DistinctLabels d
      → Apart acc d
      → read_labels show read is_uuid (labels_json show read is_uuid d) acc ≡ ok (acc ++ d)
  unfolding read_labels labels_json
  read_labels-json [] acc u a = rw (append-nil acc)
  read_labels-json ((k, v) ∷ d) acc u a =
      rw (reads k, as_option-of_text v, put-append k v acc a.0)
        (read_labels-json d (acc ++ (k, v) ∷ []) u.1 (Apart-snoc acc k v d a.1 u.0)
          ∙ ap ok (append_assoc acc ((k, v) ∷ []) d))

  -- Reading the written fields gives the state back.
  read_refinement-json :
      (s : RefinementState)
      → DistinctLabels s.solution_checkpoints
      → read_refinement show read is_uuid (refinement_json show read is_uuid s) ≡ ok s
  unfolding read_refinement refinement_json
  read_refinement-json s u =
      rw
        (
          as_option-of_nat s.pause_at_tokens,
          read_phase-text s.phase,
          as_option-of_text s.solution,
          read_labels-json s.solution_checkpoints [] u (Apart-nil s.solution_checkpoints),
          read_status-text s.status,
        )
        (refl)

  -- A session identity that `from_json` accepts.
  abbrev pub HasUuid : Option Text → Type 0
  HasUuid none = Unit
  HasUuid (some id) = is_uuid id ≡ true

  check_uuid_ok : (o : Option Text) → HasUuid o → check_uuid show read is_uuid o ≡ ok tt
  check_uuid_ok none h = refl
  check_uuid_ok (some id) h = rw h

  -- Where `int` undoes `str`, a valid state with the identity of a session is read back from its
  -- checkpoint as it was, with the completed messages in order.
  pub from_json-to_json :
      (s : SessionState)
      → IsValid s.refinement
      → DistinctLabels s.refinement.solution_checkpoints
      → HasUuid s.session_id
      → from_json show read is_uuid (to_json show read is_uuid s)
        ≡ ok (record s { completed_message_ids = sorted_set s.completed_message_ids })
  unfolding from_json to_json
  from_json-to_json s v u h =
      rw
        (
          read_refinement-json s.refinement u,
          (validate_iff s.refinement).1 v,
          as_option-of_text s.session_id,
          check_uuid_ok s.session_id h,
          read_items-texts (sorted_set s.completed_message_ids),
        )
        (refl)

  -- A checkpoint whose progress is not valid is refused.
  pub from_json-IsValid :
      (j : Json) (s : SessionState) → from_json show read is_uuid j ≡ ok s → IsValid s.refinement
  unfolding from_json
  from_json-IsValid j s e =
      let (saved, _, e1) = after-ok (get_field (codes "state") j) _ s e in
      let (state, _, e2) = after-ok (read_refinement show read is_uuid saved) _ s e1 in
      let (x, valid, e3) =
        after-ok (validate state)
          (λ _.
            after (read_session show read is_uuid j)
              (λ r. ok (with_session show read is_uuid state r)))
          s e2 in
      let (r, _, e4) =
        after-ok (read_session show read is_uuid j)
          (λ r. ok (with_session show read is_uuid state r)) s e3 in
      subst IsValid (refinement_of state r s e4) ((validate_iff state).0 valid)
    where
      refinement_of :
          (state : RefinementState) (r : Option Text × List Text × Bool) (s : SessionState)
          → ◌≡◌ {A = Result SessionState} (ok (with_session show read is_uuid state r)) (ok s)
          → state ≡ s.refinement
      refinement_of state (id, ids, fork) s e = cc
