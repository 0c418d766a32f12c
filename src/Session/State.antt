-- ===== src/Session/State.antt =====
-- `SessionState` of harness/session/models.py and its checkpoint format. `show` and `read` stand
-- for `str` and `int` on the checkpoint labels, and `is_uuid` for the check of `UUID`.

pub mod RoundTrip
use de_framework.Json.{
  Json, get_field, Fields, as_option, as_text, object, as_nat, as_texts, field, no_fields, as_bool,
  of_option, string, array, nat, boolean, texts,
}
use de_framework.Exec.{Result, ok, err, require, after, other_error, value_error}
use de_framework.Prelude.{ℕ, List, Option, Bool, [], ◌∷◌, false, if◌then◌else◌, some, none}
use de_framework.Proxy.Requests.{insert}
use de_framework.Text.{text_eq, Text, codes}
use de_framework.Refine.State.{
  exhausted, Phase, RefinementState, RunStatus, Checkpoints, put, running, solve, validate,
  critique, finished, revise, continue, paused, new_state,
}

-- The set of completed messages is a list read by membership.
pub record SessionState : Type 0 where
  pub refinement : RefinementState
  pub session_id : Option Text
  pub completed_message_ids : List Text
  pub fork_session : Bool

-- SessionState(refinement, session_id)
abbrev pub new_session : RefinementState → Option Text → SessionState
new_session s id = record {
  refinement = s;
  session_id = id;
  completed_message_ids = [];
  fork_session = false;
}

unfoldable pub phase_text : Phase → Text
phase_text solve = codes "solve"
phase_text critique = codes "critique"
phase_text revise = codes "revise"
phase_text continue = codes "continue"

unfoldable pub status_text : RunStatus → Text
status_text running = codes "running"
status_text finished = codes "finished"
status_text exhausted = codes "exhausted"
status_text paused = codes "paused"

-- Phase(text), RunStatus(text)
unfoldable pub read_phase : Text → Result Phase
unfolding text_eq
read_phase t =
    if text_eq t (codes "solve")
    then ok solve
    else if text_eq t (codes "critique")
    then ok critique
    else if text_eq t (codes "revise")
    then ok revise
    else if text_eq t (codes "continue")
    then ok continue
    else err value_error

unfoldable pub read_status : Text → Result RunStatus
unfolding text_eq
read_status t =
    if text_eq t (codes "running")
    then ok running
    else if text_eq t (codes "finished")
    then ok finished
    else if text_eq t (codes "exhausted")
    then ok exhausted
    else if text_eq t (codes "paused")
    then ok paused
    else err value_error

-- sorted(ids) of a set
unfoldable pub sorted_set : List Text → List Text
unfolding insert
sorted_set [] = []
sorted_set (t ∷ ts) = insert t (sorted_set ts)

module _ (show : ℕ → Text) (read : Text → Result ℕ) (is_uuid : Text → Bool) where
  unfoldable pub labels_json : Checkpoints → Fields
  labels_json [] = no_fields
  labels_json ((k, v) ∷ d) = field (show k) (of_option string v) (labels_json d)

  unfoldable pub refinement_json : RefinementState → Json
  unfolding labels_json phase_text status_text
  refinement_json s = object (
      field (codes "problem") (string s.problem) (
        field (codes "budget_tokens") (nat s.budget_tokens) (
          field (codes "pause_at_tokens") (of_option nat s.pause_at_tokens) (
            field (codes "phase") (string (phase_text s.phase)) (
              field (codes "output_tokens") (nat s.output_tokens) (
                field (codes "rounds") (nat s.rounds) (
                  field (codes "no_gap_critiques") (nat s.no_gap_critiques) (
                    field (codes "warning_sent") (boolean s.warning_sent) (
                      field (codes "solution") (of_option string s.solution) (
                        field (codes "status") (string (status_text s.status)) (
                          field (codes "solution_checkpoints")
                            (object (labels_json s.solution_checkpoints))
                            (field (codes "checkpoint_count") (nat s.checkpoint_count)
                              no_fields))))))))))))

  unfoldable pub to_json : SessionState → Json
  unfolding refinement_json sorted_set
  to_json s = object (
      field (codes "state") (refinement_json s.refinement) (
        field (codes "session_id") (of_option string s.session_id) (
          field (codes "completed_message_ids") (array (texts (sorted_set s.completed_message_ids)))
            (field (codes "fork_session") (boolean s.fork_session) no_fields))))

  -- {int(key): value for ...}, where a later entry of a key replaces an earlier one.
  unfoldable pub read_labels : Fields → Checkpoints → Result Checkpoints
  unfolding put as_option as_text
  read_labels no_fields d = ok d
  read_labels (field t j rest) d =
      after (read t) (λ k. after (as_option as_text j) (λ v. read_labels rest (put k v d)))

  unfoldable pub as_labels : Json → Result Checkpoints
  unfolding read_labels
  as_labels (object fs) = read_labels fs []
  as_labels _ = err other_error

  -- The constructor's arguments, and the fields assigned before the labels and the status.
  unfoldable pub read_fields : Json → Result RefinementState
  unfolding get_field as_text as_nat as_option as_bool read_phase new_state
  read_fields j = after (get_field (codes "problem") j) (λ j0. after (as_text j0) (λ problem.
      after (get_field (codes "budget_tokens") j) (λ j1. after (as_nat j1) (λ budget.
        after (get_field (codes "pause_at_tokens") j) (λ j2. after (as_option as_nat j2) (λ pause.
          after (get_field (codes "phase") j) (λ j3. after (as_text j3) (λ p.
            after (read_phase p) (λ phase. after (get_field (codes "output_tokens") j) (λ j4.
              after (as_nat j4) (λ tokens. after (get_field (codes "rounds") j) (λ j5.
                after (as_nat j5) (λ rounds. after (get_field (codes "no_gap_critiques") j) (λ j6.
                  after (as_nat j6) (λ streak. after (get_field (codes "warning_sent") j) (λ j7.
                    after (as_bool j7) (λ warned. after (get_field (codes "solution") j) (λ j8.
                      after (as_option as_text j8) (λ solution.
                        after (get_field (codes "checkpoint_count") j) (λ j9.
                          after (as_nat j9) (λ count. ok (record (new_state problem budget pause) {
                            phase = phase;
                            output_tokens = tokens;
                            rounds = rounds;
                            no_gap_critiques = streak;
                            warning_sent = warned;
                            solution = solution;
                            checkpoint_count = count;
                          }))))))))))))))))))))))

  abbrev pub status_of : Json → Result RunStatus
  status_of j = after (get_field (codes "status") j) (λ j0. after (as_text j0) read_status)

  abbrev pub labels_of : Json → Result Checkpoints
  labels_of j = after (get_field (codes "solution_checkpoints") j) as_labels

  unfoldable pub read_refinement : Json → Result RefinementState
  unfolding read_fields get_field as_labels as_text read_status
  read_refinement j = after (read_fields j) (λ s. after (labels_of j) (λ d.
      after (status_of j) (λ status. ok (record s { solution_checkpoints = d; status = status }))))

  abbrev pub check_uuid : Option Text → Result (Unit {0})
  check_uuid none = ok tt
  check_uuid (some id) = require (is_uuid id) value_error

  -- The identity, the completed messages and the fork mark.
  unfoldable pub read_session : Json → Result (Option Text × List Text × Bool)
  unfolding get_field as_option as_text as_texts as_bool
  read_session j = after (get_field (codes "session_id") j) (λ j0.
      after (as_option as_text j0) (λ id. after (check_uuid id) (λ _.
        after (get_field (codes "completed_message_ids") j) (λ j1. after (as_texts j1) (λ ids.
          after (get_field (codes "fork_session") j)
            (λ j2. after (as_bool j2) (λ fork. ok (id, ids, fork))))))))

  abbrev pub with_session : RefinementState → Option Text × List Text × Bool → SessionState
  with_session state (id, ids, fork) = record {
    refinement = state;
    session_id = id;
    completed_message_ids = ids;
    fork_session = fork;
  }

  unfoldable pub from_json : Json → Result SessionState
  unfolding read_refinement validate get_field read_session
  from_json j = after (get_field (codes "state") j) (λ saved.
      after (read_refinement saved) (λ state.
        after (validate state) (λ _. after (read_session j) (λ r. ok (with_session state r)))))
