-- ===== src/Storage/Manager/Operations.antt =====
-- The operations of `SessionManager` in harness/session/session_manager.py, in any order, over the
-- durable cell.
use de_framework.Storage.Runtime.{new_runtime}
use de_framework.Session.State.{SessionState, new_session}
use de_framework.Storage.Manager.Refinement.{
  archive-Says, restore-Refines, close_on_error-Refines, stored_none, files-Holds, closing_too,
  load_held, begin-Refines,
}
use de_framework.Refine.Valid.{IsValid, validate_iff}
use de_framework.Session.State.RoundTrip.{DistinctLabels}
use de_framework.Refine.State.{RefinementState, validate}
use de_framework.Storage.Continue.{continue_state}
use de_framework.Storage.Manager.Cell.{
  Cell, Holds, Refines, here, checkpoint-Refines, close-Refines, next, continues, export-Refines,
}
use de_framework.Storage.Manager.{
  Manager, continue_run, open_attempt, open_body, require_new_attempt, restore_attempt, Io,
  require_open_state, read_archive, close_attempt, need, is_none, on_seed, restore_checkpoint,
  restore_files, checkpoint_attempt, write_checkpoint, write_solutions, is_empty_list,
}
use de_framework.Storage.Archive.{PurePosixPath}
use de_framework.Exec.{
  Result, ok, Outcome, if-Outcome, step-Outcome, ◌>>◌, branch-Outcome, modify, raise-Outcome,
  bind-Outcome, pure, require, file_exists_error, return-Outcome, err,
}
use de_framework.Text.{Text}
use de_framework.Prelude.{ℕ, Bool, ◌≡◌, List, arith, none, not, some, true, ◌&&◌, subst, refl}

module _ (show : ℕ → Text) (read : Text → Result ℕ) (is_uuid : Text → Bool)
    (reads : (n : ℕ) → read (show n) ≡ ok n) (root : List Text)
    (relpath : List Text → List Text → PurePosixPath) where
  abbrev Holding : Manager → Cell → Type 0
  Holding = Holds show read is_uuid reads root relpath

  abbrev Reached : Cell → Manager → Type 0
  Reached = Refines show read is_uuid reads root relpath

  -- A valid attempt begins in a directory without an archive.
  fresh-Refines :
      (c : Cell) (io : Io) (s : RefinementState) (w : Manager)
      → Holding w c
      → c.stored ≡ none
      → IsValid s
      → DistinctLabels s.solution_checkpoints
      → Outcome
          (λ _. Reached c)
          (λ v. Reached c (close_attempt v))
          ((do
            on_seed require_new_attempt
            modify (λ v. record v {
              session_state = some (new_session s none);
              seed = record v.seed { runtime = some new_runtime };
            })
            on_seed (write_checkpoint show read is_uuid root relpath io (new_session s none))
            on_seed (write_solutions io s)
            pure s)
            w)
  unfolding require_new_attempt
  fresh-Refines c io s w h e valid u =
      step-Outcome
        (require
          (is_none w.seed.session && is_none w.seed.runtime && is_empty_list w.seed.solutions)
          file_exists_error)
        _ w
        (λ _ _.
          bind-Outcome {Q = λ _. Reached c}
            (on_seed (write_checkpoint show read is_uuid root relpath io (new_session s none)))
            (record w {
              session_state = some (new_session s none);
              seed = record w.seed { runtime = some new_runtime };
            })
            (begin-Refines show read is_uuid reads root relpath c c io s w here h e valid u)
            (λ _ v k.
              bind-Outcome {Q = λ _. Reached c} (on_seed (write_solutions io s)) v
                (closing_too show read is_uuid reads root relpath c
                  (on_seed (write_solutions io s) v)
                  (export-Refines show read is_uuid reads root relpath c io s v k))
                (λ _ x l. return-Outcome l)))
        (close-Refines show read is_uuid reads root relpath c c w here h)

  body-Refines :
      (c : Cell) (io : Io) (s : RefinementState) (w : Manager)
      → Holding w c
      → DistinctLabels s.solution_checkpoints
      → Outcome
          (λ _. Reached c)
          (λ v. Reached c (close_attempt v))
          (open_body show read is_uuid root relpath io s w)
  unfolding open_body
  body-Refines c io s w h u =
      step-Outcome (validate s) _ w
        (λ _ valid.
          branch-Outcome (is_none w.seed.session) _
            (restore_checkpoint show read is_uuid root relpath io (some s)) w
            (λ e.
              fresh-Refines c io s w h
                (stored_none show read is_uuid reads root relpath c.stored w.seed.session e h.says)
                ((validate_iff s).0 valid) u)
            (λ _.
              closing_too show read is_uuid reads root relpath c
                (restore_checkpoint show read is_uuid root relpath io (some s) w)
                (restore-Refines show read is_uuid reads root relpath c c io (some s) w here h)))
        (close-Refines show read is_uuid reads root relpath c c w here h)

  open-Refines :
      (c : Cell) (io : Io) (s : RefinementState) (w : Manager)
      → Holding w c
      → DistinctLabels s.solution_checkpoints
      → Outcome (λ _. Reached c) (Reached c) (open_attempt show read is_uuid root relpath io s w)
  unfolding open_attempt
  open-Refines c io s w h u =
      if-Outcome (not (is_none w.session_state)) (λ _. raise-Outcome (c, here, h))
        (λ _.
          step-Outcome io.acquires _ w
            (λ _ _.
              close_on_error-Refines show read is_uuid reads root relpath c
                (open_body show read is_uuid root relpath io s (record w { held = true }))
                (body-Refines c io s (record w { held = true })
                  (record { says = h.says; live = h.live; ready = h.ready }) u))
            (c, here, h))

  reload-Refines :
      (c : Cell) (io : Io) (w : Manager)
      → Holding w c
      → Outcome (λ _. Reached c) (Reached c) (restore_attempt show read is_uuid root relpath io w)
  unfolding restore_attempt require_open_state
  reload-Refines c io w h =
      step-Outcome (need w.session_state) _ w
        (λ _ _. restore-Refines show read is_uuid reads root relpath c c io none w here h)
        (c, here, h)

  continue_state_keeps :
      (budget : ℕ) (s t : RefinementState)
      → continue_state budget s ≡ ok t
      → s.solution_checkpoints ≡ t.solution_checkpoints
  unfolding continue_state
  continue_state_keeps budget s t h = ground arith

  continue_run-Refines :
      (c : Cell) (io : Io) (budget : ℕ) (w : Manager)
      → Holding w c
      → Outcome
          (λ _. Reached c)
          (Reached c)
          (continue_run show read is_uuid root relpath io budget w)
  unfolding continue_run require_open_state read_archive
  continue_run-Refines c io budget w h =
      step-Outcome (need w.session_state) _ w
        (λ _ _.
          step-Outcome (read_archive show read is_uuid root relpath w.seed) _ w
            (λ a e.
              let known =
                archive-Says show read is_uuid reads root relpath c.stored w.seed.session a w.seed
                  refl h.says e in
              step-Outcome (continue_state budget a.0.refinement) _ w
                (λ t k.
                  let next_session : SessionState = record a.0 { refinement = t } in
                  bind-Outcome {Q = λ _ v. Holding v c}
                    (on_seed (restore_files show read is_uuid root relpath next_session a.1)) w
                    (files-Holds show read is_uuid reads root relpath c c next_session a.1 w here h)
                    (λ _ v l.
                      bind-Outcome {Q = λ _. Reached c}
                        (checkpoint_attempt show read is_uuid root relpath io)
                        (record v { session_state = some next_session })
                        (checkpoint-Refines show read is_uuid reads root relpath c
                          (record c { live = some t }) io
                          (record v { session_state = some next_session })
                          (next here (continues a.0.refinement t budget known.0 k))
                          (load_held show read is_uuid reads root relpath c next_session v l
                            (record {
                              distinct =
                                  subst DistinctLabels
                                    (continue_state_keeps budget a.0.refinement t k)
                                    known.1.distinct;
                              identified = known.1.identified;
                            })))
                        (λ _ x m. return-Outcome m)))
                (c, here, h))
            (c, here, h))
        (c, here, h)

  -- An operation of the program, by what its environment does.
  pub data Op : Type 0 where
    opens : Io → RefinementState → Op
    checkpoints restores : Io → Op
    continued_with : Io → ℕ → Op
    closing : Op

  abbrev pub run_op : Op → Manager → Manager
  run_op (opens io s) w = (open_attempt show read is_uuid root relpath io s w).1
  run_op (checkpoints io) w = (checkpoint_attempt show read is_uuid root relpath io w).1
  run_op (restores io) w = (restore_attempt show read is_uuid root relpath io w).1
  run_op (continued_with io budget) w = (continue_run show read is_uuid root relpath io budget w).1
  run_op closing w = close_attempt w

  abbrev pub Distinct : Op → Type 0
  Distinct (opens io s) = DistinctLabels s.solution_checkpoints
  Distinct _ = Unit

  reached :
      {A : Type 0} (c : Cell) (p : Result A × Manager)
      → Outcome (λ _. Reached c) (Reached c) p
      → Reached c p.1
  reached c (ok a, w) o = o.ends
  reached c (err e, w) o = o.ends

  -- Whatever an operation of the manager does, and whichever of its file operations fail, the
  -- manager stands afterwards for a cell that the steps of a durable cell reach from the one that it
  -- stood for: the archive changes only to a valid new attempt where there was none, or to held
  -- progress that is valid, and what the manager holds comes from the archive. The labels of the
  -- state that an attempt is opened with are distinct.
  pub run_op-Refines :
      (o : Op) (w : Manager) (c : Cell)
      → Holds show read is_uuid reads root relpath w c
      → Distinct o
      → Refines show read is_uuid reads root relpath c (run_op o w)
  run_op-Refines (opens io s) w c h u =
      reached c (open_attempt show read is_uuid root relpath io s w) (open-Refines c io s w h u)
  run_op-Refines (checkpoints io) w c h u =
      reached c (checkpoint_attempt show read is_uuid root relpath io w)
        (checkpoint-Refines show read is_uuid reads root relpath c c io w here h)
  run_op-Refines (restores io) w c h u =
      reached c (restore_attempt show read is_uuid root relpath io w) (reload-Refines c io w h)
  run_op-Refines (continued_with io budget) w c h u =
      reached c (continue_run show read is_uuid root relpath io budget w)
        (continue_run-Refines c io budget w h)
  run_op-Refines closing w c h u = close-Refines show read is_uuid reads root relpath c c w here h
