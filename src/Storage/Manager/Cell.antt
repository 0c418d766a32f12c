-- ===== src/Storage/Manager/Cell.antt =====
-- `SessionManager` of harness/session/session_manager.py as a durable cell: what an attempt's
-- archive says, and the progress that the manager holds.
use de_framework.Storage.Runtime.{require_transcript}
use de_framework.Storage.Manager.{
  Io, Manager, checkpoint_attempt, close_attempt, need, require_open_state, is_none, on_seed,
  write_checkpoint, write_solutions, files_of,
}
use de_framework.Storage.Manager.Durable.{
  IsStorable, Says, Seeded, on_seed-Outcome, write_checkpoint-Says, write_solutions-keeps,
}
use de_framework.Storage.Archive.{PurePosixPath}
use de_framework.Storage.Continue.{continue_state}
use de_framework.Refine.Valid.{IsValid, validate_iff}
use de_framework.Exec.{Result, ok, Outcome, ok_inj, step-Outcome, map-Outcome, bind-Outcome}
use de_framework.Text.{Text}
use de_framework.Session.State.{SessionState}
use de_framework.Refine.State.{RefinementState, validate}
use de_framework.Prelude.{
  Option, ℕ, ◌≡◌, none, some, Bool, List, if_elim, subst, sym, ◌∙◌, ap, refl,
}

pub record Cell : Type 0 where
  pub stored : Option RefinementState
  pub live : Option RefinementState

-- What the operations do to the cell: a new attempt stores valid progress, stored progress is
-- loaded, stopped progress is loaded for a continuation, held progress is stored once it is valid,
-- and the manager lets go of what it holds.
pub data CellStep (c : Cell) : Cell → Type 0 where
  begins :
      (s : RefinementState)
      → c.stored ≡ none
      → IsValid s
      → CellStep c (record c { stored = some s })
  loads : (s : RefinementState) → c.stored ≡ some s → CellStep c (record c { live = some s })
  continues :
      (s t : RefinementState) (budget : ℕ)
      → c.stored ≡ some s
      → continue_state budget s ≡ ok t
      → CellStep c (record c { live = some t })
  commits :
      (s : RefinementState)
      → c.live ≡ some s
      → IsValid s
      → CellStep c (record c { stored = some s })
  closes : CellStep c (record c { live = none })

pub data CellSteps (c : Cell) : Cell → Type 0 where
  here : CellSteps c c
  next : {d e : Cell} → CellSteps c d → CellStep d e → CellSteps c e

abbrev pub progress : Option SessionState → Option RefinementState
progress none = none
progress (some s) = some s.refinement

module _ (show : ℕ → Text) (read : Text → Result ℕ) (is_uuid : Text → Bool)
    (reads : (n : ℕ) → read (show n) ≡ ok n) (root : List Text)
    (relpath : List Text → List Text → PurePosixPath) where
  abbrev pub Ready : Option SessionState → Type 0
  Ready none = Unit
  Ready (some s) = IsStorable show read is_uuid reads root relpath s

  -- The manager stands for the cell.
  pub record Holds (w : Manager) (c : Cell) : Type 0 where
    pub says : Says show read is_uuid reads root relpath c.stored w.seed.session
    pub live : progress w.session_state ≡ c.live
    pub ready : Ready w.session_state

  -- The manager stands for a cell that the steps reach.
  abbrev pub Refines : Cell → Manager → Type 0
  Refines c v = (d : Cell) × CellSteps c d × Holds v d

  pub close-Refines :
      (c d : Cell) (w : Manager) → CellSteps c d → Holds w d → Refines c (close_attempt w)
  unfolding close_attempt
  close-Refines c d w r h = (
    record d { live = none },
    next r closes,
    record {
      says =
          if_elim (λ x. Says show read is_uuid reads root relpath d.stored x.session)
            (is_none w.session_state) w.seed (record w.seed { runtime = none }) (λ _. h.says)
            (λ _. h.says);
      live = refl;
      ready = tt;
    },
  )

  need_held : (o : Option SessionState) (s : SessionState) → need o ≡ ok s → o ≡ some s
  need_held none s h = cc
  need_held (some t) s h = ap some (ok_inj t s h)

  -- The directory has changed below a manager that holds what it held.
  pub reseed :
      (d : Cell) (w v : Manager) → Holds w d → Seeded (λ x. x ≡ w.seed.session) w v → Holds v d
  reseed d w v h k =
      subst (λ x. Holds x d) (sym k.rest)
        (record {
          says = subst (Says show read is_uuid reads root relpath d.stored) (sym k.session) h.says;
          live = h.live;
          ready = h.ready;
        })

  store_progress :
      (c d : Cell) (s : SessionState) (w v : Manager)
      → CellSteps c d
      → Holds w d
      → w.session_state ≡ some s
      → IsValid s.refinement
      → Seeded (Says show read is_uuid reads root relpath (some s.refinement)) w v
      → Refines c v
  store_progress c d s w v r h e valid k = (
    record d { stored = some s.refinement },
    next r (commits s.refinement (sym h.live ∙ ap progress e) valid),
    subst (λ x. Holds x (record d { stored = some s.refinement })) (sym k.rest)
        (record { says = k.session; live = h.live; ready = h.ready }),
  )

  pub export-Refines :
      (c : Cell) (io : Io) (s : RefinementState) (v : Manager)
      → Refines c v
      → Outcome (λ _. Refines c) (Refines c) (on_seed (write_solutions io s) v)
  export-Refines c io s v (d, r, h) =
      map-Outcome (on_seed (write_solutions io s) v) (λ _ u k. (d, r, reseed d v u h k))
        (λ u k. (d, r, reseed d v u h k))
        (on_seed-Outcome (λ x. x ≡ v.seed.session) (λ x. x ≡ v.seed.session) (write_solutions io s)
          v (write_solutions-keeps io s v.seed))

  IsStorable-of :
      (o : Option SessionState) (s : SessionState)
      → o ≡ some s
      → Ready o
      → IsStorable show read is_uuid reads root relpath s
  IsStorable-of o s e h = subst Ready e h

  pub publish-Refines :
      (c d : Cell) (io : Io) (s : SessionState) (w : Manager)
      → CellSteps c d
      → Holds w d
      → w.session_state ≡ some s
      → IsValid s.refinement
      → Outcome
          (λ _. Refines c)
          (Refines c)
          (on_seed (write_checkpoint show read is_uuid root relpath io s) w)
  publish-Refines c d io s w r h e valid =
      map-Outcome (on_seed (write_checkpoint show read is_uuid root relpath io s) w)
        (λ _ u k. store_progress c d s w u r h e valid k) (λ u k. (d, r, reseed d w u h k))
        (on_seed-Outcome (Says show read is_uuid reads root relpath (some s.refinement))
          (λ x. x ≡ w.seed.session) (write_checkpoint show read is_uuid root relpath io s) w
          (write_checkpoint-Says show read is_uuid reads root relpath io s w.seed valid
            (IsStorable-of w.session_state s e h.ready)))

  pub checkpoint-Refines :
      (c d : Cell) (io : Io) (w : Manager)
      → CellSteps c d
      → Holds w d
      → Outcome
          (λ _. Refines c)
          (Refines c)
          (checkpoint_attempt show read is_uuid root relpath io w)
  unfolding checkpoint_attempt require_open_state
  checkpoint-Refines c d io w r h =
      step-Outcome (need w.session_state) _ w
        (λ s e.
          step-Outcome (validate s.refinement) _ w
            (λ _ valid.
              step-Outcome (require_transcript s.session_id (files_of w.seed.runtime)) _ w
                (λ _ _.
                  bind-Outcome {Q = λ _. Refines c}
                    (on_seed (write_checkpoint show read is_uuid root relpath io s)) w
                    (publish-Refines c d io s w r h (need_held w.session_state s e)
                      ((validate_iff s.refinement).0 valid))
                    (λ _ v k. export-Refines c io s.refinement v k))
                (d, r, h))
            (d, r, h))
        (d, r, h)
