-- ===== src/Experiments/Arms.antt =====
-- The arms of experiments/ differ from their controls by the sketch alone.
use de_framework.Exec.{after, Result, ok, err, other_error}
use de_framework.Refine.State.{Phase, RefinementState}
use de_framework.Text.{Text, codes}
use de_framework.Experiments.{
  Experiment, continue_unaided, blank_line, unaided, continue_oracle, oracle_execution,
  oracle_sketch, alt_sketch, Prompts, append_sketch, get_phase_prompt, shared_phase_prompt,
  continued, with_sketch, shared_continue_prompt, no_sketch, load_prompt, value_of,
}
use de_framework.Prelude.{
  refl, ◌++◌, Bool, true, ◌≡◌, false, Option, none, Bool-cases, ap, some, append_assoc, ◌==◌, inl,
  inr, if◌then◌else◌, ◌∙◌, ◌∷◌, [],
}

-- The arm without a sketch that an experiment is compared with.
abbrev pub control : Experiment → Experiment
control continue_unaided = continue_unaided
control continue_oracle = continue_unaided
control _ = unaided

-- The phase whose prompt shows the sketch.
abbrev pub shows_sketch : Experiment → Phase → Bool
shows_sketch oracle_execution Phase.solve = true
shows_sketch oracle_sketch Phase.solve = true
shows_sketch alt_sketch Phase.solve = true
shows_sketch continue_oracle Phase.continue = true
shows_sketch _ _ = false

-- The sketch in the wording of prompts/sketch.txt.
abbrev pub worded : Prompts → Text → Result Text
worded p sketch = load_prompt p.is_word p.sketch_file (value_of ((codes "sketch", sketch) ∷ []))

-- The prompt of a control; where the arm shows the sketch, then a blank line and the worded sketch,
-- or an error where there is no sketch.
abbrev pub extended : Prompts → Bool → Option Text → Result Text → Result Text
extended p true none prompt = after prompt (λ _. err other_error)
extended p true (some sketch) prompt =
    after prompt (λ t. after (worded p sketch) (λ shown. ok (t ++ blank_line ++ shown)))
extended p false k prompt = prompt

shown : Prompts → Bool → Option Text → Result Text → Result Text
shown p b k prompt = if b then after prompt (with_sketch p k) else prompt

shown-extended :
    (p : Prompts) (b : Bool) (k : Option Text) (r : Result Text) → shown p b k r ≡ extended p b k r
unfolding shown append_sketch
shown-extended p false k r = refl
shown-extended p true none r = refl
shown-extended p true (some k) r = refl

keep_result : (r : Result Text) → after r (λ t. ok t) ≡ r
keep_result (ok t) = refl
keep_result (err e) = refl

append_shown :
    (a b : Text) (r : Result Text)
    → after (after r (λ shown. ok (b ++ blank_line ++ shown))) (λ t. ok (a ++ blank_line ++ t))
      ≡ after r (λ shown. ok ((a ++ blank_line ++ b) ++ blank_line ++ shown))
append_shown a b (ok shown) = ap ok (simp append_assoc)
append_shown a b (err e) = refl

continued_append :
    (p : Prompts) (k : Text) (s : RefinementState) (b : Text)
    → after (append_sketch p k b) (λ t. ok (continued s t)) ≡ append_sketch p k (continued s b)
unfolding append_sketch
continued_append p k s b = elim (Bool-cases (s.output_tokens == 0)) [
  | inl fresh ↦ rw fresh (append_shown s.problem b _)
  | inr later ↦ rw later (keep_result _)
]

-- Showing the sketch and adding the problem commute.
continued_sketch :
    (p : Prompts) (k : Option Text) (s : RefinementState) (r : Result Text)
    → after (after r (with_sketch p k)) (λ t. ok (continued s t))
      ≡ after (after r (λ t. ok (continued s t))) (with_sketch p k)
continued_sketch p none s (ok b) = refl
continued_sketch p (some k) s (ok b) = continued_append p k s b
continued_sketch p k s (err e) = refl

abbrev IsControlled : Prompts → Experiment → Option Text → RefinementState → Type 0
IsControlled p e k s =
    get_phase_prompt p e k s
    ≡ shown p (shows_sketch e s.phase) k (get_phase_prompt p (control e) none s)

phase-IsControlled :
    (p : Prompts) (e : Experiment) (k : Option Text) (s : RefinementState) (phase : Phase)
    → IsControlled p e k (record s { phase = phase })
unfolding get_phase_prompt shared_phase_prompt shown
phase-IsControlled p unaided k s phase = refl
phase-IsControlled p no_sketch k s phase = refl
phase-IsControlled p oracle_execution k s Phase.solve = refl
phase-IsControlled p oracle_execution k s Phase.critique = refl
phase-IsControlled p oracle_execution k s Phase.revise = refl
phase-IsControlled p oracle_execution k s Phase.continue = refl
phase-IsControlled p oracle_sketch k s Phase.solve = refl
phase-IsControlled p oracle_sketch k s Phase.critique = refl
phase-IsControlled p oracle_sketch k s Phase.revise = refl
phase-IsControlled p oracle_sketch k s Phase.continue = refl
phase-IsControlled p alt_sketch k s Phase.solve = refl
phase-IsControlled p alt_sketch k s Phase.critique = refl
phase-IsControlled p alt_sketch k s Phase.revise = refl
phase-IsControlled p alt_sketch k s Phase.continue = refl
phase-IsControlled p continue_unaided k s phase = refl
phase-IsControlled p continue_oracle k s Phase.solve = refl
phase-IsControlled p continue_oracle k s Phase.critique = refl
phase-IsControlled p continue_oracle k s Phase.revise = refl
phase-IsControlled p continue_oracle k s Phase.continue =
    continued_sketch p k s (shared_continue_prompt p)

-- The prompt of every experiment in every phase is that of its control, which is given no sketch,
-- but for the initial solution of the oracle arms and the first continuation of the oracle fork,
-- where the prompt of the control is followed by a blank line and the sketch as worded by its
-- template, with an error where there is no sketch.
pub get_phase_prompt-control :
    (p : Prompts) (e : Experiment) (k : Option Text) (s : RefinementState)
    → get_phase_prompt p e k s
      ≡ extended p (shows_sketch e s.phase) k (get_phase_prompt p (control e) none s)
get_phase_prompt-control p e k s =
    phase-IsControlled p e k s s.phase
    ∙ shown-extended p (shows_sketch e s.phase) k (get_phase_prompt p (control e) none s)
