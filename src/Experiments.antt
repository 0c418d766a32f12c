-- ===== src/Experiments.antt =====
-- The prompts: harness/utils/prompt_loader.py, the prompt methods of
-- harness/self_refine/self_refine.py, and experiments/.
pub mod Template
pub mod Arms
mod Tests
use de_framework.Refine.State.{
  Phase, RefinementState, output_tokens_per_block, solve, continue, critique,
}
use de_framework.Exec.{Result, err, value_error, ok, after, other_error}
use de_framework.Storage.Manager.{is_none}
use de_framework.Text.{Text, strip, codes, is_blank, text_eq}
use de_framework.Prelude.{
  refl, ℕ, Bool, List, Option, ◌∷◌, if◌then◌else◌, none, suc, ◌==◌, [], some, ◌&&◌, false, length,
  ◌+◌, zero, ◌++◌, any, not, true,
}

-- A part of a template: a character, or a field by its name.
pub data Piece : Type 0 where
  literal : ℕ → Piece
  field : Text → Piece

abbrev pub open_brace : ℕ
open_brace = 123

abbrev pub close_brace : ℕ
close_brace = 125

abbrev pub is_missing : (Text → Option Text) → Piece → Bool
is_missing values (literal c) = false
is_missing values (field name) = is_none (values name)

abbrev pub inserted : Option Text → Text
inserted none = []
inserted (some value) = value

abbrev pub written : (Text → Option Text) → Piece → Text
written values (literal c) = c ∷ []
written values (field name) = inserted (values name)

unfoldable pub render : (Text → Option Text) → List Piece → Text
render values [] = []
render values (p ∷ ps) = written values p ++ render values ps

-- Two closing braces after a name.
abbrev pub closes : Text → Bool
closes (c ∷ (d ∷ t)) = c == close_brace && d == close_brace
closes _ = false

abbrev pub named : Text × Text → Option Text
named ([], rest) = none
named (c ∷ name, rest) = if closes rest then some (c ∷ name) else none

-- What re.UNICODE takes for `\w`.
module _ (is_word : ℕ → Bool) where
  -- A run of word characters with what follows it.
  unfoldable pub word : Text → Text × Text
  word [] = ([], [])
  word (c ∷ t) = let rest = word t in if is_word c then (c ∷ rest.0, rest.1) else ([], c ∷ t)

  -- PROMPT_PLACEHOLDER at the start of a text.
  unfoldable pub match_field : Text → Option Text
  unfolding word
  match_field (c ∷ (d ∷ t)) = if c == open_brace && d == open_brace then named (word t) else none
  match_field _ = none

  -- The matches of PROMPT_PLACEHOLDER and the characters between them, after `skip` characters.
  unfoldable pub pieces : ℕ → Text → List Piece
  unfolding match_field
  pieces skip [] = []
  pieces (suc skip) (c ∷ t) = pieces skip t
  pieces zero (c ∷ t) = elim (match_field (c ∷ t)) [
    | none ↦ literal c ∷ pieces 0 t
    | some name ↦ field name ∷ pieces (length name + 3) t
  ]

  unfoldable pub load_prompt : Text → (Text → Option Text) → Result Text
  unfolding strip pieces render
  load_prompt template values =
      let ps = pieces 0 (strip template) in
      if any (is_missing values) ps then err value_error else ok (render values ps)

-- The experiments of registry.py.
pub data Experiment : Type 0 where
  unaided oracle_execution no_sketch oracle_sketch alt_sketch : Experiment
  continue_unaided continue_oracle : Experiment

abbrev pub sketch_role : Experiment → Option Text
sketch_role unaided = none
sketch_role no_sketch = none
sketch_role continue_unaided = none
sketch_role alt_sketch = some (codes "alternate")
sketch_role _ = some (codes "reference")

abbrev pub has_text : Option Text → Bool
has_text none = false
has_text (some t) = not (is_blank t)

-- `Unaided.__init__`
unfoldable pub check_sketch : Experiment → Option Text → Result (Unit {0})
unfolding is_blank
check_sketch e sketch =
    if is_none (sketch_role e) && not (is_none sketch)
    then err value_error
    else if not (is_none (sketch_role e)) && not (has_text sketch)
    then err value_error
    else ok tt

-- The prompt files, and what the prompts use of Python: `\w` and `str` of a number.
pub record Prompts : Type 0 where
  pub is_word : ℕ → Bool
  pub str : ℕ → Text
  pub solve_file : Text
  pub critique_file : Text
  pub revise_file : Text
  pub sketch_file : Text
  pub continue_file : Text

-- A dictionary by its items.
unfoldable pub value_of : List (Text × Text) → Text → Option Text
unfolding text_eq
value_of [] name = none
value_of ((k, v) ∷ d) name = let rest = value_of d name in if text_eq k name then some v else rest

abbrev pub blank_line : Text
blank_line = 10 ∷ 10 ∷ []

unfoldable pub append_sketch : Prompts → Text → Text → Result Text
unfolding load_prompt value_of
append_sketch p sketch prompt =
    after (load_prompt p.is_word p.sketch_file (value_of ((codes "sketch", sketch) ∷ [])))
      (λ shown. ok (prompt ++ blank_line ++ shown))

-- `SelfRefine._get_solve_prompt`
unfoldable pub shared_solve_prompt : Prompts → RefinementState → Result Text
unfolding load_prompt value_of
shared_solve_prompt p s =
    load_prompt p.is_word p.solve_file (
      value_of ((codes "budget_tokens", p.str s.budget_tokens) ∷ (codes "problem", s.problem) ∷ []))

-- `Unaided._append_sketch` asserts that there is a sketch.
abbrev pub with_sketch : Prompts → Option Text → Text → Result Text
with_sketch p none prompt = err other_error
with_sketch p (some sketch) prompt = append_sketch p sketch prompt

abbrev pub get_solve_prompt : Prompts → Experiment → Option Text → RefinementState → Result Text
get_solve_prompt p oracle_execution k s = after (shared_solve_prompt p s) (with_sketch p k)
get_solve_prompt p oracle_sketch k s = after (shared_solve_prompt p s) (with_sketch p k)
get_solve_prompt p alt_sketch k s = after (shared_solve_prompt p s) (with_sketch p k)
get_solve_prompt p _ k s = shared_solve_prompt p s

unfoldable pub shared_continue_prompt : Prompts → Result Text
unfolding load_prompt value_of
shared_continue_prompt p =
    load_prompt p.is_word p.continue_file
      (value_of ((codes "budget_tokens", p.str output_tokens_per_block) ∷ []))

-- The first continuation, of which a rollback may have left nothing.
abbrev pub continued : RefinementState → Text → Text
continued s prompt = if s.output_tokens == 0 then s.problem ++ blank_line ++ prompt else prompt

unfoldable pub shared_phase_prompt : Prompts → Result Text → Phase → Result Text
unfolding load_prompt value_of
shared_phase_prompt p solving solve = solving
shared_phase_prompt p solving critique = load_prompt p.is_word p.critique_file (
    value_of (
      (codes "no_gaps_verdict", codes "VERDICT: NO_GAPS")
      ∷ (codes "gaps_found_verdict", codes "VERDICT: GAPS_FOUND")
      ∷ []))
shared_phase_prompt p solving _ = load_prompt p.is_word p.revise_file (value_of [])

abbrev pub is_continue : Phase → Bool
is_continue continue = true
is_continue _ = false

-- `SelfRefine._get_phase_prompt`, with the solve prompt of the experiment, and the override of
-- `ContinueUnaided`.
unfoldable pub get_phase_prompt : Prompts → Experiment → Option Text → RefinementState → Result Text
unfolding shared_phase_prompt shared_continue_prompt shared_solve_prompt append_sketch
get_phase_prompt p continue_unaided k s =
    if is_continue s.phase
    then after (shared_continue_prompt p) (λ t. ok (continued s t))
    else shared_phase_prompt p (get_solve_prompt p continue_unaided k s) s.phase
get_phase_prompt p continue_oracle k s =
    if is_continue s.phase
    then after (after (shared_continue_prompt p) (with_sketch p k)) (λ t. ok (continued s t))
    else shared_phase_prompt p (get_solve_prompt p continue_oracle k s) s.phase
get_phase_prompt p e k s = shared_phase_prompt p (get_solve_prompt p e k s) s.phase
