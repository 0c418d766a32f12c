-- ===== src/Experiments/Tests.antt =====
-- The theorems about the prompts at small templates.
use de_framework.Exec.{ok}
use de_framework.Experiments.Arms.{extended, get_phase_prompt-control}
use de_framework.Experiments.Template.{spelled, drop, pieces_lem}
use de_framework.Text.{codes, strip, lstrip, is_space, is_line_break}
use de_framework.Refine.State.{RefinementState, new_state, Phase}
use de_framework.Experiments.{
  Prompts, get_phase_prompt, load_prompt, render, continue_oracle, pieces, match_field, word,
  continue_unaided,
}
use de_framework.Prelude.{refl, ℕ, Bool, leb, some, none, ◌&&◌, ◌≡◌, true}

abbrev is_letter : ℕ → Bool
is_letter c = leb 97 c && leb c 122

abbrev prompts : Prompts
prompts = record {
  is_word = is_letter;
  str = λ n. codes "7";
  solve_file = codes "solve {{problem}}";
  critique_file = codes "critique";
  revise_file = codes "revise";
  sketch_file = codes "see {{sketch}}";
  continue_file = codes "go on";
}

abbrev state : RefinementState
state = record (new_state (codes "P") 200000 none) { phase = Phase.continue }

pieces_lem_example :
    render (λ name. some (spelled name)) (pieces is_letter 0 (codes "a {{bc}} {d}"))
    ≡ drop 0 (codes "a {{bc}} {d}")
pieces_lem_example = pieces_lem is_letter 0 (codes "a {{bc}} {d}")

-- The inserted text is not read as a template.
inserted_once :
    load_prompt is_letter (codes "x{{a}}") (λ name. some (codes "{{b}}")) ≡ ok (codes "x{{b}}")
unfolding load_prompt pieces match_field word render strip lstrip is_space is_line_break
inserted_once = refl

get_phase_prompt-control_example :
    get_phase_prompt prompts continue_oracle (some (codes "k")) state
    ≡ extended prompts true
        (some (codes "k"))
        (get_phase_prompt prompts continue_unaided none state)
get_phase_prompt-control_example =
    get_phase_prompt-control prompts continue_oracle (some (codes "k")) state
