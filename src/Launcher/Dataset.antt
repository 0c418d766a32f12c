-- ===== src/Launcher/Dataset.antt =====
-- `Dataset` of launcher/dataset.py over decoded rows, and `Problem` of launcher/models.py. A row has
-- all fields that the code reads.
pub mod Selection
use de_framework.Launcher.Config.{dataset_names}
use de_framework.Storage.Manager.{is_empty_list, is_none}
use de_framework.Exec.{Result, after, err, ok, require, value_error}
use de_framework.Launcher.Directory.{is_name_char, is_alphanumeric, slash}
use de_framework.Audit.Models.{audit_reference, AuditReference}
use de_framework.Text.{Text, is_blank, text_eq, codes, in_texts}
use de_framework.Prelude.{
  ℕ, Bool, List, Option, any, false, none, true, ◌∷◌, if◌then◌else◌, some, ◌&&◌, [], all, not, ◌||◌,
  ◌++◌, ◌==◌,
}

-- A match of SAFE_COMPONENT, the name pattern without a slash.
abbrev pub is_safe_char : ℕ → Bool
is_safe_char c = is_name_char c && not (c == slash)

unfoldable pub is_safe_component : Text → Bool
is_safe_component [] = false
is_safe_component (c ∷ t) = is_alphanumeric c && all is_safe_char t

pub record Problem : Type 0 where
  pub problem_id : Text
  pub statement : Text
  pub domain : Text
  pub sketch : Option Text

unfoldable pub check_problem : Problem → Result Problem
unfolding is_safe_component is_blank
check_problem p =
    if not (is_safe_component p.problem_id)
    then err value_error
    else if is_blank p.statement || is_blank p.domain
    then err value_error
    else ok p

pub record Solution : Type 0 where
  pub role : Text
  pub sketch : Text
  pub proof : Text
  pub steps : List Text

pub record Row : Type 0 where
  pub problem_id : Text
  pub statement : Text
  pub domain : Text
  pub solutions : List Solution

unfoldable pub with_role : Text → List Solution → List Solution
unfolding text_eq
with_role role [] = []
with_role role (s ∷ ss) =
    let rest = with_role role ss in if text_eq s.role role then s ∷ rest else rest

abbrev pub only_sketch : List Solution → Result (Option Text)
only_sketch [] = ok none
only_sketch (s ∷ []) = ok (some s.sketch)
only_sketch (s ∷ (t ∷ ss)) = err value_error

unfoldable pub select_sketch : Row → Option Text → Result (Option Text)
unfolding with_role
select_sketch row none = ok none
select_sketch row (some role) = only_sketch (with_role role row.solutions)

unfoldable pub by_id : Text → List Problem → Option Problem
unfolding text_eq
by_id id [] = none
by_id id (p ∷ ps) = if text_eq p.problem_id id then some p else by_id id ps

unfoldable pub read_problem : Option Text → Row → Result Problem
unfolding select_sketch check_problem
read_problem role row = after (select_sketch row role) (λ sketch. check_problem (record {
  problem_id = row.problem_id;
  statement = row.statement;
  domain = row.domain;
  sketch = sketch;
}))

-- The problems read so far come first.
unfoldable pub read_problems : Option Text → List Row → List Problem → Result (List Problem)
unfolding read_problem by_id
read_problems role [] ps = ok ps
read_problems role (row ∷ rows) ps = after (read_problem role row) (λ p.
    if is_none (by_id p.problem_id ps)
    then read_problems role rows (ps ++ p ∷ [])
    else err value_error)

unfoldable pub in_domain : Text → List Problem → List Problem
unfolding text_eq
in_domain domain [] = []
in_domain domain (p ∷ ps) =
    let rest = in_domain domain ps in if text_eq p.domain domain then p ∷ rest else rest

abbrev pub select_domain : Option Text → List Problem → Result (List Problem)
select_domain none ps = ok ps
select_domain (some domain) ps =
    if is_empty_list (in_domain domain ps) then err value_error else ok (in_domain domain ps)

abbrev pub found : Option Problem → Result Problem
found none = err value_error
found (some p) = ok p

unfoldable pub pick : List Text → List Problem → Result (List Problem)
unfolding by_id
pick [] ps = ok []
pick (id ∷ ids) ps = after (found (by_id id ps)) (λ p. after (pick ids ps) (λ qs. ok (p ∷ qs)))

abbrev pub select_ids : Option (List Text) → List Problem → Result (List Problem)
select_ids none ps = ok ps
select_ids (some ids) ps = pick ids ps

-- A problem that has the sketch its experiment requires.
abbrev pub has_sketch : Option Text → Bool
has_sketch none = false
has_sketch (some sketch) = not (is_blank sketch)

abbrev pub meets_role : Option Text → Problem → Bool
meets_role none p = true
meets_role (some role) p = has_sketch p.sketch

unfoldable pub load :
    Text → Option (List Text) → Option Text → Option Text → List Row → Result (List Problem)
unfolding read_problems in_domain pick is_blank text_eq
load name ids domain role rows = after (require (in_texts name dataset_names) value_error) (λ _.
    after (read_problems role rows []) (λ read. after (select_domain domain read) (λ here.
      after (select_ids ids here) (λ ps.
        after (require (not (is_empty_list ps) && all (meets_role role) ps) value_error)
          (λ _. ok ps)))))

-- The references of the selected problems.
unfoldable pub only_reference : List Solution → Result AuditReference
unfolding audit_reference
only_reference (s ∷ []) = audit_reference s.proof s.steps
only_reference _ = err value_error

abbrev pub reference_role : Text
reference_role = codes "reference"

abbrev pub is_known {ℓ} : {A : Type ℓ} → Text → List (Text × A) → Bool
is_known id rs = any (λ r. text_eq r.0 id) rs

unfoldable pub add_reference :
    List Problem → Row → List (Text × AuditReference) → Result (List (Text × AuditReference))
unfolding by_id with_role only_reference text_eq
add_reference problems row refs = add (by_id row.problem_id problems)
  where
    add : Option Problem → Result (List (Text × AuditReference))
    add none = ok refs
    add (some p) =
        if is_known row.problem_id refs || not (text_eq row.statement p.statement)
        then err value_error
        else after (only_reference (with_role reference_role row.solutions))
            (λ r. ok (refs ++ (row.problem_id, r) ∷ []))

unfoldable pub add_references :
    List Problem → List Row → List (Text × AuditReference) → Result (List (Text × AuditReference))
unfolding add_reference
add_references problems [] refs = ok refs
add_references problems (row ∷ rows) refs =
    after (add_reference problems row refs) (add_references problems rows)

unfoldable pub load_references :
    Text → List Problem → List Row → Result (List (Text × AuditReference))
unfolding add_references text_eq
load_references name problems rows = after (require (in_texts name dataset_names) value_error) (λ _.
    after (add_references problems rows []) (λ refs.
      after (require (all (λ p. is_known p.problem_id refs) problems) value_error) (λ _. ok refs)))
