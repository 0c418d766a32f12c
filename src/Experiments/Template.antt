-- ===== src/Experiments/Template.antt =====
-- The substitution of prompt_loader.py against the text of the template.
use de_framework.Experiments.{
  closes, match_field, open_brace, word, close_brace, named, pieces, render, Piece, literal, field,
}
use de_framework.Text.{Text}
use mathlib.Core.Path.{ap₂}
use de_framework.Prelude.{
  refl, ℕ, Bool, [], length, suc, ◌≡◌, true, zero, ◌++◌, ◌∷◌, arith, some, ◌+◌, sym, ◌∙◌, ap,
  append_assoc, List, Option, none,
}

-- A field as it is spelled in a template.
abbrev pub spelled : Text → Text
spelled name = open_brace ∷ open_brace ∷ name ++ close_brace ∷ close_brace ∷ []

abbrev pub drop : ℕ → Text → Text
drop zero t = t
drop (suc n) [] = []
drop (suc n) (c ∷ t) = drop n t

drop_nil : (n : ℕ) → drop n [] ≡ []
drop_nil zero = refl
drop_nil (suc n) = refl

drop_spelled :
    (name v : Text) → drop (suc (suc (length name))) (name ++ close_brace ∷ close_brace ∷ v) ≡ v
drop_spelled [] v = refl
drop_spelled (c ∷ name) v = drop_spelled name v

named_lem :
    (run rest name : Text) → named (run, rest) ≡ some name → (run ≡ name) × (closes rest ≡ true)
named_lem [] rest name h = cc
named_lem (c ∷ run) rest name h = (ground (arith, h), ground (arith, h))

module _ (is_word : ℕ → Bool) where
  word_lem : (t : Text) → (word is_word t).0 ++ (word is_word t).1 ≡ t
  unfolding word
  word_lem [] = refl
  word_lem (c ∷ t) = ground (arith, word_lem t)

  closes_lem : (t : Text) → closes t ≡ true → t ≡ close_brace ∷ close_brace ∷ drop 2 t
  closes_lem [] h = cc
  closes_lem (c ∷ []) h = cc
  closes_lem (c ∷ (d ∷ t)) h = ground (arith, h)

  -- A match is the field as it is spelled, and what follows is what `pieces` goes on with.
  match_field_lem :
      (c : ℕ) (t name : Text)
      → match_field is_word (c ∷ t) ≡ some name
      → c ∷ t ≡ spelled name ++ drop (length name + 3) t
  unfolding match_field
  match_field_lem c [] name h = cc
  match_field_lem c (d ∷ t) name h =
      let run = word is_word t in
      let opened : named run ≡ some name = ground (arith, h) in
      let (same, closed) = named_lem run.0 run.1 name opened in
      let v = drop 2 run.1 in
      let whole : t ≡ name ++ close_brace ∷ close_brace ∷ v =
        sym (word_lem t) ∙ ap₂ (λ x y. x ++ y) same (closes_lem run.1 closed) in
      let left : drop (length name + 3) (d ∷ t) ≡ v =
        ap (λ k. drop k (d ∷ t)) {x = length name + 3} {y = suc (suc (suc (length name)))}
          (omega arith)
        ∙ ap (drop (suc (suc (length name)))) whole
        ∙ drop_spelled name v in
      let braces : (c ≡ open_brace) × (d ≡ open_brace) = (ground (arith, h), ground (arith, h)) in
      let closing : Text = close_brace ∷ close_brace ∷ [] in
      let tail : t ≡ (name ++ closing) ++ drop (length name + 3) (d ∷ t) =
        whole ∙ sym (append_assoc name closing v) ∙ ap (λ u. (name ++ closing) ++ u) (sym left) in
      ap₂ (λ x y. x ∷ y) braces.0 (ap₂ (λ x y. x ∷ y) braces.1 tail)

  abbrev spell : List Piece → Text
  spell = render (λ name. some (spelled name))

  spell_step :
      (c : ℕ) (t : Text) (o : Option Text)
      → match_field is_word (c ∷ t) ≡ o
      → spell (pieces is_word 0 t) ≡ t
      → ((name : Text) → spell (pieces is_word (length name + 3) t) ≡ drop (length name + 3) t)
      → spell (elim o [
        | none ↦ literal c ∷ pieces is_word 0 t
        | some name ↦ field name ∷ pieces is_word (length name + 3) t
      ])
        ≡ c ∷ t
  unfolding render
  spell_step c t none h plain found = ap (λ r. c ∷ r) plain
  spell_step c t (some name) h plain found =
      ap (λ r. spelled name ++ r) (found name) ∙ sym (match_field_lem c t name h)

  -- The parts of a template, each as it is spelled, are the template: nothing is lost, and every
  -- field that is substituted stands there in double braces.
  pub pieces_lem :
      (skip : ℕ) (t : Text)
      → render (λ name. some (spelled name)) (pieces is_word skip t) ≡ drop skip t
  unfolding pieces render
  pieces_lem skip [] = sym (drop_nil skip)
  pieces_lem (suc skip) (c ∷ t) = pieces_lem skip t
  pieces_lem zero (c ∷ t) =
      spell_step c t (match_field is_word (c ∷ t)) refl (pieces_lem 0 t)
        (λ name. pieces_lem (length name + 3) t)
