-- ===== src/Text.antt =====
-- Python's `str` as a list of code points, with `strip`, `splitlines` and the equality test that
-- the program uses. White space and line boundaries are those of `str.isspace` and
-- `str.splitlines`.
use Prim.Native.Char.{code}
use Prim.Native.String.{String}
use mathlib.Core.List.{reverse}
use mathlib.Core.Path.{ap₂}
use de_framework.Prelude.{
  Option, none, some, ℕ, Bool, true, false, ◌&&◌, ◌||◌, List, [], ◌∷◌, leb, ◌==◌, if◌then◌else◌,
  ◌≡◌, arith, refl, any, Bool-cases, inl, false≢true, sym, ◌∙◌, inr,
}

abbrev pub Text : Type 0
Text = List ℕ

abbrev pub codes : String → Text
codes String.[] = []
codes (String.◌∷◌ c s) = code c ∷ codes s

unfoldable pub is_line_break : ℕ → Bool
is_line_break c =
    (leb 10 c && leb c 13) || (leb 28 c && leb c 30) || c == 133 || c == 8232 || c == 8233

unfoldable pub is_space : ℕ → Bool
unfolding is_line_break
is_space c =
    is_line_break c
    || c == 9
    || c == 31
    || c == 32
    || c == 160
    || c == 5760
    || (leb 8192 c && leb c 8202)
    || c == 8239
    || c == 8287
    || c == 12288

unfoldable pub lstrip : Text → Text
unfolding is_space
lstrip [] = []
lstrip (c ∷ t) = let rest = lstrip t in if is_space c then rest else c ∷ t

unfoldable pub strip : Text → Text
unfolding lstrip
strip t = reverse (lstrip (reverse (lstrip t)))

-- `not t.strip()`
unfoldable pub is_blank : Text → Bool
unfolding is_space
is_blank [] = true
is_blank (c ∷ t) = is_space c && is_blank t

unfoldable pub text_eq : Text → Text → Bool
text_eq [] [] = true
text_eq [] (d ∷ u) = false
text_eq (c ∷ t) [] = false
text_eq (c ∷ t) (d ∷ u) = c == d && text_eq t u

-- The lines of a text without their ends, `line` being read in reverse. A carriage return and a
-- line feed that follow one another end one line.
unfoldable pub lines_from : Text → Text → List Text
unfolding is_line_break
lines_from [] [] = []
lines_from (d ∷ line) [] = reverse (d ∷ line) ∷ []
lines_from line (c ∷ []) = if is_line_break c then reverse line ∷ [] else reverse (c ∷ line) ∷ []
lines_from line (c ∷ (d ∷ t)) =
    let joined = lines_from [] t in
    let ended = lines_from [] (d ∷ t) in
    let longer = lines_from (c ∷ line) (d ∷ t) in
    if c == 13 && d == 10
    then reverse line ∷ joined
    else if is_line_break c
    then reverse line ∷ ended
    else longer

unfoldable pub splitlines : Text → List Text
unfolding lines_from
splitlines t = lines_from [] t

pub text_eq_refl : (a : Text) → text_eq a a ≡ true
unfolding text_eq
text_eq_refl [] = refl
text_eq_refl (x ∷ a) = ground (arith, text_eq_refl a)

pub text_eq_sound : (a b : Text) → text_eq a b ≡ true → a ≡ b
unfolding text_eq
text_eq_sound [] [] h = refl
text_eq_sound [] (y ∷ b) h = cc
text_eq_sound (x ∷ a) [] h = cc
text_eq_sound (x ∷ a) (y ∷ b) h = grind (arith, text_eq_sound a b (ground arith))

-- text.split(separator), the current part being read in reverse.
unfoldable pub split_from : ℕ → Text → Text → List Text
split_from c part [] = reverse part ∷ []
split_from c part (x ∷ t) =
    if x == c then reverse part ∷ split_from c [] t else split_from c (x ∷ part) t

abbrev pub in_texts : Text → List Text → Bool
in_texts t = any (λ u. text_eq u t)

-- Whether a list of texts has one twice.
unfoldable pub has_repeats : List Text → Bool
unfolding text_eq
has_repeats [] = false
has_repeats (t ∷ ts) = in_texts t ts || has_repeats ts

-- The rest of a text that starts with a prefix.
unfoldable pub after_prefix : Text → Text → Option Text
after_prefix [] t = some t
after_prefix (c ∷ p) [] = none
after_prefix (c ∷ p) (d ∷ t) = let rest = after_prefix p t in if c == d then rest else none

pub text_eq_apart :
    (p id q : Text) → text_eq p id ≡ false → text_eq p q ≡ true → text_eq id q ≡ false
text_eq_apart p id q h k = elim (Bool-cases (text_eq id q)) [
  | inl e ↦
      let p≡q = text_eq_sound p q k in
      let id≡q = text_eq_sound id q e in
      absurd (false≢true (sym h ∙ ap₂ text_eq p≡q id≡q ∙ text_eq_refl q))
  | inr e ↦ e
]
