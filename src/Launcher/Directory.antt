-- ===== src/Launcher/Directory.antt =====
-- `validate_model` and `encode_model_directory` of launcher/models.py, with the patterns of
-- launcher/constants.py.
use de_framework.Exec.{Result, after, ok, err, value_error}
use de_framework.Text.{Text, split_from, text_eq, in_texts, codes}
use de_framework.Prelude.{
  ℕ, Bool, all, if◌then◌else◌, ◌/◌, ◌∷◌, ◌≡◌, arith, false, leb, ltb, not, true, ◌%◌, ◌==◌, ◌||◌,
  [], any, ◌&&◌, ◌+◌, ◌∙◌, refl, sym,
}

-- Membership of [A-Z], [A-Za-z0-9] and [A-Za-z0-9_./-].
abbrev pub is_upper : ℕ → Bool
is_upper c = leb 65 c && leb c 90

abbrev pub is_alphanumeric : ℕ → Bool
is_alphanumeric c = is_upper c || (leb 97 c && leb c 122) || (leb 48 c && leb c 57)

abbrev pub is_name_char : ℕ → Bool
is_name_char c = is_alphanumeric c || c == 95 || (leb 45 c && leb c 47)

unfoldable pub matches_name : Text → Bool
matches_name [] = false
matches_name (c ∷ t) = is_alphanumeric c && all is_name_char t

abbrev pub slash : ℕ
slash = 47

unfoldable pub validate_model : Text → Result (Unit {0})
unfolding matches_name split_from text_eq
validate_model model =
    if not (matches_name model)
      || any (λ p. in_texts p ([] ∷ codes "." ∷ codes ".." ∷ [])) (split_from slash [] model)
    then err value_error
    else ok tt

-- "%" and the two digits of f"{ord(c):02X}", for a slash or an upper-case letter.
abbrev pub hex_digit : ℕ → ℕ
hex_digit d = if ltb d 10 then 48 + d else 55 + d

abbrev pub is_escaped : ℕ → Bool
is_escaped c = c == slash || is_upper c

unfoldable pub escape : Text → Text
escape [] = []
escape (c ∷ t) =
    let rest = escape t in
    if is_escaped c then 37 ∷ hex_digit (c / 16) ∷ hex_digit (c % 16) ∷ rest else c ∷ rest

unfoldable pub encode_model_directory : Text → Result Text
unfolding validate_model escape
encode_model_directory model = after (validate_model model) (λ _. ok (escape model))

hex_digit_inj : (a b : ℕ) → hex_digit a ≡ hex_digit b → a ≡ b
hex_digit_inj a b h = ground arith

byte_inj : (c d : ℕ) → c / 16 ≡ d / 16 → c % 16 ≡ d % 16 → c ≡ d
byte_inj c d h k = omega arith

escape_inj :
    (s t : Text)
    → all is_name_char s ≡ true
    → all is_name_char t ≡ true
    → escape s ≡ escape t
    → s ≡ t
unfolding escape
escape_inj [] [] m n h = refl
escape_inj [] (d ∷ t) m n h = ground arith
escape_inj (c ∷ s) [] m n h = ground arith
escape_inj (c ∷ s) (d ∷ t) m n h = grind (
  arith,
  escape_inj s t,
  byte_inj c d,
  hex_digit_inj (c / 16) (d / 16),
  hex_digit_inj (c % 16) (d % 16),
)

name-chars : (t : Text) → matches_name t ≡ true → all is_name_char t ≡ true
unfolding matches_name
name-chars [] h = refl
name-chars (c ∷ t) h = ground arith

encoded :
    (model d : Text)
    → encode_model_directory model ≡ ok d
    → (matches_name model ≡ true) × (escape model ≡ d)
unfolding encode_model_directory validate_model
encoded model d h = ground arith

-- Two models never share a result directory.
pub encode_model_directory_inj :
    (a b d : Text) → encode_model_directory a ≡ ok d → encode_model_directory b ≡ ok d → a ≡ b
encode_model_directory_inj a b d h k =
    let (m, e) = encoded a d h in
    let (n, f) = encoded b d k in escape_inj a b (name-chars a m) (name-chars b n) (e ∙ sym f)
