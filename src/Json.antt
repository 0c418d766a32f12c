-- ===== src/Json.antt =====
-- JSON values, as `json.loads` returns them and `json.dumps` takes them, and the reads of a decoded
-- value. The text itself is not modelled: the standard library's decoder undoes its encoder.
-- Numbers are integers here, since the program stores no others in what is modelled.
use de_framework.Exec.{Result, err, ok, key_error, other_error, value_error, after}
use de_framework.Text.{Text, text_eq}
use de_framework.Prelude.{
  Bool, List, Option, ℕ, pos, some, ℤ, ◌∷◌, ◌≡◌, [], none, if◌then◌else◌, refl,
}

mutual
  pub data Json : Type 0 where
    null : Json
    boolean : Bool → Json
    number : ℤ → Json
    string : Text → Json
    array : Items → Json
    object : Fields → Json

  pub data Items : Type 0 where
    none_left : Items
    item : Json → Items → Items

  pub data Fields : Type 0 where
    no_fields : Fields
    field : Text → Json → Fields → Fields

abbrev pub nat : ℕ → Json
nat n = number (pos n)

unfoldable pub find_field : Text → Fields → Result Json
unfolding text_eq
find_field k no_fields = err key_error
find_field k (field j v rest) = if text_eq j k then ok v else find_field k rest

-- value[key]; what is no object raises TypeError.
unfoldable pub get_field : Text → Json → Result Json
unfolding find_field
get_field k (object fs) = find_field k fs
get_field k _ = err other_error

-- Reads at the type that the program expects. Python does not check the type at once; a value of
-- another type counts as malformed here, and so does a negative number.
unfoldable pub as_nat : Json → Result ℕ
as_nat (number (pos n)) = ok n
as_nat _ = err value_error

unfoldable pub as_bool : Json → Result Bool
as_bool (boolean b) = ok b
as_bool _ = err value_error

unfoldable pub as_text : Json → Result Text
as_text (string t) = ok t
as_text _ = err value_error

module _ {A : Type 0} where
  -- null as None
  unfoldable pub as_option : (Json → Result A) → Json → Result (Option A)
  as_option read null = ok none
  as_option read (boolean b) = after (read (boolean b)) (λ a. ok (some a))
  as_option read (number n) = after (read (number n)) (λ a. ok (some a))
  as_option read (string t) = after (read (string t)) (λ a. ok (some a))
  as_option read (array xs) = after (read (array xs)) (λ a. ok (some a))
  as_option read (object fs) = after (read (object fs)) (λ a. ok (some a))

  abbrev pub of_option : (A → Json) → Option A → Json
  of_option write none = null
  of_option write (some a) = write a

abbrev pub texts : List Text → Items
texts [] = none_left
texts (t ∷ ts) = item (string t) (texts ts)

unfoldable pub read_items : Items → Result (List Text)
unfolding as_text
read_items none_left = ok []
read_items (item j rest) = after (as_text j) (λ t. after (read_items rest) (λ ts. ok (t ∷ ts)))

unfoldable pub as_texts : Json → Result (List Text)
unfolding read_items
as_texts (array xs) = read_items xs
as_texts _ = err value_error

pub read_items-texts : (ts : List Text) → read_items (texts ts) ≡ ok ts
unfolding read_items
read_items-texts [] = refl
read_items-texts (t ∷ ts) = rw (read_items-texts ts)

pub as_option-of_nat : (o : Option ℕ) → as_option as_nat (of_option nat o) ≡ ok o
unfolding as_option as_nat
as_option-of_nat none = refl
as_option-of_nat (some n) = refl

pub as_option-of_text : (o : Option Text) → as_option as_text (of_option string o) ≡ ok o
unfolding as_option as_text
as_option-of_text none = refl
as_option-of_text (some t) = refl
