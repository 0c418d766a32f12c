-- ===== src/Storage/Archive.antt =====
-- `SessionManager._validate_archive_entries` of harness/session/session_manager.py. A path is what
-- PurePosixPath makes of a file name: whether it is absolute, and its parts.
use de_framework.Exec.{Result, require, value_error, ok}
use de_framework.Text.{Text, text_eq, codes, text_eq_refl}
use de_framework.Prelude.{
  Bool, List, any, false, ◌∷◌, [], if◌then◌else◌, ◌||◌, map, true, ◌&&◌, not, ℕ, length, ◌≡◌,
  get_elem?, ◌==◌, some, arith, suc, zero, refl, ◌++◌, ◌≢◌, All, Bool-cases, ◌⊎◌, inl, inr,
}

pub record PurePosixPath : Type 0 where
  pub is_absolute : Bool
  pub parts : List Text

-- An entry's path, and whether its mode is that of a symbolic link.
pub record ZipInfo : Type 0 where
  pub path : PurePosixPath
  pub is_link : Bool

unfoldable pub parts_eq : List Text → List Text → Bool
unfolding text_eq
parts_eq [] [] = true
parts_eq (a ∷ p) (b ∷ q) = text_eq a b && parts_eq p q
parts_eq _ _ = false

-- The proper prefixes of the parts, the empty one included.
unfoldable pub parents : List Text → List (List Text)
parents [] = []
parents (a ∷ p) = [] ∷ map (λ q. a ∷ q) (parents p)

abbrev pub links : List ZipInfo → List (List Text)
links [] = []
links (e ∷ es) = if e.is_link then e.path.parts ∷ links es else links es

abbrev pub in_links : List ZipInfo → List Text → Bool
in_links es p = any (λ l. parts_eq l p) (links es)

abbrev pub workspace_directory : Text
workspace_directory = codes "workspace"

abbrev pub sdk_directory : Text
sdk_directory = codes "sdk"

abbrev pub is_root : List Text → Bool
is_root [] = false
is_root (a ∷ p) = text_eq a workspace_directory || text_eq a sdk_directory

abbrev pub parent_directory : Text
parent_directory = codes ".."

unfoldable pub is_unsafe : List ZipInfo → ZipInfo → Bool
unfolding parts_eq parents text_eq
is_unsafe es e =
    let p = e.path.parts in
    e.path.is_absolute
    || any (λ a. text_eq a parent_directory) p
    || not (is_root p)
    || any (in_links es) (parents p)
    || (in_links es p && length p == 1)

unfoldable pub validate_archive_entries : List ZipInfo → Result (Unit {0})
unfolding is_unsafe
validate_archive_entries es = require (not (any (is_unsafe es) es)) value_error

any_elem {ℓ} :
    {A : Type ℓ} (f : A → Bool) (xs : List A) (i : ℕ) (x : A)
    → any f xs ≡ false
    → get_elem? xs i ≡ some x
    → f x ≡ false
any_elem f [] i x h e = cc
any_elem f (y ∷ xs) zero x h e = grind arith
any_elem f (y ∷ xs) (suc i) x h e = any_elem f xs i x (ground arith) e

parts_eq_refl : (p : List Text) → parts_eq p p ≡ true
unfolding parts_eq
parts_eq_refl [] = refl
parts_eq_refl (a ∷ p) = grind (arith, text_eq_refl a, parts_eq_refl p)

any-map {ℓ κ} :
    {A : Type ℓ} {B : Type κ} (f : B → Bool) (g : A → B) (xs : List A)
    → any f (map g xs) ≡ any (λ x. f (g x)) xs
any-map f g [] = refl
any-map f g (x ∷ xs) = grind (arith, any-map f g xs)

any-parents :
    (f : List Text → Bool) (l : List Text) (a : Text) (r : List Text)
    → f l ≡ true
    → any f (parents (l ++ a ∷ r)) ≡ true
unfolding parents
any-parents f [] a r h = ground arith
any-parents f (b ∷ l) a r h =
    grind
      (arith, any-parents (λ q. f (b ∷ q)) l a r h, any-map f (λ q. b ∷ q) (parents (l ++ a ∷ r)))

link-in :
    (es : List ZipInfo) (j : ℕ) (e : ZipInfo)
    → get_elem? es j ≡ some e
    → e.is_link ≡ true
    → in_links es e.path.parts ≡ true
link-in [] j e h k = cc
link-in (d ∷ es) zero e h k = grind (arith, parts_eq_refl e.path.parts)
link-in (d ∷ es) (suc j) e h k = grind (arith, link-in es j e h k)

-- The one is no link, or the other does not lie beneath it.
abbrev pub IsNotBelow : ZipInfo → ZipInfo → Type 0
IsNotBelow l e =
    (l.is_link ≡ false) ⊎ ((a : Text) (r : List Text) → e.path.parts ≢ l.path.parts ++ a ∷ r)

above-IsNotBelow :
    (es : List ZipInfo) (l e : ZipInfo)
    → any (in_links es) (parents e.path.parts) ≡ false
    → (l.is_link ≡ true → in_links es l.path.parts ≡ true)
    → IsNotBelow l e
above-IsNotBelow es l e h k = elim (Bool-cases l.is_link) [
  | inl link ↦
      inr (λ a r under. grind (arith, h, k link, any-parents (in_links es) l.path.parts a r))
  | inr none ↦ inl none
]

All-elem :
    (P : ZipInfo → Type 0) (es : List ZipInfo)
    → ((j : ℕ) (l : ZipInfo) → get_elem? es j ≡ some l → P l)
    → All P es
All-elem P [] h = tt
All-elem P (l ∷ es) h = (h 0 l refl, All-elem P es (λ j. h (suc j)))

-- What the validation promises of an entry: a relative path below the workspace or the SDK directory
-- without a parent step, that is not a link in place of that directory, and lies beneath no link.
pub record IsSafeEntry (es : List ZipInfo) (e : ZipInfo) : Type 0 where
  pub relative : e.path.is_absolute ≡ false
  pub descends : any (λ a. text_eq a parent_directory) e.path.parts ≡ false
  pub rooted : is_root e.path.parts ≡ true
  pub no_root_link : (e.is_link && length e.path.parts == 1) ≡ false
  pub beneath_no_link : All (λ l. IsNotBelow l e) es

-- In an accepted archive every entry is a relative path below the workspace or the SDK directory
-- without a parent step, is no link in place of one of the two, and lies beneath no link of the
-- archive, wherever the two stand.
pub validate_archive_entries-IsSafe :
    (es : List ZipInfo) (i : ℕ) (e : ZipInfo)
    → validate_archive_entries es ≡ ok tt
    → get_elem? es i ≡ some e
    → IsSafeEntry es e
unfolding validate_archive_entries is_unsafe
validate_archive_entries-IsSafe es i e h ei =
    let safe = any_elem (is_unsafe es) es i e (ground arith) ei in
    record {
      relative = ground arith;
      descends = ground arith;
      rooted = ground arith;
      no_root_link = grind (arith, link-in es i e ei);
      beneath_no_link =
          All-elem (λ l. IsNotBelow l e) es
            (λ j l lj. above-IsNotBelow es l e (ground arith) (link-in es j l lj));
    }
