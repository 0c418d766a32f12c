-- ===== src/Frameworks/Subsets.antt =====
-- `math.comb` by Pascal's rule, which counts the subsets of a list.
use de_framework.Frameworks.Counts.{as_int}
use de_framework.Prelude.{
  refl, ℕ, Bool, List, suc, ◌≤◌, [], any, arith, map, not, true, ◌++◌, ◌+◌, ◌<◌, ◌∷◌, ◌≡◌, length,
  zero, false, ap,
}

unfoldable pub comb : ℕ → ℕ → ℕ
comb n zero = 1
comb zero (suc k) = 0
comb (suc n) (suc k) = comb n k + comb n (suc k)

-- The subsets of `k` positions of a list, each in the order of the list.
unfoldable pub subsets {ℓ} : {A : Type ℓ} → ℕ → List A → List (List A)
subsets zero xs = [] ∷ []
subsets (suc k) [] = []
subsets (suc k) (x ∷ xs) = map (λ s. x ∷ s) (subsets k xs) ++ subsets (suc k) xs

abbrev pub count {ℓ} : {A : Type ℓ} → (A → Bool) → List A → ℕ
count p [] = 0
count p (x ∷ xs) = as_int (p x) + count p xs

module _ {ℓ} {A : Type ℓ} where
  pub count_append : (p : A → Bool) (xs ys : List A) → count p (xs ++ ys) ≡ count p xs + count p ys
  count_append p [] ys = omega arith
  count_append p (x ∷ xs) ys = omega (arith, count_append p xs ys)

module _ {ℓ κ} {A : Type ℓ} {B : Type κ} where
  pub count-map :
      (p : B → Bool) (f : A → B) (xs : List A) → count p (map f xs) ≡ count (λ x. p (f x)) xs
  count-map p f [] = refl
  count-map p f (x ∷ xs) = omega (arith, count-map p f xs)

abbrev pub identity : Bool → Bool
identity b = b

abbrev pub has_success : List Bool → Bool
has_success = any identity

abbrev pub only_failures : List Bool → Bool
only_failures s = not (has_success s)

count_none : (xss : List (List Bool)) → count (λ s. only_failures (true ∷ s)) xss ≡ 0
count_none [] = refl
count_none (x ∷ xs) = omega (arith, count_none xs)

count_failed :
    (xss : List (List Bool)) → count (λ s. only_failures (false ∷ s)) xss ≡ count only_failures xss
count_failed [] = refl
count_failed (x ∷ xs) = omega (arith, count_failed xs)

pub count-subsets : (k : ℕ) (xs : List Bool) → count (λ _. true) (subsets k xs) ≡ comb (length xs) k
unfolding subsets comb
count-subsets zero [] = refl
count-subsets zero (x ∷ xs) = refl
count-subsets (suc k) [] = refl
count-subsets (suc k) (x ∷ xs) = omega (
  arith,
  count_append (λ _. true) (map (λ s. x ∷ s) (subsets k xs)) (subsets (suc k) xs),
  count-map (λ _. true) (λ s. x ∷ s) (subsets k xs),
  count-subsets k xs,
  count-subsets (suc k) xs,
)

comb_add : (n k : ℕ) → comb (1 + n) (suc k) ≡ comb n k + comb n (suc k)
unfolding comb
comb_add n k = ap (λ m. comb m (suc k)) {x = 1 + n} {y = suc n} (omega arith)

comb_add_failure :
    (k : ℕ) (xs : List Bool)
    → comb (count not (false ∷ xs)) (suc k) ≡ comb (count not xs) k + comb (count not xs) (suc k)
comb_add_failure k xs = comb_add (count not xs) k

comb_add_success :
    (k : ℕ) (xs : List Bool) → comb (count not (true ∷ xs)) (suc k) ≡ comb (count not xs) (suc k)
comb_add_success k xs =
    ap (λ m. comb m (suc k)) {x = count not (true ∷ xs)} {y = count not xs} (omega arith)

-- The subsets without a success are those of the failures.
pub count_failures :
    (k : ℕ) (xs : List Bool) → count only_failures (subsets k xs) ≡ comb (count not xs) k
unfolding subsets comb
count_failures zero [] = refl
count_failures zero (x ∷ xs) = refl
count_failures (suc k) [] = refl
count_failures (suc k) (true ∷ xs) = omega (
  arith,
  count_append only_failures (map (λ s. true ∷ s) (subsets k xs)) (subsets (suc k) xs),
  count-map only_failures (λ s. true ∷ s) (subsets k xs),
  comb_add_success k xs,
  count_none (subsets k xs),
  count_failures (suc k) xs,
)
count_failures (suc k) (false ∷ xs) = omega (
  arith,
  count_append only_failures (map (λ s. false ∷ s) (subsets k xs)) (subsets (suc k) xs),
  count-map only_failures (λ s. false ∷ s) (subsets k xs),
  comb_add_failure k xs,
  count_failed (subsets k xs),
  count_failures k xs,
  count_failures (suc k) xs,
)

pub count_split :
    (xss : List (List Bool))
    → count has_success xss + count only_failures xss ≡ count (λ _. true) xss
count_split [] = refl
count_split (s ∷ xss) = ground (arith, count_split xss)

pub count_all : (xs : List Bool) → count identity xs + count not xs ≡ length xs
count_all [] = refl
count_all (true ∷ xs) = omega (arith, count_all xs)
count_all (false ∷ xs) = omega (arith, count_all xs)

-- Of the subsets of `k` trials, those with a success are all but those of the failures.
pub count_successes :
    (k : ℕ) (xs : List Bool)
    → count has_success (subsets k xs) + comb (count not xs) k ≡ comb (length xs) k
count_successes k xs =
    omega (arith, count_split (subsets k xs), count_failures k xs, count-subsets k xs)

pub comb_pos : (n k : ℕ) → k ≤ n → 0 < comb n k
unfolding comb
comb_pos n zero h = omega arith
comb_pos zero (suc k) h = omega arith
comb_pos (suc n) (suc k) h = omega (arith, comb_pos n k (omega arith))

pub comb_mono : (n m k : ℕ) → n ≤ m → comb n k ≤ comb m k
unfolding comb
comb_mono n m zero h = omega arith
comb_mono zero m (suc k) h = omega arith
comb_mono (suc n) zero (suc k) h = omega arith
comb_mono (suc n) (suc m) (suc k) h =
    omega (arith, comb_mono n m k (omega arith), comb_mono n m (suc k) (omega arith))
