-- ===== src/Frameworks/Base/Settings.antt =====
-- The settings that base_framework.py predicts for, in their order.
use de_framework.Frameworks.Counts.{total_budget}
use de_framework.Frameworks.Base.{depths_of, num_arms}
use de_framework.Prelude.{
  refl, ℕ, List, All, Bool, ◌++◌, ◌∷◌, ◌≡◌, [], all, ap, map, true, ◌*◌, arith, leb, ◌∙◌, ◌≤◌, sym,
  append_assoc, ◌&&◌,
}

-- The arms and depths that a prediction is made for, in the order of the predictions.
abbrev pub settings : List (ℕ × ℕ)
settings =
    (1, 1)
    ∷ (1, 2)
    ∷ (1, 3)
    ∷ (1, 4)
    ∷ (1, 5)
    ∷ (1, 6)
    ∷ (1, 7)
    ∷ (1, 8)
    ∷ (2, 1)
    ∷ (2, 2)
    ∷ (2, 3)
    ∷ (2, 4)
    ∷ (4, 1)
    ∷ (4, 2)
    ∷ []

abbrev pub cells {ℓ} : {E : Type ℓ} → List (ℕ × ℕ) → List E → List ((ℕ × ℕ) × E)
cells [] ps = []
cells (s ∷ ss) ps = map (λ x. (s, x)) ps ++ cells ss ps

abbrev pub Pointwise {ℓ κ} : {A : Type ℓ} {B : Type κ} → (A → B → Type 0) → List A → List B → Type 0
Pointwise R [] [] = Unit
Pointwise R [] (b ∷ ys) = ⊥
Pointwise R (a ∷ xs) [] = ⊥
Pointwise R (a ∷ xs) (b ∷ ys) = R a b × Pointwise R xs ys

pub Pointwise-append {ℓ κ} :
    {A : Type ℓ} {B : Type κ} (R : A → B → Type 0) (xs us : List A) (ys vs : List B)
    → Pointwise R xs ys
    → Pointwise R us vs
    → Pointwise R (xs ++ us) (ys ++ vs)
Pointwise-append R [] us [] vs h k = k
Pointwise-append R [] us (b ∷ ys) vs h k = elim h [ ]
Pointwise-append R (a ∷ xs) us [] vs h k = elim h [ ]
Pointwise-append R (a ∷ xs) us (b ∷ ys) vs h k = (h.0, Pointwise-append R xs us ys vs h.1 k)

unfoldable pub pairs : List ℕ → List (ℕ × ℕ)
pairs [] = []
pairs (n ∷ ns) = map (λ k. (n, k)) (depths_of n) ++ pairs ns

pub pairs_are : pairs num_arms ≡ settings
unfolding pairs depths_of
pairs_are = refl

pub cells_append {ℓ} :
    {E : Type ℓ} (ss ts : List (ℕ × ℕ)) (ps : List E)
    → cells (ss ++ ts) ps ≡ cells ss ps ++ cells ts ps
cells_append [] ts ps = refl
cells_append (s ∷ ss) ts ps =
    ap (λ rest. map (λ x. (s, x)) ps ++ rest) (cells_append ss ts ps)
    ∙ sym (append_assoc (map (λ x. (s, x)) ps) (cells ss ps) (cells ts ps))

-- The depths of `n` arms stay within the budget.
abbrev pub Within : ℕ → List ℕ → Type 0
Within n = All (λ k. (n * k ≤ total_budget) × (k ≤ total_budget))

abbrev pub are_within : ℕ → List ℕ → Bool
are_within n = all (λ k. leb (n * k) total_budget && leb k total_budget)

pub within : (n : ℕ) (ks : List ℕ) → are_within n ks ≡ true → Within n ks
within n [] h = tt
within n (k ∷ ks) h = ((ground (arith, h), ground (arith, h)), within n ks (ground (arith, h)))
