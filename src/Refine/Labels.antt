-- ===== src/Refine/Labels.antt =====
-- Checkpoint labels as sets: membership in ranges and dictionaries.
use de_framework.Prelude.{
  ℕ, zero, suc, ◌+◌, ◌≡◌, refl, inl, inr, Bool, true, false, ◌&&◌, ◌||◌, Option, none, some, List,
  [], ◌∷◌, arith, ltb, leb, ◌==◌, if◌then◌else◌, length, all, Bool-cases, bool_ext,
}
use de_framework.Text.{Text}
use de_framework.Refine.State.{Checkpoints, keys, put, range_from, member, same_set}

pub member-range_from : (k a n : ℕ) → member k (range_from a n) ≡ (leb a k && ltb k (a + n))
unfolding range_from
member-range_from k a zero = ground arith
member-range_from k a (suc n) = ground (arith, member-range_from k (suc a) n)

pub all_elim :
    (p : ℕ → Bool) (xs : List ℕ) (k : ℕ) → all p xs ≡ true → member k xs ≡ true → p k ≡ true
all_elim p [] k h m = cc
all_elim p (x ∷ xs) k h m = elim (Bool-cases (x == k)) [
  | inl e ↦ ground arith
  | inr e ↦ all_elim p xs k (ground arith) (ground arith)
]

pub all_intro :
    (p : ℕ → Bool) (xs : List ℕ) → ((k : ℕ) → member k xs ≡ true → p k ≡ true) → all p xs ≡ true
all_intro p [] h = refl
all_intro p (x ∷ xs) h = ground (arith, h x, all_intro p xs (λ k m. h k (ground arith)))

-- The labels are exactly those from 1 to their number.
abbrev pub Contiguous : Checkpoints → Type 0
Contiguous d = (k : ℕ) → member k (keys d) ≡ (leb 1 k && leb k (length d))

pub length-range_from : (a n : ℕ) → length (range_from a n) ≡ n
unfolding range_from
length-range_from a zero = refl
length-range_from a (suc n) = omega (arith, length-range_from (suc a) n)

pub same_set-Contiguous :
    (d : Checkpoints) → same_set (keys d) (range_from 1 (length d)) ≡ true → Contiguous d
unfolding same_set
same_set-Contiguous d h k =
    let n = length d in
    bool_ext (member k (keys d)) (leb 1 k && leb k n)
      (λ m. ground (
        arith,
        all_elim (λ j. member j (range_from 1 n)) (keys d) k (ground arith) m,
        member-range_from k 1 n,
      ))
      (λ m.
        all_elim (λ j. member j (keys d)) (range_from 1 n) k (ground arith)
          (ground (arith, member-range_from k 1 n)))

pub Contiguous-same_set :
    (d : Checkpoints) → Contiguous d → same_set (keys d) (range_from 1 (length d)) ≡ true
unfolding same_set
Contiguous-same_set d h =
    let n = length d in
    ground (
      arith,
      all_intro (λ j. member j (range_from 1 n)) (keys d)
          (λ k m. ground (arith, h k, member-range_from k 1 n)),
      all_intro (λ j. member j (keys d)) (range_from 1 n)
          (λ k m. ground (arith, h k, member-range_from k 1 n)),
    )

-- Lookup by label.
abbrev pub get : ℕ → Checkpoints → Option (Option Text)
get k [] = none
get k ((j, v) ∷ d) = if j == k then some v else get k d

pub get-put :
    (k j : ℕ) (v : Option Text) (d : Checkpoints)
    → get j (put k v d) ≡ (if k == j then some v else get j d)
unfolding put
get-put k j v [] = refl
get-put k j v ((i, w) ∷ d) = ground (arith, get-put k j v d)

pub member-put :
    (k j : ℕ) (v : Option Text) (d : Checkpoints)
    → member j (keys (put k v d)) ≡ (k == j || member j (keys d))
unfolding put
member-put k j v [] = ground arith
member-put k j v ((i, w) ∷ d) = ground (arith, member-put k j v d)

pub length-put :
    (k : ℕ) (v : Option Text) (d : Checkpoints)
    → member k (keys d) ≡ false
    → length (put k v d) ≡ suc (length d)
unfolding put
length-put k v [] h = refl
length-put k v ((i, w) ∷ d) h = ground (arith, length-put k v d)

-- The next label extends the labels without a gap.
pub put-Contiguous :
    (v : Option Text) (d : Checkpoints) → Contiguous d → Contiguous (put (length d + 1) v d)
put-Contiguous v d h k =
    let n = length d in
    ground (
      arith,
      h k,
      h (n + 1),
      member-put (n + 1) k v d,
      length-put (n + 1) v d (ground (arith, h (n + 1))),
    )
