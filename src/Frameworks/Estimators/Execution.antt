-- ===== src/Frameworks/Estimators/Execution.antt =====
-- The estimate of discovery_execution.py stays between zero and one.
use de_framework.Exec.{ok}
use de_framework.Frameworks.Counts.{total_budget}
use de_framework.Frameworks.Estimators.{DeParameters, convolve, epsilon_at, de_success_probability}
use de_framework.Frameworks.Fractions.{
  Fraction, plus, scale, IsProbability, rest, power, power-IsProbability, rest-IsProbability,
  minus-one, whole,
}
use native.Mathlib.Nat.{mul-le-mul_right, le_of_mul-le-mul_right, one-le-mul, le_dest}
use de_framework.Prelude.{
  refl, ℕ, ◌*◌, ◌+◌, ◌<◌, ◌≤◌, arith, ◌-◌, List, subst, length, ◌≡◌, All, ◌∷◌, suc, [], zero, ◌∙◌,
}

-- `s` leaves room for `p` below one.
abbrev Room : Fraction → Fraction → Type 0
Room s p = s.num * p.den + p.num * s.den ≤ s.den * p.den

-- The same at a discovery rate of a / (a + r).
room_split :
    (s t c d e f a r : ℕ)
    → s * d + c * t ≤ t * d
    → e ≤ f
    → (s * ((a + r) * d * f) + a * c * e * t) * (1 * (a + r) * d)
        + (r * c) * (t * ((a + r) * d * f))
      ≤ t * ((a + r) * d * f) * (1 * (a + r) * d)
room_split s t c d e f a r h k = omega (
  arith,
  mul-le-mul_right ((a + r) * d * f * (a + r)) h,
  mul-le-mul_right (a * c * t * ((a + r) * d)) k,
)

room_step :
    (s t c d e f a b : ℕ)
    → s * d + c * t ≤ t * d
    → e ≤ f
    → a ≤ b
    → (s * (b * d * f) + a * c * e * t) * (1 * b * d) + ((1 * b - a * 1) * c) * (t * (b * d * f))
      ≤ t * (b * d * f) * (1 * b * d)
room_step s t c d e f a b h k l =
    let (r, q) = le_dest l in
    subst
      (λ m.
        (s * (b * d * f) + a * c * e * t) * (1 * b * d) + (m * c) * (t * (b * d * f))
        ≤ t * (b * d * f) * (1 * b * d))
      (omega (arith, q))
      (subst
        (λ m.
          (s * (m * d * f) + a * c * e * t) * (1 * m * d) + (r * c) * (t * (m * d * f))
          ≤ t * (m * d * f) * (1 * m * d))
        q (room_split s t c d e f a r h k))

-- A step of the loop keeps the room that the undiscovered blocks need.
step-Room :
    (alpha s p e : Fraction)
    → IsProbability alpha
    → IsProbability e
    → Room s p
    → Room (plus s (scale (scale alpha p) e)) (scale (rest alpha) p)
unfolding plus scale
step-Room alpha s p e h k room =
    room_step s.num s.den p.num p.den e.num e.den alpha.num alpha.den room k.bounded h.bounded

full-Room : (s p : Fraction) → 0 < s.den → 0 < p.den → Room s p → IsProbability s
full-Room s p h k room = record {
  den_pos = h;
  bounded = le_of_mul-le-mul_right {k = p.den} (omega (arith, room)) k;
}

-- A curve with a value for each of `n` blocks, none above one.
pub record IsCurve (n : ℕ) (xs : List Fraction) : Type 0 where
  pub measured : length xs ≡ n
  pub bounded : All IsProbability xs

pub epsilon_at-IsProbability :
    (xs : List Fraction) (i : ℕ)
    → i < length xs
    → All IsProbability xs
    → (x : Fraction) × (epsilon_at xs i ≡ ok x) × IsProbability x
epsilon_at-IsProbability [] i h k = absurd (omega (arith, h))
epsilon_at-IsProbability (x ∷ xs) zero h k = (x, refl, k.0)
epsilon_at-IsProbability (x ∷ xs) (suc i) h k = epsilon_at-IsProbability xs i (omega (arith, h)) k.1

pub record IsFitted (p : DeParameters) : Type 0 where
  pub discovers : IsProbability p.alpha
  pub curve : IsCurve total_budget p.epsilon

plus-scale_pos :
    (s a u x : Fraction)
    → 0 < s.den
    → 0 < a.den
    → 0 < u.den
    → 0 < x.den
    → 0 < (plus s (scale (scale a u) x)).den
unfolding plus scale
plus-scale_pos s a u x h k l m = one-le-mul h (one-le-mul (one-le-mul k l) m)

convolve_step :
    (p : DeParameters) (k step steps : ℕ) (s x : Fraction)
    → IsProbability p.alpha
    → epsilon_at p.epsilon (k - step - 1) ≡ ok x
    → convolve p k step (suc steps) s
      ≡ convolve p k (suc step) steps (plus s (scale (scale p.alpha (power (rest p.alpha) step)) x))
unfolding convolve
convolve_step p k step steps s x h e = rw (minus-one p.alpha h, e) refl

convolve-IsProbability :
    (p : DeParameters) (k step steps : ℕ) (s : Fraction)
    → IsFitted p
    → step + steps ≡ k
    → k ≤ total_budget
    → 0 < s.den
    → Room s (power (rest p.alpha) step)
    → (x : Fraction) × (convolve p k step steps s ≡ ok x) × IsProbability x
unfolding convolve power
convolve-IsProbability p k step zero s h e l d room =
    let left = power-IsProbability (rest p.alpha) step (rest-IsProbability p.alpha h.discovers) in
    (s, refl, full-Room s (power (rest p.alpha) step) d left.den_pos room)
convolve-IsProbability p k step (suc steps) s h e l d room =
    let u = rest p.alpha in
    let left = power-IsProbability u step (rest-IsProbability p.alpha h.discovers) in
    let (x, at, bounded) =
      epsilon_at-IsProbability p.epsilon (k - step - 1) (omega (arith, h.curve.measured))
        h.curve.bounded in
    let (y, eq, fine) =
      convolve-IsProbability p k (suc step) steps (plus s (scale (scale p.alpha (power u step)) x))
        h (omega arith) l
        (plus-scale_pos s p.alpha (power u step) x d h.discovers.den_pos left.den_pos
          bounded.den_pos)
        (step-Room p.alpha s (power u step) x h.discovers bounded room) in
    (y, convolve_step p k step steps s x h.discovers at ∙ eq, fine)

-- With an estimated curve and discovery rate between zero and one, the estimate for any number of
-- arms and up to eight blocks is computed, and lies between zero and one.
pub de_success_probability-IsProbability :
    (p : DeParameters) (n k : ℕ)
    → IsFitted p
    → k ≤ total_budget
    → (x : Fraction) × (de_success_probability p n k ≡ ok x) × IsProbability x
unfolding de_success_probability power
de_success_probability-IsProbability p n k h l =
    let (x, eq, fine) =
      convolve-IsProbability p k 0 k (whole 0) h (omega arith) l (omega arith) (omega arith) in
    let failing = power-IsProbability (rest x) n (rest-IsProbability x fine) in
    (
      rest (power (rest x) n),
      ground (arith, eq, minus-one x fine, minus-one (power (rest x) n) failing),
      rest-IsProbability (power (rest x) n) failing,
    )
