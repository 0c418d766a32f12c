-- ===== src/Frameworks/Estimators/Shares.antt =====
-- Rates of counts, and the adjustment of a curve to a pooled first block.
use de_framework.Exec.{ok}
use de_framework.Frameworks.Sound.{Between}
use de_framework.Frameworks.Estimators.{adjust, adjusted_curve, execution_curve}
use de_framework.Frameworks.Fractions.{
  Fraction, over, plus, IsProbability, fraction, minus, scale, whole, at_most, rest, ◌≈◌, ◌≼◌,
  minus-one,
}
use native.Mathlib.Nat.{mul-le-mul_right, one-le-mul, le_dest}
use de_framework.Prelude.{
  refl, ℕ, List, ◌<◌, ◌≤◌, ◌*◌, ◌+◌, ◌≡◌, All, arith, map, ◌-◌, ap, length, subst, ◌∷◌, [], suc,
  Bool-cases, ◌==◌, ltb, ◌&&◌, false, inl, ltb→lt, zero, inr,
}

abbrev pub rate : ℕ → ℕ → Fraction
rate attempts s = fraction (s * 1) (1 * attempts)

pub over-whole : (s n : ℕ) → 0 < n → over (whole s) (whole n) ≡ ok (rate n s)
unfolding over
over-whole s n h = ground arith

pub curve_value : (n : ℕ) (cs : List ℕ) → 0 < n → execution_curve n cs ≡ ok (map (rate n) cs)
unfolding execution_curve
curve_value n [] h = refl
curve_value n (c ∷ cs) h = ground (arith, over-whole c n h, curve_value n cs h)

pub rate-IsProbability : (n c : ℕ) → 0 < n → c ≤ n → IsProbability (rate n c)
rate-IsProbability n c h k = record { den_pos = omega arith; bounded = omega arith }

pub rates-bounded :
    (low n : ℕ) (cs : List ℕ) → 0 < n → Between low n cs → All IsProbability (map (rate n) cs)
rates-bounded low n [] h k = tt
rates-bounded low n (c ∷ cs) h ((l, b), rest) =
    (rate-IsProbability n c h b, rates-bounded low n cs h rest)

-- A first share and a share of the rest.
plus_share :
    (a b c d : ℕ) → a ≤ b → c ≤ d → a * (1 * b * d) + ((1 * b - a * 1) * c) * b ≤ b * (1 * b * d)
plus_share a b c d h k =
    let (r, q) = le_dest h in
    subst (λ m. a * (1 * b * d) + (m * c) * b ≤ b * (1 * b * d)) (omega (arith, q))
      (subst (λ m. a * (1 * m * d) + (r * c) * m ≤ m * (1 * m * d)) q
        (omega (arith, mul-le-mul_right (r * (a + r)) k)))

plus-IsProbability :
    (x y : Fraction) → IsProbability x → IsProbability y → IsProbability (plus x (scale (rest x) y))
unfolding plus scale
plus-IsProbability x y h k = record {
  den_pos = one-le-mul h.den_pos (one-le-mul (omega (arith, h.den_pos)) k.den_pos);
  bounded = plus_share x.num x.den y.num y.den h.bounded k.bounded;
}

plus_nothing : (x y : Fraction) → y.num ≡ 0 → plus x (scale (rest x) y) ≈ x
unfolding plus scale
plus_nothing x y h = omega (arith, ap (λ m. (1 * x.den - x.num * 1) * m * x.den * x.den) h)

later_share : (p q e f m : ℕ) → p ≤ q → m + e ≡ f → (p * f - e * q) * (1 * f) ≤ (q * f) * m
later_share p q e f m h k =
    let less : p * f - e * q ≤ q * m = omega (arith, mul-le-mul_right f h, ap (λ x. q * x) k) in
    omega (arith, mul-le-mul_right f less)

difference_none : (x y c : ℕ) → x ≡ y → (x - y) * c ≡ 0
difference_none x y c h =
    let none_left : x - y ≡ 0 = omega (arith, h) in omega (arith, ap (λ m. m * c) none_left)

-- A checkpoint beyond the first, moved to the pooled first block.
pub adjust-IsProbability :
    (e first p : Fraction)
    → IsProbability first
    → IsProbability p
    → 0 < e.den
    → e.num < e.den
    → e ≼ p
    → (x : Fraction) × (adjust e first p ≡ ok x)
      × IsProbability x
      × (p.num * e.den ≡ e.num * p.den → x ≈ first)
unfolding adjust minus over at_most
adjust-IsProbability e first p h k d l g =
    let gap : 0 < 1 * e.den - e.num * 1 = omega (arith, l) in
    let share : Fraction =
      fraction ((p.num * e.den - e.num * p.den) * (1 * e.den))
        ((p.den * e.den) * (1 * e.den - e.num * 1)) in
    let fine : IsProbability share = record {
      den_pos = one-le-mul (one-le-mul k.den_pos d) gap;
      bounded =
          later_share p.num p.den e.num e.den (1 * e.den - e.num * 1) k.bounded (omega (arith, l));
    } in
    (
      plus first (scale (rest first) share),
      ground (
        arith,
        g,
        gap,
        minus-one e (record { den_pos = d; bounded = omega (arith, l) }),
        minus-one first h,
      ),
      plus-IsProbability first share h fine,
      λ same.
          plus_nothing first share
            (difference_none (p.num * e.den) (e.num * p.den) (1 * e.den) same),
    )

pub adjusted_curve-IsCurve :
    (first : Fraction) (n f : ℕ) (cs : List ℕ)
    → IsProbability first
    → f < n
    → Between f n cs
    → (xs : List Fraction) × (adjusted_curve (rate n f) first (map (rate n) cs) ≡ ok xs)
      × (length xs ≡ length cs)
      × All IsProbability xs
unfolding adjusted_curve
adjusted_curve-IsCurve first n f [] h l b = ([], refl, refl, tt)
adjusted_curve-IsCurve first n f (c ∷ cs) h l ((low, high), rest_between) =
    let (x, eq, fine, moved) =
      adjust-IsProbability (rate n f) first (rate n c) h (rate-IsProbability n c (omega arith) high)
        (omega arith) (omega arith) (omega (arith, mul-le-mul_right n low)) in
    let (xs, eqs, measured, all_fine) = adjusted_curve-IsCurve first n f cs h l rest_between in
    (x ∷ xs, ground (arith, eq, eqs), ap suc measured, (fine, all_fine))

pub length_rates : (n : ℕ) (cs : List ℕ) → length (map (rate n) cs) ≡ length cs
length_rates n [] = refl
length_rates n (c ∷ cs) = ap suc (length_rates n cs)

pub pool_below : (s n f m : ℕ) → f * n < s * m → s ≤ n → f < m
pool_below s n f m h l = elim (Bool-cases (ltb f m)) [
  | inl below ↦ ltb→lt f m below
  | inr above ↦
      let beyond : m ≤ f = ground (arith, above) in
      absurd (omega (arith, h, mul-le-mul_right m l, mul-le-mul_right n beyond))
]

pub first_positive : (s m n f : ℕ) → 1 ≤ m → s * m ≤ f * n → (s == 0 && f == 0) ≡ false → 0 < f
first_positive zero m n f h l b = ground (arith, b)
first_positive (suc s) m n zero h l b = absurd (omega (arith, l, h))
first_positive (suc s) m n (suc f) h l b = omega arith
