-- ===== src/Frameworks/Fractions.antt =====
-- The real numbers of frameworks/ as exact fractions of native numbers. A division by zero raises,
-- and so does a difference below zero, which this module does not represent.
use de_framework.Exec.{Result, ok, err, arithmetic_error}
use native.Mathlib.Nat.{mul-le-mul, one-le-mul}
use de_framework.Prelude.{
  ℕ, Bool, arith, suc, ◌*◌, ◌<◌, ◌≡◌, if◌then◌else◌, leb, zero, ◌+◌, ◌-◌, ◌≤◌, ◌==◌,
}

pub record Fraction : Type 0 where
  pub num : ℕ
  pub den : ℕ

abbrev pub fraction : ℕ → ℕ → Fraction
fraction a b = record { num = a; den = b }

abbrev pub whole : ℕ → Fraction
whole n = fraction n 1

unfoldable pub at_most : Fraction → Fraction → Bool
at_most x y = leb (x.num * y.den) (y.num * x.den)

unfoldable pub plus : Fraction → Fraction → Fraction
plus x y = fraction (x.num * y.den + y.num * x.den) (x.den * y.den)

unfoldable pub scale : Fraction → Fraction → Fraction
scale x y = fraction (x.num * y.num) (x.den * y.den)

unfoldable pub minus : Fraction → Fraction → Result Fraction
unfolding at_most
minus x y =
    if at_most y x
    then ok (fraction (x.num * y.den - y.num * x.den) (x.den * y.den))
    else err arithmetic_error

unfoldable pub over : Fraction → Fraction → Result Fraction
over x y =
    if y.num == 0 then err arithmetic_error else ok (fraction (x.num * y.den) (x.den * y.num))

unfoldable pub power : Fraction → ℕ → Fraction
unfolding scale
power x zero = whole 1
power x (suc n) = scale x (power x n)

pub record IsProbability (x : Fraction) : Type 0 where
  pub den_pos : 0 < x.den
  pub bounded : x.num ≤ x.den

infix 40 ◌≼◌
abbrev pub ◌≼◌ : Fraction → Fraction → Type 0
x ≼ y = x.num * y.den ≤ y.num * x.den

pub scale-IsProbability :
    (x y : Fraction) → IsProbability x → IsProbability y → IsProbability (scale x y)
unfolding scale
scale-IsProbability x y h k = record {
  den_pos = one-le-mul h.den_pos k.den_pos;
  bounded = mul-le-mul h.bounded k.bounded;
}

pub power-IsProbability : (x : Fraction) (n : ℕ) → IsProbability x → IsProbability (power x n)
unfolding power
power-IsProbability x zero h = record { den_pos = omega arith; bounded = omega arith }
power-IsProbability x (suc n) h = scale-IsProbability x (power x n) h (power-IsProbability x n h)

-- What is left of one.
abbrev pub rest : Fraction → Fraction
rest x = fraction (1 * x.den - x.num * 1) (1 * x.den)

pub minus-one : (x : Fraction) → IsProbability x → minus (whole 1) x ≡ ok (rest x)
unfolding minus at_most
minus-one x h = ground (arith, h.bounded)

pub rest-IsProbability : (x : Fraction) → IsProbability x → IsProbability (rest x)
rest-IsProbability x h = record {
  den_pos = omega (arith, h.den_pos);
  bounded = omega (arith, h.bounded);
}

infix 40 ◌≈◌
abbrev pub ◌≈◌ : Fraction → Fraction → Type 0
x ≈ y = x.num * y.den ≡ y.num * x.den
