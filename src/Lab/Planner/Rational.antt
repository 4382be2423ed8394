-- ===== src/Lab/Planner/Rational.antt =====
-- fractions.Fraction on values from 0 on, as src/latent_compass/lab/planner.py uses it: values are
-- compared by their products across, so that lowest terms are not needed.
use latent_compass.Prelude.{
  ℕ, zero, suc, ◌+◌, ◌*◌, ◌<◌, ◌≡◌, Bool, ◌&&◌, arith, refl, Bool-cases, inl, inr, ltb, ◌==◌,
  if◌then◌else◌,
}
use Prim.Native.Nat.{◌/◌, ◌%◌, ◌^◌}
use native.Mathlib.Nat.{mod-lt}

pub record Fraction : Type 0 where
  pub numerator : ℕ
  pub denominator : ℕ

abbrev pub whole : ℕ → Fraction
whole n = record { numerator = n; denominator = 1 }

abbrev pub plus : Fraction → Fraction → Fraction
plus a b = record {
  numerator = a.numerator * b.denominator + b.numerator * a.denominator;
  denominator = a.denominator * b.denominator;
}

abbrev pub times : Fraction → Fraction → Fraction
times a b = record {
  numerator = a.numerator * b.numerator;
  denominator = a.denominator * b.denominator;
}

-- `a < b`
abbrev pub less : Fraction → Fraction → Bool
less a b = ltb (a.numerator * b.denominator) (b.numerator * a.denominator)

-- Euclid's algorithm, the second number being the fuel that it needs at most.
unfoldable pub gcd : ℕ → ℕ → ℕ → ℕ
gcd zero a b = a
gcd (suc fuel) a b = let rest = gcd fuel b (a % b) in if b == 0 then a else rest

-- Neither part of the fraction in lowest terms has more than 40 digits.
unfoldable pub renders : Fraction → Bool
unfolding gcd
renders f =
    let g = gcd (suc f.denominator) f.numerator f.denominator in
    ltb (f.numerator / g) (10 ^ 40) && ltb (f.denominator / g) (10 ^ 40)

-- Fuel beyond the second number changes nothing.
gcd_enough : (fuel a b : ℕ) → b < fuel → gcd (suc fuel) a b ≡ gcd fuel a b
unfolding gcd
gcd_enough zero a b h = absurd (omega (arith, h))
gcd_enough (suc fuel) a b h = elim (Bool-cases (b == 0)) [
  | inl e ↦ rw (e, gcd) refl
  | inr e ↦
      let rest = gcd_enough fuel b (a % b) (ground (arith, mod-lt a {m = b})) in
      ground (arith, rest)
]
