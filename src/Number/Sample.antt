-- ===== src/Number/Sample.antt =====
-- Fractions p / q with no sign: an instance of the interface, for the witnesses and tests.
use cachestack.Base.{
  ℕ, ◌+◌, ◌-◌, ◌*◌, ◌/◌, ◌%◌, ◌<◌, ◌^◌, ◌≤◌, ◌≡◌, ◌↔◌, Bool, true, false, ltb, if◌then◌else◌, arith,
  refl, Bool-cases, inl, inr,
}
use cachestack.Text.Decimal.{show_ℕ}
use cachestack.Number.{Number}

abbrev Fraction : Type 0
Fraction = ℕ × ℕ

abbrev less : Fraction → Fraction → Bool
less (a, b) (c, d) = ltb (a * d) (c * b)

abbrev larger : Fraction → Fraction → Fraction
larger x y = if less x y then y else x

abbrev smaller : Fraction → Fraction → Fraction
smaller x y = if less y x then y else x

pub larger-ge_left : (x y : Fraction) → less (larger x y) x ≡ false
larger-ge_left x y = elim (Bool-cases (less x y)) [
  | inl e ↦ rw e (ground arith)
  | inr e ↦ rw e (ground arith)
]

pub larger-le :
    (x y z : Fraction) → less z x ≡ false → less z y ≡ false → less z (larger x y) ≡ false
larger-le x y z h k = elim (Bool-cases (less x y)) [ inl e ↦ rw e k | inr e ↦ rw e h ]

pub smaller-le_left : (x y : Fraction) → less x (smaller x y) ≡ false
smaller-le_left x y = elim (Bool-cases (less y x)) [
  | inl e ↦ rw e (ground arith)
  | inr e ↦ rw e (ground arith)
]

pub less-lit : (p q r s : ℕ) → 0 < q → 0 < s → p * s ≤ r * q → less (r, s) (p, q) ≡ false
less-lit p q r s _ _ h = ground arith

pub less-div :
    (p q e t : ℕ)
    → 0 < q
    → 0 < t
    → p * t < 2 ^ 52
    → (less (p, q) (e * 1, 1 * t) ≡ true) ↔ (p * t < e * q)
less-div p q e t _ _ _ = ground arith

abbrev tenths : Fraction → Fraction
tenths (a, b) = ((a * 20 + b) / (2 * b), 10)

pub mod-lt_of_pos : (d n : ℕ) → 0 < n → d % n < n
mod-lt_of_pos d n h = omega arith

abbrev pub fractions : Number
fractions = record {
  Float = Fraction;
  of_ℕ = λ n. (n, 1);
  lit = λ p q. (p, q);
  add = λ (a, b) (c, d). (a * d + c * b, b * d);
  sub = λ (a, b) (c, d). (a * d - c * b, b * d);
  mul = λ (a, b) (c, d). (a * c, b * d);
  div = λ (a, b) (c, d). (a * d, b * c);
  floor = λ (a, b). (a / b, 1);
  round = λ (a, b). ((2 * a + b) / (2 * b), 1);
  max = larger;
  min = smaller;
  show_fixed1 = λ x. show_ℕ (tenths x).0;
  show_fixed2 = λ x. show_ℕ (tenths x).0;
  to_fixed1 = tenths;
  show = λ (a, b). show_ℕ (a / b);
  lt = less;
  nan = (0, 1);
  Draw = ℕ;
  random = λ d. (d % 1000, 1000);
  pick = λ d n. d % n;
  pick-lt = mod-lt_of_pos;
  max-ge_left = larger-ge_left;
  max-le = larger-le;
  min-le_left = smaller-le_left;
  lit-le = less-lit;
  of_ℕ-lit = λ n. refl;
  lit-lt-div = less-div;
}
