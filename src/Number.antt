-- ===== src/Number.antt =====
-- JavaScript's numbers where they are fractions: an interface, since they are floating-point numbers
-- that the source computes with and does not define. The laws speak of numbers other than NaN, which
-- the dashboard's arithmetic never makes from the server's counters.
pub mod Sample
use cachestack.Base.{ℕ, ◌+◌, ◌*◌, ◌^◌, ◌≤◌, ◌<◌, ◌≡◌, ◌↔◌, Bool, true, false}
use cachestack.Text.{Text}

pub record Number : Type 1 where
  pub Float : Type 0
  -- A whole number, and the decimal literal p / q.
  pub of_ℕ : ℕ → Float
  pub lit : ℕ → ℕ → Float
  pub add : Float → Float → Float
  pub sub : Float → Float → Float
  pub mul : Float → Float → Float
  pub div : Float → Float → Float
  -- `Math.floor`, `Math.round`, `Math.max`, `Math.min`
  pub floor : Float → Float
  pub round : Float → Float
  pub max : Float → Float → Float
  pub min : Float → Float → Float
  -- `x.toFixed(1)`, `x.toFixed(2)`, `+x.toFixed(1)` and `${x}`
  pub show_fixed1 : Float → Text
  pub show_fixed2 : Float → Text
  pub to_fixed1 : Float → Float
  pub show : Float → Text
  -- `undefined` in arithmetic
  pub nan : Float
  -- `x < y`
  pub lt : Float → Float → Bool
  -- One call of `Math.random()`: its value, and `Math.floor(Math.random() * n)`, an index below `n`.
  pub Draw : Type 0
  pub random : Draw → Float
  pub pick : Draw → ℕ → ℕ
  pub pick-lt : (d : Draw) (n : ℕ) → 0 < n → pick d n < n
  pub max-ge_left : (a b : Float) → lt (max a b) a ≡ false
  pub max-le : (a b c : Float) → lt c a ≡ false → lt c b ≡ false → lt c (max a b) ≡ false
  pub min-le_left : (a b : Float) → lt a (min a b) ≡ false
  -- Literals are in order, and a whole number is the literal over 1.
  pub lit-le : (p q r s : ℕ) → 0 < q → 0 < s → p * s ≤ r * q → lt (lit r s) (lit p q) ≡ false
  pub of_ℕ-lit : (n : ℕ) → of_ℕ n ≡ lit n 1
  -- A quotient of counters against a literal: below 2 ^ 52 rounding does not change the order.
  pub lit-lt-div :
      (p q e t : ℕ)
      → 0 < q
      → 0 < t
      → p * t < 2 ^ 52
      → (lt (lit p q) (div (of_ℕ e) (of_ℕ t)) ≡ true) ↔ (p * t < e * q)

module _ (N : Number) where
  open N use {Float, of_ℕ, lit, max, min, lt, max-ge_left, max-le, min-le_left, lit-le, of_ℕ-lit}

  -- `lo ≤ x` and `x ≤ hi`
  abbrev pub Within : Float → Float → Float → Type 0
  Within lo hi x = (lt x lo ≡ false) × (lt hi x ≡ false)

  -- `Math.max(lo, Math.min(hi, x))`
  abbrev pub clamp : Float → Float → Float → Float
  clamp lo hi x = max lo (min hi x)

  pub clamp-Within : (lo hi x : Float) → lt hi lo ≡ false → Within lo hi (clamp lo hi x)
  clamp-Within lo hi x h = (max-ge_left lo (min hi x), max-le lo (min hi x) hi h (min-le_left hi x))
