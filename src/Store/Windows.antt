-- ===== src/Store/Windows.antt =====
-- The part of a list that `LRange` and `ZRange` return.
pub mod Bounds
use cachestack.Base.{
  ℕ, ◌-◌, List, [], Option, none, some, length, take, drop, leb, if◌then◌else◌, ◌&&◌,
}
use cachestack.Text.Decimal.{ℤ, pos}
use cachestack.Int.{minus, ◌+ℤ◌, lt_ℤ, max_ℤ}

-- The bounds, or none where the result is nil.
unfoldable pub window : (n : ℕ) (start stop : ℤ) → Option (ℤ × ℤ)
window n start stop =
    let start = if lt_ℤ start (pos 0) then max_ℤ (pos 0) (pos n +ℤ start) else start in
    let stop = if lt_ℤ stop (pos 0) then pos n +ℤ stop else stop in
    let stop = if lt_ℤ stop (pos n) then stop else minus n 1 in
    if lt_ℤ stop start then none else some (start, stop)

-- `xs[start:stop+1]`; bounds that are not in order, or behind the end, panic.
abbrev pub slice_at {ℓ} : {A : Type ℓ} → List A → ℤ → ℤ → Option (List A)
slice_at xs (pos i) (pos j) =
    if leb i j && leb j (length xs) then some (take (j - i) (drop i xs)) else none
slice_at xs _ _ = none

unfoldable pub slice {ℓ} : {A : Type ℓ} → List A → Option (ℤ × ℤ) → Option (List A)
slice xs none = some []
slice xs (some (start, stop)) = slice_at xs start (stop +ℤ pos 1)
