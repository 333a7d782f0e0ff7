-- ===== src/Store/Windows/Bounds.antt =====
-- What the bounds of `LRange` and `ZRange` come to.
use cachestack.Base.{
  ℕ, suc, ◌+◌, ◌-◌, ◌≡◌, refl, ap, sym, true, List, Option, none, some, length, take, drop, leb,
  ltb, if◌then◌else◌, arith, Bool-cases, inl, inr, ◌≤◌,
}
use cachestack.Text.Decimal.{ℤ, pos, negsuc}
use cachestack.Int.{◌+ℤ◌, lt_ℤ, max_ℤ}
use cachestack.Store.Windows.{window, slice}

-- The first index, and the one behind the last; negative ones count from the end.
abbrev pub low : ℕ → ℤ → ℕ
low n (pos i) = i
low n (negsuc i) = n - suc i

abbrev pub high : ℕ → ℤ → ℕ
high n (pos j) = if ltb j n then suc j else n
high n (negsuc j) = n - j

abbrev shown : ℕ → ℕ → Option (ℤ × ℤ)
shown lo hi = if ltb lo hi then some (pos lo, pos (hi - 1)) else none

first :
    (n : ℕ) (start : ℤ)
    → (if lt_ℤ start (pos 0) then max_ℤ (pos 0) (pos n +ℤ start) else start) ≡ pos (low n start)
first n (pos i) = ground arith
first n (negsuc i) = ground arith

window_lem : (n : ℕ) (start stop : ℤ) → window n start stop ≡ shown (low n start) (high n stop)
unfolding window
window_lem n start (pos j) = ground (arith, first n start)
window_lem n start (negsuc j) = ground (arith, first n start)

high-le : (n : ℕ) (stop : ℤ) → high n stop ≤ n
high-le n (pos j) = ground arith
high-le n (negsuc j) = ground arith

-- A range of a list: no pair of indices panics, and the result is what stands between them.
pub slice-window {ℓ} :
    {A : Type ℓ} (xs : List A) (start stop : ℤ)
    → (let n = length xs in
        slice xs (window n start stop)
        ≡ some (take (high n stop - low n start) (drop (low n start) xs)))
unfolding slice
slice-window xs start stop =
    let n : ℕ = length xs in
    let lo : ℕ = low n start in
    let hi : ℕ = high n stop in
    let within : hi ≤ n = high-le n stop in
    rw (window_lem n start stop) (elim (Bool-cases (ltb lo hi)) [
      | inl e ↦
          let up : hi - 1 + 1 ≡ hi = ground arith in
          let ordered : leb lo hi ≡ true = ground arith in
          let inside : leb hi n ≡ true = ground arith in rw e (rw up (rw (ordered, inside) refl))
      | inr e ↦
          let none_left : hi - lo ≡ 0 = ground arith in
          rw e (ap (λ k. some (take k (drop lo xs))) (sym none_left))
    ])
