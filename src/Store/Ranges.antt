-- ===== src/Store/Ranges.antt =====
-- The methods that read a range: `LRange` and `ZRange`.
use cachestack.Base.{
  suc, ◌-◌, sym, [], ◌∷◌, ◌≡◌, ◌∙◌, refl, ap, Bool, List, some, length, take, drop, map,
}
use cachestack.Text.Decimal.{ℤ}
use cachestack.Command.{Bytes}
use cachestack.Store.{Store, lookup}
use cachestack.Store.Values.{sort_scores}
use cachestack.Store.Windows.{window, slice}
use cachestack.Store.Windows.Bounds.{low, high, slice-window}
use cachestack.Store.Methods.{Order, read, items, lrange, read_scores, zrange}

length-map {ℓ κ} :
    {A : Type ℓ} {B : Type κ} (f : A → B) (xs : List A) → length (map f xs) ≡ length xs
length-map f [] = refl
length-map f (x ∷ xs) = ap suc (length-map f xs)

module _ {Float : Type 0} where
  -- No indices panic: `LRange` returns the elements from the first index to the last, both included, where a
  -- negative index counts from the end and those out of range are cut; nothing for a missing key or no list.
  pub lrange_lem :
      (key : Bytes) (start stop : ℤ) (s : Store Float)
      → (let xs = read items (lookup key s.entries) in
          let n = length xs in
          lrange key start stop s ≡ some (take (high n stop - low n start) (drop (low n start) xs)))
  unfolding lrange
  lrange_lem key start stop s = slice-window (read items (lookup key s.entries)) start stop

  -- `ZRange` does the same with the members in the order of their scores.
  pub zrange_lem :
      (less : Float → Float → Bool) (order : Order (Bytes × Float)) (key : Bytes) (start stop : ℤ)
      (s : Store Float)
      → (let xs = map (λ p. p.0) (sort_scores less (order (read_scores (lookup key s.entries)))) in
          let n = length xs in
          zrange less order key start stop s
          ≡ some (take (high n stop - low n start) (drop (low n start) xs)))
  unfolding zrange
  zrange_lem less order key start stop s =
      let sorted = sort_scores less (order (read_scores (lookup key s.entries))) in
      let xs : List Bytes = map (λ p. p.0) sorted in
      ap (λ n. slice xs (window n start stop)) (sym (length-map (λ p. p.0) sorted))
      ∙ slice-window xs start stop
