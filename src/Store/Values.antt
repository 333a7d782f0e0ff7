-- ===== src/Store/Values.antt =====
-- The values of the store, their sizes and their times.
use cachestack.Base.{
  ℕ, suc, ◌+◌, ◌-◌, ◌*◌, ◌%◌, ◌^◌, Bool, true, false, not, List, [], ◌∷◌, Option, none, some,
  filter, length, ltb, if◌then◌else◌,
}
use mathlib.Core.List.{reverse}
use cachestack.Text.{text_eq}
use cachestack.Text.Names.{has}
use cachestack.Text.Decimal.{ℤ, pos, negsuc}
use cachestack.Command.{Bytes}

-- `vtype` with the field that it selects; a set and a sorted set are maps.
pub data Value (Float : Type 0) : Type 0 where
  str : Bytes → Value Float
  list : List Bytes → Value Float
  set : List Bytes → Value Float
  zset : List (Bytes × Float) → Value Float

-- `expiresAt`, with none for the zero time; `lruElem` is the element of the entry's key.
pub record Entry (Float : Type 0) : Type 0 where
  pub value : Value Float
  pub expires_at : Option ℕ

-- Go's `float64`: reading a score, and `<`.
pub record IsScore (Float : Type 0) : Type 0 where
  pub parse_float : Bytes → Option Float
  pub less : Float → Float → Bool

-- The types that `getOrCreateLocked` is called with.
pub data Kind : Type 0 where
  a_list a_set a_zset : Kind

unfoldable pub sum_lengths : List Bytes → ℕ
sum_lengths [] = 0
sum_lengths (v ∷ vs) = length v + 16 + sum_lengths vs

abbrev pub expired_at : ℕ → Option ℕ → Bool
expired_at now none = false
expired_at now (some t) = ltb t now

module _ {Float : Type 0} where
  abbrev pub is_kind : Kind → Value Float → Bool
  is_kind a_list (list _) = true
  is_kind a_set (set _) = true
  is_kind a_zset (zset _) = true
  is_kind _ _ = false

  abbrev pub fresh_value : Kind → Value Float
  fresh_value a_list = list []
  fresh_value a_set = set []
  fresh_value a_zset = zset []

  -- `isExpired`
  abbrev pub is_expired : ℕ → Entry Float → Bool
  is_expired now e = expired_at now e.expires_at

  -- `entrySize`
  unfoldable pub value_size : Value Float → ℕ
  unfolding sum_lengths
  value_size (str s) = length s + 64
  value_size (list vs) = 64 + sum_lengths vs
  value_size (set ms) = length ms * 32 + 64
  value_size (zset ms) = length ms * 48 + 64

  abbrev pub entry_size : Entry Float → ℕ
  entry_size e = value_size e.value

  -- `zset[member] = score`: the old pair goes.
  unfoldable pub put_score : Bytes → Float → List (Bytes × Float) → List (Bytes × Float)
  put_score m sc ms = (m, sc) ∷ filter (λ p. not (text_eq p.0 m)) ms

  module _ (less : Float → Float → Bool) where
    -- The inner loop of `ZRange`, over the sorted part from its end backwards.
    unfoldable pub bubble : Bytes × Float → List (Bytes × Float) → List (Bytes × Float)
    bubble x [] = x ∷ []
    bubble x (y ∷ ys) = let rest = bubble x ys in if less x.1 y.1 then y ∷ rest else x ∷ y ∷ ys

    unfoldable pub sort_back : List (Bytes × Float) → List (Bytes × Float) → List (Bytes × Float)
    sort_back done [] = done
    sort_back done (x ∷ xs) = sort_back (bubble x done) xs

    -- The insertion sort.
    unfoldable pub sort_scores : List (Bytes × Float) → List (Bytes × Float)
    unfolding sort_back bubble
    sort_scores xs = reverse (sort_back [] xs)

-- `e.set[m] = struct{}{}` for a member that is not there, and the count.
abbrev pub add_member : Bytes → List Bytes × ℕ → List Bytes × ℕ
add_member m (ms, added) = if has m ms then (ms, added) else (m ∷ ms, added + 1)

unfoldable pub insert_all : List Bytes → List Bytes × ℕ → List Bytes × ℕ
insert_all [] r = r
insert_all (m ∷ more) r = insert_all more (add_member m r)

-- `time.Duration(secs) * time.Second`: 64 bits, in two's complement.
unfoldable pub duration : ℤ → ℕ
duration (pos n) = n * 1000000000 % 2 ^ 64
duration (negsuc n) = (2 ^ 64 - suc n * 1000000000 % 2 ^ 64) % 2 ^ 64

-- `now.Add(d)`; times of the clock are beyond 2 ^ 63 ns, so the difference does not stop at 0.
unfoldable pub later : ℕ → ℕ → ℕ
later now d = if ltb d (2 ^ 63) then now + d else now - (2 ^ 64 - d)
