-- ===== src/Store/Methods.antt =====
-- backend/internal/store/store.go: the methods on lists, sets and sorted sets, and those on the whole store.
use cachestack.Base.{
  ℕ, Bool, true, false, not, List, [], ◌∷◌, ◌++◌, Option, none, some, map, filter, length,
  if◌then◌else◌,
}
use mathlib.Core.List.{reverse}
use cachestack.Text.{text}
use cachestack.Text.Decimal.{ℤ}
use cachestack.Command.{Bytes}
use cachestack.Store.{Store, lookup, remove_locked, touch, get_locked, assign, get_or_create}
use cachestack.Store.Values.{
  Value, str, list, set, zset, Entry, a_list, a_set, a_zset, is_expired, put_score, insert_all,
  sort_scores,
}
use cachestack.Store.Windows.{window, slice}

-- What `range` yields of a map, from the pairs or members that it has.
abbrev pub Order : Type 0 → Type 0
Order A = List A → List A

module _ {Float : Type 0} where
  abbrev pub items : Value Float → List Bytes
  items (list xs) = xs
  items _ = []

  abbrev pub members : Value Float → List Bytes
  members (set ms) = ms
  members _ = []

  abbrev pub scores : Value Float → List (Bytes × Float)
  scores (zset ms) = ms
  scores _ = []

  -- A write through the entry that `getOrCreateLocked` returned; a nil pointer panics.
  abbrev pub write :
      Bytes
      → (Value Float → Value Float)
      → Option (Entry Float) × Store Float
      → Option (Value Float × Store Float)
  write key f (none, s) = none
  write key f (some e, s) = some (f e.value, touch key (assign key (f e.value) s))

  abbrev pub count_items : Option (Value Float × Store Float) → Option (ℕ × Store Float)
  count_items none = none
  count_items (some (v, s)) = some (length (items v), s)

  -- `LPush`: the last value comes first.
  unfoldable pub lpush : ℕ → Bytes → List Bytes → Store Float → Option (ℕ × Store Float)
  lpush now key vals s =
      count_items (write key (λ v. list (reverse vals ++ items v)) (get_or_create now key a_list s))

  -- `RPush`
  unfoldable pub rpush : ℕ → Bytes → List Bytes → Store Float → Option (ℕ × Store Float)
  rpush now key vals s =
      count_items (write key (λ v. list (items v ++ vals)) (get_or_create now key a_list s))

  abbrev pub pop_value : Bytes → Value Float → Store Float → Option Bytes × Store Float
  pop_value key (list (x ∷ xs)) s = (some x, touch key (assign key (list xs) s))
  pop_value key _ s = (none, s)

  abbrev pub pop_found : Bytes → Option (Entry Float) × Store Float → Option Bytes × Store Float
  pop_found key (none, s) = (none, s)
  pop_found key (some e, s) = pop_value key e.value s

  -- `LPop`
  unfoldable pub lpop : ℕ → Bytes → Store Float → Option Bytes × Store Float
  lpop now key s = pop_found key (get_locked now key s)

  -- The reads below do not ask whether the entry has expired.
  abbrev pub read : (Value Float → List Bytes) → Option (Entry Float) → List Bytes
  read f none = []
  read f (some e) = f e.value

  -- `LRange`; nil is the empty list.
  unfoldable pub lrange : Bytes → ℤ → ℤ → Store Float → Option (List Bytes)
  lrange key start stop s =
      let xs = read items (lookup key s.entries) in slice xs (window (length xs) start stop)

  abbrev pub added_to : Value Float → List Bytes → List Bytes × ℕ
  added_to v ms = insert_all ms (members v, 0)

  abbrev pub added_in :
      Bytes → List Bytes → Option (Entry Float) × Store Float → Option (ℕ × Store Float)
  added_in key ms (none, s) = none
  added_in key ms (some e, s) =
      let (now_in, added) = added_to e.value ms in
      some (added, touch key (assign key (set now_in) s))

  -- `SAdd`
  unfoldable pub sadd : ℕ → Bytes → List Bytes → Store Float → Option (ℕ × Store Float)
  sadd now key ms s = added_in key ms (get_or_create now key a_set s)

  -- `SMembers`
  unfoldable pub smembers : Order Bytes → Bytes → Store Float → List Bytes
  smembers order key s = order (read members (lookup key s.entries))

  abbrev pub new_member : Option Float → ℕ
  new_member none = 1
  new_member (some _) = 0

  abbrev pub scored_in :
      Bytes → Float → Bytes → Option (Entry Float) × Store Float → Option (ℕ × Store Float)
  scored_in key sc m (none, s) = none
  scored_in key sc m (some e, s) = some (
    new_member (lookup m (scores e.value)),
    touch key (assign key (zset (put_score m sc (scores e.value))) s),
  )

  -- `ZAdd`
  unfoldable pub zadd : ℕ → Bytes → Float → Bytes → Store Float → Option (ℕ × Store Float)
  zadd now key sc m s = scored_in key sc m (get_or_create now key a_zset s)

  abbrev pub read_scores : Option (Entry Float) → List (Bytes × Float)
  read_scores none = []
  read_scores (some e) = scores e.value

  -- `ZRange`
  unfoldable pub zrange :
      (Float → Float → Bool)
      → Order (Bytes × Float)
      → Bytes
      → ℤ
      → ℤ
      → Store Float
      → Option (List Bytes)
  zrange less order key start stop s =
      let sorted = sort_scores less (order (read_scores (lookup key s.entries))) in
      slice (map (λ p. p.0) sorted) (window (length sorted) start stop)

  -- `Len`
  unfoldable pub len : Store Float → ℕ
  len s = length s.entries

  -- `Keys`
  unfoldable pub keys : ℕ → Order (Bytes × Entry Float) → Store Float → List Bytes
  keys now order s = map (λ p. p.0) (filter (λ p. not (is_expired now p.1)) (order s.entries))

  -- A round of `expirySweeper`, over the pairs in the order of `range`.
  abbrev pub sweep_pair : ℕ → Bytes × Entry Float → Store Float → Store Float
  sweep_pair now (key, e) s = if is_expired now e then remove_locked key e s else s

  unfoldable pub sweep_each : ℕ → List (Bytes × Entry Float) → Store Float → Store Float
  sweep_each now [] s = s
  sweep_each now (p ∷ ps) s = sweep_each now ps (sweep_pair now p s)

  unfoldable pub sweep : ℕ → Order (Bytes × Entry Float) → Store Float → Store Float
  sweep now order s = sweep_each now (order s.entries) s

  -- `FlushAll`
  unfoldable pub flush_all : Store Float → Store Float
  flush_all s = record s { entries = []; lru = []; byte_used = 0 }

  abbrev pub is_there : Option (Entry Float) → Bool
  is_there none = false
  is_there (some _) = true

  -- `Exists`
  unfoldable pub exists : ℕ → Bytes → Store Float → Bool × Store Float
  exists now key s = let (found, s') = get_locked now key s in (is_there found, s')

  abbrev pub value_type : Value Float → Bytes
  value_type (str _) = text "String"
  value_type (list _) = text "List"
  value_type (set _) = text "Set"
  value_type (zset _) = text "ZSet"

  abbrev pub type_found : ℕ → Option (Entry Float) → Bytes
  type_found now none = []
  type_found now (some e) = if is_expired now e then [] else value_type e.value

  -- `Type`
  unfoldable pub type_of : ℕ → Bytes → Store Float → Bytes
  type_of now key s = type_found now (lookup key s.entries)
