-- ===== src/Store.antt =====
-- backend/internal/store/store.go: the key-value engine. A Go map is a list of pairs, of which each key has
-- one; the order in which `range` goes through a map is a parameter of the functions that use it. The LRU
-- list holds each key once, so an element of the list is known by its key. `now` is the time of the call in
-- nanoseconds since Go's zero time. A method under the lock is one step; `none` is a panic.
pub mod Values
pub mod Windows
pub mod Methods
pub mod Maps
pub mod Matched
pub mod Pairs
pub mod Recency
pub mod Puts
pub mod Updates
pub mod Writes
pub mod Calls
pub mod Answers
pub mod Pushes
pub mod Refines
pub mod Ranges
pub mod Sorting
pub mod Sweep
use cachestack.Base.{
  ℕ, zero, suc, ◌+◌, ◌-◌, ◌*◌, ◌/◌, ◌^◌, Bool, true, false, not, ◌&&◌, ◌||◌, List, [], ◌∷◌, ◌++◌,
  Option, none, some, map, filter, length, ltb, leb, ◌==◌, if◌then◌else◌,
}
use mathlib.Core.List.{reverse}
use cachestack.Text.{text_eq}
use cachestack.Text.Names.{has}
use cachestack.Text.Decimal.{ℤ, pos, negsuc}
use cachestack.Command.{Bytes}
use cachestack.Store.Values.{
  Value, str, list, set, zset, Entry, IsScore, is_expired, entry_size, add_member, insert_all,
  put_score, sort_scores, Kind, a_list, a_set, a_zset, is_kind, fresh_value, duration, later,
}
use cachestack.Store.Windows.{window, slice}

pub record Store (Float : Type 0) : Type 0 where
  pub entries : List (Bytes × Entry Float)
  pub lru : List Bytes
  pub max_keys : ℕ
  pub byte_used : ℕ

-- `New`, but for the goroutine that sweeps.
unfoldable pub new_store : {Float : Type 0} → ℕ → Store Float
new_store max_keys = record { entries = []; lru = []; max_keys = max_keys; byte_used = 0 }

module _ {ℓ} {A : Type ℓ} where
  -- `m[key]`
  abbrev pub lookup : Bytes → List (Bytes × A) → Option A
  lookup key [] = none
  lookup key ((k, a) ∷ more) = if text_eq k key then some a else lookup key more

  -- `delete(m, key)`
  abbrev pub without : Bytes → List (Bytes × A) → List (Bytes × A)
  without key = filter (λ p. not (text_eq p.0 key))

-- The list without an element.
abbrev pub drop_name : Bytes → List Bytes → List Bytes
drop_name key = filter (λ k. not (text_eq k key))

-- `lruList.Back()`
unfoldable pub back : List Bytes → Option Bytes
back [] = none
back (k ∷ []) = some k
back (k ∷ l ∷ ks) = back (l ∷ ks)

-- `TTL`; `whole` is `int64(rem.Seconds())` for what remains.
abbrev pub ttl_until : (ℕ → ℕ) → ℕ → Option ℕ → ℤ
ttl_until whole now none = negsuc 0
ttl_until whole now (some t) = if leb t now then negsuc 1 else pos (whole (t - now))

module _ {Float : Type 0} where
  abbrev pub weight : Bytes → Entry Float → ℕ
  weight key e = length key + entry_size e

  -- `removeLocked`: the counter of bytes stops at 0.
  unfoldable pub remove_locked : Bytes → Entry Float → Store Float → Store Float
  remove_locked key e s = record s {
    entries = without key s.entries;
    lru = drop_name key s.lru;
    byte_used = s.byte_used - weight key e;
  }

  -- `touchLRU`
  unfoldable pub touch : Bytes → Store Float → Store Float
  touch key s = record s { lru = key ∷ drop_name key s.lru }

  abbrev pub remove_found : Bytes → Option (Entry Float) → Store Float → Store Float
  remove_found key none s = s
  remove_found key (some e) s = remove_locked key e s

  abbrev pub evict_key : Option Bytes → Store Float → Store Float
  evict_key none s = s
  evict_key (some key) s = remove_found key (lookup key s.entries) s

  -- `evictOne`
  unfoldable pub evict_one : Store Float → Store Float
  evict_one s = evict_key (back s.lru) s

  -- `for len(s.data) > s.maxKeys`, with fuel.
  unfoldable pub evict : ℕ → Store Float → Store Float
  evict zero s = s
  evict (suc fuel) s =
      let rest = evict fuel (evict_one s) in if ltb s.max_keys (length s.entries) then rest else s

  abbrev pub insert_front : Bytes → Entry Float → Store Float → Store Float
  insert_front key e s = record s {
    entries = (key, e) ∷ s.entries;
    lru = key ∷ s.lru;
    byte_used = s.byte_used + weight key e;
  }

  abbrev pub make_room : Store Float → Store Float
  make_room s = if ltb 0 s.max_keys then evict (length s.entries) s else s

  -- `setLocked`
  unfoldable pub set_locked : Bytes → Entry Float → Store Float → Store Float
  set_locked key e s = make_room (insert_front key e (remove_found key (lookup key s.entries) s))

  -- `getLocked`
  abbrev pub get_found :
      ℕ → Bytes → Option (Entry Float) → Store Float → Option (Entry Float) × Store Float
  get_found now key none s = (none, s)
  get_found now key (some e) s =
      if is_expired now e then (none, remove_locked key e s) else (some e, touch key s)

  unfoldable pub get_locked : ℕ → Bytes → Store Float → Option (Entry Float) × Store Float
  get_locked now key s = get_found now key (lookup key s.entries) s

  -- `e.list = …` and the like, through the pointer that the map holds.
  unfoldable pub assign : Bytes → Value Float → Store Float → Store Float
  assign key v s = record s {
    entries = map (λ p. if text_eq p.0 key then (p.0, record p.1 { value = v }) else p) s.entries;
  }

  -- `getOrCreateLocked`: what `s.data[key]` holds at its end, and the store.
  abbrev pub usable : ℕ → Kind → Option (Entry Float) → Bool
  usable now kind none = false
  usable now kind (some e) = is_kind kind e.value && not (is_expired now e)

  abbrev pub create : Bytes → Kind → Store Float → Store Float
  create key kind s = set_locked key (record { value = fresh_value kind; expires_at = none }) s

  unfoldable pub get_or_create : ℕ → Bytes → Kind → Store Float → Option (Entry Float) × Store Float
  get_or_create now key kind s =
      let s' = if usable now kind (lookup key s.entries) then s else create key kind s in
      (lookup key s'.entries, s')

  -- `Set`
  unfoldable pub set_string : Bytes → Bytes → Store Float → Store Float
  set_string key v s = set_locked key (record { value = str v; expires_at = none }) s

  abbrev pub string_of : Option (Entry Float) → Option Bytes
  string_of none = none
  string_of (some e) = elim e.value [ str v ↦ some v | _ ↦ none ]

  -- `Get`, and `GetString`, which is the same code.
  unfoldable pub get_string : ℕ → Bytes → Store Float → Option Bytes × Store Float
  get_string now key s = let (found, s') = get_locked now key s in (string_of found, s')

  abbrev pub del_found : Bytes → Option (Entry Float) → ℕ × Store Float → ℕ × Store Float
  del_found key none (n, s) = (n, s)
  del_found key (some e) (n, s) = (n + 1, remove_locked key e s)

  -- `Del`: how many keys were there.
  unfoldable pub del_each : List Bytes → ℕ × Store Float → ℕ × Store Float
  del_each [] r = r
  del_each (key ∷ keys) r = del_each keys (del_found key (lookup key r.1.entries) r)

  unfoldable pub del : List Bytes → Store Float → ℕ × Store Float
  del keys s = del_each keys (0, s)

  -- `e.expiresAt = …`
  unfoldable pub assign_expiry : Bytes → ℕ → Store Float → Store Float
  assign_expiry key t s = record s {
    entries =
        map (λ p. if text_eq p.0 key then (p.0, record p.1 { expires_at = some t }) else p)
          s.entries;
  }

  abbrev pub is_live : ℕ → Option (Entry Float) → Bool
  is_live now none = false
  is_live now (some e) = not (is_expired now e)

  -- `Expire`, for a duration of 64 bits.
  unfoldable pub expire : ℕ → Bytes → ℕ → Store Float → Bool × Store Float
  expire now key d s =
      if is_live now (lookup key s.entries)
      then (true, assign_expiry key (later now d) s)
      else (false, s)

  abbrev pub ttl_of : (ℕ → ℕ) → ℕ → Option (Entry Float) → ℤ
  ttl_of whole now none = negsuc 1
  ttl_of whole now (some e) = ttl_until whole now e.expires_at

  unfoldable pub ttl : (ℕ → ℕ) → ℕ → Bytes → Store Float → ℤ
  ttl whole now key s = ttl_of whole now (lookup key s.entries)
