-- ===== src/Store/Calls.antt =====
-- The methods of the store that change it, as calls with answers; and the store as it is meant to be, a list
-- of pairs from the most to the least recently used, with what each call does to that list.
use cachestack.Base.{
  ℕ, ◌+◌, Bool, List, [], ◌∷◌, ◌++◌, Option, none, some, length, filter, not, if◌then◌else◌,
}
use mathlib.Core.List.{reverse}
use cachestack.Command.{Bytes}
use cachestack.Store.{
  Store, lookup, without, set_string, get_string, string_of, del, expire, is_live,
}
use cachestack.Store.Values.{
  Value, str, list, set, zset, Entry, a_list, a_set, a_zset, is_expired, put_score, later,
}
use cachestack.Store.Methods.{
  items, scores, lpush, rpush, lpop, sadd, zadd, exists, flush_all, sweep, Order, is_there,
  added_to, new_member,
}
use cachestack.Store.Pairs.{Pairs}
use cachestack.Store.Sweep.{IsRange}
use cachestack.Store.Puts.{put}
use cachestack.Store.Updates.{update}
use cachestack.Store.Writes.{started}

pub data Call (Float : Type 0) : Type 0 where
  do_set : Bytes → Bytes → Call Float
  do_get : Bytes → Call Float
  do_exists : Bytes → Call Float
  do_del : List Bytes → Call Float
  do_expire : Bytes → ℕ → Call Float
  do_lpush : Bytes → List Bytes → Call Float
  do_rpush : Bytes → List Bytes → Call Float
  do_lpop : Bytes → Call Float
  do_sadd : Bytes → List Bytes → Call Float
  do_zadd : Bytes → Float → Bytes → Call Float
  do_flush : Call Float

-- A turn of the store: a call, or a round of the sweeper in the order of its `range`; each at its time.
pub data Turn (Float : Type 0) : Type 0 where
  called : ℕ → Call Float → Turn Float
  swept : ℕ → Order (Bytes × Entry Float) → Turn Float

pub data Answer : Type 0 where
  done : Answer
  count : ℕ → Answer
  value : Option Bytes → Answer
  yes : Bool → Answer

module _ {Float : Type 0} where
  abbrev pub with_answer :
      {A B : Type 0} → (A → B) → Option (A × Store Float) → Option (B × Store Float)
  with_answer f none = none
  with_answer f (some (a, s)) = some (f a, s)

  -- A call at a time of the clock; none is a panic.
  unfoldable pub call : ℕ → Call Float → Store Float → Option (Answer × Store Float)
  call now (do_set key v) s = some (done, set_string key v s)
  call now (do_get key) s = with_answer value (some (get_string now key s))
  call now (do_exists key) s = with_answer yes (some (exists now key s))
  call now (do_del keys) s = with_answer count (some (del keys s))
  call now (do_expire key d) s = with_answer yes (some (expire now key d s))
  call now (do_lpush key vals) s = with_answer count (lpush now key vals s)
  call now (do_rpush key vals) s = with_answer count (rpush now key vals s)
  call now (do_lpop key) s = with_answer value (some (lpop now key s))
  call now (do_sadd key ms) s = with_answer count (sadd now key ms s)
  call now (do_zadd key score m) s = with_answer count (zadd now key score m s)
  call now do_flush s = some (done, flush_all s)

  abbrev and_answer :
      Answer → Option (List Answer × Store Float) → Option (List Answer × Store Float)
  and_answer a none = none
  and_answer a (some (as', s)) = some (a ∷ as', s)

  abbrev pub and_then :
      (Store Float → Option (List Answer × Store Float))
      → Option (Answer × Store Float)
      → Option (List Answer × Store Float)
  and_then rest none = none
  and_then rest (some (a, t)) = and_answer a (rest t)

  -- Turns one after the other, with the answers of the calls.
  unfoldable pub calls : List (Turn Float) → Store Float → Option (List Answer × Store Float)
  calls [] s = some ([], s)
  calls (called now c ∷ more) s = and_then (calls more) (call now c s)
  calls (swept now order ∷ more) s = calls more (sweep now order s)

  -- The sweeper goes through the map as `range` does.
  abbrev pub Ranges : Turn Float → Type 0
  Ranges (called _ _) = Unit
  Ranges (swept _ order) = IsRange order

  -- A read by key: a live entry comes to the front, an expired one goes.
  abbrev pub live : ℕ → Option (Entry Float) → Option (Entry Float)
  live now none = none
  live now (some e) = if is_expired now e then none else some e

  abbrev pub seen : ℕ → Bytes → Option (Entry Float) → Pairs Float → Pairs Float
  seen now key none r = r
  seen now key (some e) r = if is_expired now e then without key r else (key, e) ∷ without key r

  abbrev pub gone : Bytes → Option (Entry Float) → ℕ × Pairs Float → ℕ × Pairs Float
  gone key none (n, r) = (n, r)
  gone key (some _) (n, r) = (n + 1, without key r)

  unfoldable pub all_gone : List Bytes → ℕ × Pairs Float → ℕ × Pairs Float
  all_gone [] r = r
  all_gone (key ∷ keys) r = all_gone keys (gone key (lookup key r.1) r)

  -- A pop of what a live entry holds.
  abbrev pub popped_value :
      Bytes → Entry Float → Value Float → Pairs Float → Option Bytes × Pairs Float
  popped_value key e (list (x ∷ xs)) r =
      (some x, (key, record e { value = list xs }) ∷ without key r)
  popped_value key e _ r = (none, r)

  abbrev pub popped : Bytes → Option (Entry Float) → Pairs Float → Option Bytes × Pairs Float
  popped key none r = (none, r)
  popped key (some e) r = popped_value key e e.value r

  abbrev pub holding : ℕ → Bytes → Entry Float → Value Float → Pairs Float → Pairs Float
  holding limit key e v r = put limit key (record e { value = v }) r

  -- The answer, and the pairs from the most to the least recently used.
  unfoldable pub meant : ℕ → ℕ → Call Float → Pairs Float → Answer × Pairs Float
  meant limit now (do_set key v) r =
      (done, put limit key (record { value = str v; expires_at = none }) r)
  meant limit now (do_get key) r =
      (value (string_of (live now (lookup key r))), seen now key (lookup key r) r)
  meant limit now (do_exists key) r =
      (yes (is_there (live now (lookup key r))), seen now key (lookup key r) r)
  meant limit now (do_del keys) r = let (n, left) = all_gone keys (0, r) in (count n, left)
  meant limit now (do_expire key d) r =
      let there = is_live now (lookup key r) in
      (
        yes there,
        (if there then update key (λ e. record e { expires_at = some (later now d) }) r else r),
      )
  meant limit now (do_lpush key vals) r =
      let e = started now a_list (lookup key r) in
      let xs = reverse vals ++ items e.value in (count (length xs), holding limit key e (list xs) r)
  meant limit now (do_rpush key vals) r =
      let e = started now a_list (lookup key r) in
      let xs = items e.value ++ vals in (count (length xs), holding limit key e (list xs) r)
  meant limit now (do_lpop key) r =
      let (x, left) = popped key (live now (lookup key r)) (seen now key (lookup key r) r) in
      (value x, left)
  meant limit now (do_sadd key ms) r =
      let e = started now a_set (lookup key r) in
      let (now_in, added) = added_to e.value ms in (count added, holding limit key e (set now_in) r)
  meant limit now (do_zadd key score m) r =
      let e = started now a_zset (lookup key r) in
      (
        count (new_member (lookup m (scores e.value))),
        holding limit key e (zset (put_score m score (scores e.value))) r,
      )
  meant limit now do_flush r = (done, [])

  unfoldable pub all_meant : ℕ → List (Turn Float) → Pairs Float → List Answer × Pairs Float
  all_meant limit [] r = ([], r)
  all_meant limit (called now c ∷ more) r =
      let (a, left) = meant limit now c r in
      let (others, last) = all_meant limit more left in (a ∷ others, last)
  all_meant limit (swept now order ∷ more) r =
      all_meant limit more (filter (λ q. not (is_expired now q.1)) r)
