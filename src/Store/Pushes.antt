-- ===== src/Store/Pushes.antt =====
-- What the writes to lists, sets and sorted sets answer and leave.
use cachestack.Base.{ℕ, refl, List, [], ◌++◌, Option, some, length, arith}
use mathlib.Core.List.{reverse}
use cachestack.Command.{Bytes}
use cachestack.Store.{Store, lookup, touch, get_or_create, assign}
use cachestack.Store.Values.{Value, list, set, zset, Entry, a_list, a_set, a_zset, put_score}
use cachestack.Store.Methods.{
  items, scores, lpush, rpush, sadd, zadd, flush_all, added_to, new_member, write, count_items,
}
use cachestack.Store.Matched.{IsMatched}
use cachestack.Store.Pairs.{Pairs, pairs, recent}
use cachestack.Store.Writes.{started, Fits, IsReady, get_or_create_lem}
use cachestack.Store.Calls.{done, holding}
use cachestack.Store.Answers.{put-Fits, Answers, answer}

module _ {Float : Type 0} where
  -- A push, whatever it makes of the list.
  pub pushed :
      {limit : ℕ} {key : Bytes} {e : Entry Float} {r : Pairs Float}
      (o : Option (Entry Float) × Store Float) (f : Value Float → Value Float)
      → IsReady limit key e r o
      → Answers limit
          (count_items (write key f o))
          (length (items (f e.value)), holding limit key e (f e.value) r)
  pushed {limit} {key} {e} {r} o f h = rw h.entry (
      answer (length (items (f e.value))) (touch key (assign key (f e.value) o.1))
        (h.written (f e.value)) (put-Fits limit key (record e { value = f e.value }) r))

  pub lpush_lem :
      (now : ℕ) (key : Bytes) (vals : List Bytes) (s : Store Float)
      → IsMatched s
      → Fits s.max_keys (recent s)
      → (let e = started now a_list (lookup key (recent s)) in
          let xs = reverse vals ++ items e.value in
          Answers s.max_keys
            (lpush now key vals s)
            (length xs, holding s.max_keys key e (list xs) (recent s)))
  unfolding lpush
  lpush_lem now key vals s v fits =
      pushed (get_or_create now key a_list s) (λ v. list (reverse vals ++ items v))
        (get_or_create_lem now key a_list s v fits)

  pub rpush_lem :
      (now : ℕ) (key : Bytes) (vals : List Bytes) (s : Store Float)
      → IsMatched s
      → Fits s.max_keys (recent s)
      → (let e = started now a_list (lookup key (recent s)) in
          let xs = items e.value ++ vals in
          Answers s.max_keys
            (rpush now key vals s)
            (length xs, holding s.max_keys key e (list xs) (recent s)))
  unfolding rpush
  rpush_lem now key vals s v fits =
      pushed (get_or_create now key a_list s) (λ v. list (items v ++ vals))
        (get_or_create_lem now key a_list s v fits)

  pub sadd_lem :
      (now : ℕ) (key : Bytes) (ms : List Bytes) (s : Store Float)
      → IsMatched s
      → Fits s.max_keys (recent s)
      → (let e = started now a_set (lookup key (recent s)) in
          let (now_in, added) = added_to e.value ms in
          Answers s.max_keys
            (sadd now key ms s)
            (added, holding s.max_keys key e (set now_in) (recent s)))
  unfolding sadd
  sadd_lem now key ms s v fits =
      let e : Entry Float = started now a_set (lookup key (recent s)) in
      let h : IsReady s.max_keys key e (recent s) (get_or_create now key a_set s) =
        get_or_create_lem now key a_set s v fits in
      let x : Value Float = set (added_to e.value ms).0 in
      rw h.entry (
        answer (added_to e.value ms).1 (touch key (assign key x (get_or_create now key a_set s).1))
          (h.written x) (put-Fits s.max_keys key (record e { value = x }) (recent s)))

  pub zadd_lem :
      (now : ℕ) (key : Bytes) (score : Float) (n : Bytes) (s : Store Float)
      → IsMatched s
      → Fits s.max_keys (recent s)
      → (let e = started now a_zset (lookup key (recent s)) in
          Answers s.max_keys (zadd now key score n s) (
            new_member (lookup n (scores e.value)),
            holding s.max_keys key e (zset (put_score n score (scores e.value))) (recent s),
          ))
  unfolding zadd
  zadd_lem now key score n s v fits =
      let e : Entry Float = started now a_zset (lookup key (recent s)) in
      let h : IsReady s.max_keys key e (recent s) (get_or_create now key a_zset s) =
        get_or_create_lem now key a_zset s v fits in
      let x : Value Float = zset (put_score n score (scores e.value)) in
      rw h.entry (
        answer (new_member (lookup n (scores e.value)))
          (touch key (assign key x (get_or_create now key a_zset s).1)) (h.written x)
          (put-Fits s.max_keys key (record e { value = x }) (recent s)))

  pub flush_lem : (s : Store Float) → Answers s.max_keys (some (done, flush_all s)) (done, [])
  unfolding flush_all recent pairs
  flush_lem s =
      answer done (flush_all s)
        (record {
          matched = record {
            lru_distinct = tt;
            keys_distinct = tt;
            same = λ k. refl;
            balanced = refl;
          };
          left = refl;
          limit_kept = refl;
        })
        (λ h. omega arith)
