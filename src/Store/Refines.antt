-- ===== src/Store/Refines.antt =====
-- Calls of the store next to what they are meant to do.
use cachestack.Base.{
  ℕ, ◌≡◌, ◌∙◌, refl, ap, sym, subst, List, [], ◌∷◌, Option, none, some, filter, not, All,
  length-filter-le, arith, Bool-cases, inl, inr,
}
use mathlib.Core.Bool.{false≢true}
use cachestack.Command.{Bytes}
use cachestack.Store.{Store, lookup, touch, get_locked, assign, new_store}
use cachestack.Store.Values.{Value, str, list, set, zset, Entry, is_expired}
use cachestack.Store.Methods.{lpop, pop_value, pop_found, sweep, Order}
use cachestack.Store.Matched.{IsMatched}
use cachestack.Store.Sweep.{IsRange, sweep_lem}
use cachestack.Store.Pairs.{Pairs, pairs, recent}
use cachestack.Store.Puts.{lookup-recent}
use cachestack.Store.Updates.{touch-update}
use cachestack.Store.Writes.{Fits}
use cachestack.Store.Calls.{
  Call, Turn, called, swept, Ranges, do_set, do_get, do_exists, do_del, do_expire, do_lpush,
  do_rpush, do_lpop, do_sadd, do_zadd, do_flush, count, value, yes, call, calls, live, seen, meant,
  all_meant, popped, and_then, popped_value,
}
use cachestack.Store.Answers.{
  front-Fits, Holds, Answers, answer, mapped, set_lem, get_locked_lem, get_lem, exists_lem, del_lem,
  expire_lem,
}
use cachestack.Store.Pushes.{lpush_lem, rpush_lem, sadd_lem, zadd_lem, flush_lem}
use cachestack.Store.Maps.{is_some}
use cachestack.Text.Equality.{text_eq_self}
use mathlib.Core.Option.{some-injective}

module _ {Float : Type 0} where
  -- What is proved of a store is so of the pairs that it holds.
  at_holds :
      {A : Type 0} {limit : ℕ} {r : Pairs Float} {o : Option (A × Store Float)}
      (g : ℕ → Pairs Float → A × Pairs Float) (s : Store Float)
      → Holds limit r s
      → (IsMatched s → Fits s.max_keys (recent s) → Answers s.max_keys o (g s.max_keys (recent s)))
      → Answers limit o (g limit r)
  at_holds {limit = limit} {r = r} {o = o} g s h lem =
      subst (λ r. Answers limit o (g limit r)) h.order
        (subst (λ m. Answers m o (g m (recent s))) h.limit_kept
          (lem h.matched (
            subst (λ m. Fits m (recent s)) (sym h.limit_kept)
              (subst (Fits limit) (sym h.order) h.fits))))

  pop_value_lem :
      (key : Bytes) (e : Entry Float) (v : Value Float) (s : Store Float)
      → IsMatched s
      → Fits s.max_keys (recent s)
      → lookup key s.entries ≡ some e
      → Answers s.max_keys (some (pop_value key v s)) (popped_value key e v (recent s))
  unfolding assign
  pop_value_lem key e (list (x ∷ xs)) s m fits found =
      answer (some x) (touch key (assign key (list xs) s))
        (touch-update (λ a. record a { value = list xs }) key e s m found)
        (front-Fits s.max_keys key e (record e { value = list xs }) (recent s)
          (lookup-recent key s m ∙ found) fits)
  pop_value_lem key e (list []) s m fits found =
      answer none s (record { matched = m; left = refl; limit_kept = refl }) fits
  pop_value_lem key e (str x) s m fits found =
      answer none s (record { matched = m; left = refl; limit_kept = refl }) fits
  pop_value_lem key e (set x) s m fits found =
      answer none s (record { matched = m; left = refl; limit_kept = refl }) fits
  pop_value_lem key e (zset x) s m fits found =
      answer none s (record { matched = m; left = refl; limit_kept = refl }) fits

  lookup-seen :
      (now : ℕ) (key : Bytes) (o : Option (Entry Float)) (e : Entry Float) (r : Pairs Float)
      → live now o ≡ some e
      → lookup key (seen now key o r) ≡ some e
  lookup-seen now key none e r h = absurd (false≢true (ap is_some h))
  lookup-seen now key (some a) e r h = elim (Bool-cases (is_expired now a)) [
    | inl dead ↦ absurd (false≢true (ap is_some (rw dead at h)))
    | inr alive ↦ rw (alive, text_eq_self key) (rw alive at h)
  ]

  lpop_lem :
      (now : ℕ) (key : Bytes) (s : Store Float)
      → IsMatched s
      → Fits s.max_keys (recent s)
      → Answers s.max_keys (some (lpop now key s)) (
          popped key
            (live now (lookup key (recent s)))
            (seen now key (lookup key (recent s)) (recent s)))
  unfolding lpop
  lpop_lem now key s v fits =
      let o : Option (Entry Float) = lookup key (recent s) in
      let h : Answers s.max_keys (some (get_locked now key s))
          (live now o, seen now key o (recent s)) =
        get_locked_lem now key s v fits in
      let g : get_locked now key s ≡ (live now o, h.after) =
        some-injective (get_locked now key s) (live now o, h.after) h.answered in
      rw g (popped_lem (live now o) (λ e there. lookup-seen now key o e (recent s) there) h.holds)
    where
      popped_lem :
          {limit : ℕ} {r : Pairs Float} {t : Store Float} (found : Option (Entry Float))
          → ((e : Entry Float) → found ≡ some e → lookup key r ≡ some e)
          → Holds limit r t
          → Answers limit (some (pop_found key (found, t))) (popped key found r)
      popped_lem none there h = record { after = _; answered = refl; holds = h }
      popped_lem {t = t} (some e) there h =
          at_holds (λ m r. popped_value key e e.value r) t h
            (λ v fits.
              pop_value_lem key e e.value t v fits
                (sym (lookup-recent key t v) ∙ ap (lookup key) h.order ∙ there e refl))

  pub call_lem :
      (now : ℕ) (c : Call Float) (s : Store Float)
      → IsMatched s
      → Fits s.max_keys (recent s)
      → Answers s.max_keys (call now c s) (meant s.max_keys now c (recent s))
  unfolding call meant
  call_lem now (do_set key v) s m fits = set_lem key v s m
  call_lem now (do_get key) s m fits = mapped value (get_lem now key s m fits)
  call_lem now (do_exists key) s m fits = mapped yes (exists_lem now key s m fits)
  call_lem now (do_del keys) s m fits = mapped count (del_lem keys s m fits)
  call_lem now (do_expire key d) s m fits = mapped yes (expire_lem now key d s m fits)
  call_lem now (do_lpush key vals) s m fits = mapped count (lpush_lem now key vals s m fits)
  call_lem now (do_rpush key vals) s m fits = mapped count (rpush_lem now key vals s m fits)
  call_lem now (do_lpop key) s m fits = mapped value (lpop_lem now key s m fits)
  call_lem now (do_sadd key ms) s m fits = mapped count (sadd_lem now key ms s m fits)
  call_lem now (do_zadd key score n) s m fits = mapped count (zadd_lem now key score n s m fits)
  call_lem now do_flush s m fits = flush_lem s

  pub call_holds :
      {limit : ℕ} {r : Pairs Float} (now : ℕ) (c : Call Float) (s : Store Float)
      → Holds limit r s
      → Answers limit (call now c s) (meant limit now c r)
  call_holds now c s h = at_holds (λ m r. meant m now c r) s h (call_lem now c s)

  sweep-Holds :
      {limit : ℕ} {r : Pairs Float} (now : ℕ) (order : Order (Bytes × Entry Float))
      (s : Store Float)
      → IsRange order
      → Holds limit r s
      → Holds limit (filter (λ q. not (is_expired now q.1)) r) (sweep now order s)
  sweep-Holds {r = r} now order s range h =
      let b = sweep_lem now order s range h.matched in
      record {
        matched = b.matched;
        order = b.left ∙ ap (filter (λ q. not (is_expired now q.1))) h.order;
        limit_kept = b.limit_kept ∙ h.limit_kept;
        fits = λ some_limit.
            let room = h.fits some_limit in
            omega (arith, room, length-filter-le (λ q. not (is_expired now q.1)) r);
      }

  pub calls_lem :
      {limit : ℕ} (todo : List (Turn Float)) {r : Pairs Float} (s : Store Float)
      → All Ranges todo
      → Holds limit r s
      → Answers limit (calls todo s) (all_meant limit todo r)
  unfolding calls all_meant
  calls_lem [] s ranges h = record { after = s; answered = refl; holds = h }
  calls_lem {limit} (called now c ∷ todo) {r} s (_, ranges) h =
      let one = call_holds now c s h in
      let rest = calls_lem todo {r = (meant limit now c r).1} one.after ranges one.holds in
      let goal : Answers limit (and_then (calls todo) (call now c s))
          (all_meant limit (called now c ∷ todo) r) =
        rw one.answered
          (rw rest.answered (record { after = rest.after; answered = refl; holds = rest.holds })) in
      goal
  calls_lem (swept now order ∷ todo) s (range, ranges) h =
      calls_lem todo (sweep now order s) ranges (sweep-Holds now order s range h)

  pub new_store-Holds : (limit : ℕ) → Holds limit [] (new_store {Float = Float} limit)
  unfolding new_store recent pairs
  new_store-Holds limit = record {
    matched = record { lru_distinct = tt; keys_distinct = tt; same = λ k. refl; balanced = refl };
    order = refl;
    limit_kept = refl;
    fits = λ h. omega arith;
  }

  -- Whatever is called on a new store (SET, GET, EXISTS, DEL, EXPIRE, LPUSH, RPUSH, LPOP, SADD, ZADD,
  -- FLUSHALL), in whatever order and at whatever times, with rounds of the sweeper in between, each in an
  -- order in which `range` may go through the map: every call returns, with the answer that `meant` gives
  -- it, a round removes exactly the expired pairs, and the store holds the pairs that are left so, in the
  -- order of their last use, which are no more than the limit if there is one.
  pub calls-new_store :
      (limit : ℕ) (todo : List (Turn Float))
      → All Ranges todo
      → Answers limit (calls todo (new_store limit)) (all_meant limit todo [])
  calls-new_store limit todo ranges =
      calls_lem todo (new_store limit) ranges (new_store-Holds limit)
