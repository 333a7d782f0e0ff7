-- ===== src/Store/Recency.antt =====
-- The store as what it means to be: its pairs from the most to the least recently used, of which
-- the oldest go when there are too many.
use cachestack.Base.{
  ℕ, zero, suc, ◌+◌, ◌-◌, ◌≤◌, ◌<◌, ◌≡◌, ◌∙◌, refl, ap, sym, true, false, List, [], ◌∷◌, some,
  length, arith, Bool-cases, Option-cases, inl, inr, All, ltb, take, take_of_length-le, length-take,
}
use mathlib.Core.Bool.{false≢true}
use cachestack.Text.Equality.{text_eq_self}
use cachestack.Text.Names.{has}
use cachestack.Command.{Bytes}
use cachestack.Store.{
  Store, lookup, without, drop_name, back, remove_locked, touch, evict_one, evict, insert_front,
}
use cachestack.Store.Values.{Entry, entry_size}
use cachestack.Store.Maps.{has-drop_name, is_some, has-names}
use cachestack.Store.Matched.{IsMatched, absent, removed-IsMatched}
use cachestack.Store.Pairs.{
  Pairs, pairs, recent, take-take, drop_last, has-back, back-none, pairs-drop_name, pairs-without,
  pairs-cons, length-pairs, take-pairs,
}

All-has {ℓ} :
    (P : Bytes → Type ℓ) (ks : List Bytes) → ((k : Bytes) → has k ks ≡ true → P k) → All P ks
unfolding has
All-has P [] h = tt
All-has P (k ∷ ks) h =
    (h k (rw (text_eq_self k) refl), All-has P ks (λ i there. h i (rw there (ground arith))))

pub apart_from : (key : Bytes) (ks : List Bytes) → has key (drop_name key ks) ≡ false
apart_from key ks = has-drop_name key key ks ∙ rw (text_eq_self key) refl

module _ {Float : Type 0} where
  every_listed :
      (s : Store Float) → IsMatched s → All (λ k. is_some (lookup k s.entries) ≡ true) s.lru
  every_listed s v =
      All-has (λ k. is_some (lookup k s.entries) ≡ true) s.lru
        (λ k there. sym (has-names k s.entries) ∙ (sym (v.same k) ∙ there))

  pub length-recent : (s : Store Float) → IsMatched s → length (recent s) ≡ length s.entries
  unfolding recent
  length-recent s v = length-pairs s.lru s.entries (every_listed s v) ∙ v.balanced

  pub recent-touch :
      (key : Bytes) (e : Entry Float) (s : Store Float)
      → lookup key s.entries ≡ some e
      → recent (touch key s) ≡ (key, e) ∷ without key (recent s)
  unfolding recent pairs touch
  recent-touch key e s found = rw found (ap (◌∷◌ (key, e)) (pairs-drop_name key s.lru s.entries))

  pub recent-remove_locked :
      (key : Bytes) (e : Entry Float) (s : Store Float)
      → recent (remove_locked key e s) ≡ without key (recent s)
  unfolding recent remove_locked
  recent-remove_locked key e s =
      pairs-without key (drop_name key s.lru) s.entries (apart_from key s.lru)
      ∙ pairs-drop_name key s.lru s.entries

  pub recent-insert_front :
      (key : Bytes) (e : Entry Float) (s : Store Float)
      → has key s.lru ≡ false
      → recent (insert_front key e s) ≡ (key, e) ∷ recent s
  unfolding recent pairs
  recent-insert_front key e s out =
      rw (text_eq_self key) (ap (◌∷◌ (key, e)) (pairs-cons key e s.lru s.entries out))

  -- What a step of the store leaves, next to what it is meant to leave.
  pub record Becomes (r : Pairs Float) (limit : ℕ) (s : Store Float) : Type 0 where
    pub matched : IsMatched s
    pub left : recent s ≡ r
    pub limit_kept : s.max_keys ≡ limit

  evict_back :
      (s : Store Float) (l : Bytes) (e : Entry Float)
      → IsMatched s
      → back s.lru ≡ some l
      → lookup l s.entries ≡ some e
      → Becomes (take (length s.entries - 1) (recent s)) s.max_keys (evict_one s)
  unfolding evict_one remove_locked recent
  evict_back s l e v last found =
      rw (last, found)
        (record {
          matched = removed-IsMatched l (s.byte_used - (length l + entry_size e)) s found v;
          left =
              recent-remove_locked l e s
              ∙ sym (pairs-drop_name l s.lru s.entries)
              ∙ ap (λ ks. pairs ks s.entries) (drop_last l s.lru v.lru_distinct last)
              ∙ take-pairs (length s.lru - 1) s.lru s.entries (every_listed s v)
              ∙ ap (λ n. take (n - 1) (recent s)) v.balanced;
          limit_kept = refl;
        })

  -- While there is a key, the key at the end of the list goes, and it alone.
  pub evict_one_lem :
      (s : Store Float)
      → IsMatched s
      → 0 < length s.entries
      → Becomes (take (length s.entries - 1) (recent s)) s.max_keys (evict_one s)
  evict_one_lem s v some_left = elim (Option-cases (back s.lru)) [
    | inl e ↦ absurd (omega (arith, back-none s.lru e, v.balanced))
    | inr (l, e) ↦ elim (Option-cases (lookup l s.entries)) [
      | inl f ↦ absurd (false≢true (sym (absent s l v f) ∙ has-back l s.lru e))
      | inr (a, f) ↦ evict_back s l a v e f
    ]
  ]

  -- One key less.
  shorter :
      (s s' : Store Float) {limit : ℕ}
      → IsMatched s
      → Becomes (take (length s.entries - 1) (recent s)) limit s'
      → length s'.entries ≡ length s.entries - 1
  shorter s s' v b =
      sym (length-recent s' b.matched)
      ∙ ap length b.left
      ∙ omega (arith, length-take (length s.entries - 1) (recent s), length-recent s v)

  newest_fit :
      (s : Store Float)
      → IsMatched s
      → length s.entries ≤ s.max_keys
      → Becomes (take s.max_keys (recent s)) s.max_keys s
  newest_fit s v fits = record {
    matched = v;
    left = sym (take_of_length-le s.max_keys (recent s) (omega (arith, length-recent s v)));
    limit_kept = refl;
  }

  -- With fuel for every key, the loop ends with the newest keys that fit.
  pub evict_lem :
      (fuel : ℕ) (s : Store Float)
      → IsMatched s
      → length s.entries ≤ fuel + s.max_keys
      → Becomes (take s.max_keys (recent s)) s.max_keys (evict fuel s)
  unfolding evict
  evict_lem zero s v fits = newest_fit s v (omega (arith, fits))
  evict_lem (suc fuel) s v fits = elim (Bool-cases (ltb s.max_keys (length s.entries))) [
    | inl over ↦
        let s' : Store Float = evict_one s in
        let many : s.max_keys < length s.entries = ground arith in
        let one : Becomes (take (length s.entries - 1) (recent s)) s.max_keys s' =
          evict_one_lem s v (omega arith) in
        let rest : Becomes (take s'.max_keys (recent s')) s'.max_keys (evict fuel s') =
          evict_lem fuel s' one.matched (omega (arith, shorter s s' v one, one.limit_kept)) in
        rw over (record {
          matched = rest.matched;
          left =
              rest.left
              ∙ ap (λ m. take m (recent s')) one.limit_kept
              ∙ ap (take s.max_keys) one.left
              ∙ take-take s.max_keys (length s.entries - 1) (recent s) (omega arith);
          limit_kept = rest.limit_kept ∙ one.limit_kept;
        })
    | inr fine ↦
        let few : length s.entries ≤ s.max_keys = ground arith in rw fine (newest_fit s v few)
  ]
