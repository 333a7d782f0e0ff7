-- ===== src/Store/Puts.antt =====
-- What a write leaves: the key first, the others behind it, and the oldest gone when there are too many.
use cachestack.Base.{
  ℕ, ◌+◌, ◌-◌, ◌≡◌, ◌∙◌, refl, ap, sym, List, [], ◌∷◌, none, length, arith, if◌then◌else◌,
  Bool-cases, Option-cases, inl, inr, ltb, take,
}
use cachestack.Text.{text_eq}
use cachestack.Text.Equality.{text_eq_iff, text_eq_self}
use cachestack.Text.Names.{has}
use cachestack.Command.{Bytes}
use cachestack.Store.{
  Store, lookup, without, remove_locked, remove_found, insert_front, make_room, set_locked,
}
use cachestack.Store.Values.{Entry, entry_size}
use cachestack.Store.Maps.{lookup-without, without_absent}
use cachestack.Store.Matched.{IsMatched, listed, absent, removed-IsMatched, insert_front-IsMatched}
use cachestack.Store.Pairs.{Pairs, pairs, recent}
use cachestack.Store.Recency.{Becomes, recent-remove_locked, recent-insert_front, evict_lem}

module _ {Float : Type 0} where
  -- At most so many pairs, where there is a limit.
  abbrev pub bounded : ℕ → Pairs Float → Pairs Float
  bounded limit r = if ltb 0 limit then take limit r else r

  -- A key and what it holds now, in the store as it is meant to be.
  abbrev pub put : ℕ → Bytes → Entry Float → Pairs Float → Pairs Float
  put limit key e r = bounded limit ((key, e) ∷ without key r)

  lookup-pairs :
      (key : Bytes) (ks : List Bytes) (ps : Pairs Float)
      → lookup key (pairs ks ps) ≡ (if has key ks then lookup key ps else none)
  unfolding pairs has
  lookup-pairs key [] ps = ground arith
  lookup-pairs key (k ∷ ks) ps = elim (Bool-cases (text_eq k key)) [
    | inl same ↦
        let at_key : lookup k ps ≡ lookup key ps =
          ap (λ n. lookup n ps) ((text_eq_iff k key).0 same) in
        elim (Option-cases (lookup k ps)) [
          | inl e ↦ rw (e, same) (lookup-pairs key ks ps ∙ rw (sym at_key ∙ e) (ground arith))
          | inr (a, e) ↦ rw (e, same) (sym e ∙ at_key)
        ]
    | inr other ↦ elim (Option-cases (lookup k ps)) [
      | inl e ↦ rw (e, other) (lookup-pairs key ks ps)
      | inr (a, e) ↦ rw (e, other) (lookup-pairs key ks ps)
    ]
  ]

  pub lookup-recent :
      (key : Bytes) (s : Store Float) → IsMatched s → lookup key (recent s) ≡ lookup key s.entries
  unfolding recent
  lookup-recent key s v = elim (Option-cases (lookup key s.entries)) [
    | inl e ↦ lookup-pairs key s.lru s.entries ∙ rw (absent s key v e, e) refl
    | inr (a, e) ↦ lookup-pairs key s.lru s.entries ∙ rw (listed s key v e) refl
  ]

  record IsCleared (key : Bytes) (s s' : Store Float) : Type 0 where
    becomes : Becomes (without key (recent s)) s.max_keys s'
    free : lookup key s'.entries ≡ none

  cleared :
      (key : Bytes) (s : Store Float)
      → IsMatched s
      → IsCleared key s (remove_found key (lookup key s.entries) s)
  unfolding remove_locked
  cleared key s v = elim (Option-cases (lookup key s.entries)) [
    | inl e ↦ rw e (record {
      becomes = record {
        matched = v;
        left = sym (without_absent key (recent s) (lookup-recent key s v ∙ e));
        limit_kept = refl;
      };
      free = e;
    })
    | inr (a, e) ↦ rw e (record {
      becomes = record {
        matched = removed-IsMatched key (s.byte_used - (length key + entry_size a)) s e v;
        left = recent-remove_locked key a s;
        limit_kept = refl;
      };
      free = lookup-without key key s.entries ∙ rw (text_eq_self key) refl;
    })
  ]

  -- The loop of evictions, which only a limit starts.
  room_lem :
      (s : Store Float)
      → IsMatched s
      → Becomes (bounded s.max_keys (recent s)) s.max_keys (make_room s)
  room_lem s v = elim (Bool-cases (ltb 0 s.max_keys)) [
    | inl e ↦ rw e (evict_lem (length s.entries) s v (omega arith))
    | inr e ↦ rw e (record { matched = v; left = refl; limit_kept = refl })
  ]

  -- After a write the key holds what was written and is the most recently used; the other keys follow as
  -- they were, and of these the oldest are gone that exceed the limit.
  pub set_locked_lem :
      (key : Bytes) (e : Entry Float) (s : Store Float)
      → IsMatched s
      → Becomes (put s.max_keys key e (recent s)) s.max_keys (set_locked key e s)
  unfolding set_locked
  set_locked_lem key e s v =
      let s' : Store Float = remove_found key (lookup key s.entries) s in
      let c : IsCleared key s s' = cleared key s v in
      let front : recent (insert_front key e s') ≡ (key, e) ∷ without key (recent s) =
        recent-insert_front key e s' (absent s' key c.becomes.matched c.free)
        ∙ ap (◌∷◌ (key, e)) c.becomes.left in
      let done =
        room_lem (insert_front key e s')
          (insert_front-IsMatched key e s' c.free c.becomes.matched) in
      record {
        matched = done.matched;
        left =
            done.left
            ∙ ap (bounded s'.max_keys) front
            ∙ ap (λ m. bounded m ((key, e) ∷ without key (recent s))) c.becomes.limit_kept;
        limit_kept = done.limit_kept ∙ c.becomes.limit_kept;
      }
