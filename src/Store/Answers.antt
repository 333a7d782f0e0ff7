-- ===== src/Store/Answers.antt =====
-- What a call answers and leaves: the reads by key, the deletions and the expiry.
use cachestack.Base.{
  ℕ, ◌+◌, ◌-◌, ◌≡◌, ◌∙◌, refl, ap, sym, subst, true, false, not, List, [], ◌∷◌, Option, none, some,
  length, arith, if◌then◌else◌, Bool-cases, Option-cases, inl, inr, ltb, length-take,
  length-filter-le,
}
use cachestack.Text.{text_eq}
use cachestack.Command.{Bytes}
use cachestack.Store.{
  Store, lookup, without, remove_locked, touch, set_locked, get_locked, string_of, is_live,
  del_each, del_found, expire, assign_expiry, get_string, set_string, del,
}
use cachestack.Store.Values.{str, Entry, is_expired, later, entry_size}
use cachestack.Store.Methods.{exists, is_there}
use cachestack.Store.Matched.{IsMatched, removed-IsMatched, renamed-IsMatched, touch-IsMatched}
use cachestack.Store.Pairs.{Pairs, recent}
use cachestack.Store.Recency.{Becomes, recent-touch, recent-remove_locked}
use cachestack.Store.Puts.{put, lookup-recent, set_locked_lem}
use cachestack.Store.Updates.{update, names-update, pairs-update_all, length-update}
use cachestack.Store.Writes.{Fits, length-without_there}
use cachestack.Store.Calls.{done, live, seen, gone, all_gone, with_answer}

module _ {Float : Type 0} where
  pub put-Fits :
      (limit : ℕ) (key : Bytes) (e : Entry Float) (r : Pairs Float) → Fits limit (put limit key e r)
  put-Fits limit key e r h =
      let on : ltb 0 limit ≡ true = ground arith in
      rw on (omega (arith, length-take limit ((key, e) ∷ without key r)))

  pub without-Fits :
      (limit : ℕ) (key : Bytes) (r : Pairs Float) → Fits limit r → Fits limit (without key r)
  without-Fits limit key r fits h =
      let room = fits h in omega (arith, room, length-filter-le (λ p. not (text_eq p.0 key)) r)

  pub front-Fits :
      (limit : ℕ) (key : Bytes) (e e' : Entry Float) (r : Pairs Float)
      → lookup key r ≡ some e
      → Fits limit r
      → Fits limit ((key, e') ∷ without key r)
  front-Fits limit key e e' r found fits h =
      let room = fits h in omega (arith, room, length-without_there key e r found)

  -- The store holds these pairs in this order of recency, under this limit, and there are not too many.
  pub record Holds (limit : ℕ) (r : Pairs Float) (s : Store Float) : Type 0 where
    pub matched : IsMatched s
    pub order : recent s ≡ r
    pub limit_kept : s.max_keys ≡ limit
    pub fits : Fits limit r

  -- A call returns, with this answer, and leaves these pairs.
  pub record Answers {A : Type 0} (limit : ℕ) (o : Option (A × Store Float)) (a : A × Pairs Float)
      : Type 0 where
    pub after : Store Float
    pub answered : o ≡ some (a.0, after)
    pub holds : Holds limit a.1 after

  pub answer :
      {A : Type 0} {limit : ℕ} {r : Pairs Float} (a : A) (s : Store Float)
      → Becomes r limit s
      → Fits limit r
      → Answers limit (some (a, s)) (a, r)
  answer a s b fits = record {
    after = s;
    answered = refl;
    holds = record { matched = b.matched; order = b.left; limit_kept = b.limit_kept; fits = fits };
  }

  pub set_lem :
      (key v : Bytes) (s : Store Float)
      → IsMatched s
      → Answers s.max_keys
          (some (done, set_string key v s))
          (done, put s.max_keys key (record { value = str v; expires_at = none }) (recent s))
  unfolding set_string
  set_lem key v s m =
      let e : Entry Float = record { value = str v; expires_at = none } in
      answer done (set_locked key e s) (set_locked_lem key e s m)
        (put-Fits s.max_keys key e (recent s))

  -- A read of a key, whatever is made of what it finds.
  pub get_locked_lem :
      (now : ℕ) (key : Bytes) (s : Store Float)
      → IsMatched s
      → Fits s.max_keys (recent s)
      → Answers s.max_keys
          (some (get_locked now key s))
          (live now (lookup key (recent s)), seen now key (lookup key (recent s)) (recent s))
  unfolding get_locked remove_locked touch
  get_locked_lem now key s v fits =
      rw (lookup-recent key s v) (elim (Option-cases (lookup key s.entries)) [
        | inl e ↦ rw e (answer none s (record { matched = v; left = refl; limit_kept = refl }) fits)
        | inr (a, e) ↦ elim (Bool-cases (is_expired now a)) [
          | inl dead ↦
              rw (e, dead)
                (answer none (remove_locked key a s)
                  (record {
                    matched =
                        removed-IsMatched key (s.byte_used - (length key + entry_size a)) s e v;
                    left = recent-remove_locked key a s;
                    limit_kept = refl;
                  })
                  (without-Fits s.max_keys key (recent s) fits))
          | inr alive ↦
              rw (e, alive)
                (answer (some a) (touch key s)
                  (record {
                    matched = touch-IsMatched key s e v;
                    left = recent-touch key a s e;
                    limit_kept = refl;
                  })
                  (front-Fits s.max_keys key a a (recent s) (lookup-recent key s v ∙ e) fits))
        ]
      ])

  pub mapped :
      {A B : Type 0} {limit : ℕ} {o : Option (A × Store Float)} {a : A × Pairs Float} (f : A → B)
      → Answers limit o a
      → Answers limit (with_answer f o) (f a.0, a.1)
  mapped f h = record { after = h.after; answered = ap (with_answer f) h.answered; holds = h.holds }

  pub get_lem :
      (now : ℕ) (key : Bytes) (s : Store Float)
      → IsMatched s
      → Fits s.max_keys (recent s)
      → Answers s.max_keys (some (get_string now key s)) (
        string_of (live now (lookup key (recent s))),
        seen now key (lookup key (recent s)) (recent s),
      )
  unfolding get_string
  get_lem now key s v fits = mapped string_of (get_locked_lem now key s v fits)

  pub exists_lem :
      (now : ℕ) (key : Bytes) (s : Store Float)
      → IsMatched s
      → Fits s.max_keys (recent s)
      → Answers s.max_keys (some (exists now key s)) (
        is_there (live now (lookup key (recent s))),
        seen now key (lookup key (recent s)) (recent s),
      )
  unfolding exists
  exists_lem now key s v fits = mapped is_there (get_locked_lem now key s v fits)

  pub del_each_lem :
      (keys : List Bytes) (n : ℕ) (s : Store Float)
      → IsMatched s
      → Fits s.max_keys (recent s)
      → Answers s.max_keys (some (del_each keys (n, s))) (all_gone keys (n, recent s))
  unfolding del_each all_gone remove_locked
  del_each_lem [] n s v fits =
      answer n s (record { matched = v; left = refl; limit_kept = refl }) fits
  del_each_lem (key ∷ keys) n s v fits =
      let goal : Answers s.max_keys
          (some (del_each keys (del_found key (lookup key s.entries) (n, s))))
          (all_gone keys (gone key (lookup key (recent s)) (n, recent s))) =
        rw (lookup-recent key s v) (elim (Option-cases (lookup key s.entries)) [
          | inl e ↦ rw e (del_each_lem keys n s v fits)
          | inr (a, e) ↦ rw e (
              subst
                (λ r.
                  Answers s.max_keys (some (del_each keys (n + 1, remove_locked key a s)))
                    (all_gone keys (n + 1, r)))
                (recent-remove_locked key a s)
                (del_each_lem keys (n + 1) (remove_locked key a s)
                  (removed-IsMatched key (s.byte_used - (length key + entry_size a)) s e v)
                  (subst (Fits s.max_keys) (sym (recent-remove_locked key a s))
                    (without-Fits s.max_keys key (recent s) fits))))
        ]) in
      goal

  pub del_lem :
      (keys : List Bytes) (s : Store Float)
      → IsMatched s
      → Fits s.max_keys (recent s)
      → Answers s.max_keys (some (del keys s)) (all_gone keys (0, recent s))
  unfolding del
  del_lem keys s v fits = del_each_lem keys 0 s v fits

  pub expire_lem :
      (now : ℕ) (key : Bytes) (d : ℕ) (s : Store Float)
      → IsMatched s
      → Fits s.max_keys (recent s)
      → Answers s.max_keys (some (expire now key d s)) (
        is_live now (lookup key (recent s)),
        (if is_live now (lookup key (recent s))
            then update key (λ e. record e { expires_at = some (later now d) }) (recent s)
            else recent s),
      )
  unfolding expire assign_expiry recent
  expire_lem now key d s v fits =
      let g : Entry Float → Entry Float = λ e. record e { expires_at = some (later now d) } in
      rw (lookup-recent key s v) (elim (Bool-cases (is_live now (lookup key s.entries))) [
        | inl e ↦ rw e (
            answer true (assign_expiry key (later now d) s)
              (record {
                matched =
                    renamed-IsMatched (update key g s.entries) s (names-update g key s.entries) v;
                left = pairs-update_all g key s.lru s.entries;
                limit_kept = refl;
              })
              (λ h. let room = fits h in omega (arith, room, length-update g key (recent s))))
        | inr e ↦
            rw e (answer false s (record { matched = v; left = refl; limit_kept = refl }) fits)
      ])
