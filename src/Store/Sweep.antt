-- ===== src/Store/Sweep.antt =====
-- The sweep of backend/internal/store/store.go: a round goes through the map by `range`, in no fixed order.
use cachestack.Base.{
  ℕ, ◌-◌, ◌+◌, ◌≡◌, ◌≢◌, ◌∙◌, refl, ap, sym, Bool, true, false, not, List, [], ◌∷◌, Option, none,
  some, filter, filter-filter, filter_congr, length, arith, if◌then◌else◌, Bool-cases, Option-cases,
  inl, inr, All, All_map, filter_of_All,
}
use mathlib.Core.Bool.{false≢true}
use cachestack.Text.{text_eq}
use cachestack.Text.Names.{Distinct}
use cachestack.Text.Equality.{text_eq_iff, text_eq_self}
use cachestack.Command.{Bytes}
use cachestack.Store.{Store, lookup, without, remove_locked}
use cachestack.Store.Values.{Entry, is_expired, entry_size}
use cachestack.Store.Maps.{text_eq_comm, names, has_of_All-ne, has-names, is_some, lookup-without}
use cachestack.Store.Matched.{IsMatched, removed-IsMatched}
use cachestack.Store.Pairs.{pairs, recent}
use cachestack.Store.Recency.{Becomes, recent-remove_locked}
use cachestack.Store.Methods.{Order, sweep_each, sweep}

-- `range` yields each pair of the map once, and no other.
abbrev pub IsRange : {A : Type 0} → Order (Bytes × A) → Type 0
IsRange {A} order =
    (ps : List (Bytes × A))
    → Distinct (names ps)
    → Distinct (names (order ps)) × ((k : Bytes) → lookup k (order ps) ≡ lookup k ps)

-- The order in which the pairs are listed is one that `range` may take.
pub self-IsRange : {A : Type 0} → IsRange {A = A} (λ ps. ps)
self-IsRange ps d = (d, λ k. refl)

module _ {A : Type 0} where
  lookup-front :
      (k : Bytes) (a : A) (ps qs : List (Bytes × A))
      → All (λ d. d ≢ k) (names qs)
      → All (λ p. lookup p.0 ps ≡ some p.1) qs
      → All (λ p. lookup p.0 ((k, a) ∷ ps) ≡ some p.1) qs
  lookup-front k a ps [] ne h = tt
  lookup-front k a ps (q ∷ qs) (apart, ne) (found, h) = elim (Bool-cases (text_eq k q.0)) [
    | inl same ↦ absurd (apart (sym ((text_eq_iff k q.0).0 same)))
    | inr other ↦ (rw other found, lookup-front k a ps qs ne h)
  ]

  lookup_each :
      (ps : List (Bytes × A)) → Distinct (names ps) → All (λ p. lookup p.0 ps ≡ some p.1) ps
  lookup_each [] d = tt
  lookup_each ((k, a) ∷ ps) (apart, d) =
      (rw (text_eq_self k) refl, lookup-front k a ps ps apart (lookup_each ps d))

  -- What `range` yields is in the map.
  pub range_found :
      (order : Order (Bytes × A)) (ps : List (Bytes × A))
      → IsRange order
      → Distinct (names ps)
      → All (λ p. lookup p.0 ps ≡ some p.1) (order ps)
  range_found order ps range d =
      let (once, same) = range ps d in
      All_map (λ p. lookup p.0 (order ps) ≡ some p.1) (λ p. lookup p.0 ps ≡ some p.1) (order ps)
        (λ p found. sym (same p.0) ∙ found) (lookup_each (order ps) once)

  lookup_absent :
      (k : Bytes) (ps : List (Bytes × A)) → All (λ d. d ≢ k) (names ps) → lookup k ps ≡ none
  lookup_absent k ps ne = elim (Option-cases (lookup k ps)) [
    | inl e ↦ e
    | inr (a, e) ↦
        absurd (false≢true (sym (has_of_All-ne k (names ps) ne) ∙ has-names k ps ∙ ap is_some e))
  ]

  filter_each : (p q : A → Bool) (xs : List A) → All (λ x. p x ≡ q x) xs → filter p xs ≡ filter q xs
  filter_each p q [] h = refl
  filter_each p q (x ∷ xs) (e, h) = ground (arith, e, filter_each p q xs h)

module _ {Float : Type 0} (now : ℕ) where
  abbrev dead : Option (Entry Float) → Bool
  dead none = false
  dead (some e) = is_expired now e

  -- The pairs that a round over these leaves.
  abbrev kept : List (Bytes × Entry Float) → Bytes × Entry Float → Bool
  kept ps q = not (dead (lookup q.0 ps))

  kept-expired :
      (k : Bytes) (e : Entry Float) (ps : List (Bytes × Entry Float)) (q : Bytes × Entry Float)
      → is_expired now e ≡ true
      → (if not (text_eq q.0 k) then kept ps q else false) ≡ kept ((k, e) ∷ ps) q
  kept-expired k e ps q old = rw (text_eq_comm q.0 k) (elim (Bool-cases (text_eq k q.0)) [
    | inl same ↦ rw same (rw old refl)
    | inr other ↦ rw other refl
  ])

  kept-alive :
      (k : Bytes) (e : Entry Float) (ps : List (Bytes × Entry Float)) (q : Bytes × Entry Float)
      → is_expired now e ≡ false
      → All (λ d. d ≢ k) (names ps)
      → kept ps q ≡ kept ((k, e) ∷ ps) q
  kept-alive k e ps q young apart = elim (Bool-cases (text_eq k q.0)) [
    | inl same ↦
        let gone : lookup q.0 ps ≡ none =
          sym (ap (λ n. lookup n ps) ((text_eq_iff k q.0).0 same)) ∙ lookup_absent k ps apart in
        rw same (rw (young, gone) refl)
    | inr other ↦ rw other refl
  ]

  still_found :
      (k : Bytes) (s : Store Float) (ps : List (Bytes × Entry Float))
      → All (λ d. d ≢ k) (names ps)
      → All (λ p. lookup p.0 s.entries ≡ some p.1) ps
      → All (λ p. lookup p.0 (without k s.entries) ≡ some p.1) ps
  still_found k s [] ne h = tt
  still_found k s (p ∷ ps) (apart, ne) (found, h) = elim (Bool-cases (text_eq k p.0)) [
    | inl same ↦ absurd (apart (sym ((text_eq_iff k p.0).0 same)))
    | inr other ↦ (lookup-without k p.0 s.entries ∙ rw other found, still_found k s ps ne h)
  ]

  all_kept : (r : List (Bytes × Entry Float)) → All (λ q. kept [] q ≡ true) r
  all_kept [] = tt
  all_kept (q ∷ r) = (refl, all_kept r)

  sweep_each_lem :
      (ps : List (Bytes × Entry Float)) (s : Store Float)
      → IsMatched s
      → Distinct (names ps)
      → All (λ p. lookup p.0 s.entries ≡ some p.1) ps
      → Becomes (filter (kept ps) (recent s)) s.max_keys (sweep_each now ps s)
  unfolding sweep_each remove_locked
  sweep_each_lem [] s m d h = record {
    matched = m;
    left = sym (filter_of_All (kept []) (recent s) (all_kept (recent s)));
    limit_kept = refl;
  }
  sweep_each_lem ((k, e) ∷ ps) s m (apart, d) (found, h) = elim (Bool-cases (is_expired now e)) [
    | inl old ↦
        let s' : Store Float = remove_locked k e s in
        let rest : Becomes (filter (kept ps) (recent s')) s'.max_keys (sweep_each now ps s') =
          sweep_each_lem ps s'
            (removed-IsMatched k (s.byte_used - (length k + entry_size e)) s found m) d
            (still_found k s ps apart h) in
        rw old (record {
          matched = rest.matched;
          left =
              rest.left
              ∙ ap (filter (kept ps)) (recent-remove_locked k e s)
              ∙ filter-filter (kept ps) (λ q. not (text_eq q.0 k)) (recent s)
              ∙ filter_congr (λ q. if not (text_eq q.0 k) then kept ps q else false)
                  (kept ((k, e) ∷ ps)) (recent s) (λ q. kept-expired k e ps q old);
          limit_kept = rest.limit_kept;
        })
    | inr young ↦
        let rest : Becomes (filter (kept ps) (recent s)) s.max_keys (sweep_each now ps s) =
          sweep_each_lem ps s m d h in
        rw young (record {
          matched = rest.matched;
          left =
              rest.left
              ∙ filter_congr (kept ps) (kept ((k, e) ∷ ps)) (recent s)
                  (λ q. kept-alive k e ps q young apart);
          limit_kept = rest.limit_kept;
        })
  ]

  recent_found :
      (ks : List Bytes) (ps : List (Bytes × Entry Float))
      → All (λ q. lookup q.0 ps ≡ some q.1) (pairs ks ps)
  unfolding pairs
  recent_found [] ps = tt
  recent_found (k ∷ ks) ps = elim (Option-cases (lookup k ps)) [
    | inl e ↦ rw e (recent_found ks ps)
    | inr (a, e) ↦ rw e (e, recent_found ks ps)
  ]

  -- A round of the sweeper on a store whose map and LRU list match, in whatever order `range` goes through
  -- the map: exactly the expired pairs are gone, from the map and the list together, and the others stay, in
  -- the order of their last use.
  pub sweep_lem :
      (order : Order (Bytes × Entry Float)) (s : Store Float)
      → IsRange order
      → IsMatched s
      → Becomes (filter (λ q. not (is_expired now q.1)) (recent s)) s.max_keys (sweep now order s)
  unfolding sweep recent
  sweep_lem order s range m =
      let (once, same) = range s.entries m.keys_distinct in
      let swept : Becomes (filter (kept (order s.entries)) (recent s)) s.max_keys
          (sweep now order s) =
        sweep_each_lem (order s.entries) s m once
          (range_found order s.entries range m.keys_distinct) in
      record {
        matched = swept.matched;
        left =
            swept.left
            ∙ filter_each (kept (order s.entries)) (λ q. not (is_expired now q.1)) (recent s)
                (All_map (λ q. lookup q.0 s.entries ≡ some q.1)
                  (λ q. kept (order s.entries) q ≡ not (is_expired now q.1)) (recent s)
                  (λ q found. ap (λ o. not (dead o)) (same q.0 ∙ found))
                  (recent_found s.lru s.entries));
        limit_kept = swept.limit_kept;
      }
