-- ===== src/Store/Updates.antt =====
-- An entry changed through the pointer that the map holds.
use cachestack.Base.{
  suc, ◌≡◌, ◌∙◌, refl, ap, sym, false, List, [], ◌∷◌, none, some, map, length, arith, if◌then◌else◌,
  Bool-cases, Option-cases, inl, inr,
}
use mathlib.Core.Option.{some-injective}
use mathlib.Core.Bool.{false≢true}
use cachestack.Text.{text_eq}
use cachestack.Text.Equality.{text_eq_iff}
use cachestack.Text.Names.{has}
use cachestack.Command.{Bytes}
use cachestack.Store.{Store, lookup, without, drop_name, touch}
use cachestack.Store.Values.{Entry}
use cachestack.Store.Maps.{text_eq_comm, names, is_some}
use cachestack.Store.Matched.{IsMatched, touch-IsMatched, renamed-IsMatched}
use cachestack.Store.Pairs.{Pairs, pair_found, pairs, recent, pairs-drop_name}
use cachestack.Store.Recency.{Becomes, apart_from}

abbrev pub update :
    {Float : Type 0} → Bytes → (Entry Float → Entry Float) → Pairs Float → Pairs Float
update key g = map (λ p. if text_eq p.0 key then (p.0, g p.1) else p)

module _ {Float : Type 0} (g : Entry Float → Entry Float) where
  -- It changes no key.
  pub names-update : (key : Bytes) (ps : Pairs Float) → names (update key g ps) ≡ names ps
  names-update key [] = refl
  names-update key ((k, a) ∷ ps) = elim (Bool-cases (text_eq k key)) [
    | inl e ↦ rw e (ap (◌∷◌ k) (names-update key ps))
    | inr e ↦ rw e (ap (◌∷◌ k) (names-update key ps))
  ]

  pub lookup-update :
      (key : Bytes) (e : Entry Float) (ps : Pairs Float)
      → lookup key ps ≡ some e
      → lookup key (update key g ps) ≡ some (g e)
  lookup-update key e [] found = absurd (false≢true (ap is_some found))
  lookup-update key e ((k, a) ∷ ps) found = elim (Bool-cases (text_eq k key)) [
    | inl same ↦ rw (same, same) (ap some (ap g (some-injective a e (rw same at found))))
    | inr other ↦ rw (other, other) (lookup-update key e ps (rw other at found))
  ]

  lookup-update_other :
      (key k : Bytes) (ps : Pairs Float)
      → text_eq k key ≡ false
      → lookup k (update key g ps) ≡ lookup k ps
  lookup-update_other key k [] other = refl
  lookup-update_other key k ((j, a) ∷ ps) other = elim (Bool-cases (text_eq j key)) [
    | inl e ↦
        let apart : text_eq j k ≡ false =
          ap (λ n. text_eq n k) ((text_eq_iff j key).0 e) ∙ text_eq_comm key k ∙ other in
        rw (e, apart) (lookup-update_other key k ps other)
    | inr e ↦ elim (Bool-cases (text_eq j k)) [
      | inl f ↦ rw (e, f) refl
      | inr f ↦ rw (e, f) (lookup-update_other key k ps other)
    ]
  ]

  pairs-update :
      (key : Bytes) (ks : List Bytes) (ps : Pairs Float)
      → has key ks ≡ false
      → pairs ks (update key g ps) ≡ pairs ks ps
  unfolding pairs has
  pairs-update key [] ps out = refl
  pairs-update key (k ∷ ks) ps out = elim (Bool-cases (text_eq k key)) [
    | inl e ↦ absurd (ground arith)
    | inr e ↦
        ap (λ o. pair_found k o (pairs ks (update key g ps))) (lookup-update_other key k ps e)
        ∙ ap (pair_found k (lookup k ps)) (pairs-update key ks ps (rw e at out))
  ]

  -- An entry that the map holds is changed and becomes the most recently used.
  pub touch-update :
      (key : Bytes) (e : Entry Float) (s : Store Float)
      → IsMatched s
      → lookup key s.entries ≡ some e
      → Becomes
          ((key, g e) ∷ without key (recent s))
          s.max_keys
          (touch key (record s { entries = update key g s.entries }))
  unfolding recent pairs touch
  touch-update key e s v found =
      let now : lookup key (update key g s.entries) ≡ some (g e) =
        lookup-update key e s.entries found in
      record {
        matched =
            touch-IsMatched key (record s { entries = update key g s.entries }) now
              (renamed-IsMatched (update key g s.entries) s (names-update key s.entries) v);
        left = rw now (
            ap (◌∷◌ (key, g e)) (
              pairs-update key (drop_name key s.lru) s.entries (apart_from key s.lru)
              ∙ pairs-drop_name key s.lru s.entries));
        limit_kept = refl;
      }

  lookup-update-none :
      (key k : Bytes) (ps : Pairs Float) → lookup k ps ≡ none → lookup k (update key g ps) ≡ none
  lookup-update-none key k [] free = refl
  lookup-update-none key k ((j, a) ∷ ps) free = elim (Bool-cases (text_eq j k)) [
    | inl e ↦ absurd (ground arith)
    | inr e ↦ elim (Bool-cases (text_eq j key)) [
      | inl f ↦ rw (f, e) (lookup-update-none key k ps (rw e at free))
      | inr f ↦ rw (f, e) (lookup-update-none key k ps (rw e at free))
    ]
  ]

  lookup-update_same :
      (key k : Bytes) (e : Entry Float) (ps : Pairs Float)
      → k ≡ key
      → lookup k ps ≡ some e
      → lookup k (update key g ps) ≡ some (g e)
  lookup-update_same key k e ps same found =
      ap (λ n. lookup n (update key g ps)) same
      ∙ lookup-update key e ps (ap (λ n. lookup n ps) (sym same) ∙ found)

  -- The order of the keys is not that of the entries.
  pub pairs-update_all :
      (key : Bytes) (ks : List Bytes) (ps : Pairs Float)
      → pairs ks (update key g ps) ≡ update key g (pairs ks ps)
  unfolding pairs
  pairs-update_all key [] ps = refl
  pairs-update_all key (k ∷ ks) ps = elim (Option-cases (lookup k ps)) [
    | inl e ↦ rw (lookup-update-none key k ps e, e) (pairs-update_all key ks ps)
    | inr (a, e) ↦ elim (Bool-cases (text_eq k key)) [
      | inl same ↦
          rw (lookup-update_same key k a ps ((text_eq_iff k key).0 same) e, e, same)
            (ap (◌∷◌ (k, g a)) (pairs-update_all key ks ps))
      | inr other ↦
          rw (lookup-update_other key k ps other, e, other)
            (ap (◌∷◌ (k, a)) (pairs-update_all key ks ps))
    ]
  ]

  pub length-update : (key : Bytes) (ps : Pairs Float) → length (update key g ps) ≡ length ps
  length-update key [] = refl
  length-update key (p ∷ ps) = ap suc (length-update key ps)
