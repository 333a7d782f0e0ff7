-- ===== src/Store/Matched.antt =====
-- The keys of the map next to those of the LRU list.
use cachestack.Base.{
  ℕ, suc, ◌≡◌, ◌∙◌, refl, ap, sym, subst, true, false, not, List, [], ◌∷◌, none, some, length,
  arith, if◌then◌else◌, Bool-cases, inl, inr,
}
use cachestack.Text.{text_eq}
use cachestack.Text.Equality.{text_eq_iff, text_eq_self}
use cachestack.Text.Names.{has, Distinct, Distinct-filter, All-ne_of_has}
use cachestack.Command.{Bytes}
use cachestack.Store.{Store, lookup, without, drop_name, touch, insert_front}
use cachestack.Store.Values.{Entry}
use cachestack.Store.Maps.{
  has-drop_name, length-drop_name, names, names-without, is_some, has-names,
}

length-names {ℓ} : {A : Type ℓ} (ps : List (Bytes × A)) → length (names ps) ≡ length ps
length-names [] = refl
length-names (p ∷ ps) = ap suc (length-names ps)

has-front :
    (key k : Bytes) (ks : List Bytes)
    → has key ks ≡ true
    → has k (key ∷ drop_name key ks) ≡ has k ks
unfolding has
has-front key k ks h = elim (Bool-cases (text_eq key k)) [
  | inl e ↦ rw e (sym h ∙ ap (λ n. has n ks) ((text_eq_iff key k).0 e))
  | inr e ↦ rw e (has-drop_name key k ks ∙ rw e refl)
]

module _ {Float : Type 0} where
  pub record IsMatched (s : Store Float) : Type 0 where
    pub lru_distinct : Distinct s.lru
    pub keys_distinct : Distinct (names s.entries)
    pub same : (k : Bytes) → has k s.lru ≡ has k (names s.entries)
    pub balanced : length s.lru ≡ length s.entries

  -- A key that the map holds.
  pub listed :
      (s : Store Float) (key : Bytes) {e : Entry Float}
      → IsMatched s
      → lookup key s.entries ≡ some e
      → has key s.lru ≡ true
  listed s key v found = v.same key ∙ has-names key s.entries ∙ ap is_some found

  pub absent :
      (s : Store Float) (key : Bytes)
      → IsMatched s
      → lookup key s.entries ≡ none
      → has key s.lru ≡ false
  absent s key v found = v.same key ∙ has-names key s.entries ∙ ap is_some found

  length-without :
      (key : Bytes) (ps : List (Bytes × Entry Float))
      → Distinct (names ps)
      → has key (names ps) ≡ true
      → length ps ≡ suc (length (without key ps))
  length-without key ps d h =
      sym (length-names ps)
      ∙ length-drop_name key (names ps) d h
      ∙ ap suc (ap length (sym (names-without key ps)) ∙ length-names (without key ps))

  -- A key leaves the map and the list together.
  pub removed-IsMatched :
      (key : Bytes) (n : ℕ) {e : Entry Float} (s : Store Float)
      → lookup key s.entries ≡ some e
      → IsMatched s
      → IsMatched
          (record s { entries = without key s.entries; lru = drop_name key s.lru; byte_used = n })
  removed-IsMatched key n s found v = record {
    lru_distinct = Distinct-filter (λ k. not (text_eq k key)) s.lru v.lru_distinct;
    keys_distinct =
        subst Distinct (sym (names-without key s.entries))
          (Distinct-filter (λ k. not (text_eq k key)) (names s.entries) v.keys_distinct);
    same = λ k.
        has-drop_name key k s.lru
        ∙ ap (λ b. if text_eq key k then false else b) (v.same k)
        ∙ sym (has-drop_name key k (names s.entries))
        ∙ ap (has k) (sym (names-without key s.entries));
    balanced =
        let in_lru = length-drop_name key s.lru v.lru_distinct (listed s key v found) in
        let in_map =
          length-without key s.entries v.keys_distinct (sym (v.same key) ∙ listed s key v found) in
        omega (arith, in_lru, in_map, v.balanced);
  }

  pub insert_front-IsMatched :
      (key : Bytes) (e : Entry Float) (s : Store Float)
      → lookup key s.entries ≡ none
      → IsMatched s
      → IsMatched (insert_front key e s)
  unfolding has
  insert_front-IsMatched key e s new v = record {
    lru_distinct = (All-ne_of_has key s.lru (absent s key v new), v.lru_distinct);
    keys_distinct = (
      All-ne_of_has key (names s.entries) (sym (v.same key) ∙ absent s key v new),
      v.keys_distinct,
    );
    same = λ k. ap (λ b. if text_eq key k then true else b) (v.same k);
    balanced = omega (arith, v.balanced);
  }

  pub touch-IsMatched :
      (key : Bytes) {e : Entry Float} (s : Store Float)
      → lookup key s.entries ≡ some e
      → IsMatched s
      → IsMatched (touch key s)
  unfolding touch
  touch-IsMatched key s found v = record {
    lru_distinct = (
      All-ne_of_has key (drop_name key s.lru)
          (has-drop_name key key s.lru ∙ rw (text_eq_self key) refl),
      Distinct-filter (λ k. not (text_eq k key)) s.lru v.lru_distinct,
    );
    keys_distinct = v.keys_distinct;
    same = λ k. has-front key k s.lru (listed s key v found) ∙ v.same k;
    balanced =
        omega (arith, v.balanced, length-drop_name key s.lru v.lru_distinct (listed s key v found));
  }

  -- The same keys with other entries.
  pub renamed-IsMatched :
      (ps : List (Bytes × Entry Float)) (s : Store Float)
      → names ps ≡ names s.entries
      → IsMatched s
      → IsMatched (record s { entries = ps })
  renamed-IsMatched ps s e v = record {
    lru_distinct = v.lru_distinct;
    keys_distinct = subst Distinct (sym e) v.keys_distinct;
    same = λ k. v.same k ∙ ap (has k) (sym e);
    balanced = v.balanced ∙ sym (length-names s.entries) ∙ ap length (sym e) ∙ length-names ps;
  }
