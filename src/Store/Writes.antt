-- ===== src/Store/Writes.antt =====
-- What the methods that write through an entry leave: the lists, sets and sorted sets.
use cachestack.Base.{
  ℕ, zero, suc, ◌≤◌, ◌<◌, ◌≡◌, ◌∙◌, refl, ap, sym, Bool, true, not, List, [], ◌∷◌, Option, none,
  some, filter, length, arith, if◌then◌else◌, Bool-cases, Option-cases, inl, inr, All, ltb, take,
  take_of_length-le, ◌&&◌, All-take, filter_of_All, length-filter-le,
}
use mathlib.Core.Bool.{false≢true}
use cachestack.Text.{text_eq}
use cachestack.Text.Equality.{text_eq_self}
use cachestack.Command.{Bytes}
use cachestack.Store.{Store, lookup, without, touch, assign, get_or_create, create}
use cachestack.Store.Values.{Value, Entry, Kind, fresh_value, is_kind, is_expired}
use cachestack.Store.Maps.{is_some}
use cachestack.Store.Matched.{IsMatched}
use cachestack.Store.Pairs.{Pairs, recent}
use cachestack.Store.Recency.{Becomes}
use cachestack.Store.Puts.{bounded, put, lookup-recent, set_locked_lem}
use cachestack.Store.Updates.{touch-update}

All-filter_self {ℓ} :
    {A : Type ℓ} (p : A → Bool) (xs : List A) → All (λ x. p x ≡ true) (filter p xs)
All-filter_self p [] = tt
All-filter_self p (x ∷ xs) = elim (Bool-cases (p x)) [
  | inl e ↦ rw e (e, All-filter_self p xs)
  | inr e ↦ rw e (All-filter_self p xs)
]

module _ {Float : Type 0} where
  -- There are no more than the limit allows.
  abbrev pub Fits : ℕ → Pairs Float → Type 0
  Fits limit r = 0 < limit → length r ≤ limit

  -- The entry that a write of this type starts from.
  abbrev pub started : ℕ → Kind → Option (Entry Float) → Entry Float
  started now kind none = record { value = fresh_value kind; expires_at = none }
  started now kind (some e) =
      if is_kind kind e.value && not (is_expired now e)
      then e
      else record { value = fresh_value kind; expires_at = none }

  pub bounded-Fits : (limit : ℕ) (r : Pairs Float) → Fits limit r → bounded limit r ≡ r
  bounded-Fits limit r fits = elim (Bool-cases (ltb 0 limit)) [
    | inl e ↦ rw e (take_of_length-le limit r (fits (ground arith)))
    | inr e ↦ rw e refl
  ]

  put-suc :
      (n : ℕ) (key : Bytes) (e : Entry Float) (r : Pairs Float)
      → put (suc n) key e r ≡ (key, e) ∷ take n (without key r)
  put-suc n key e r = rw (positive n) refl
    where
      positive : (n : ℕ) → ltb 0 (suc n) ≡ true
      positive n = ground arith

  without_twice : (key : Bytes) (r : Pairs Float) → without key (without key r) ≡ without key r
  without_twice key r =
      filter_of_All (λ p. not (text_eq p.0 key)) (without key r)
        (All-filter_self (λ p. not (text_eq p.0 key)) r)

  -- The second write of a key takes the place of the first.
  put_again :
      (limit : ℕ) (key : Bytes) (e e' : Entry Float) (r : Pairs Float)
      → (key, e') ∷ without key (put limit key e r) ≡ put limit key e' r
  put_again zero key e e' r = rw (text_eq_self key) (ap (◌∷◌ (key, e')) (without_twice key r))
  put_again (suc n) key e e' r =
      let p : Bytes × Entry Float → Bool = λ p. not (text_eq p.0 key) in
      ap (◌∷◌ (key, e')) (
        ap (without key) (put-suc n key e r)
        ∙ rw (text_eq_self key) (
            filter_of_All p (take n (without key r))
              (All-take (λ x. p x ≡ true) n (without key r) (All-filter_self p r))))
      ∙ sym (put-suc n key e' r)

  lookup-put :
      (limit : ℕ) (key : Bytes) (e : Entry Float) (r : Pairs Float)
      → lookup key (put limit key e r) ≡ some e
  lookup-put zero key e r = rw (text_eq_self key) refl
  lookup-put (suc n) key e r = ap (lookup key) (put-suc n key e r) ∙ rw (text_eq_self key) refl

  pub length-without_there :
      (key : Bytes) (e : Entry Float) (r : Pairs Float)
      → lookup key r ≡ some e
      → suc (length (without key r)) ≤ length r
  length-without_there key e [] found = absurd (false≢true (ap is_some found))
  length-without_there key e ((k, a) ∷ r) found = elim (Bool-cases (text_eq k key)) [
    | inl same ↦ rw same (omega (arith, length-filter-le (λ p. not (text_eq p.0 key)) r))
    | inr other ↦ rw other (omega (arith, length-without_there key e r (rw other at found)))
  ]

  -- The entry to write to, and what the write then leaves, whatever it writes.
  pub record IsReady (limit : ℕ) (key : Bytes) (e : Entry Float) (r : Pairs Float)
      (found : Option (Entry Float) × Store Float) : Type 0 where
    pub entry : found.0 ≡ some e
    pub written :
        (v : Value Float)
        → Becomes
            (put limit key (record e { value = v }) r)
            limit
            (touch key (assign key v found.1))

  ready :
      {limit : ℕ} {r : Pairs Float} (key : Bytes) (e : Entry Float) (s : Store Float)
      → IsMatched s
      → lookup key s.entries ≡ some e
      → s.max_keys ≡ limit
      → ((e' : Entry Float) → (key, e') ∷ without key (recent s) ≡ put limit key e' r)
      → IsReady limit key e r (lookup key s.entries, s)
  unfolding assign
  ready key e s v found kept same = record {
    entry = found;
    written = λ x.
        let t = touch-update (λ a. record a { value = x }) key e s v found in
        record {
          matched = t.matched;
          left = t.left ∙ same (record e { value = x });
          limit_kept = t.limit_kept ∙ kept;
        };
  }

  put_there :
      (key : Bytes) (e : Entry Float) (s : Store Float)
      → IsMatched s
      → Fits s.max_keys (recent s)
      → lookup key s.entries ≡ some e
      → (e' : Entry Float) → (key, e') ∷ without key (recent s) ≡ put s.max_keys key e' (recent s)
  put_there key e s v fits found e' = sym (
      bounded-Fits s.max_keys ((key, e') ∷ without key (recent s)) (λ h.
        let room = fits h in
        omega (arith, room, length-without_there key e (recent s) (lookup-recent key s v ∙ found))))

  create-IsReady :
      (key : Bytes) (kind : Kind) (s : Store Float)
      → IsMatched s
      → IsReady s.max_keys key
          (record { value = fresh_value kind; expires_at = none })
          (recent s)
          (lookup key (create key kind s).entries, create key kind s)
  create-IsReady key kind s v =
      let e : Entry Float = record { value = fresh_value kind; expires_at = none } in
      let b = set_locked_lem key e s v in
      ready key e (create key kind s) b.matched
        (sym (lookup-recent key (create key kind s) b.matched)
          ∙ ap (lookup key) b.left
          ∙ lookup-put s.max_keys key e (recent s))
        b.limit_kept
        (λ e'.
          ap (λ r. (key, e') ∷ without key r) b.left ∙ put_again s.max_keys key e e' (recent s))

  pub get_or_create_lem :
      (now : ℕ) (key : Bytes) (kind : Kind) (s : Store Float)
      → IsMatched s
      → Fits s.max_keys (recent s)
      → IsReady s.max_keys key
          (started now kind (lookup key (recent s)))
          (recent s)
          (get_or_create now key kind s)
  unfolding get_or_create
  get_or_create_lem now key kind s v fits =
      rw (lookup-recent key s v) (elim (Option-cases (lookup key s.entries)) [
        | inl e ↦ rw e (create-IsReady key kind s v)
        | inr (a, e) ↦ elim (Bool-cases (is_kind kind a.value && not (is_expired now a))) [
          | inl good ↦ rw (e, good) (ready key a s v e refl (put_there key a s v fits e))
          | inr bad ↦ rw (e, bad) (create-IsReady key kind s v)
        ]
      ])
