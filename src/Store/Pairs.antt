-- ===== src/Store/Pairs.antt =====
-- The pairs of a store in the order of a list of keys.
use cachestack.Base.{
  ℕ, zero, suc, ◌-◌, ◌≤◌, ◌≡◌, ◌∙◌, refl, ap, sym, subst, true, false, List, [], ◌∷◌, Option, none,
  some, length, arith, if◌then◌else◌, Bool-cases, Option-cases, inl, inr, All, take,
}
use mathlib.Core.Option.{some-injective}
use mathlib.Core.Bool.{false≢true}
use cachestack.Text.{text_eq}
use cachestack.Text.Equality.{text_eq_iff, text_eq_self}
use cachestack.Text.Names.{has, Distinct}
use cachestack.Command.{Bytes}
use cachestack.Store.{Store, lookup, without, drop_name, back}
use cachestack.Store.Values.{Entry}
use cachestack.Store.Maps.{text_eq_comm, has_of_All-ne, is_some, lookup-without}

pub take-take {ℓ} : {A : Type ℓ} (m n : ℕ) (xs : List A) → m ≤ n → take m (take n xs) ≡ take m xs
take-take zero n xs h = refl
take-take (suc m) zero xs h = absurd (omega arith)
take-take (suc m) (suc n) [] h = refl
take-take (suc m) (suc n) (x ∷ xs) h = ap (◌∷◌ x) (take-take m n xs (omega arith))

-- The last name of a list.
back-some :
    (k : Bytes) (ks : List Bytes) → (l : Bytes) × (back (k ∷ ks) ≡ some l) × (has l (k ∷ ks) ≡ true)
unfolding back has
back-some k [] = (k, refl, rw (text_eq_self k) refl)
back-some k (i ∷ ks) = let (l, e, h) = back-some i ks in (l, e, rw h (ground arith))

drop_name-back :
    (k l : Bytes) (ks : List Bytes)
    → Distinct (k ∷ ks)
    → back (k ∷ ks) ≡ some l
    → drop_name l (k ∷ ks) ≡ take (length ks) (k ∷ ks)
unfolding back
drop_name-back k l [] d e =
    let same : some k ≡ some l = e in rw ((text_eq_iff k l).1 (some-injective k l same)) refl
drop_name-back k l (i ∷ ks) (apart, d) e =
    let (m, f, there) = back-some i ks in
    let later : has l (i ∷ ks) ≡ true =
      subst (λ n. has n (i ∷ ks) ≡ true) (some-injective m l (sym f ∙ e)) there in
    let other : text_eq k l ≡ false = elim (Bool-cases (text_eq k l)) [
      | inl same ↦ absurd (
          false≢true (
            sym (has_of_All-ne k (i ∷ ks) apart)
            ∙ ap (λ n. has n (i ∷ ks)) ((text_eq_iff k l).0 same)
            ∙ later))
      | inr other ↦ other
    ] in
    rw other (ap (◌∷◌ k) (drop_name-back i l ks d e))

pub drop_last :
    (l : Bytes) (ks : List Bytes)
    → Distinct ks
    → back ks ≡ some l
    → drop_name l ks ≡ take (length ks - 1) ks
unfolding back
drop_last l [] d e = refl
drop_last l (k ∷ ks) d e = drop_name-back k l ks d e ∙ ap (λ n. take n (k ∷ ks)) (omega arith)

pub has-back : (l : Bytes) (ks : List Bytes) → back ks ≡ some l → has l ks ≡ true
unfolding back
has-back l [] e = absurd (false≢true (ap is_some e))
has-back l (k ∷ ks) e =
    let (m, f, there) = back-some k ks in
    subst (λ n. has n (k ∷ ks) ≡ true) (some-injective m l (sym f ∙ e)) there

pub back-none : (ks : List Bytes) → back ks ≡ none → length ks ≡ 0
unfolding back
back-none [] e = refl
back-none (k ∷ ks) e =
    let (m, f, _) = back-some k ks in absurd (false≢true (ap is_some (sym e ∙ f)))

abbrev pub Pairs : Type 0 → Type 0
Pairs Float = List (Bytes × Entry Float)

module _ {Float : Type 0} where
  abbrev pub pair_found : Bytes → Option (Entry Float) → Pairs Float → Pairs Float
  pair_found k none r = r
  pair_found k (some e) r = (k, e) ∷ r

  unfoldable pub pairs : List Bytes → Pairs Float → Pairs Float
  pairs [] ps = []
  pairs (k ∷ ks) ps = pair_found k (lookup k ps) (pairs ks ps)

  -- The pairs, from the most to the least recently used.
  unfoldable pub recent : Store Float → Pairs Float
  recent s = pairs s.lru s.entries

  without-pair_found :
      (key k : Bytes) (o : Option (Entry Float)) (r : Pairs Float)
      → without key (pair_found k o r)
        ≡ (if text_eq k key then without key r else pair_found k o (without key r))
  without-pair_found key k none r = ground arith
  without-pair_found key k (some e) r = ground arith

  pub pairs-drop_name :
      (key : Bytes) (ks : List Bytes) (ps : Pairs Float)
      → pairs (drop_name key ks) ps ≡ without key (pairs ks ps)
  unfolding pairs
  pairs-drop_name key [] ps = refl
  pairs-drop_name key (k ∷ ks) ps = elim (Bool-cases (text_eq k key)) [
    | inl e ↦
        rw (without-pair_found key k (lookup k ps) (pairs ks ps), e) (pairs-drop_name key ks ps)
    | inr e ↦
        rw (without-pair_found key k (lookup k ps) (pairs ks ps), e)
          (ap (pair_found k (lookup k ps)) (pairs-drop_name key ks ps))
  ]

  -- Keys that are not among these do not matter.
  pub pairs-without :
      (key : Bytes) (ks : List Bytes) (ps : Pairs Float)
      → has key ks ≡ false
      → pairs ks (without key ps) ≡ pairs ks ps
  unfolding pairs has
  pairs-without key [] ps h = refl
  pairs-without key (k ∷ ks) ps h = elim (Bool-cases (text_eq k key)) [
    | inl e ↦ absurd (ground arith)
    | inr e ↦
        ap (λ o. pair_found k o (pairs ks (without key ps)))
          (lookup-without key k ps ∙ rw (text_eq_comm key k ∙ e) refl)
        ∙ ap (pair_found k (lookup k ps)) (pairs-without key ks ps (rw e at h))
  ]

  pub pairs-cons :
      (key : Bytes) (e : Entry Float) (ks : List Bytes) (ps : Pairs Float)
      → has key ks ≡ false
      → pairs ks ((key, e) ∷ ps) ≡ pairs ks ps
  unfolding pairs has
  pairs-cons key e [] ps h = refl
  pairs-cons key e (k ∷ ks) ps h = elim (Bool-cases (text_eq k key)) [
    | inl f ↦ absurd (ground arith)
    | inr f ↦
        ap (λ o. pair_found k o (pairs ks ((key, e) ∷ ps))) (rw (text_eq_comm key k ∙ f) refl)
        ∙ ap (pair_found k (lookup k ps)) (pairs-cons key e ks ps (rw f at h))
  ]

  pub length-pairs :
      (ks : List Bytes) (ps : Pairs Float)
      → All (λ k. is_some (lookup k ps) ≡ true) ks
      → length (pairs ks ps) ≡ length ks
  unfolding pairs
  length-pairs [] ps h = refl
  length-pairs (k ∷ ks) ps (there, h) = elim (Option-cases (lookup k ps)) [
    | inl e ↦ absurd (false≢true (ap is_some (sym e) ∙ there))
    | inr (a, e) ↦ rw e (ap suc (length-pairs ks ps h))
  ]

  pub take-pairs :
      (n : ℕ) (ks : List Bytes) (ps : Pairs Float)
      → All (λ k. is_some (lookup k ps) ≡ true) ks
      → pairs (take n ks) ps ≡ take n (pairs ks ps)
  unfolding pairs
  take-pairs zero ks ps h = refl
  take-pairs (suc n) [] ps h = refl
  take-pairs (suc n) (k ∷ ks) ps (there, h) = elim (Option-cases (lookup k ps)) [
    | inl e ↦ absurd (false≢true (ap is_some (sym e) ∙ there))
    | inr (a, e) ↦ rw e (ap (◌∷◌ (k, a)) (take-pairs n ks ps h))
  ]
