-- ===== src/Store/Maps.antt =====
-- Maps as lists of pairs, and lists of names: what is found after a removal.
use cachestack.Base.{
  suc, ◌≡◌, ◌≢◌, ◌∙◌, refl, ap, sym, subst, Bool, true, false, List, [], ◌∷◌, Option, none, some,
  map, length, arith, if◌then◌else◌, Bool-cases, inl, inr, All,
}
use cachestack.Text.{Text, text_eq}
use cachestack.Text.Equality.{text_eq_iff}
use cachestack.Text.Names.{has, Distinct}
use cachestack.Command.{Bytes}
use cachestack.Store.{lookup, without, drop_name}

pub text_eq_comm : (s t : Text) → text_eq s t ≡ text_eq t s
unfolding text_eq
text_eq_comm [] [] = refl
text_eq_comm [] (b ∷ t) = refl
text_eq_comm (a ∷ s) [] = refl
text_eq_comm (a ∷ s) (b ∷ t) = ground (arith, text_eq_comm s t)

-- Equal names answer every test alike.
pub text_eq-left : (s t u : Text) → text_eq s t ≡ true → text_eq s u ≡ text_eq t u
text_eq-left s t u e = ap (λ x. text_eq x u) ((text_eq_iff s t).0 e)

pub has-drop_name :
    (k j : Text) (ks : List Text)
    → has j (drop_name k ks) ≡ (if text_eq k j then false else has j ks)
unfolding has
has-drop_name k j [] = ground arith
has-drop_name k j (i ∷ ks) = elim (Bool-cases (text_eq i k)) [
  | inl e ↦ rw e (rw (text_eq-left i k j e) (has-drop_name k j ks ∙ ground arith))
  | inr e ↦ elim (Bool-cases (text_eq i j)) [
    | inl f ↦
        let other : text_eq k j ≡ false = text_eq_comm k j ∙ (sym (text_eq-left i j k f) ∙ e) in
        rw e (rw (f, other) refl)
    | inr f ↦ rw e (rw f (has-drop_name k j ks))
  ]
]

pub drop_name_absent : (k : Text) (ks : List Text) → has k ks ≡ false → drop_name k ks ≡ ks
unfolding has
drop_name_absent k [] h = refl
drop_name_absent k (i ∷ ks) h = ground (arith, drop_name_absent k ks)

pub has_of_All-ne : (i : Text) (ks : List Text) → All (λ d. d ≢ i) ks → has i ks ≡ false
unfolding has
has_of_All-ne i [] a = refl
has_of_All-ne i (c ∷ ks) (ne, a) = elim (Bool-cases (text_eq c i)) [
  | inl e ↦ absurd (ne ((text_eq_iff c i).0 e))
  | inr e ↦ rw e (has_of_All-ne i ks a)
]

pub length-drop_name :
    (k : Text) (ks : List Text)
    → Distinct ks
    → has k ks ≡ true
    → length ks ≡ suc (length (drop_name k ks))
unfolding has
length-drop_name k [] d h = ground arith
length-drop_name k (i ∷ ks) (apart, d) h = elim (Bool-cases (text_eq i k)) [
  | inl e ↦ rw e (
      ap suc (
        ap length (
          sym (
            drop_name_absent k ks
              (subst (λ n. has n ks ≡ false) ((text_eq_iff i k).0 e) (has_of_All-ne i ks apart))))))
  | inr e ↦ rw e (ap suc (length-drop_name k ks d (rw e at h)))
]

module _ {ℓ} {A : Type ℓ} where
  abbrev pub names : List (Bytes × A) → List Bytes
  names = map (λ p. p.0)

  pub names-without :
      (k : Bytes) (ps : List (Bytes × A)) → names (without k ps) ≡ drop_name k (names ps)
  names-without k [] = refl
  names-without k ((i, a) ∷ ps) = elim (Bool-cases (text_eq i k)) [
    | inl e ↦ rw e (names-without k ps)
    | inr e ↦ rw e (ap (◌∷◌ i) (names-without k ps))
  ]

  abbrev pub is_some : Option A → Bool
  is_some none = false
  is_some (some _) = true

  pub has-names : (k : Bytes) (ps : List (Bytes × A)) → has k (names ps) ≡ is_some (lookup k ps)
  unfolding has
  has-names k [] = refl
  has-names k ((i, a) ∷ ps) = elim (Bool-cases (text_eq i k)) [
    | inl e ↦ rw e refl
    | inr e ↦ rw e (has-names k ps)
  ]

  pub lookup-without :
      (k j : Bytes) (ps : List (Bytes × A))
      → lookup j (without k ps) ≡ (if text_eq k j then none else lookup j ps)
  lookup-without k j [] = ground arith
  lookup-without k j ((i, a) ∷ ps) = elim (Bool-cases (text_eq i k)) [
    | inl e ↦ rw e (rw (text_eq-left i k j e) (lookup-without k j ps ∙ ground arith))
    | inr e ↦ elim (Bool-cases (text_eq i j)) [
      | inl f ↦
          let other : text_eq k j ≡ false = text_eq_comm k j ∙ (sym (text_eq-left i j k f) ∙ e) in
          rw e (rw (f, other) refl)
      | inr f ↦ rw e (rw f (lookup-without k j ps))
    ]
  ]

  pub without_absent : (k : Bytes) (ps : List (Bytes × A)) → lookup k ps ≡ none → without k ps ≡ ps
  without_absent k [] h = refl
  without_absent k ((i, a) ∷ ps) h = elim (Bool-cases (text_eq i k)) [
    | inl e ↦ absurd (ground arith)
    | inr e ↦ rw e (ap (◌∷◌ (i, a)) (without_absent k ps (rw e at h)))
  ]
