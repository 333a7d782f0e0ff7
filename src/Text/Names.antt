-- ===== src/Text/Names.antt =====
-- Lists of names: whether a name is among them, and that none stands twice.
use cachestack.Base.{
  ◌≡◌, ◌≢◌, ◌↔◌, ◌∙◌, refl, ap, sym, subst, Bool, true, false, not, ◌&&◌, List, [], ◌∷◌, ◌++◌,
  filter, any, All, All-append, All-filter, arith, In, head, tail, In-cases, Bool-cases, inl, inr,
}
use mathlib.Core.Bool.{false≢true}
use cachestack.Text.{Text, text_eq}
use cachestack.Text.Equality.{text_eq_iff, text_eq_self}

-- `channels.includes(ch)`
unfoldable pub has : Text → List Text → Bool
has ch = any (λ c. text_eq c ch)

abbrev pub Distinct : List Text → Type 0
Distinct [] = Unit
Distinct (c ∷ cs) = All (λ d. d ≢ c) cs × Distinct cs

pub has_sound : (ch : Text) (cs : List Text) → has ch cs ≡ true → In ch cs
unfolding has
has_sound ch [] h = absurd (false≢true h)
has_sound ch (c ∷ cs) h = elim (Bool-cases (text_eq c ch)) [
  | inl e ↦ subst (λ d. In d (c ∷ cs)) ((text_eq_iff c ch).0 e) head
  | inr e ↦ tail (has_sound ch cs (rw e at h))
]

pub has_complete : (ch : Text) (cs : List Text) → In ch cs → has ch cs ≡ true
unfolding has
has_complete ch [] m = elim m [ ]
has_complete ch (c ∷ cs) m = elim (In-cases ch c cs m) [
  | inl e ↦ rw ((text_eq_iff c ch).1 (sym e)) refl
  | inr n ↦ ground (arith, has_complete ch cs n)
]

pub has_iff : (ch : Text) (cs : List Text) → (has ch cs ≡ true) ↔ In ch cs
has_iff ch cs = (has_sound ch cs, has_complete ch cs)

pub All-ne_of_has : (ch : Text) (cs : List Text) → has ch cs ≡ false → All (λ d. d ≢ ch) cs
unfolding has
All-ne_of_has ch [] h = tt
All-ne_of_has ch (c ∷ cs) h = elim (Bool-cases (text_eq c ch)) [
  | inl e ↦ absurd (ground arith)
  | inr e ↦
      (λ same. false≢true (sym e ∙ (text_eq_iff c ch).1 same), All-ne_of_has ch cs (rw e at h))
]

-- A check of it.
unfoldable pub all_distinct : List Text → Bool
unfolding has
all_distinct [] = true
all_distinct (c ∷ cs) = not (has c cs) && all_distinct cs

pub all_distinct_sound : (cs : List Text) → all_distinct cs ≡ true → Distinct cs
unfolding all_distinct
all_distinct_sound [] h = tt
all_distinct_sound (c ∷ cs) h = elim (Bool-cases (has c cs)) [
  | inl e ↦ absurd (false≢true (rw e at h))
  | inr e ↦ (All-ne_of_has c cs e, all_distinct_sound cs (rw e at h))
]

pub Distinct-concat :
    (cs : List Text) (ch : Text) → Distinct cs → All (λ d. d ≢ ch) cs → Distinct (cs ++ (ch ∷ []))
Distinct-concat [] ch d n = (tt, tt)
Distinct-concat (c ∷ cs) ch (apart, d) (ne, n) =
    (All-append (λ x. x ≢ c) cs (ch ∷ []) apart (λ e. ne (sym e), tt), Distinct-concat cs ch d n)

pub Distinct-filter : (p : Text → Bool) (cs : List Text) → Distinct cs → Distinct (filter p cs)
Distinct-filter p [] d = tt
Distinct-filter p (c ∷ cs) (apart, d) = elim (Bool-cases (p c)) [
  | inl e ↦ rw e (All-filter (λ x. x ≢ c) p cs apart, Distinct-filter p cs d)
  | inr e ↦ rw e (Distinct-filter p cs d)
]

pub filter-concat :
    (ch : Text) (cs : List Text)
    → has ch cs ≡ false
    → filter (λ c. not (text_eq c ch)) (cs ++ (ch ∷ [])) ≡ cs
unfolding has
filter-concat ch [] h = rw (text_eq_self ch) refl
filter-concat ch (c ∷ cs) h = elim (Bool-cases (text_eq c ch)) [
  | inl e ↦ absurd (ground arith)
  | inr e ↦ rw e (ap (◌∷◌ c) (filter-concat ch cs (rw e at h)))
]

pub not_has : (ch : Text) (cs : List Text) → ¬ In ch cs → has ch cs ≡ false
not_has ch cs out = elim (Bool-cases (has ch cs)) [
  | inl e ↦ absurd (out (has_sound ch cs e))
  | inr e ↦ e
]
