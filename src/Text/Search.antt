-- ===== src/Text/Search.antt =====
-- What `indexOf` and `includes` find: the first place at which the pattern stands.
use cachestack.Base.{
  ℕ, zero, suc, ◌+◌, ◌≤◌, ◌<◌, ◌≡◌, ◌↔◌, ◌∙◌, refl, sym, subst, true, false, [], ◌∷◌, ◌++◌, ap,
  arith, some, Bool-cases, Option-cases, inl, inr, take, drop, length, take-append-drop,
}
use cachestack.Text.{Text, starts_with, index_of, includes}

pub take_of_starts_with : (p s : Text) → starts_with p s ≡ true → take (length p) s ≡ p
unfolding starts_with
take_of_starts_with [] s h = refl
take_of_starts_with (a ∷ p) [] h = ground arith
take_of_starts_with (a ∷ p) (b ∷ s) h = ground (arith, take_of_starts_with p s)

pub length-le_of_starts_with : (p s : Text) → starts_with p s ≡ true → length p ≤ length s
unfolding starts_with
length-le_of_starts_with [] s h = omega arith
length-le_of_starts_with (a ∷ p) [] h = ground arith
length-le_of_starts_with (a ∷ p) (b ∷ s) h = ground (arith, length-le_of_starts_with p s)

pub starts_with-append : (p s : Text) → starts_with p (p ++ s) ≡ true
unfolding starts_with
starts_with-append [] s = refl
starts_with-append (a ∷ p) s = ground (arith, starts_with-append p s)

-- The pattern stands at the index found.
pub index_of_sound :
    (p s : Text) (i : ℕ)
    → index_of p s ≡ some i
    → (starts_with p (drop i s) ≡ true) × (i + length p ≤ length s)
unfolding index_of starts_with
index_of_sound [] [] i h = ground arith
index_of_sound (a ∷ p) [] i h = ground arith
index_of_sound p (c ∷ s) zero h = elim (Bool-cases (starts_with p (c ∷ s))) [
  | inl e ↦ (e, omega (arith, length-le_of_starts_with p (c ∷ s) e))
  | inr e ↦ elim (Option-cases (index_of p s)) [
    | inl u ↦ absurd (ground arith)
    | inr (j, u) ↦ absurd (ground arith)
  ]
]
index_of_sound p (c ∷ s) (suc i) h = elim (Bool-cases (starts_with p (c ∷ s))) [
  | inl e ↦ absurd (ground arith)
  | inr e ↦ elim (Option-cases (index_of p s)) [
    | inl u ↦ absurd (ground arith)
    | inr (j, u) ↦ ground (arith, index_of_sound p s i)
  ]
]

-- It stands at no index before that.
pub index_of-first :
    (p s : Text) (i j : ℕ) → index_of p s ≡ some i → j < i → starts_with p (drop j s) ≡ false
unfolding index_of
index_of-first p [] i j h k = ground arith
index_of-first p (c ∷ s) zero j h k = elim k [ ]
index_of-first p (c ∷ s) (suc i) zero h k = ground arith
index_of-first p (c ∷ s) (suc i) (suc j) h k = elim (Option-cases (index_of p s)) [
  | inl u ↦ absurd (ground arith)
  | inr (m, u) ↦ ground (arith, index_of-first p s i j)
]

-- A text with the pattern in it has an index.
pub includes-append : (p pre post : Text) → includes p (pre ++ (p ++ post)) ≡ true
unfolding includes index_of starts_with
includes-append [] [] [] = refl
includes-append [] [] (c ∷ post) = refl
includes-append (a ∷ p) [] post = ground (arith, starts_with-append p post)
includes-append p (c ∷ pre) post = elim (Bool-cases (starts_with p (c ∷ (pre ++ (p ++ post))))) [
  | inl e ↦ ground arith
  | inr e ↦ ground (arith, includes-append p pre post)
]

-- A text cut where a pattern stands.
cut_at :
    (p s : Text) (i : ℕ)
    → starts_with p (drop i s) ≡ true
    → s ≡ take i s ++ (p ++ drop (length p) (drop i s))
cut_at p s i h =
    sym (take-append-drop i s)
    ∙ ap (λ t. take i s ++ t)
        (sym (take-append-drop (length p) (drop i s))
          ∙ ap (λ t. t ++ drop (length p) (drop i s)) (take_of_starts_with p (drop i s) h))

includes_sound :
    (p s : Text) → includes p s ≡ true → (pre : Text) × (post : Text) × (s ≡ pre ++ (p ++ post))
unfolding includes
includes_sound p s h = elim (Option-cases (index_of p s)) [
  | inl e ↦ absurd (ground arith)
  | inr (i, e) ↦ (take i s, drop (length p) (drop i s), cut_at p s i (index_of_sound p s i e).0)
]

-- `s.includes(p)` exactly when `s` is `p` with a text before it and a text behind it.
pub includes_iff :
    (p s : Text) → (includes p s ≡ true) ↔ ((pre : Text) × (post : Text) × (s ≡ pre ++ (p ++ post)))
includes_iff p s = (
  includes_sound p s,
  λ (pre, post, e). subst (λ t. includes p t ≡ true) (sym e) (includes-append p pre post),
)
