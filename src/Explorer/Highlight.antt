-- ===== src/Explorer/Highlight.antt =====
-- What the highlight shows of a key.
use cachestack.Base.{
  ℕ, zero, suc, ◌+◌, ◌≡◌, ◌∙◌, refl, ap, sym, subst, true, [], ◌∷◌, ◌++◌, map, length, take, drop,
  arith, none, some, Option, take-append-drop, Option-cases, inl, inr,
}
use cachestack.Text.{Text, index_of, includes, starts_with, Unicode, ascii_lower, IsAscii}
use cachestack.Text.Search.{index_of_sound, take_of_starts_with}
use cachestack.Types.{KeyEntry}
use cachestack.Explorer.{marked, letters, mark_at, highlight_match, key_cell}

drop-nil : (n : ℕ) → drop {A = ℕ} n [] ≡ []
drop-nil zero = refl
drop-nil (suc n) = refl

drop-drop : (m n : ℕ) (s : Text) → drop m (drop n s) ≡ drop (n + m) s
drop-drop m zero s = ap (λ k. drop k s) (omega arith)
drop-drop m (suc n) [] = drop-nil m ∙ sym (drop-nil (suc n + m))
drop-drop m (suc n) (c ∷ s) =
    let e : suc (n + m) ≡ suc n + m = omega arith in drop-drop m n s ∙ ap (λ k. drop k (c ∷ s)) e

drop-map : (f : ℕ → ℕ) (n : ℕ) (s : Text) → drop n (map f s) ≡ map f (drop n s)
drop-map f zero s = refl
drop-map f (suc n) [] = refl
drop-map f (suc n) (c ∷ s) = drop-map f n s

take-map : (f : ℕ → ℕ) (n : ℕ) (s : Text) → take n (map f s) ≡ map f (take n s)
take-map f zero s = refl
take-map f (suc n) [] = refl
take-map f (suc n) (c ∷ s) = ap (◌∷◌ (f c)) (take-map f n s)

length-map : (f : ℕ → ℕ) (s : Text) → length (map f s) ≡ length s
length-map f [] = refl
length-map f (c ∷ s) = ap suc (length-map f s)

-- The part of `s` at an index at which the lowered query stands in the lowered `s`.
lowered_part :
    (f : ℕ → ℕ) (s query : Text) (i : ℕ)
    → starts_with (map f query) (drop i (map f s)) ≡ true
    → map f (take (length query) (drop i s)) ≡ map f query
lowered_part f s query i h =
    sym (take-map f (length query) (drop i s))
    ∙ (ap (λ t. take (length query) t) (sym (drop-map f i s))
        ∙ (ap (λ n. take n (drop i (map f s))) (sym (length-map f query))
            ∙ take_of_starts_with (map f query) (drop i (map f s)) h))

module _ (U : Unicode) where
  open U use {to_lower, to_lower_ascii}

  letters-mark_at : (s query : Text) (o : Option ℕ) → letters (mark_at U s query o) ≡ s
  letters-mark_at s query none = refl
  letters-mark_at s query (some i) =
      ap (λ t. take i s ++ (take (length query) (drop i s) ++ t))
        (sym (drop-drop (length query) i s))
      ∙ (ap (λ t. take i s ++ t) (take-append-drop (length query) (drop i s))
          ∙ take-append-drop i s)

  -- A cell shows every character of its key, in order, whatever is searched.
  pub letters-key_cell : (active : Text) (k : KeyEntry) → letters (key_cell U active k) ≡ k.key
  unfolding key_cell highlight_match
  letters-key_cell [] k = refl
  letters-key_cell (c ∷ active) k = letters-mark_at k.key (c ∷ active) _

  -- If key and search are ASCII and the search is found, then the cell marks a part of the key that
  -- is the search but for letter case.
  key_cell-marked :
      (c : ℕ) (active : Text) (k : KeyEntry)
      → IsAscii k.key
      → IsAscii (c ∷ active)
      → includes (to_lower (c ∷ active)) (to_lower k.key) ≡ true
      → (before : Text) × (middle : Text) × (after : Text) × (key_cell U (c ∷ active) k
          ≡ marked before middle after)
        × (map ascii_lower middle ≡ map ascii_lower (c ∷ active))
  unfolding key_cell highlight_match includes
  key_cell-marked c active k ascii ascii' h =
      let q = c ∷ active in
      elim (Option-cases (index_of (to_lower q) (to_lower k.key))) [
        | inl e ↦ absurd (ground arith)
        | inr (i, e) ↦ (
          take i k.key,
          take (length q) (drop i k.key),
          drop (i + length q) k.key,
          ap (λ o. mark_at U k.key q o) e,
          lowered_part ascii_lower k.key q i (
              subst (λ t. starts_with t (drop i (map ascii_lower k.key)) ≡ true)
                (to_lower_ascii q ascii')
                (subst (λ t. starts_with (to_lower q) (drop i t) ≡ true)
                  (to_lower_ascii k.key ascii)
                  (index_of_sound (to_lower q) (to_lower k.key) i e).0)),
        )
      ]
