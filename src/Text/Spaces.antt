-- ===== src/Text/Spaces.antt =====
-- What `trim` and `replace(/\s+/g, c)` leave.
use cachestack.Base.{
  ℕ, ◌≡◌, refl, Bool, true, false, [], ◌∷◌, arith, Bool-cases, inl, inr, All, ◌↔◌, ap, ◌∙◌,
  if◌then◌else◌, ◌&&◌,
}
use cachestack.Text.{
  Text, is_space, trim_start, trim_end, trim, is_empty, squeeze_from, squeeze_spaces,
}

-- Does not begin with white space.
abbrev pub NoLead : Text → Type 0
NoLead [] = Unit
NoLead (c ∷ s) = is_space c ≡ false

-- Does not end with white space.
abbrev pub NoTrail : Text → Type 0
NoTrail [] = Unit
NoTrail (c ∷ []) = is_space c ≡ false
NoTrail (c ∷ d ∷ s) = NoTrail (d ∷ s)

trim_start-NoLead : (s : Text) → NoLead (trim_start s)
unfolding trim_start
trim_start-NoLead [] = tt
trim_start-NoLead (c ∷ s) = elim (Bool-cases (is_space c)) [
  | inl e ↦ rw e (trim_start-NoLead s)
  | inr e ↦ rw e e
]

trim_end-cons :
    (c : ℕ) (s : Text)
    → trim_end (c ∷ s) ≡ (if is_space c && is_empty (trim_end s) then [] else c ∷ trim_end s)
unfolding trim_end
trim_end-cons c s = refl

NoTrail-cons : (c : ℕ) (s : Text) → NoTrail s → (is_space c && is_empty s) ≡ false → NoTrail (c ∷ s)
NoTrail-cons c [] h e = ground arith
NoTrail-cons c (d ∷ s) h e = h

trim_end-NoTrail : (s : Text) → NoTrail (trim_end s)
unfolding trim_end
trim_end-NoTrail [] = tt
trim_end-NoTrail (c ∷ s) = elim (Bool-cases (is_space c && is_empty (trim_end s))) [
  | inl e ↦ rw e tt
  | inr e ↦ rw e (NoTrail-cons c (trim_end s) (trim_end-NoTrail s) e)
]

trim_end-NoLead : (s : Text) → NoLead s → NoLead (trim_end s)
unfolding trim_end
trim_end-NoLead [] h = tt
trim_end-NoLead (c ∷ s) h = rw h h

-- A trimmed text neither begins nor ends with white space.
pub trim-edges : (s : Text) → NoLead (trim s) × NoTrail (trim s)
unfolding trim
trim-edges s =
    (trim_end-NoLead (trim_start s) (trim_start-NoLead s), trim_end-NoTrail (trim_start s))

abbrev pub NoSpace : Text → Type 0
NoSpace = All (λ c. is_space c ≡ false)

-- With a mark that is no white space, nothing of the result is white space.
squeeze_from-NoSpace :
    (b : Bool) (r : ℕ) (s : Text) → is_space r ≡ false → NoSpace (squeeze_from b r s)
unfolding squeeze_from
squeeze_from-NoSpace b r [] h = tt
squeeze_from-NoSpace b r (c ∷ s) h = elim (Bool-cases (is_space c)) [
  | inl e ↦ elim (Bool-cases b) [
    | inl f ↦ rw (e, f) (squeeze_from-NoSpace true r s h)
    | inr f ↦ rw (e, f) (h, squeeze_from-NoSpace true r s h)
  ]
  | inr e ↦ rw e (e, squeeze_from-NoSpace false r s h)
]

pub squeeze_spaces-NoSpace : (r : ℕ) (s : Text) → is_space r ≡ false → NoSpace (squeeze_spaces r s)
unfolding squeeze_spaces
squeeze_spaces-NoSpace r s h = squeeze_from-NoSpace false r s h

trim_start-nil_iff : (s : Text) → (trim_start s ≡ []) ↔ All (λ c. is_space c ≡ true) s
unfolding trim_start
trim_start-nil_iff [] = (λ h. tt, λ h. refl)
trim_start-nil_iff (c ∷ s) = elim (Bool-cases (is_space c)) [
  | inl e ↦ rw e (λ h. (refl, (trim_start-nil_iff s).0 h), λ (p, h). (trim_start-nil_iff s).1 h)
  | inr e ↦ rw e (λ h. absurd (ground arith), λ (p, h). absurd (ground arith))
]

trim_end-nil : (s : Text) → NoLead s → trim_end s ≡ [] → s ≡ []
unfolding trim_end
trim_end-nil [] l h = refl
trim_end-nil (c ∷ s) l h = absurd (ground arith)

trim_end_of_nil : trim_end [] ≡ []
unfolding trim_end
trim_end_of_nil = refl

-- Nothing is left exactly of white space.
pub trim-nil_iff : (s : Text) → (trim s ≡ []) ↔ All (λ c. is_space c ≡ true) s
unfolding trim
trim-nil_iff s = (
  λ h. (trim_start-nil_iff s).0 (trim_end-nil (trim_start s) (trim_start-NoLead s) h),
  λ h. ap trim_end ((trim_start-nil_iff s).1 h) ∙ trim_end_of_nil,
)

-- Nothing is squeezed to nothing but the empty text.
pub squeeze_spaces-nil : (r : ℕ) (s : Text) → squeeze_spaces r s ≡ [] → s ≡ []
unfolding squeeze_spaces squeeze_from
squeeze_spaces-nil r [] h = refl
squeeze_spaces-nil r (c ∷ s) h = elim (Bool-cases (is_space c)) [
  | inl e ↦ absurd (ground arith)
  | inr e ↦ absurd (ground arith)
]
