-- ===== src/Text/Split.antt =====
-- Splitting a string and joining the parts gives the string back.
use cachestack.Base.{ℕ, ◌≡◌, ◌∙◌, refl, List, [], ◌∷◌, ap, arith, Bool-cases, inl, inr, ◌==◌}
use cachestack.Text.{Text, split_first, split, join, onto_first}

join_onto :
    (sep c : ℕ) (p : Text × List Text)
    → join (sep ∷ []) ((onto_first c p).0 ∷ (onto_first c p).1) ≡ c ∷ join (sep ∷ []) (p.0 ∷ p.1)
unfolding join
join_onto sep c (first, []) = refl
join_onto sep c (first, next ∷ more) = refl

join-split_first :
    (sep : ℕ) (s : Text) → join (sep ∷ []) ((split_first sep s).0 ∷ (split_first sep s).1) ≡ s
unfolding split_first join
join-split_first sep [] = refl
join-split_first sep (c ∷ s) = elim (Bool-cases (c == sep)) [
  | inl e ↦ ground (arith, join-split_first sep s)
  | inr e ↦ rw e (join_onto sep c (split_first sep s) ∙ ap (◌∷◌ c) (join-split_first sep s))
]

-- `s.split(sep).join(sep) === s`
pub join-split : (sep : ℕ) (s : Text) → join (sep ∷ []) (split sep s) ≡ s
unfolding split
join-split sep s = join-split_first sep s
