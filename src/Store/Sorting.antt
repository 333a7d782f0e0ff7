-- ===== src/Store/Sorting.antt =====
-- The insertion sort of `ZRange`.
use cachestack.Base.{
  ◌+◌, ◌≡◌, ◌∙◌, refl, not, All, Bool, true, false, List, [], ◌∷◌, filter, length, arith,
  Bool-cases, inl, inr,
}
use mathlib.Core.List.{reverse_aux}
use cachestack.Command.{Bytes}
use cachestack.Store.Values.{bubble, sort_back, sort_scores}

module _ {Float : Type 0} (less : Float → Float → Bool) where
  -- No member is right behind one of a greater score.
  abbrev IsRising : List (Bytes × Float) → Type 0
  IsRising [] = Unit
  IsRising (x ∷ []) = Unit
  IsRising (x ∷ y ∷ s) = (less y.1 x.1 ≡ false) × IsRising (y ∷ s)

  -- No member is anywhere behind one of a greater score.
  abbrev pub IsSorted : List (Bytes × Float) → Type 0
  IsSorted [] = Unit
  IsSorted (x ∷ s) = All (λ y. less y.1 x.1 ≡ false) s × IsSorted s

  abbrev IsFalling : List (Bytes × Float) → Type 0
  IsFalling [] = Unit
  IsFalling (x ∷ []) = Unit
  IsFalling (x ∷ y ∷ s) = (less x.1 y.1 ≡ false) × IsFalling (y ∷ s)

  abbrev Meets : List (Bytes × Float) → List (Bytes × Float) → Type 0
  Meets [] r = Unit
  Meets (x ∷ l) [] = Unit
  Meets (x ∷ l) (y ∷ r) = less y.1 x.1 ≡ false

  Meets-nil : (l : List (Bytes × Float)) → Meets l []
  Meets-nil [] = tt
  Meets-nil (x ∷ l) = tt

  IsRising-cons :
      (x : Bytes × Float) (l r : List (Bytes × Float))
      → IsRising r
      → Meets (x ∷ l) r
      → IsRising (x ∷ r)
  IsRising-cons x l [] up m = tt
  IsRising-cons x l (y ∷ r) up m = (m, up)

  IsFalling-tail : (x : Bytes × Float) (l : List (Bytes × Float)) → IsFalling (x ∷ l) → IsFalling l
  IsFalling-tail x [] f = tt
  IsFalling-tail x (y ∷ l) (_, f) = f

  Meets-tail :
      (x : Bytes × Float) (l r : List (Bytes × Float)) → IsFalling (x ∷ l) → Meets l (x ∷ r)
  Meets-tail x [] r f = tt
  Meets-tail x (y ∷ l) r (e, _) = e

  reverse_aux-IsRising :
      (l r : List (Bytes × Float))
      → IsFalling l
      → IsRising r
      → Meets l r
      → IsRising (reverse_aux l r)
  reverse_aux-IsRising [] r down up m = up
  reverse_aux-IsRising (x ∷ l) r down up m =
      reverse_aux-IsRising l (x ∷ r) (IsFalling-tail x l down) (IsRising-cons x l r up m)
        (Meets-tail x l r down)

  count-reverse_aux :
      (p : Bytes × Float → Bool) (l r : List (Bytes × Float))
      → length (filter p (reverse_aux l r)) ≡ length (filter p l) + length (filter p r)
  count-reverse_aux p [] r = omega arith
  count-reverse_aux p (x ∷ l) r = ground (arith, count-reverse_aux p l (x ∷ r))

  count-bubble :
      (p : Bytes × Float → Bool) (x : Bytes × Float) (ys : List (Bytes × Float))
      → length (filter p (bubble less x ys)) ≡ length (filter p (x ∷ ys))
  unfolding bubble
  count-bubble p x [] = refl
  count-bubble p x (y ∷ ys) = ground (arith, count-bubble p x ys)

  count-sort_back :
      (p : Bytes × Float → Bool) (done xs : List (Bytes × Float))
      → length (filter p (sort_back less done xs)) ≡ length (filter p done) + length (filter p xs)
  unfolding sort_back
  count-sort_back p done [] = omega arith
  count-sort_back p done (x ∷ xs) =
      ground (arith, count-sort_back p (bubble less x done) xs, count-bubble p x done)

  count_sorted :
      (xs : List (Bytes × Float)) (p : Bytes × Float → Bool)
      → length (filter p (sort_scores less xs)) ≡ length (filter p xs)
  unfolding sort_scores
  count_sorted xs p =
      omega (arith, count-reverse_aux p (sort_back less [] xs) [], count-sort_back p [] xs)

  module _ (asymmetric : (a b : Float) → less a b ≡ true → less b a ≡ false) where
    bubble-IsFalling :
        (x : Bytes × Float) (ys : List (Bytes × Float))
        → IsFalling ys
        → IsFalling (bubble less x ys)
    unfolding bubble
    bubble-IsFalling x [] f = tt
    bubble-IsFalling x (y ∷ []) f = elim (Bool-cases (less x.1 y.1)) [
      | inl e ↦ rw e (asymmetric x.1 y.1 e, tt)
      | inr e ↦ rw e (e, tt)
    ]
    bubble-IsFalling x (y ∷ z ∷ ys) (e, f) = elim (Bool-cases (less x.1 y.1)) [
      | inr g ↦ rw g (g, (e, f))
      | inl g ↦ elim (Bool-cases (less x.1 z.1)) [
        | inl h ↦
            let moved : IsFalling (bubble less x (z ∷ ys)) = bubble-IsFalling x (z ∷ ys) f in
            rw (g, h) (e, rw h at moved)
        | inr h ↦ rw (g, h) (asymmetric x.1 y.1 g, (h, f))
      ]
    ]

    sort_back-IsFalling :
        (done xs : List (Bytes × Float)) → IsFalling done → IsFalling (sort_back less done xs)
    unfolding sort_back
    sort_back-IsFalling done [] f = f
    sort_back-IsFalling done (x ∷ xs) f =
        sort_back-IsFalling (bubble less x done) xs (bubble-IsFalling x done f)

    module _ (number : Float → Bool)
        (transitive : (a b c : Float)
          → number a ≡ true
          → number b ≡ true
          → number c ≡ true
          → less b a ≡ false
          → less c b ≡ false
          → less c a ≡ false) where
      abbrev AreNumbers : List (Bytes × Float) → Type 0
      AreNumbers = All (λ p. number p.1 ≡ true)

      numbers_of_none :
          (xs : List (Bytes × Float))
          → length (filter (λ p. not (number p.1)) xs) ≡ 0
          → AreNumbers xs
      numbers_of_none [] h = tt
      numbers_of_none (x ∷ xs) h = elim (Bool-cases (number x.1)) [
        | inl e ↦ (e, numbers_of_none xs (rw e at h))
        | inr e ↦ absurd (ground (arith, e))
      ]

      none_of_numbers :
          (xs : List (Bytes × Float))
          → AreNumbers xs
          → length (filter (λ p. not (number p.1)) xs) ≡ 0
      none_of_numbers [] h = refl
      none_of_numbers (x ∷ xs) (e, h) = rw e (none_of_numbers xs h)

      not_less_behind :
          (x y : Bytes × Float) (s : List (Bytes × Float))
          → number x.1 ≡ true
          → number y.1 ≡ true
          → less y.1 x.1 ≡ false
          → AreNumbers s
          → All (λ z. less z.1 y.1 ≡ false) s
          → All (λ z. less z.1 x.1 ≡ false) s
      not_less_behind x y [] nx ny e ns h = tt
      not_less_behind x y (z ∷ s) nx ny e (nz, ns) (f, h) =
          (transitive x.1 y.1 z.1 nx ny nz e f, not_less_behind x y s nx ny e ns h)

      IsRising-IsSorted : (xs : List (Bytes × Float)) → AreNumbers xs → IsRising xs → IsSorted xs
      IsRising-IsSorted [] ns up = tt
      IsRising-IsSorted (x ∷ []) ns up = (tt, tt)
      IsRising-IsSorted (x ∷ y ∷ s) (nx, (ny, ns)) (e, up) =
          let (front, rest) = IsRising-IsSorted (y ∷ s) (ny, ns) up in
          ((e, not_less_behind x y s nx ny e ns front), (front, rest))

      -- `ZRange` sorts scores that are numbers: no member is anywhere behind one of a greater score, and
      -- every member is there as often as it was; if of two scores at most one is less than the other, and
      -- among numbers a score that is not less than one that is not less than a third is not less than
      -- the third.
      pub sort_scores-IsSorted :
          (xs : List (Bytes × Float))
          → All (λ p. number p.1 ≡ true) xs
          → IsSorted (sort_scores less xs)
            × ((p : Bytes × Float → Bool)
                → length (filter p (sort_scores less xs)) ≡ length (filter p xs))
      unfolding sort_scores
      sort_scores-IsSorted xs numbers =
          let counts = count_sorted xs in
          (
            IsRising-IsSorted (sort_scores less xs)
                (numbers_of_none (sort_scores less xs)
                  (counts (λ p. not (number p.1)) ∙ none_of_numbers xs numbers))
                (reverse_aux-IsRising (sort_back less [] xs) [] (sort_back-IsFalling [] xs tt) tt
                  (Meets-nil (sort_back less [] xs))),
            counts,
          )
