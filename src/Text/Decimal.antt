-- ===== src/Text/Decimal.antt =====
-- `${n}`: a whole number as decimal text.
use cachestack.Base.{
  ℕ, zero, suc, ◌+◌, ◌-◌, ◌*◌, ◌/◌, ◌%◌, ◌<◌, ◌≡◌, ◌∙◌, refl, sym, ap, [], ◌∷◌, inl, inr,
  Bool-cases, ltb, if◌then◌else◌, arith,
}
use cachestack.Text.{Text, text}

-- Integers over the native numbers; `negsuc n` is -(n + 1).
pub data ℤ : Type 0 where
  pos : ℕ → ℤ
  negsuc : ℕ → ℤ

-- The digits of `n` in front of `acc`, with fuel above `n`.
show_from : ℕ → ℕ → Text → Text
show_from zero n acc = acc
show_from (suc f) n acc =
    let rest = show_from f (n / 10) ((48 + n % 10) ∷ acc) in
    if ltb n 10 then (48 + n % 10) ∷ acc else rest

unfoldable pub show_ℕ : ℕ → Text
unfolding show_from
show_ℕ n = show_from (suc n) n []

unfoldable pub show_ℤ : ℤ → Text
unfolding show_ℕ
show_ℤ (pos n) = show_ℕ n
show_ℤ (negsuc n) = b'-' ∷ show_ℕ (suc n)

-- The number that a text of digits stands for, after the number read so far.
unfoldable pub read_from : ℕ → Text → ℕ
read_from n [] = n
read_from n (c ∷ s) = read_from (n * 10 + (c - 48)) s

-- Enough fuel: what is printed reads back, whatever stands behind it.
read_from-show_from :
    (f n : ℕ) (acc : Text) → n < f → read_from 0 (show_from f n acc) ≡ read_from n acc
unfolding show_from read_from
read_from-show_from zero n acc h = elim h [ ]
read_from-show_from (suc f) n acc h = elim (Bool-cases (ltb n 10)) [
  | inl e ↦ rw e (ap (λ k. read_from k acc) (ground arith))
  | inr e ↦ rw e (
      read_from-show_from f (n / 10) ((48 + n % 10) ∷ acc) (ground arith)
      ∙ ap (λ k. read_from k acc) (omega arith))
]

-- Two numbers with one text are equal.
pub show_ℕ-injective : (m n : ℕ) → show_ℕ m ≡ show_ℕ n → m ≡ n
unfolding show_ℕ read_from
show_ℕ-injective m n h =
    sym (read_from-show_from (suc m) m [] (omega arith))
    ∙ (ap (read_from 0) h ∙ read_from-show_from (suc n) n [] (omega arith))

tests : (show_ℤ (pos 86400) ≡ text "86400") × (show_ℤ (negsuc 0) ≡ text "-1")
unfolding show_ℤ
tests = (refl, refl)
