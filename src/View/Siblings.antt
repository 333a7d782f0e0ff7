-- ===== src/View/Siblings.antt =====
-- The keys by which React tells the elements of an array apart.
use cachestack.Base.{
  ℕ, ◌≡◌, ◌≢◌, ◌≤◌, refl, Bool, List, [], ◌∷◌, map, filter, All, arith, Bool-cases, inl, inr,
}
use cachestack.Text.{Text}
use cachestack.Text.Decimal.{show_ℕ, show_ℕ-injective}
use cachestack.Text.Names.{Distinct}
use cachestack.Types.{KeyEntry, Notification}
use cachestack.Notifications.Order.{Falls}
use cachestack.Keys.Ids.{Rises, Rises-mono}
use cachestack.View.{Node, each, sibling_keys}

module _ {A : Type 0} where
  pub sibling_keys-each {ℓ} :
      {B : Type ℓ} (f : B → Node A) (g : B → Text) (bs : List B)
      → ((b : B) → sibling_keys (f b) ≡ g b ∷ [])
      → sibling_keys (each f bs) ≡ map g bs
  unfolding sibling_keys
  sibling_keys-each f g [] h = refl
  sibling_keys-each f g (b ∷ bs) h = rw (h b, sibling_keys-each f g bs h) refl

pub Rises-filter :
    (p : KeyEntry → Bool) (b : ℕ) (xs : List KeyEntry) → Rises b xs → Rises b (filter p xs)
Rises-filter p b [] r = tt
Rises-filter p b (x ∷ xs) (lt, r) = elim (Bool-cases (p x)) [
  | inl e ↦ rw e (lt, Rises-filter p x.id xs r)
  | inr e ↦ rw e (Rises-filter p b xs (Rises-mono b x.id xs (omega arith) r))
]

above :
    (m b : ℕ) (xs : List KeyEntry)
    → m ≤ b
    → Rises b xs
    → All (λ s. s ≢ show_ℕ m) (map (λ k. show_ℕ k.id) xs)
above m b [] h r = tt
above m b (x ∷ xs) h (lt, r) =
    (λ e. absurd (omega (arith, show_ℕ-injective x.id m e)), above m x.id xs (omega arith) r)

pub Distinct-rows : (b : ℕ) (xs : List KeyEntry) → Rises b xs → Distinct (map (λ k. show_ℕ k.id) xs)
Distinct-rows b [] r = tt
Distinct-rows b (x ∷ xs) (lt, r) = (above x.id x.id xs (omega arith) r, Distinct-rows x.id xs r)

below :
    (m b : ℕ) (ns : List Notification)
    → b ≤ m
    → Falls b ns
    → All (λ s. s ≢ show_ℕ m) (map (λ n. show_ℕ n.id) ns)
below m b [] h f = tt
below m b (n ∷ ns) h (lt, f) =
    (λ e. absurd (omega (arith, show_ℕ-injective n.id m e)), below m n.id ns (omega arith) f)

pub Distinct-notifications :
    (b : ℕ) (ns : List Notification) → Falls b ns → Distinct (map (λ n. show_ℕ n.id) ns)
Distinct-notifications b [] f = tt
Distinct-notifications b (n ∷ ns) (lt, f) =
    (below n.id n.id ns (omega arith) f, Distinct-notifications n.id ns f)
