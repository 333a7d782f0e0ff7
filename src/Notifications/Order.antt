-- ===== src/Notifications/Order.antt =====
-- The ids fall from the newest notification to the oldest, none is above the counter, and at most 20
-- are shown: every operation keeps that.
use cachestack.Base.{
  ℕ, suc, zero, ◌+◌, ◌≤◌, ◌<◌, Bool, not, List, [], ◌∷◌, take, filter, length, arith, Bool-cases,
  inl, inr, ◌==◌, length-take, length-filter-le,
}
use cachestack.Text.{Text}
use cachestack.Types.{NotifLevel, Notification}
use cachestack.Notifications.{Queue, push, dismiss, dismiss_all, fire}

-- Every id is below `b`, and the ids fall along the list.
abbrev pub Falls : ℕ → List Notification → Type 0
Falls b [] = Unit
Falls b (n ∷ ns) = (n.id < b) × Falls n.id ns

Falls-mono : (b c : ℕ) (ns : List Notification) → b ≤ c → Falls b ns → Falls c ns
Falls-mono b c [] h f = tt
Falls-mono b c (n ∷ ns) h (p, f) = (omega arith, f)

pub Falls-take : (b k : ℕ) (ns : List Notification) → Falls b ns → Falls b (take k ns)
Falls-take b zero ns f = tt
Falls-take b (suc k) [] f = tt
Falls-take b (suc k) (n ∷ ns) (p, f) = (p, Falls-take n.id k ns f)

pub Falls-filter :
    (p : Notification → Bool) (b : ℕ) (ns : List Notification) → Falls b ns → Falls b (filter p ns)
Falls-filter p b [] f = tt
Falls-filter p b (n ∷ ns) (lt, f) = elim (Bool-cases (p n)) [
  | inl e ↦ rw e (lt, Falls-filter p n.id ns f)
  | inr e ↦ rw e (Falls-filter p b ns (Falls-mono n.id b ns (omega arith) f))
]

pub record IsOrdered (q : Queue) : Type 0 where
  pub falls : Falls (q.counter + 1) q.notifications
  pub bounded : length q.notifications ≤ 20

pub push-IsOrdered :
    (m : Text) (l : NotifLevel) (d : ℕ) (ts : Text) (q : Queue)
    → IsOrdered q
    → IsOrdered (push m l d ts q).0
unfolding push
push-IsOrdered m l d ts q v = record {
  falls = (omega arith, Falls-take (q.counter + 1) 19 q.notifications v.falls);
  bounded = omega (arith, length-take 19 q.notifications);
}

pub dismiss-IsOrdered : (id : ℕ) (q : Queue) → IsOrdered q → IsOrdered (dismiss id q)
unfolding dismiss
dismiss-IsOrdered id q v = record {
  falls = Falls-filter (λ n. not (n.id == id)) (q.counter + 1) q.notifications v.falls;
  bounded = omega (arith, length-filter-le (λ n. not (n.id == id)) q.notifications, v.bounded);
}

pub dismiss_all-IsOrdered : (q : Queue) → IsOrdered (dismiss_all q)
unfolding dismiss_all
dismiss_all-IsOrdered q = record { falls = tt; bounded = omega arith }

pub fire-IsOrdered : (id : ℕ) (q : Queue) → IsOrdered q → IsOrdered (fire id q)
unfolding fire
fire-IsOrdered id q v = record {
  falls = Falls-filter (λ n. not (n.id == id)) (q.counter + 1) q.notifications v.falls;
  bounded = omega (arith, length-filter-le (λ n. not (n.id == id)) q.notifications, v.bounded);
}
