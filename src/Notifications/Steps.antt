-- ===== src/Notifications/Steps.antt =====
-- The queue as a state machine: its calls and the firing of pending timers, in any order.
use cachestack.Base.{
  ℕ, ◌≤◌, ◌≡◌, Bool, true, not, List, [], ◌∷◌, any, arith, Bool-cases, inl, inr, ◌==◌, All,
  All-take, All-filter, ◌≢◌, ◌⊎◌,
}
use cachestack.Text.{Text}
use cachestack.Types.{NotifLevel, Notification}
use cachestack.Notifications.{Queue, without, push, dismiss, dismiss_all, fire}
use cachestack.Notifications.Order.{
  IsOrdered, push-IsOrdered, dismiss-IsOrdered, dismiss_all-IsOrdered, fire-IsOrdered,
}

-- A timer for `id` is waiting.
abbrev pub pending : ℕ → Queue → Bool
pending id q = any (λ t. t.target == id) q.timers

pub data Step : Queue → Queue → Type 0 where
  pushed : (m : Text) (l : NotifLevel) (d : ℕ) (ts : Text) (q : Queue) → Step q (push m l d ts q).0
  dismissed : (id : ℕ) (q : Queue) → Step q (dismiss id q)
  cleared : (q : Queue) → Step q (dismiss_all q)
  fired : (id : ℕ) (q : Queue) → pending id q ≡ true → Step q (fire id q)

pub data Reach (s : Queue) : Queue → Type 0 where
  here : Reach s s
  next : {t u : Queue} → Reach s t → Step t u → Reach s u

Step-IsOrdered : {q r : Queue} → Step q r → IsOrdered q → IsOrdered r
Step-IsOrdered (pushed m l d ts q) v = push-IsOrdered m l d ts q v
Step-IsOrdered (dismissed id q) v = dismiss-IsOrdered id q v
Step-IsOrdered (cleared q) v = dismiss_all-IsOrdered q
Step-IsOrdered (fired id q _) v = fire-IsOrdered id q v

-- From a queue that shows at most 20 toasts, newest first, so that their ids fall strictly, no two are
-- the same and none is above the counter: whatever calls are made and whatever timers fire, it stays so.
pub Reach-IsOrdered : (s q : Queue) → IsOrdered s → Reach s q → IsOrdered q
Reach-IsOrdered s q v here = v
Reach-IsOrdered s q v (next {t = t} r st) = Step-IsOrdered st (Reach-IsOrdered s t v r)

-- The id has been given out and is not shown.
abbrev pub Lacks : ℕ → List Notification → Type 0
Lacks id = All (λ n. n.id ≢ id)

abbrev pub Gone : ℕ → Queue → Type 0
Gone id q = (id ≤ q.counter) × Lacks id q.notifications

Step-Gone : {q r : Queue} (id : ℕ) → Step q r → Gone id q → Gone id r
unfolding push dismiss dismiss_all fire
Step-Gone id (pushed m l d ts q) (le, g) =
    (omega arith, (omega arith, All-take (λ n. n.id ≢ id) 19 q.notifications g))
Step-Gone id (dismissed k q) (le, g) =
    (le, All-filter (λ n. n.id ≢ id) (λ n. not (n.id == k)) q.notifications g)
Step-Gone id (cleared q) (le, g) = (le, tt)
Step-Gone id (fired k q _) (le, g) =
    (le, All-filter (λ n. n.id ≢ id) (λ n. not (n.id == k)) q.notifications g)

Reach-Gone : (s q : Queue) (id : ℕ) → Gone id s → Reach s q → Gone id q
Reach-Gone s q id g here = g
Reach-Gone s q id g (next {t = t} r st) = Step-Gone id st (Reach-Gone s t id g r)

pub without-Lacks : (id : ℕ) (ns : List Notification) → Lacks id (without id ns)
without-Lacks id [] = tt
without-Lacks id (n ∷ ns) = elim (Bool-cases (n.id == id)) [
  | inl e ↦ rw e (without-Lacks id ns)
  | inr e ↦ rw e (ground arith, without-Lacks id ns)
]

-- A toast whose id was given out, that is, is not above the counter, and that was dismissed, or whose
-- timer has fired, is never shown again: no later call and no timer brings the id back.
pub dismiss_stays :
    (id : ℕ) (s q : Queue)
    → id ≤ s.counter
    → Reach (dismiss id s) q ⊎ Reach (fire id s) q
    → Lacks id q.notifications
unfolding dismiss fire
dismiss_stays id s q le (inl r) =
    (Reach-Gone (dismiss id s) q id (le, without-Lacks id s.notifications) r).1
dismiss_stays id s q le (inr r) =
    (Reach-Gone (fire id s) q id (le, without-Lacks id s.notifications) r).1
