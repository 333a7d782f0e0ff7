-- ===== src/Notifications/Undo.antt =====
-- Dismissing: what goes and what stays.
use cachestack.Base.{
  ℕ, ◌+◌, ◌≤◌, ◌≡◌, ◌≢◌, ap, refl, false, List, [], ◌∷◌, take, find?, arith, ◌==◌, ==_self,
}
use cachestack.Text.{Text}
use cachestack.Types.{NotifLevel, Notification}
use cachestack.Notifications.{Queue, without, push, dismiss}
use cachestack.Notifications.Order.{Falls, Falls-take, IsOrdered}

without_of_Falls : (b id : ℕ) (ns : List Notification) → b ≤ id → Falls b ns → without id ns ≡ ns
without_of_Falls b id [] h f = refl
without_of_Falls b id (n ∷ ns) h (lt, f) =
    let e : (n.id == id) ≡ false = ground arith in
    rw e (ap (◌∷◌ n) (without_of_Falls n.id id ns (omega arith) f))

-- Dismissing the toast that was just pushed leaves the 19 newest of those shown before, and the
-- counter one further.
pub dismiss-push :
    (m : Text) (l : NotifLevel) (d : ℕ) (ts : Text) (q : Queue)
    → IsOrdered q
    → ((dismiss (push m l d ts q).1 (push m l d ts q).0).notifications ≡ take 19 q.notifications)
      × ((dismiss (push m l d ts q).1 (push m l d ts q).0).counter ≡ q.counter + 1)
unfolding dismiss push
dismiss-push m l d ts q v = (
  rw (==_self (q.counter + 1)) (
      without_of_Falls (q.counter + 1) (q.counter + 1) (take 19 q.notifications) (omega arith)
        (Falls-take (q.counter + 1) 19 q.notifications v.falls)),
  refl,
)

find?-without :
    (id k : ℕ) (ns : List Notification)
    → k ≢ id
    → find? (λ n. n.id == k) (without id ns) ≡ find? (λ n. n.id == k) ns
find?-without id k [] h = refl
find?-without id k (n ∷ ns) h = ground (arith, find?-without id k ns h)

-- Dismissing one toast hides no other, and leaves the counter and the timers alone.
pub find?-dismiss :
    (id k : ℕ) (q : Queue)
    → k ≢ id
    → (find? (λ n. n.id == k) (dismiss id q).notifications ≡ find? (λ n. n.id == k) q.notifications)
      × ((dismiss id q).counter ≡ q.counter)
      × ((dismiss id q).timers ≡ q.timers)
unfolding dismiss
find?-dismiss id k q h = (find?-without id k q.notifications h, refl, refl)
