-- ===== src/Tests/Queue.antt =====
-- Runs of the queue of notifications.
use cachestack.Base.{◌≡◌, refl, true, [], ◌∷◌, All, ◌≤◌, inl, arith}
use cachestack.Text.{Text, text}
use cachestack.Types.{info, error}
use cachestack.Notifications.{Queue, empty, push, dismiss, dismiss_all, fire}
use cachestack.Notifications.Order.{IsOrdered}
use cachestack.Notifications.Steps.{
  Reach, pushed, dismissed, fired, here, next, pending, Lacks, Reach-IsOrdered, dismiss_stays,
}
use cachestack.Notifications.Timers.{IsTimed, listed, operations-IsTimed, fire_each, fire_each-nil}

abbrev noon : Text
noon = text "12:00:00 GMT+0000"

abbrev one : Queue
one = (push (text "saved") info 3000 noon empty).0

abbrev two : Queue
two = (push (text "failed") error 5000 noon one).0

empty-IsOrdered : IsOrdered empty
empty-IsOrdered = record { falls = tt; bounded = omega arith }

two-pending : pending 1 (dismiss 2 two) ≡ true
unfolding push dismiss
two-pending = refl

two_pushes : Reach empty two
two_pushes =
    next (next here (pushed (text "saved") info 3000 noon empty))
      (pushed (text "failed") error 5000 noon one)

Reach-IsOrdered_example : IsOrdered (fire 1 (dismiss 2 two))
Reach-IsOrdered_example =
    Reach-IsOrdered empty (fire 1 (dismiss 2 two)) empty-IsOrdered
      (next (next two_pushes (dismissed 2 two)) (fired 1 (dismiss 2 two) two-pending))

two-IsOrdered : IsOrdered two
two-IsOrdered = Reach-IsOrdered empty two empty-IsOrdered two_pushes

two-counter : 1 ≤ two.counter
unfolding push
two-counter = omega arith

dismiss_stays_example : Lacks 1 (push (text "again") info 3000 noon (dismiss 1 two)).0.notifications
dismiss_stays_example =
    dismiss_stays 1 two (push (text "again") info 3000 noon (dismiss 1 two)).0 two-counter
      (inl (next here (pushed (text "again") info 3000 noon (dismiss 1 two))))

two-IsTimed : IsTimed two
unfolding push
two-IsTimed = (refl, (refl, tt))

operations-IsTimed_example :
    IsTimed (push (text "again") info 3000 noon two).0
    × IsTimed (dismiss 1 two)
    × IsTimed (dismiss_all two)
    × IsTimed (fire 1 two)
operations-IsTimed_example =
    operations-IsTimed (text "again") info 3000 1 noon two (omega arith) two-IsTimed

two_listed : All (λ t. listed (2 ∷ 1 ∷ []) t.target ≡ true) two.timers
unfolding push
two_listed = (refl, (refl, tt))

fire_each-nil_example : (fire_each (2 ∷ 1 ∷ []) two).notifications ≡ []
fire_each-nil_example = fire_each-nil (2 ∷ 1 ∷ []) two two-IsTimed two_listed
