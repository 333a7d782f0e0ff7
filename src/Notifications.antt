-- ===== src/Notifications.antt =====
-- frontend/src/hooks/useNotifications.ts: the queue of toasts, its counter, and the timers that
-- `setTimeout` has set and that have not fired. `clock` is what `new Date().toTimeString()` returns.
pub mod Order
pub mod Steps
pub mod Timers
pub mod Undo
use cachestack.Base.{
  ℕ, ◌+◌, ◌<◌, Bool, not, List, [], ◌∷◌, ◌++◌, take, filter, if◌then◌else◌, ltb, ◌==◌,
}
use cachestack.Text.{Text}
use cachestack.Types.{NotifLevel, Notification}

pub record Timer : Type 0 where
  pub target : ℕ
  pub delay : ℕ

pub record Queue : Type 0 where
  pub notifications : List Notification
  pub counter : ℕ
  pub timers : List Timer

abbrev pub empty : Queue
empty = record { notifications = []; counter = 0; timers = [] }

-- `prev.filter(n => n.id !== id)`
abbrev pub without : ℕ → List Notification → List Notification
without id = filter (λ n. not (n.id == id))

-- `push(message, level, duration)` at the time `clock`: the new state and the id returned.
unfoldable pub push : Text → NotifLevel → ℕ → Text → Queue → Queue × ℕ
push message level duration clock q =
    let id = q.counter + 1 in
    let shown =
      take 20 (
        record { id = id; message = message; level = level; ts = take 8 clock }
        ∷ q.notifications) in
    let timers =
      if ltb 0 duration
      then q.timers ++ (record { target = id; delay = duration } ∷ [])
      else q.timers in
    (record { notifications = shown; counter = id; timers = timers }, id)

unfoldable pub dismiss : ℕ → Queue → Queue
dismiss id q = record q { notifications = without id q.notifications }

unfoldable pub dismiss_all : Queue → Queue
dismiss_all q = record q { notifications = [] }

-- The callback of a timer, and the timer's end.
unfoldable pub fire : ℕ → Queue → Queue
fire id q = record q {
  notifications = without id q.notifications;
  timers = filter (λ t. not (t.target == id)) q.timers;
}
