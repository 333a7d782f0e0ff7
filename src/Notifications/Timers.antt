-- ===== src/Notifications/Timers.antt =====
-- Toasts disappear by themselves: every toast pushed with a positive duration has a timer waiting
-- for it as long as it is shown.
use cachestack.Base.{
  ℕ, ◌+◌, ◌<◌, ◌≡◌, ◌∙◌, ap, refl, Bool, true, false, not, List, [], ◌∷◌, ◌++◌, take, filter, any,
  arith, Bool-cases, inl, inr, ◌==◌, All, All-take, All-filter, ltb, if◌then◌else◌, filter-filter,
  ==_iff, sym, subst, filter_of_All, filter_nil_of_All, filter_congr, All_map,
}
use cachestack.Text.{Text}
use cachestack.Types.{NotifLevel, Notification}
use cachestack.Notifications.{Queue, Timer, without, push, dismiss, dismiss_all, fire}

abbrev Waits : List Timer → Notification → Type 0
Waits ts n = any (λ t. t.target == n.id) ts ≡ true

abbrev pub IsTimed : Queue → Type 0
IsTimed q = All (λ n. any (λ t. t.target == n.id) q.timers ≡ true) q.notifications

any-append :
    (id : ℕ) (ts us : List Timer)
    → any (λ t. t.target == id) ts ≡ true
    → any (λ t. t.target == id) (ts ++ us) ≡ true
any-append id [] us h = ground arith
any-append id (t ∷ ts) us h = ground (arith, any-append id ts us)

any-append_last :
    (id : ℕ) (ts : List Timer) (t : Timer)
    → t.target ≡ id
    → any (λ t. t.target == id) (ts ++ (t ∷ [])) ≡ true
any-append_last id [] t h = ground arith
any-append_last id (u ∷ ts) t h = ground (arith, any-append_last id ts t)

All-Waits-append :
    (ns : List Notification) (ts us : List Timer) → All (Waits ts) ns → All (Waits (ts ++ us)) ns
All-Waits-append [] ts us h = tt
All-Waits-append (n ∷ ns) ts us (p, h) = (any-append n.id ts us p, All-Waits-append ns ts us h)

-- The timers left by a firing still serve the toasts left.
any-filter :
    (id k : ℕ) (ts : List Timer)
    → (k == id) ≡ false
    → any (λ t. t.target == k) ts ≡ true
    → any (λ t. t.target == k) (filter (λ t. not (t.target == id)) ts) ≡ true
any-filter id k [] e h = h
any-filter id k (t ∷ ts) e h = ground (arith, any-filter id k ts e)

All-Waits-fire :
    (id : ℕ) (ns : List Notification) (ts : List Timer)
    → All (Waits ts) ns
    → All (Waits (filter (λ t. not (t.target == id)) ts)) (without id ns)
All-Waits-fire id [] ts h = tt
All-Waits-fire id (n ∷ ns) ts (p, h) = elim (Bool-cases (n.id == id)) [
  | inl e ↦ rw e (All-Waits-fire id ns ts h)
  | inr e ↦ rw e (any-filter id n.id ts e p, All-Waits-fire id ns ts h)
]

push-IsTimed :
    (m : Text) (l : NotifLevel) (d : ℕ) (ts : Text) (q : Queue)
    → 0 < d
    → IsTimed q
    → IsTimed (push m l d ts q).0
unfolding push
push-IsTimed m l d ts q pos h =
    let e : ltb 0 d ≡ true = ground arith in
    let timer : Timer = record { target = q.counter + 1; delay = d } in
    subst
      (λ us.
        (any (λ t. t.target == q.counter + 1) us ≡ true) × All (Waits us) (take 19 q.notifications))
      (sym (ap (λ b. if b then q.timers ++ (timer ∷ []) else q.timers) e))
      (
        any-append_last (q.counter + 1) q.timers timer refl,
        All-take (Waits (q.timers ++ (timer ∷ []))) 19 q.notifications
            (All-Waits-append q.notifications q.timers (timer ∷ []) h),
      )

-- If each toast shown has a timer waiting, then it is so after every operation of the queue, `push` at a
-- positive duration.
pub operations-IsTimed :
    (m : Text) (l : NotifLevel) (d id : ℕ) (ts : Text) (q : Queue)
    → 0 < d
    → IsTimed q
    → IsTimed (push m l d ts q).0
      × IsTimed (dismiss id q)
      × IsTimed (dismiss_all q)
      × IsTimed (fire id q)
unfolding dismiss dismiss_all fire
operations-IsTimed m l d id ts q pos h = (
  push-IsTimed m l d ts q pos h,
  All-filter (Waits q.timers) (λ n. not (n.id == id)) q.notifications h,
  tt,
  All-Waits-fire id q.notifications q.timers h,
)

-- The timers of `ids` fire one after the other.
unfoldable pub fire_each : List ℕ → Queue → Queue
fire_each [] q = q
fire_each (id ∷ ids) q = fire_each ids (fire id q)

abbrev pub listed : List ℕ → ℕ → Bool
listed ids k = any (λ i. k == i) ids

-- Firing timers takes their toasts out of the list and keeps the others in order.
pub fire_each-filter :
    (ids : List ℕ) (q : Queue)
    → (fire_each ids q).notifications ≡ filter (λ n. not (listed ids n.id)) q.notifications
unfolding fire_each fire
fire_each-filter [] q = sym (filter_of_All (λ n. true) q.notifications (all_true q.notifications))
  where
    all_true : (ns : List Notification) → All (λ n. true ≡ true) ns
    all_true [] = tt
    all_true (n ∷ ns) = (refl, all_true ns)
fire_each-filter (id ∷ ids) q =
    fire_each-filter ids (fire id q)
    ∙ (filter-filter (λ n. not (listed ids n.id)) (λ n. not (n.id == id)) q.notifications
        ∙ filter_congr _ _ q.notifications (λ n. ground arith))

served :
    (ids : List ℕ) (k : ℕ) (ts : List Timer)
    → any (λ t. t.target == k) ts ≡ true
    → All (λ t. listed ids t.target ≡ true) ts
    → listed ids k ≡ true
served ids k [] h g = ground arith
served ids k (t ∷ ts) h (p, g) = elim (Bool-cases (t.target == k)) [
  | inl e ↦ rw (← (==_iff t.target k).0 e) p
  | inr e ↦ served ids k ts (rw e at h) g
]

-- In a queue in which each toast shown has a timer waiting: in whatever order the timers fire, no toast
-- is left once each of them has fired.
pub fire_each-nil :
    (ids : List ℕ) (q : Queue)
    → IsTimed q
    → All (λ t. listed ids t.target ≡ true) q.timers
    → (fire_each ids q).notifications ≡ []
fire_each-nil ids q timed all =
    fire_each-filter ids q
    ∙ filter_nil_of_All (λ n. not (listed ids n.id)) q.notifications
        (All_map (Waits q.timers) (λ n. not (listed ids n.id) ≡ false) q.notifications
          (λ n h. ap not (served ids n.id q.timers h all)) timed)
