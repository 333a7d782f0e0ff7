-- ===== src/Poll/Connection.antt =====
-- The notices of a lost and a recovered connection, over a run of polls.
use cachestack.Base.{
  ℕ, ◌+◌, ◌≤◌, ◌<◌, ◌≡◌, ◌∙◌, refl, ap, Bool, true, false, List, [], ◌∷◌, Option, none, some, map,
  length, length-append, any, All, All-append, All_map, arith, if◌then◌else◌, ◌==◌, Bool-cases, inl,
  inr,
}
use cachestack.Text.{Text}
use cachestack.Number.{Number}
use cachestack.Types.{ServerMetrics, NotifLevel, success, error}
use cachestack.Notifications.{Queue, push}
use cachestack.Poll.{
  add_id, back_text, lost_text, push_if, failing_text, Dash, Draws, was_offline, was_not_offline,
  announce, is_failing, warn_errors, tick, run_ticks,
}

abbrev pub is_up : Option ServerMetrics → Bool
is_up none = false
is_up (some _) = true

abbrev pub one_if : Bool → ℕ
one_if true = 1
one_if false = 0

-- The connection as the user knows it: before the first answer it counts as up.
abbrev pub known : Option Bool → Bool
known none = true
known (some up) = up

abbrev pub differs : Bool → Bool → Bool
differs true up = if up then false else true
differs false up = up

-- How often the connection goes down or comes back in a run of answers.
abbrev pub changes : Bool → List Bool → ℕ
changes up [] = 0
changes up (now ∷ more) = one_if (differs up now) + changes now more

abbrev pub latest : Option Bool → List Bool → Option Bool
latest prev [] = prev
latest prev (now ∷ more) = latest (some now) more

pub record IsFresh (ids : List ℕ) (q : Queue) : Type 0 where
  pub given : All (λ i. i ≤ q.counter) ids

length-add_id :
    (id : ℕ) (ids : List ℕ) → All (λ i. i < id) ids → length (add_id id ids) ≡ length ids + 1
unfolding add_id
length-add_id id ids h = rw (absent ids h) (omega (arith, length-append ids (id ∷ [])))
  where
    absent : (ids : List ℕ) → All (λ i. i < id) ids → any (λ i. i == id) ids ≡ false
    absent [] h = refl
    absent (i ∷ ids) (lt, h) = ground (arith, absent ids h)

add_id-given : (id : ℕ) (ids : List ℕ) → All (λ i. i < id) ids → All (λ i. i ≤ id) (add_id id ids)
unfolding add_id
add_id-given id ids h = elim (Bool-cases (any (λ i. i == id) ids)) [
  | inl e ↦ rw e (All_map (λ i. i < id) (λ i. i ≤ id) ids (λ i lt. omega arith) h)
  | inr e ↦ rw e (
      All-append (λ i. i ≤ id) ids (id ∷ [])
        (All_map (λ i. i < id) (λ i. i ≤ id) ids (λ i lt. omega arith) h) (omega arith, tt))
]

-- An announcement gives out one id, which is new, and remembers it.
announce-counts :
    (b : Bool) (m : Text) (l : NotifLevel) (c : Text) (q : Queue) (ids : List ℕ)
    → IsFresh ids q
    → ((announce b m l c (q, ids)).0.counter ≡ q.counter + one_if b)
      × (length (announce b m l c (q, ids)).1 ≡ length ids + one_if b)
      × IsFresh (announce b m l c (q, ids)).1 (announce b m l c (q, ids)).0
unfolding push
announce-counts false m l c q ids v = (omega arith, omega arith, v)
announce-counts true m l c q ids v =
    let below : All (λ i. i < q.counter + 1) ids =
      All_map (λ i. i ≤ q.counter) (λ i. i < q.counter + 1) ids (λ i le. omega arith) v.given in
    (
      refl,
      length-add_id (q.counter + 1) ids below,
      record { given = add_id-given (q.counter + 1) ids below },
    )

was_offline-differs : (p : Option Bool) → was_offline p ≡ differs (known p) true
was_offline-differs none = refl
was_offline-differs (some true) = refl
was_offline-differs (some false) = refl

was_not_offline-differs : (p : Option Bool) → was_not_offline p ≡ differs (known p) false
was_not_offline-differs none = refl
was_not_offline-differs (some true) = refl
was_not_offline-differs (some false) = refl

pub push_if-counter :
    (b : Bool) (m : Text) (l : NotifLevel) (d : ℕ) (c : Text) (q : Queue)
    → (push_if b m l d c q).counter ≡ q.counter + one_if b
unfolding push
push_if-counter true m l d c q = refl
push_if-counter false m l d c q = omega arith

module _ (N : Number) where
  open N use {Float, Draw}

  abbrev pub fails : Option ServerMetrics → Bool
  fails none = false
  fails (some m) = is_failing N m

  abbrev pub failures : List (Option ServerMetrics) → ℕ
  failures [] = 0
  failures (a ∷ more) = one_if (fails a) + failures more

  IsFresh-mono :
      (ids : List ℕ) (q r : Queue) → q.counter ≤ r.counter → IsFresh ids q → IsFresh ids r
  IsFresh-mono ids q r h v = record {
    given = All_map (λ i. i ≤ q.counter) (λ i. i ≤ r.counter) ids (λ i le. omega arith) v.given;
  }

  -- What one tick does to the notices.
  record Counts (answer : Option ServerMetrics) (s t : Dash Float) : Type 0 where
    prev : t.live.prev_online ≡ some (is_up answer)
    notices :
        length t.live.toast_ids
        ≡ length s.live.toast_ids + one_if (differs (known s.live.prev_online) (is_up answer))
    pushes :
        t.queue.counter
        ≡ s.queue.counter
          + one_if (differs (known s.live.prev_online) (is_up answer))
          + one_if (fails answer)
    fresh : IsFresh t.live.toast_ids t.queue

  tick-Counts :
      (answer : Option ServerMetrics) (d : Draws Draw) (s : Dash Float)
      → IsFresh s.live.toast_ids s.queue
      → Counts answer s (tick N answer d s)
  unfolding tick warn_errors
  tick-Counts (some m) d s v =
      let (count, len, new) =
        announce-counts (was_offline s.live.prev_online) back_text success d.clock s.queue
          s.live.toast_ids v in
      let q =
        announce (was_offline s.live.prev_online) back_text success d.clock
          (s.queue, s.live.toast_ids) in
      let warned = push_if-counter (is_failing N m) (failing_text N m) error 8000 d.clock q.0 in
      let edge = ap one_if (was_offline-differs s.live.prev_online) in
      record {
        prev = refl;
        notices = omega (arith, len, edge);
        pushes = omega (arith, warned, count, edge);
        fresh = IsFresh-mono q.1 q.0 (warn_errors N m d.clock q.0) (omega (arith, warned)) new;
      }
  tick-Counts none d s v =
      let (count, len, new) =
        announce-counts (was_not_offline s.live.prev_online) lost_text error d.clock s.queue
          s.live.toast_ids v in
      let edge = ap one_if (was_not_offline-differs s.live.prev_online) in
      record {
        prev = refl;
        notices = omega (arith, len, edge);
        pushes = omega (arith, count, edge);
        fresh = new;
      }

  -- If the ids remembered are ids that the queue has given out: over a run of polls, in the order in
  -- which their answers come in, a notice of a lost or recovered
  -- connection is given once for each change between up and down, a connection of which nothing is
  -- known counting as up; apart from these only answers with a high error rate push a toast; and at
  -- the end `prevOnlineRef` holds the last answer.
  pub run_ticks-changes :
      (answers : List (Option ServerMetrics × Draws Draw)) (s : Dash Float)
      → IsFresh s.live.toast_ids s.queue
      → (length (run_ticks N answers s).live.toast_ids
          ≡ length s.live.toast_ids
            + changes (known s.live.prev_online) (map (λ a. is_up a.0) answers))
        × ((run_ticks N answers s).queue.counter
            ≡ s.queue.counter
              + changes (known s.live.prev_online) (map (λ a. is_up a.0) answers)
              + failures (map (λ a. a.0) answers))
        × ((run_ticks N answers s).live.prev_online
            ≡ latest s.live.prev_online (map (λ a. is_up a.0) answers))
  unfolding run_ticks
  run_ticks-changes [] s v = (omega arith, omega arith, refl)
  run_ticks-changes ((answer, d) ∷ more) s v =
      let c = tick-Counts answer d s v in
      let (notices, pushes, prev) = run_ticks-changes more (tick N answer d s) c.fresh in
      let ups = map (λ a. is_up a.0) more in
      let same = ap (λ p. changes (known p) ups) c.prev in
      (
        omega (arith, notices, c.notices, same),
        omega (arith, pushes, c.pushes, same),
        prev ∙ ap (λ p. latest p ups) c.prev,
      )
