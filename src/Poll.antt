-- ===== src/Poll.antt =====
-- frontend/src/App.tsx, the poll of /api/metrics: the live figures, the windows of the charts, the
-- offline log, and the notices of a lost and a recovered connection. A tick is what `tick` does once
-- the answer of `api.metrics()` is there, so a list of ticks is the order in which answers come in.
pub mod Start
pub mod Windows
pub mod Connection
pub mod Errors
use cachestack.Base.{
  ℕ, zero, suc, ◌+◌, ◌-◌, ◌*◌, Bool, true, false, ◌&&◌, List, [], ◌∷◌, ◌++◌, Option, none, some,
  length, take, drop, get_elem?, any, if◌then◌else◌, ltb, ◌==◌,
}
use cachestack.Text.{Text, text}
use cachestack.Number.{Number, clamp}
use cachestack.Types.{LogEntry, ServerMetrics, NotifLevel, success, error}
use cachestack.Notifications.{Queue, push}
use cachestack.Mock.{Chance, gen_log_entry, seed_log_entries}

-- `x ?? 0`
abbrev pub or_zero : Option ℕ → ℕ
or_zero none = 0
or_zero (some n) = n

-- `set.add(id)`
unfoldable pub add_id : ℕ → List ℕ → List ℕ
add_id id ids = if any (λ i. i == id) ids then ids else ids ++ (id ∷ [])

-- `[...prev.slice(1), x]`
unfoldable pub slide {ℓ} : {A : Type ℓ} → List A → A → List A
slide prev x = drop 1 prev ++ (x ∷ [])

-- The state that the poll reads and sets. `prev_online` is `prevOnlineRef`, `toast_ids` is
-- `toastNotifIds`.
pub record Live (Float : Type 0) : Type 0 where
  pub live_ops : List Float
  pub live_mem_trend : List Float
  pub ops_per_sec : Float
  pub mem_used : Float
  pub total_keys : ℕ
  pub cpu : Float
  pub throughput : Float
  pub active_conns : ℕ
  pub server_online : Bool
  pub prev_online : Option Bool
  pub toast_ids : List ℕ

pub record Dash (Float : Type 0) : Type 0 where
  pub live : Live Float
  pub logs : List (LogEntry Float)
  pub queue : Queue

-- What one tick draws, and its clock.
pub record Draws (Draw : Type 0) : Type 0 where
  pub ops : Draw
  pub mem : Draw
  pub mem_used : Draw
  pub cpu : Draw
  pub throughput : Draw
  pub log : Chance Draw
  pub clock : Text

abbrev pub lost_text : Text
lost_text = text "Server connection lost — showing cached data."

abbrev pub back_text : Text
back_text = text "Server reconnected — back online."

-- Back online is announced on recovery only, a lost connection on the first miss only.
abbrev pub was_offline : Option Bool → Bool
was_offline (some false) = true
was_offline _ = false

abbrev pub was_not_offline : Option Bool → Bool
was_not_offline (some false) = false
was_not_offline _ = true

-- A push whose id goes into `toastNotifIds`.
abbrev pub announce : Bool → Text → NotifLevel → Text → Queue × List ℕ → Queue × List ℕ
announce false message level clock (q, ids) = (q, ids)
announce true message level clock (q, ids) =
    let (q', id) = push message level 5000 clock q in (q', add_id id ids)

-- A push under a condition, its id unused.
abbrev pub push_if : Bool → Text → NotifLevel → ℕ → Text → Queue → Queue
push_if true message level duration clock q = (push message level duration clock q).0
push_if false message level duration clock q = q

-- A line at the head of the 60 newest; `gen_log_entry` always makes one.
abbrev pub onto_log {ℓ} : {A : Type ℓ} → Option A → List A → List A
onto_log none prev = prev
onto_log (some e) prev = take 60 (e ∷ prev)

module _ (N : Number) where
  open N use {
    Float, of_ℕ, lit, add, sub, mul, div, floor, round, max, show_fixed1, to_fixed1, lt, nan, Draw,
    random,
  }

  -- `Math.floor((Math.random() - shift) * amount)`
  unfoldable pub jitter : Draw → Float → Float → Float
  jitter d shift amount = floor (mul (sub (random d) shift) amount)

  -- `prev[prev.length - 1]`
  unfoldable pub last : List Float → Float
  last xs = elim (get_elem? xs (length xs - 1)) [ none ↦ nan | some x ↦ x ]

  unfoldable pub mem_mb : ℕ → Float
  mem_mb bytes = max (of_ℕ 1) (round (div (of_ℕ bytes) (of_ℕ (1024 * 1024))))

  -- The figures after an answer.
  unfoldable pub online_figures : ServerMetrics → Draws Draw → Live Float → Live Float
  unfolding slide jitter mem_mb
  online_figures m d v =
      let ops = of_ℕ (or_zero m.ops_per_sec) in
      let mb = mem_mb m.mem_bytes in
      record v {
        prev_online = some true;
        server_online = true;
        ops_per_sec = to_fixed1 (div ops (of_ℕ 1000));
        mem_used = mb;
        total_keys = or_zero m.key_count;
        active_conns = or_zero m.active_conns;
        live_ops = slide v.live_ops ops;
        live_mem_trend = slide v.live_mem_trend mb;
        cpu = clamp N (of_ℕ 5) (of_ℕ 95) (add v.cpu (jitter d.cpu (lit 48 100) (of_ℕ 3)));
        throughput = to_fixed1 (div ops (of_ℕ 5000));
      }

  -- The figures after a miss: they drift.
  unfoldable pub offline_figures : Draws Draw → Live Float → Live Float
  unfolding slide jitter last
  offline_figures d v =
      let new_ops = add (of_ℕ 12000) (mul (random d.ops) (of_ℕ 10000)) in
      let drift = mul (sub (random d.mem) (lit 45 100)) (of_ℕ 15) in
      let sway = mul (sub (random d.throughput) (lit 5 10)) (lit 3 10) in
      record v {
        prev_online = some false;
        server_online = false;
        live_ops = slide v.live_ops new_ops;
        ops_per_sec = to_fixed1 (div new_ops (of_ℕ 1000));
        live_mem_trend =
            slide v.live_mem_trend
              (clamp N (of_ℕ 300) (of_ℕ 1900) (add (last v.live_mem_trend) drift));
        mem_used =
            clamp N (of_ℕ 600) (of_ℕ 1950)
              (add v.mem_used (jitter d.mem_used (lit 45 100) (of_ℕ 10)));
        cpu = clamp N (of_ℕ 5) (of_ℕ 95) (add v.cpu (jitter d.cpu (lit 48 100) (of_ℕ 5)));
        throughput = clamp N (lit 5 10) (lit 98 10) (to_fixed1 (add v.throughput sway));
      }

  -- `data.total_errors / data.total_ops`
  abbrev pub err_rate : ServerMetrics → Float
  err_rate m = div (of_ℕ (or_zero m.total_errors)) (of_ℕ m.total_ops)

  unfoldable pub failing_text : ServerMetrics → Text
  failing_text m =
      text "High error rate detected: "
      ++ (show_fixed1 (mul (err_rate m) (of_ℕ 100)) ++ text "% of commands failing.")

  -- More than one in twenty commands fails.
  unfoldable pub is_failing : ServerMetrics → Bool
  is_failing m = ltb 0 (or_zero m.total_errors) && ltb 0 m.total_ops && lt (lit 5 100) (err_rate m)

  unfoldable pub warn_errors : ServerMetrics → Text → Queue → Queue
  warn_errors m clock q = push_if (is_failing m) (failing_text m) error 8000 clock q

  -- `[genLogEntry(), ...prev].slice(0, 60)`
  unfoldable pub mock_log : Chance Draw → List (LogEntry Float) → List (LogEntry Float)
  mock_log c prev = onto_log (gen_log_entry N c) prev

  unfoldable pub tick : Option ServerMetrics → Draws Draw → Dash Float → Dash Float
  unfolding online_figures offline_figures mock_log
  tick (some m) d s =
      let (q, ids) =
        announce (was_offline s.live.prev_online) back_text success d.clock
          (s.queue, s.live.toast_ids) in
      record s {
        live = record (online_figures m d s.live) { toast_ids = ids };
        queue = warn_errors m d.clock q;
      }
  tick none d s =
      let (q, ids) =
        announce (was_not_offline s.live.prev_online) lost_text error d.clock
          (s.queue, s.live.toast_ids) in
      record s {
        live = record (offline_figures d s.live) { toast_ids = ids };
        logs = mock_log d.log s.logs;
        queue = q;
      }

  -- The answers of a run of polls, in the order in which they come in.
  unfoldable pub run_ticks : List (Option ServerMetrics × Draws Draw) → Dash Float → Dash Float
  run_ticks [] s = s
  run_ticks ((answer, d) ∷ more) s = run_ticks more (tick answer d s)
