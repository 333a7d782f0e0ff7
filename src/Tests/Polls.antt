-- ===== src/Tests/Polls.antt =====
-- Runs of the poll and of the offline generators, over fractions.
use cachestack.Base.{
  ℕ, ◌+◌, ◌*◌, ◌<◌, ◌≡◌, ◌⊎◌, false, List, [], ◌∷◌, Option, none, some, map, length, arith,
}
use cachestack.Text.{Text, text}
use cachestack.Number.Sample.{fractions}
use cachestack.Types.{ServerMetrics, LogEntry}
use cachestack.Notifications.{empty}
use cachestack.Mock.{Chance, seed_log_entries}
use cachestack.Mock.Pools.{seed_log_entries_total}
use cachestack.Poll.{Dash, Draws, or_zero, run_ticks, warn_errors}
use cachestack.Poll.Connection.{is_up, known, changes, latest, failures, run_ticks-changes}
use cachestack.Poll.Errors.{warn_errors_iff}
open fractions use {Float, of_ℕ, lit}

abbrev pub noon : Text
noon = text "12:00:00 GMT+0000"

abbrev pub chance : Chance ℕ
chance = record { first = 7; second = 3; for_id = 5; for_latency = 11; now = 1000; clock = noon }

abbrev pub draws : Draws ℕ
draws = record {
  ops = 100;
  mem = 200;
  mem_used = 300;
  cpu = 400;
  throughput = 500;
  log = chance;
  clock = noon;
}

-- One command in ten failed.
abbrev pub metrics : ServerMetrics
metrics = record {
  ops_per_sec = some 1500;
  total_ops = 100;
  active_conns = some 2;
  total_conns = 5;
  total_errors = some 10;
  uptime = 60;
  key_count = some 12;
  mem_bytes = 1048576;
  channels = [];
}

abbrev pub dash : Dash Float
dash = record {
  live = record {
    live_ops = of_ℕ 14000 ∷ of_ℕ 15000 ∷ [];
    live_mem_trend = of_ℕ 400 ∷ of_ℕ 425 ∷ [];
    ops_per_sec = lit 155 10;
    mem_used = of_ℕ 890;
    total_keys = 0;
    cpu = of_ℕ 32;
    throughput = lit 32 10;
    active_conns = 0;
    server_online = false;
    prev_online = none;
    toast_ids = [];
  };
  logs = [];
  queue = empty;
}

-- Up, down, down, up.
abbrev answers : List (Option ServerMetrics × Draws ℕ)
answers = (some metrics, draws) ∷ (none, draws) ∷ (none, draws) ∷ (some metrics, draws) ∷ []

run_ticks-changes_example :
    (length (run_ticks fractions answers dash).live.toast_ids
      ≡ length dash.live.toast_ids
        + changes (known dash.live.prev_online) (map (λ a. is_up a.0) answers))
    × ((run_ticks fractions answers dash).queue.counter
        ≡ dash.queue.counter
          + changes (known dash.live.prev_online) (map (λ a. is_up a.0) answers)
          + failures fractions (map (λ a. a.0) answers))
    × ((run_ticks fractions answers dash).live.prev_online
        ≡ latest dash.live.prev_online (map (λ a. is_up a.0) answers))
run_ticks-changes_example = run_ticks-changes fractions answers dash (record { given = tt })

-- The run has two notices of the connection, and ends with it up.
two_notices : length (run_ticks fractions answers dash).live.toast_ids ≡ 2
two_notices = (run_ticks-changes fractions answers dash (record { given = tt })).0

warn_errors_iff_example :
    ((0 < metrics.total_ops)
      × (metrics.total_ops < 20 * or_zero metrics.total_errors)
      × ((warn_errors fractions metrics noon empty).counter ≡ empty.counter + 1))
    ⊎ ((¬ ((0 < metrics.total_ops) × (metrics.total_ops < 20 * or_zero metrics.total_errors)))
        × (warn_errors fractions metrics noon empty ≡ empty))
warn_errors_iff_example = warn_errors_iff fractions metrics noon empty (omega arith)

seed_log_entries_total_example :
    (es : List (LogEntry Float)) × (seed_log_entries fractions 12 (λ i. chance) ≡ some es)
    × (length es ≡ 12)
seed_log_entries_total_example = seed_log_entries_total fractions 12 (λ i. chance)
