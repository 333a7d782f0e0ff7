-- ===== src/Poll/Start.antt =====
-- The initial state of App.tsx's poll: 20 points in each chart and 12 seeded log lines.
use cachestack.Base.{ℕ, zero, suc, ◌+◌, ◌*◌, List, [], ◌∷◌, Option, none, some, false}
use cachestack.Number.{Number}
use cachestack.Types.{LogEntry}
use cachestack.Notifications.{empty}
use cachestack.Mock.{Chance, seed_log_entries}
use cachestack.Poll.{Dash}

module _ (N : Number) where
  open N use {Float, of_ℕ, lit, add, mul, Draw, random}

  -- `Array(n).fill(0).map(() => 14000 + Math.random() * 8000)`
  unfoldable pub initial_ops : ℕ → (ℕ → Draw) → List Float
  initial_ops zero ds = []
  initial_ops (suc n) ds =
      add (of_ℕ 14000) (mul (random (ds zero)) (of_ℕ 8000)) ∷ initial_ops n (λ i. ds (suc i))

  -- `Array(n).fill(0).map((_, i) => 400 + i * 25 + Math.random() * 20)`, from the index `i` on.
  unfoldable pub initial_trend : ℕ → ℕ → (ℕ → Draw) → List Float
  initial_trend zero i ds = []
  initial_trend (suc n) i ds =
      add (of_ℕ (400 + i * 25)) (mul (random (ds zero)) (of_ℕ 20))
      ∷ initial_trend n (suc i) (λ i. ds (suc i))

  -- The first state, if the log lines are made.
  abbrev pub start_with :
      (ops trend : ℕ → Draw) → Option (List (LogEntry Float)) → Option (Dash Float)
  start_with ops trend none = none
  start_with ops trend (some entries) = some (record {
    live = record {
      live_ops = initial_ops 20 ops;
      live_mem_trend = initial_trend 20 0 trend;
      ops_per_sec = lit 155 10;
      mem_used = of_ℕ 890;
      total_keys = 0;
      cpu = of_ℕ 32;
      throughput = lit 32 10;
      active_conns = 0;
      server_online = false;
      prev_online = none;
      toast_ids = [];
    };
    logs = entries;
    queue = empty;
  })

  unfoldable pub start : (ops trend : ℕ → Draw) → (ℕ → Chance Draw) → Option (Dash Float)
  start ops trend cs = start_with ops trend (seed_log_entries N 12 cs)
