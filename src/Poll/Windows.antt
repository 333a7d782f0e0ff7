-- ===== src/Poll/Windows.antt =====
-- The charts keep 20 points, the log keeps 60 lines, and the drifting figures keep their ranges.
use cachestack.Base.{
  ℕ, zero, suc, ◌≤◌, ◌<◌, ◌≡◌, refl, ap, ◌∙◌, ◌++◌, List, [], ◌∷◌, Option, none, some, length, drop,
  arith, length-append, length-drop, length-take, false,
}
use cachestack.Number.{Number, Within, clamp-Within}
use cachestack.Types.{ServerMetrics}
use cachestack.Notifications.{empty}
use cachestack.Mock.{Chance, gen_log_entry}
use cachestack.Mock.Pools.{seed_log_entries_total}
use cachestack.Poll.{slide, Dash, Draws, onto_log, tick, run_ticks}
use cachestack.Poll.Start.{initial_ops, initial_trend, start_with, start}

pub length-slide {ℓ} :
    {A : Type ℓ} (xs : List A) (x : A) → 0 < length xs → length (slide xs x) ≡ length xs
unfolding slide
length-slide xs x h = omega (arith, length-append (drop 1 xs) (x ∷ []), length-drop 1 xs)

length-onto_log-le {ℓ} :
    {A : Type ℓ} (o : Option A) (prev : List A) → length prev ≤ 60 → length (onto_log o prev) ≤ 60
length-onto_log-le none prev h = h
length-onto_log-le (some e) prev h = omega (arith, length-take 59 prev)

module _ (N : Number) where
  open N use {Float, of_ℕ, lit, lt, max, min, lit-le, of_ℕ-lit, max-ge_left, Draw}

  whole-le : (a b : ℕ) → a ≤ b → lt (of_ℕ b) (of_ℕ a) ≡ false
  whole-le a b h =
      rw (of_ℕ-lit a, of_ℕ-lit b) (lit-le a 1 b 1 (omega arith) (omega arith) (omega arith))

  pub record IsSteady (s : Dash Float) : Type 0 where
    pub ops_points : length s.live.live_ops ≡ 20
    pub trend_points : length s.live.live_mem_trend ≡ 20
    pub log_lines : length s.logs ≤ 60
    pub cpu_range : Within N (of_ℕ 5) (of_ℕ 95) s.live.cpu

  -- A tick keeps 20 points in each chart, at most 60 log lines and the processor load in [5, 95],
  -- whatever the answer and whatever is drawn.
  pub tick-IsSteady :
      (answer : Option ServerMetrics) (d : Draws Draw) (s : Dash Float)
      → IsSteady s
      → IsSteady (tick N answer d s)
  unfolding tick
  tick-IsSteady (some m) d s v = record {
    ops_points = length-slide s.live.live_ops _ (omega arith) ∙ v.ops_points;
    trend_points = length-slide s.live.live_mem_trend _ (omega arith) ∙ v.trend_points;
    log_lines = v.log_lines;
    cpu_range = clamp-Within N (of_ℕ 5) (of_ℕ 95) _ (whole-le 5 95 (omega arith));
  }
  tick-IsSteady none d s v = record {
    ops_points = length-slide s.live.live_ops _ (omega arith) ∙ v.ops_points;
    trend_points = length-slide s.live.live_mem_trend _ (omega arith) ∙ v.trend_points;
    log_lines = length-onto_log-le (gen_log_entry N d.log) s.logs v.log_lines;
    cpu_range = clamp-Within N (of_ℕ 5) (of_ℕ 95) _ (whole-le 5 95 (omega arith));
  }

  -- The same after every run of polls.
  pub run_ticks-IsSteady :
      (answers : List (Option ServerMetrics × Draws Draw)) (s : Dash Float)
      → IsSteady s
      → IsSteady (run_ticks N answers s)
  unfolding run_ticks
  run_ticks-IsSteady [] s v = v
  run_ticks-IsSteady ((answer, d) ∷ more) s v =
      run_ticks-IsSteady more (tick N answer d s) (tick-IsSteady answer d s v)

  -- After a miss every drifting figure is in its range: memory in [600, 1950], processor in [5, 95],
  -- throughput in [0.5, 9.8], and the newest point of the memory chart in [300, 1900].
  pub tick_miss-Within :
      (d : Draws Draw) (s : Dash Float)
      → Within N (of_ℕ 600) (of_ℕ 1950) (tick N none d s).live.mem_used
        × Within N (of_ℕ 5) (of_ℕ 95) (tick N none d s).live.cpu
        × Within N (lit 5 10) (lit 98 10) (tick N none d s).live.throughput
        × ((x : Float) × (rest : List Float) × ((tick N none d s).live.live_mem_trend
              ≡ rest ++ (x ∷ []))
            × Within N (of_ℕ 300) (of_ℕ 1900) x)
  unfolding tick slide
  tick_miss-Within d s = (
    clamp-Within N (of_ℕ 600) (of_ℕ 1950) _ (whole-le 600 1950 (omega arith)),
    clamp-Within N (of_ℕ 5) (of_ℕ 95) _ (whole-le 5 95 (omega arith)),
    clamp-Within N (lit 5 10) (lit 98 10) _
        (lit-le 5 10 98 10 (omega arith) (omega arith) (omega arith)),
    (
      _,
      drop 1 s.live.live_mem_trend,
      refl,
      clamp-Within N (of_ℕ 300) (of_ℕ 1900) _ (whole-le 300 1900 (omega arith)),
    ),
  )

  length-initial_ops : (n : ℕ) (ds : ℕ → Draw) → length (initial_ops N n ds) ≡ n
  unfolding initial_ops
  length-initial_ops zero ds = refl
  length-initial_ops (suc n) ds = ap suc (length-initial_ops n (λ i. ds (suc i)))

  length-initial_trend : (n i : ℕ) (ds : ℕ → Draw) → length (initial_trend N n i ds) ≡ n
  unfolding initial_trend
  length-initial_trend zero i ds = refl
  length-initial_trend (suc n) i ds = ap suc (length-initial_trend n (suc i) (λ i. ds (suc i)))

  pub start_total :
      (ops trend : ℕ → Draw) (cs : ℕ → Chance Draw)
      → (s : Dash Float) × (start N ops trend cs ≡ some s) × IsSteady s × (s.queue ≡ empty)
  unfolding start
  start_total ops trend cs =
      let (es, made, len) = seed_log_entries_total N 12 cs in
      (
        _,
        ap (λ o. start_with N ops trend o) made,
        record {
          ops_points = length-initial_ops 20 ops;
          trend_points = length-initial_trend 20 0 trend;
          log_lines = omega (arith, len);
          cpu_range = (whole-le 5 32 (omega arith), whole-le 32 95 (omega arith));
        },
        refl,
      )

  -- The page opens, whatever is drawn, and after every run of polls each chart has 20 points, the log
  -- at most 60 lines, and the processor load lies in [5, 95].
  pub start-run_ticks-IsSteady :
      (ops trend : ℕ → Draw) (cs : ℕ → Chance Draw)
      (answers : List (Option ServerMetrics × Draws Draw))
      → (s : Dash Float) × (start N ops trend cs ≡ some s) × IsSteady (run_ticks N answers s)
  start-run_ticks-IsSteady ops trend cs answers =
      let (s, e, v, _) = start_total ops trend cs in (s, e, run_ticks-IsSteady answers s v)
