-- ===== src/Tests/Whole.antt =====
-- Runs of the dashboard as a whole, and of its charts.
use cachestack.Base.{ℕ, ◌≡◌, refl, [], ◌∷◌, List, Option, none, some, arith}
use cachestack.Text.Sample.{ascii}
use cachestack.Number.Sample.{fractions}
use cachestack.Types.{ServerMetrics}
use cachestack.Poll.{Dash, Draws}
use cachestack.Poll.Start.{initial_ops, initial_trend}
use cachestack.Poll.Windows.{IsSteady}
use cachestack.Client.{answered}
use cachestack.Charts.{open_page, watch}
use cachestack.Charts.Board.{
  open_board, watch_board, IsFollowing, open_board-watch_board-IsFollowing,
}
use cachestack.Charts.Follow.{IsCurrent, open_page-watch-IsCurrent}
use cachestack.App.{
  App, dismissed, delete_came, polled, allowed, opened, open_app, step, Reach, here, next,
}
use cachestack.App.Sound.{IsSound, open_app-IsSound}
use cachestack.Tests.Polls.{noon, chance, draws, metrics, dash}
open fractions use {Float}

open_app-IsSound_example :
    (a : App Float) × (open_app fractions ascii none (λ i. i) (λ i. i) (λ i. chance) ≡ some a)
    × ((b : App Float) → Reach fractions ascii none a b → IsSound fractions ascii none b)
open_app-IsSound_example = open_app-IsSound fractions ascii none (λ i. i) (λ i. i) (λ i. chance)

abbrev before : App Float
before = opened fractions ascii none dash

-- A missed poll, then the toast is dismissed and a key deleted.
abbrev missed : App Float
missed = step fractions ascii none (polled none draws) before

abbrev after : App Float
after =
    step fractions ascii none (delete_came before.keys 2 (answered 200 (some 1)) noon)
      (step fractions ascii none (dismissed 1) missed)

before-after : Reach fractions ascii none before after
unfolding allowed
before-after =
    next (next (next here (polled none draws) refl) (dismissed 1) refl)
      (delete_came before.keys 2 (answered 200 (some 1)) noon) refl

abbrev steady : Dash Float
steady = record dash {
  live = record dash.live {
    live_ops = initial_ops fractions 20 (λ i. i);
    live_mem_trend = initial_trend fractions 20 0 (λ i. i);
  };
}

steady-IsSteady : IsSteady fractions steady
unfolding initial_ops initial_trend
steady-IsSteady = record {
  ops_points = refl;
  trend_points = refl;
  log_lines = omega arith;
  cpu_range = (refl, refl);
}

abbrev polls : List (Option ServerMetrics × (Draws ℕ × (ℕ × ℕ)))
polls = (some metrics, (draws, (1, 2))) ∷ (none, (draws, (3, 4))) ∷ []

open_page-watch-IsCurrent_example :
    IsCurrent fractions
      (watch fractions polls
        (steady, open_page fractions (λ i. i) (λ i. i) (λ i. i) (λ i. i) 5 6 steady)).0
      (watch fractions polls
        (steady, open_page fractions (λ i. i) (λ i. i) (λ i. i) (λ i. i) 5 6 steady)).1
open_page-watch-IsCurrent_example =
    open_page-watch-IsCurrent fractions (λ i. i) (λ i. i) (λ i. i) (λ i. i) 5 6 polls steady
      steady-IsSteady

abbrev board_polls : List (Option ServerMetrics × Draws ℕ)
board_polls = (some metrics, draws) ∷ (none, draws) ∷ []

open_board-watch_board-IsFollowing_example :
    IsFollowing fractions
      (watch_board fractions board_polls (steady, open_board fractions steady)).0
      (watch_board fractions board_polls (steady, open_board fractions steady)).1
open_board-watch_board-IsFollowing_example =
    open_board-watch_board-IsFollowing fractions board_polls steady steady-IsSteady
