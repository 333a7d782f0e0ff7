-- ===== src/Charts/Board.antt =====
-- The charts of frontend/src/pages/DashboardPage.tsx: its two lines, and the sparkline of each of the three
-- components/StatCard.tsx that it shows. A card's chart gets `spark` in its effect, the page's charts get
-- theirs in the page's effects, all with the hook of useLineChart.ts.
use cachestack.Base.{◌≡◌, ◌∙◌, refl, true, List, [], ◌∷◌, Option, none, map, length}
use cachestack.Number.{Number}
use cachestack.Types.{ServerMetrics}
use cachestack.Poll.{Dash, Draws, tick}
use cachestack.Poll.Windows.{IsSteady}
use cachestack.Charts.{Chart, mount_line, update_line}
use cachestack.Charts.Follow.{Shows, fresh, update_line-Shows}

module _ {Float : Type 0} where
  -- The hook of one chart and the effect behind it: mounted with the first data, and then given them.
  unfoldable pub open_line : List Float → Option (Chart Float)
  open_line spark = update_line spark (mount_line true spark none)

-- The charts of the page while it is shown.
pub record Board (Float : Type 0) : Type 0 where
  pub ops : Option (Chart Float)
  pub mem : Option (Chart Float)
  pub keys_card : Option (Chart Float)
  pub mem_card : Option (Chart Float)
  pub ops_card : Option (Chart Float)

module _ (N : Number) where
  open N use {Float, lit, mul, Draw}

  -- `liveOps.map(v => v * 0.08)`
  unfoldable pub key_spark : List Float → List Float
  key_spark ops = map (λ v. mul v (lit 8 100)) ops

  unfoldable pub open_board : Dash Float → Board Float
  unfolding open_line
  open_board s = record {
    ops = open_line s.live.live_ops;
    mem = open_line s.live.live_mem_trend;
    keys_card = open_line (key_spark s.live.live_ops);
    mem_card = open_line s.live.live_mem_trend;
    ops_card = open_line s.live.live_ops;
  }

  -- What the effects do after a render in which the live figures have changed.
  unfoldable pub render_board : Dash Float → Board Float → Board Float
  render_board s b = record {
    ops = update_line s.live.live_ops b.ops;
    mem = update_line s.live.live_mem_trend b.mem;
    keys_card = update_line (key_spark s.live.live_ops) b.keys_card;
    mem_card = update_line s.live.live_mem_trend b.mem_card;
    ops_card = update_line s.live.live_ops b.ops_card;
  }

  -- A run of polls while the page is shown.
  unfoldable pub watch_board :
      List (Option ServerMetrics × Draws Draw) → Dash Float × Board Float → Dash Float × Board Float
  watch_board [] (s, b) = (s, b)
  watch_board ((answer, ds) ∷ more) (s, b) =
      let t = tick N answer ds s in watch_board more (t, render_board t b)

  -- Every chart of the page holds the figures of this state, with a label for each point.
  pub record IsFollowing (s : Dash Float) (b : Board Float) : Type 0 where
    pub ops_line : Shows 20 (s.live.live_ops ∷ []) b.ops
    pub mem_line : Shows 20 (s.live.live_mem_trend ∷ []) b.mem
    pub key_card : Shows 20 (map (λ v. mul v (lit 8 100)) s.live.live_ops ∷ []) b.keys_card
    pub memory_card : Shows 20 (s.live.live_mem_trend ∷ []) b.mem_card
    pub rate_card : Shows 20 (s.live.live_ops ∷ []) b.ops_card

  render_board-IsFollowing :
      (s t : Dash Float) (b : Board Float) → IsFollowing s b → IsFollowing t (render_board t b)
  unfolding render_board key_spark
  render_board-IsFollowing s t b v = record {
    ops_line = update_line-Shows 20 s.live.live_ops t.live.live_ops b.ops v.ops_line;
    mem_line = update_line-Shows 20 s.live.live_mem_trend t.live.live_mem_trend b.mem v.mem_line;
    key_card =
        update_line-Shows 20 (key_spark s.live.live_ops) (key_spark t.live.live_ops) b.keys_card
          v.key_card;
    memory_card =
        update_line-Shows 20 s.live.live_mem_trend t.live.live_mem_trend b.mem_card v.memory_card;
    rate_card = update_line-Shows 20 s.live.live_ops t.live.live_ops b.ops_card v.rate_card;
  }

  length-key_spark : (ops : List Float) → length (key_spark ops) ≡ length ops
  unfolding key_spark
  length-key_spark [] = refl
  length-key_spark (x ∷ ops) = rw (length-key_spark ops)

  opened : (vals : List Float) → length vals ≡ 20 → Shows 20 (vals ∷ []) (open_line vals)
  unfolding open_line mount_line
  opened vals e = update_line-Shows 20 vals vals _ (fresh 20 (length vals) (vals ∷ []) e)

  open_board-IsFollowing : (s : Dash Float) → IsSteady N s → IsFollowing s (open_board s)
  unfolding open_board key_spark
  open_board-IsFollowing s v = record {
    ops_line = opened s.live.live_ops v.ops_points;
    mem_line = opened s.live.live_mem_trend v.trend_points;
    key_card = opened (key_spark s.live.live_ops) (length-key_spark s.live.live_ops ∙ v.ops_points);
    memory_card = opened s.live.live_mem_trend v.trend_points;
    rate_card = opened s.live.live_ops v.ops_points;
  }

  watch_board-IsFollowing :
      (answers : List (Option ServerMetrics × Draws Draw)) (s : Dash Float) (b : Board Float)
      → IsFollowing s b
      → IsFollowing (watch_board answers (s, b)).0 (watch_board answers (s, b)).1
  unfolding watch_board
  watch_board-IsFollowing [] s b v = v
  watch_board-IsFollowing ((answer, ds) ∷ more) s b v =
      let t = tick N answer ds s in
      watch_board-IsFollowing more t (render_board t b) (render_board-IsFollowing s t b v)

  -- The dashboard page opened on a steady state, and a run of polls while it is shown: after it, the page's
  -- two charts and the cards of the memory and of the rate hold the live windows of that moment, and the
  -- card of the keys the window of the rate, each number times 0.08; each chart has 20 labels.
  pub open_board-watch_board-IsFollowing :
      (answers : List (Option ServerMetrics × Draws Draw)) (s : Dash Float)
      → IsSteady N s
      → IsFollowing
          (watch_board answers (s, open_board s)).0
          (watch_board answers (s, open_board s)).1
  open_board-watch_board-IsFollowing answers s v =
      watch_board-IsFollowing answers s (open_board s) (open_board-IsFollowing s v)
