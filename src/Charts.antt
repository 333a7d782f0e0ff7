-- ===== src/Charts.antt =====
-- The charts: frontend/src/hooks/useLineChart.ts and useBarChart.ts, and the data that
-- pages/MetricsPage.tsx hands to them. Of the chart library's object the hooks keep the labels, the data of
-- each dataset, and that it lives until it is destroyed; its drawing is left out.
pub mod Follow
pub mod Settings
pub mod Board
use cachestack.Base.{
  ℕ, zero, suc, ◌*◌, Bool, true, false, List, [], ◌∷◌, Option, none, some, length, if◌then◌else◌,
}
use cachestack.Number.{Number}
use cachestack.Types.{ServerMetrics}
use cachestack.Poll.{Dash, Draws, slide, tick}

-- How many labels there are, all of them empty texts, and the numbers of each dataset.
pub record Chart (Float : Type 0) : Type 0 where
  pub labels : ℕ
  pub datasets : List (List Float)
  pub alive : Bool

module _ {Float : Type 0} where
  -- `datasets[0].data = vals`, and `datasets[1].data` behind it.
  abbrev pub set_first : List Float → List (List Float) → List (List Float)
  set_first vals [] = []
  set_first vals (d ∷ ds) = vals ∷ ds

  abbrev pub set_second : List Float → List (List Float) → List (List Float)
  set_second vals [] = []
  set_second vals (d ∷ ds) = d ∷ set_first vals ds

  -- `chartRef` after the effect that runs once the component is there; without a canvas it does nothing.
  unfoldable pub mount_line :
      (canvas : Bool) → List Float → Option (Chart Float) → Option (Chart Float)
  mount_line canvas initial ref =
      if canvas
      then some (record { labels = length initial; datasets = initial ∷ []; alive = true })
      else ref

  -- The effect's cleanup.
  unfoldable pub unmount : Option (Chart Float) → Option (Chart Float)
  unmount none = none
  unmount (some c) = some (record c { alive = false })

  unfoldable pub update_line : List Float → Option (Chart Float) → Option (Chart Float)
  update_line vals none = none
  update_line vals (some c) = some (record c { datasets = set_first vals c.datasets })

  unfoldable pub update_bar : (d1 d2 : List Float) → Option (Chart Float) → Option (Chart Float)
  update_bar d1 d2 none = none
  update_bar d1 d2 (some c) = some (record c { datasets = set_second d2 (set_first d1 c.datasets) })

-- `barDataRef.current`
pub record Bars (Float : Type 0) : Type 0 where
  pub d1 : List Float
  pub d2 : List Float

module _ (N : Number) where
  open N use {Float, of_ℕ, mul, Draw, random}

  -- `Array(n).fill(0).map(() => Math.random() * scale)`
  unfoldable pub random_bars : (scale n : ℕ) → (ℕ → Draw) → List Float
  random_bars scale zero ds = []
  random_bars scale (suc n) ds =
      mul (random (ds zero)) (of_ℕ scale) ∷ random_bars scale n (λ i. ds (suc i))

  unfoldable pub mount_bar :
      (canvas : Bool) → (ds es : ℕ → Draw) → Option (Chart Float) → Option (Chart Float)
  mount_bar canvas ds es ref =
      if canvas
      then some (record {
        labels = 14;
        datasets = random_bars 100 14 ds ∷ random_bars 50 14 es ∷ [];
        alive = true;
      })
      else ref

  unfoldable pub initial_bars : (ds es : ℕ → Draw) → Bars Float
  initial_bars ds es = record { d1 = random_bars 100 14 ds; d2 = random_bars 60 14 es }

  -- The effect on `[liveOps]`: both windows slide, and the chart is given them.
  unfoldable pub slide_bars : (d e : Draw) → Bars Float → Bars Float
  slide_bars d e b = record {
    d1 = slide b.d1 (mul (random d) (of_ℕ 100));
    d2 = slide b.d2 (mul (random e) (of_ℕ 60));
  }

  -- The metrics page while it is shown: its charts and the data of the bars.
  pub record Page : Type 0 where
    pub ops : Option (Chart Float)
    pub mem : Option (Chart Float)
    pub bar : Option (Chart Float)
    pub bars : Bars Float

  -- What the page's effects do after a render in which the live figures have changed.
  unfoldable pub render : (d e : Draw) → Dash Float → Page → Page
  render d e s p =
      let bars = slide_bars d e p.bars in
      record {
        ops = update_line s.live.live_ops p.ops;
        mem = update_line s.live.live_mem_trend p.mem;
        bar = update_bar bars.d1 bars.d2 p.bar;
        bars = bars;
      }

  -- The page when it comes to be shown, its canvases there: the hooks' effects, then its own.
  unfoldable pub open_page : (bar1 bar2 ref1 ref2 : ℕ → Draw) → (d e : Draw) → Dash Float → Page
  open_page bar1 bar2 ref1 ref2 d e s = render d e s (record {
    ops = mount_line true s.live.live_ops none;
    mem = mount_line true s.live.live_mem_trend none;
    bar = mount_bar true bar1 bar2 none;
    bars = initial_bars ref1 ref2;
  })

  -- A run of polls while the page is shown: each changes the figures, and the page renders.
  unfoldable pub watch :
      List (Option ServerMetrics × (Draws Draw × (Draw × Draw)))
      → Dash Float × Page
      → Dash Float × Page
  watch [] (s, p) = (s, p)
  watch ((answer, (ds, (d, e))) ∷ more) (s, p) =
      let t = tick N answer ds s in watch more (t, render d e t p)
