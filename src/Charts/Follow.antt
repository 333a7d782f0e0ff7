-- ===== src/Charts/Follow.antt =====
-- The charts follow the live figures.
use cachestack.Base.{
  ℕ, zero, suc, ◌≡◌, ◌∙◌, refl, ap, true, List, [], ◌∷◌, Option, some, length, arith,
}
use cachestack.Number.{Number}
use cachestack.Types.{ServerMetrics}
use cachestack.Poll.{Dash, Draws, tick}
use cachestack.Poll.Windows.{IsSteady, length-slide}
use cachestack.Charts.{
  Chart, mount_line, update_line, update_bar, random_bars, mount_bar, initial_bars, set_first,
  set_second, slide_bars, Page, render, open_page, watch,
}

-- A chart that is there, with exactly these numbers, one label for each.
pub record Shows {Float : Type 0} (points : ℕ) (values : List (List Float))
    (ref : Option (Chart Float)) : Type 0 where
  pub chart : Chart Float
  pub there : ref ≡ some chart
  pub labelled : chart.labels ≡ points
  pub drawn : chart.datasets ≡ values
  pub living : chart.alive ≡ true

pub fresh :
    {Float : Type 0} (n m : ℕ) (ds : List (List Float))
    → m ≡ n
    → Shows n ds (some (record { labels = m; datasets = ds; alive = true }))
fresh n m ds e = record { chart = _; there = refl; labelled = e; drawn = refl; living = refl }

pub update_line-Shows :
    {Float : Type 0} (n : ℕ) (old vals : List Float) (ref : Option (Chart Float))
    → Shows n (old ∷ []) ref
    → Shows n (vals ∷ []) (update_line vals ref)
unfolding update_line
update_line-Shows n old vals ref v = record {
  chart = record v.chart { datasets = vals ∷ [] };
  there =
      ap (update_line vals) v.there
      ∙ ap (λ ds. some (record v.chart { datasets = set_first vals ds })) v.drawn;
  labelled = v.labelled;
  drawn = refl;
  living = v.living;
}

update_bar-Shows :
    {Float : Type 0} (n : ℕ) (a b d1 d2 : List Float) (ref : Option (Chart Float))
    → Shows n (a ∷ b ∷ []) ref
    → Shows n (d1 ∷ d2 ∷ []) (update_bar d1 d2 ref)
unfolding update_bar
update_bar-Shows n a b d1 d2 ref v = record {
  chart = record v.chart { datasets = d1 ∷ d2 ∷ [] };
  there =
      ap (update_bar d1 d2) v.there
      ∙ ap (λ ds. some (record v.chart { datasets = set_second d2 (set_first d1 ds) })) v.drawn;
  labelled = v.labelled;
  drawn = refl;
  living = v.living;
}

module _ (N : Number) where
  open N use {Float, Draw}

  length-random_bars : (scale n : ℕ) (ds : ℕ → Draw) → length (random_bars N scale n ds) ≡ n
  unfolding random_bars
  length-random_bars scale zero ds = refl
  length-random_bars scale (suc n) ds = ap suc (length-random_bars scale n (λ i. ds (suc i)))

  -- The page shows the figures: both lines hold the live windows, at 20 labels, and the bars hold their
  -- two windows of 14, at 14 labels.
  pub record IsCurrent (s : Dash Float) (p : Page N) : Type 0 where
    pub ops_line : Shows 20 (s.live.live_ops ∷ []) p.ops
    pub mem_line : Shows 20 (s.live.live_mem_trend ∷ []) p.mem
    pub bar_pair : Shows 14 (p.bars.d1 ∷ p.bars.d2 ∷ []) p.bar
    pub first_bars : length p.bars.d1 ≡ 14
    pub second_bars : length p.bars.d2 ≡ 14

  render-IsCurrent :
      (d e : Draw) (s t : Dash Float) (p : Page N) → IsCurrent s p → IsCurrent t (render N d e t p)
  unfolding render slide_bars
  render-IsCurrent d e s t p v = record {
    ops_line = update_line-Shows 20 s.live.live_ops t.live.live_ops p.ops v.ops_line;
    mem_line = update_line-Shows 20 s.live.live_mem_trend t.live.live_mem_trend p.mem v.mem_line;
    bar_pair = update_bar-Shows 14 p.bars.d1 p.bars.d2 _ _ p.bar v.bar_pair;
    first_bars = length-slide p.bars.d1 _ (omega (arith, v.first_bars)) ∙ v.first_bars;
    second_bars = length-slide p.bars.d2 _ (omega (arith, v.second_bars)) ∙ v.second_bars;
  }

  watch-IsCurrent :
      (answers : List (Option ServerMetrics × (Draws Draw × (Draw × Draw)))) (s : Dash Float)
      (p : Page N)
      → IsCurrent s p
      → IsCurrent (watch N answers (s, p)).0 (watch N answers (s, p)).1
  unfolding watch
  watch-IsCurrent [] s p v = v
  watch-IsCurrent ((answer, (ds, (d, e))) ∷ more) s p v =
      let t = tick N answer ds s in
      watch-IsCurrent more t (render N d e t p) (render-IsCurrent d e s t p v)

  open_page-IsCurrent :
      (bar1 bar2 ref1 ref2 : ℕ → Draw) (d e : Draw) (s : Dash Float)
      → IsSteady N s
      → IsCurrent s (open_page N bar1 bar2 ref1 ref2 d e s)
  unfolding open_page render slide_bars mount_line mount_bar initial_bars
  open_page-IsCurrent bar1 bar2 ref1 ref2 d e s v =
      let b1 = random_bars N 100 14 ref1 in
      let b2 = random_bars N 60 14 ref2 in
      let len1 = length-random_bars 100 14 ref1 in
      let len2 = length-random_bars 60 14 ref2 in
      record {
        ops_line =
            update_line-Shows 20 s.live.live_ops s.live.live_ops _ (fresh 20 _ _ v.ops_points);
        mem_line =
            update_line-Shows 20 s.live.live_mem_trend s.live.live_mem_trend _
              (fresh 20 _ _ v.trend_points);
        bar_pair =
            update_bar-Shows 14 (random_bars N 100 14 bar1) (random_bars N 50 14 bar2) _ _ _
              (fresh 14 14 _ refl);
        first_bars = length-slide b1 _ (omega (arith, len1)) ∙ len1;
        second_bars = length-slide b2 _ (omega (arith, len2)) ∙ len2;
      }

  -- The metrics page opened on a steady state, and a run of polls while it is shown: after it, both
  -- line charts hold exactly the live windows of that moment, one label for each of the 20 points, and
  -- the bar chart holds the page's two windows, which keep 14 bars, at 14 labels.
  pub open_page-watch-IsCurrent :
      (bar1 bar2 ref1 ref2 : ℕ → Draw) (d e : Draw)
      (answers : List (Option ServerMetrics × (Draws Draw × (Draw × Draw)))) (s : Dash Float)
      → IsSteady N s
      → IsCurrent
          (watch N answers (s, open_page N bar1 bar2 ref1 ref2 d e s)).0
          (watch N answers (s, open_page N bar1 bar2 ref1 ref2 d e s)).1
  open_page-watch-IsCurrent bar1 bar2 ref1 ref2 d e answers s v =
      watch-IsCurrent answers s (open_page N bar1 bar2 ref1 ref2 d e s)
        (open_page-IsCurrent bar1 bar2 ref1 ref2 d e s v)
