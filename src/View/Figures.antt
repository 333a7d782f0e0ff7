-- ===== src/View/Figures.antt =====
-- frontend/src/components/StatCard.tsx, pages/DashboardPage.tsx and pages/MetricsPage.tsx: the figures
-- and the cards around the charts. A chart is drawn on its canvas and is no part of the tree.
use cachestack.Base.{List, [], ◌∷◌, ◌++◌}
use cachestack.Text.{Text, text, Unicode}
use cachestack.Text.Decimal.{show_ℕ}
use cachestack.Number.{Number}
use cachestack.Types.{LogEntry}
use cachestack.Poll.{Live}
use cachestack.Shell.{total_keys_text, cpu_color}
use cachestack.View.{
  fixed, styled, Node, nothing, words, element, ◌<>◌, style, class, ref, say, div, span, when_text,
}
use cachestack.View.Panel.{accent_text}
use cachestack.View.Logs.{recent_commands}
use Prim.Native.String.{String}

module _ {A : Type 0} where
  abbrev pub canvas : String → Node A
  canvas name = element (text "canvas") (ref (text name) ∷ []) nothing

  unfoldable pub stat_card : (label value delta : Text) → Node A
  stat_card label value delta =
      div (class "card" ∷ style (fixed "display" "flex" ∷ fixed "flexDirection" "column" ∷ []) ∷ [])
        (div (class "card-header" ∷ []) (
            div (class "card-header-left" ∷ []) (
              div (class "card-label" ∷ []) (words label)
              <> div (class "card-value" ∷ []) (words value)
              <> when_text delta (div (class "card-delta" ∷ []) (words delta)))
            <> div (class "card-dots" ∷ []) (span [] nothing <> span [] nothing <> span [] nothing))
          <> div (class "card-body" ∷ []) (
              div
                (class "chart-wrap"
                  ∷ style (fixed "height" "80" ∷ fixed "padding" "8px 0 0 0" ∷ [])
                  ∷ [])
                (canvas "canvasRef")))

  -- The card of a line chart, with what stands below its label.
  abbrev pub chart_card : (label height name : String) → Node A → Node A
  chart_card label height name below = div (class "card" ∷ []) (
      div (class "card-header" ∷ []) (
        div (class "card-header-left" ∷ []) (div (class "card-label" ∷ []) (say label) <> below)
        <> div (class "live-badge" ∷ []) (say "LIVE"))
      <> div (class "chart-wrap" ∷ style (fixed "height" height ∷ []) ∷ []) (canvas name))

  -- A figure of the metrics page, and its bar.
  abbrev pub metric_stat :
      (label : String) → Node A → (below : String) → (width background : Text) → Node A
  metric_stat label value below width background = div (class "metric-stat" ∷ []) (
      div (class "metric-stat-label" ∷ []) (say label)
      <> div (class "metric-stat-val" ∷ []) value
      <> div (class "metric-stat-sub" ∷ []) (say below)
      <> div (class "metric-bar" ∷ []) (
          div
            (class "metric-bar-fill"
              ∷ style (styled "width" width ∷ styled "background" background ∷ [])
              ∷ [])
            nothing))

  abbrev pub legend : (background border name : String) → Node A
  legend background border name =
      span
        (style (fixed "display" "flex" ∷ fixed "alignItems" "center" ∷ fixed "gap" "5" ∷ []) ∷ [])
        (span
            (style (
                fixed "width" "8"
                ∷ fixed "height" "8"
                ∷ fixed "borderRadius" "2"
                ∷ fixed "background" background
                ∷ fixed "border" border
                ∷ fixed "display" "inline-block"
                ∷ [])
              ∷ [])
            nothing
          <> say name)

  unfoldable pub bar_card : Node A
  bar_card = div (class "card" ∷ []) (
      div (class "card-header" ∷ []) (
        div (class "card-header-left" ∷ [])
          (div (class "card-label" ∷ []) (say "Read/Write Distribution"))
        <> div
            (style (
                fixed "display" "flex"
                ∷ fixed "gap" "12"
                ∷ fixed "fontSize" "11"
                ∷ fixed "color" "var(--text3)"
                ∷ [])
              ∷ [])
            (legend "#60a5fa55" "1px solid #60a5fa" "Reads"
              <> legend "#4ade8088" "1px solid #4ade80" "Writes"))
      <> div (class "chart-wrap" ∷ style (fixed "height" "140" ∷ []) ∷ []) (canvas "barCanvasRef"))

module _ (N : Number) where
  open N use {Float, of_ℕ, mul, div, min, show, show_fixed1}

  unfoldable pub ops_text : Float → Text
  ops_text ops = show_fixed1 ops ++ text "k"

  -- The width of the bar for the throughput: of 10 GB/s, and no wider than the bar.
  unfoldable pub throughput_width : Float → Text
  throughput_width x = show (min (mul (div x (of_ℕ 10)) (of_ℕ 100)) (of_ℕ 100)) ++ text "%"

module _ (N : Number) {A : Type 0} where
  open N use {Float, show, show_fixed1}

  unfoldable pub metrics_page : Live Float → Node A
  unfolding bar_card throughput_width cpu_color
  metrics_page live = div [] (
      div (class "metrics-grid" ∷ []) (
        metric_stat "CPU Usage" (words (show live.cpu) <> say "%") "Across 3 cores"
          (show live.cpu ++ text "%") (accent_text (cpu_color N live.cpu))
        <> metric_stat "Throughput" (words (show_fixed1 live.throughput) <> say " GB/s")
            "Network I/O" (throughput_width N live.throughput) (text "var(--blue)")
        <> metric_stat "Connected Clients" (words (show_ℕ live.active_conns)) "+3 in last 60s"
            (text "71%") (text "var(--purple)")
        <> metric_stat "P99 Latency" (say "0.41ms") "Within SLA" (text "14%")
            (text "var(--orange)"))
      <> div (class "chart-grid" ∷ []) (
          chart_card "Ops/Sec Live" "140" "opsCanvasRef" nothing
          <> chart_card "Memory Trend" "140" "memCanvasRef" nothing)
      <> bar_card)

module _ (N : Number) (U : Unicode) {A : Type 0} where
  open N use {Float, show}

  unfoldable pub dashboard_page : Live Float → List (LogEntry Float) → Node A
  unfolding stat_card total_keys_text ops_text
  dashboard_page live logs = div [] (
      div (class "stat-grid" ∷ []) (
        stat_card (text "Total Keys") (total_keys_text N live.total_keys) (text "in store")
        <> stat_card (text "Memory Usage") (show live.mem_used ++ text " MB") (text "/ 2.0 GB")
        <> stat_card (text "Ops Per Second") (ops_text N live.ops_per_sec) (text "ops/s"))
      <> div (class "chart-grid" ∷ []) (
          chart_card "Real-Time Ops/Sec" "160" "opsCanvasRef" (
            div
              (style (
                  fixed "fontSize" "11" ∷ fixed "color" "var(--text3)" ∷ fixed "marginTop" "2" ∷ [])
                ∷ [])
              (say "Live-updating from useWebSockets"))
          <> chart_card "Memory Use Trend" "160" "memCanvasRef" nothing)
      <> recent_commands N U logs)
