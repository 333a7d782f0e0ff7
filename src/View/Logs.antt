-- ===== src/View/Logs.antt =====
-- frontend/src/pages/LogsPage.tsx, and the recent commands of pages/DashboardPage.tsx.
use cachestack.Base.{List, [], ◌∷◌, ◌++◌, take}
use cachestack.Text.{Text, text, Unicode}
use cachestack.Number.{Number}
use cachestack.Types.{LogEntry}
use cachestack.Palette.{or_given}
use cachestack.View.{
  Attr, fixed, styled, found_in, Node, words, ◌<>◌, style, class, class_name, key, say, div, span,
  each,
}

abbrev pub cmd_colors : List (Text × Text)
cmd_colors =
    (text "SET", text "#fbbf24")
    ∷ (text "GET", text "#60a5fa")
    ∷ (text "DEL", text "#f87171")
    ∷ (text "HSET", text "#a78bfa")
    ∷ (text "LPUSH", text "#fb923c")
    ∷ (text "SUBSCRIBE", text "#4ade80")
    ∷ []

module _ (N : Number) (U : Unicode) {A : Type 0} where
  open N use {Float, show}
  open U use {to_lower}

  -- A line of the log; `more` is what else stands on its command.
  abbrev pub log_line : List (Attr A) → LogEntry Float → Node A
  log_line more log = div (key (show log.id) ∷ class "log-entry" ∷ []) (
      span (class "log-ts" ∷ []) (words log.ts)
      <> span (class_name (text "log-cmd " ++ to_lower log.cmd) ∷ more) (words log.cmd)
      <> span (class "log-key" ∷ []) (words log.key)
      <> span (class "log-latency" ∷ []) (words log.latency <> say "ms"))

  unfoldable pub command_color : LogEntry Float → Attr A
  command_color log =
      style (styled "color" (or_given (found_in log.cmd cmd_colors) (text "var(--text2)")) ∷ [])

  unfoldable pub logs_page : List (LogEntry Float) → Node A
  unfolding command_color
  logs_page logs = div (class "card" ∷ []) (
      div (class "card-header" ∷ []) (
        div (class "card-label" ∷ []) (say "Command History")
        <> div (class "live-badge" ∷ []) (say "LIVE"))
      <> div (style (fixed "maxHeight" "520" ∷ fixed "overflowY" "auto" ∷ []) ∷ [])
          (each (λ log. log_line (command_color log ∷ []) log) logs))

  -- `logs.slice(0, 6)` on the dashboard.
  unfoldable pub recent_commands : List (LogEntry Float) → Node A
  recent_commands logs =
      div (class "section-title" ∷ []) (say "Recent Commands")
      <> div (class "card" ∷ []) (each (log_line []) (take 6 logs))
