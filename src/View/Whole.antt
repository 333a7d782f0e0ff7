-- ===== src/View/Whole.antt =====
-- frontend/src/App.tsx, what it returns: the page with the handlers that App hands down.
pub mod Asks
pub mod Meant
pub mod Texts
pub mod Distinct
use cachestack.Base.{ℕ, Bool, List, [], ◌∷◌, Option, none, some, take}
use cachestack.Text.{Text, text, Unicode}
use cachestack.Number.{Number}
use cachestack.Types.{PageId, dashboard, keys, metrics, logs, pubsub, KeyEntry}
use cachestack.Client.{Answer, ExecResult}
use cachestack.Explorer.Page as ExplorerPage
use cachestack.Shell.{page_title}
use cachestack.App.{
  App, Event, clicked_page, searched, toggled, dismissed, cleared, cmd_typed, exec_came,
  channel_typed, channel_entered, channel_joined, channel_left, delete_came, save_came,
}
use cachestack.View.{Node, nothing, element, ◌<>◌, flag, attr, class, div}
use cachestack.View.Panel.{strip}
use cachestack.View.Sidebar.{sidebar}
use cachestack.View.Topbar.{topbar}
use cachestack.View.Logs.{logs_page}
use cachestack.View.Figures.{dashboard_page, metrics_page}
use cachestack.View.Palette.{command_palette}
use cachestack.View.Channels.{pubsub_page}
use cachestack.View.Explorer.{PageEvent, closed, typed_value, explorer_page}
use cachestack.View.Modal.{modal_of}

-- What the handlers of the page ask for: calls of App's functions, and what the explorer sets itself.
pub data Ask : Type 0 where
  go_to : PageId → Ask
  search_for : Text → Ask
  toggle_list : Ask
  dismiss_one : ℕ → Ask
  dismiss_every : Ask
  type_command : Text → Ask
  run_command : Ask
  type_channel : Text → Ask
  enter_channel : Ask
  join_channel : Text → Ask
  leave_channel : Text → Ask
  delete_row : ℕ → Ask
  save_row : ℕ → Text → Ask
  on_page : PageEvent → Ask

-- What the server answers to a request, and the clocks at its end.
pub record Reply : Type 0 where
  pub deleted : Answer ℕ
  pub executed : Answer ExecResult
  pub now : ℕ
  pub clock : Text

-- The event of App that an ask amounts to, once the server has answered `r`; the closures of the
-- handlers hold the keys and the command line of the state that is shown. What the explorer sets itself is no event of App.
unfoldable pub event_of : {Float Draw : Type 0} → Reply → App Float → Ask → Option (Event Draw)
event_of r a (go_to p) = some (clicked_page p)
event_of r a (search_for q) = some (searched q)
event_of r a toggle_list = some toggled
event_of r a (dismiss_one id) = some (dismissed id)
event_of r a dismiss_every = some cleared
event_of r a (type_command v) = some (cmd_typed v)
event_of r a run_command = some (exec_came a.cmd_input r.executed r.now r.clock)
event_of r a (type_channel v) = some (channel_typed v)
event_of r a enter_channel = some channel_entered
event_of r a (join_channel ch) = some (channel_joined ch)
event_of r a (leave_channel ch) = some (channel_left ch)
event_of r a (delete_row id) = some (delete_came a.keys id r.deleted r.clock)
event_of r a (save_row id v) = some (save_came a.keys id v r.executed r.clock)
event_of r a (on_page e) = none

module _ (N : Number) (U : Unicode) where
  open N use {Float}

  -- The whole of KeyExplorerPage, with its modal.
  unfoldable pub explorer_with_modal : (query : Text) → List KeyEntry → ExplorerPage.Page → Node Ask
  explorer_with_modal query rows p = div [] (
      explorer_page U on_page delete_row query rows p
      <> modal_of (on_page closed) delete_row save_row (λ v. on_page (typed_value v)) p.modal)

  -- The page that is shown.
  abbrev pub shown_page : PageId → App Float → ExplorerPage.Page → Node Ask
  shown_page dashboard a p = dashboard_page N U a.live a.logs
  shown_page keys a p = explorer_with_modal a.shell.search_query a.keys p
  shown_page metrics a p = metrics_page N a.live
  shown_page logs a p = logs_page N U a.logs
  shown_page pubsub a p = pubsub_page N a.feed type_channel enter_channel join_channel leave_channel

  -- `year` is that of the clock; `p` is the state of the explorer while its page is shown.
  unfoldable pub app_view : (year : ℕ) → App Float → ExplorerPage.Page → Node Ask
  app_view year a p = div (attr "id" "root" ∷ flag (text "data-notif-panel") Bool.true ∷ []) (
      sidebar year a.shell.page a.region go_to
      <> div (class "main" ∷ []) (
          topbar (page_title a.shell.page) a.live.server_online a.shell.search_query search_for
            a.queue.notifications a.shell.notif_open toggle_list dismiss_one dismiss_every
          <> div (class "content" ∷ []) (
              shown_page a.shell.page a p
              <> command_palette a.cmd_input a.cmd_result a.live.server_online type_command
                  run_command))
      <> strip (take 3 a.queue.notifications) dismiss_one)
