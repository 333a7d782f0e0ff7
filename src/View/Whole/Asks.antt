-- ===== src/View/Whole/Asks.antt =====
-- All that the page asks for.
use mathlib.Core.List.{append_assoc}
use cachestack.Base.{ℕ, ◌≡◌, refl, List, [], ◌∷◌, ◌++◌, Option, none, some, map, take}
use cachestack.Text.{Text, Unicode}
use cachestack.Number.{Number}
use cachestack.Types.{PageId, dashboard, keys, metrics, logs, pubsub}
use cachestack.Palette.{quick_cmds}
use cachestack.PubSub.{offered}
use cachestack.Explorer.{active_search}
use cachestack.Explorer.Page as ExplorerPage
use cachestack.Explorer.Page.{Modal, shown_rows}
use cachestack.Shell.{nav_items, toast_strip, page_title}
use cachestack.App.{App}
use cachestack.View.{asked}
use cachestack.View.Palette.{on_enter}
use cachestack.View.Explorer.{typed_search, chose_type, closed, typed_value}
use cachestack.View.Modal.{modal_of}
use cachestack.View.Asked.{gather, clear_asks, list_asks, asked-sidebar, asked-topbar, asked-strip}
use cachestack.View.Asked.Pages.{
  asked-command_palette, modal_asks, asked-view_modal, asked-dashboard_page, asked-metrics_page,
  asked-logs_page, asked-pubsub_page, row_asks, asked-explorer_page,
}
use cachestack.View.Whole.{
  Ask, go_to, search_for, toggle_list, dismiss_one, dismiss_every, type_command, run_command,
  type_channel, enter_channel, join_channel, leave_channel, delete_row, save_row, on_page,
  explorer_with_modal, shown_page, app_view,
}

-- What the parts of the page offer, when `t` is typed or pressed.
module _ (t : Text) where
  abbrev pub open_modal_asks : Option Modal → List Ask
  open_modal_asks none = []
  open_modal_asks (some m) =
      modal_asks t m.is_edit m.inner.loading m.item.id m.inner.val (on_page closed) delete_row
        save_row (λ v. on_page (typed_value v))

  asked-modal_of :
      (o : Option Modal)
      → asked t (modal_of (on_page closed) delete_row save_row (λ v. on_page (typed_value v)) o)
        ≡ open_modal_asks o
  unfolding asked
  asked-modal_of none = refl
  asked-modal_of (some m) =
      asked-view_modal t (on_page closed) delete_row save_row (λ v. on_page (typed_value v)) m

  abbrev pub palette_asks : List Ask
  palette_asks =
      type_command t ∷ (on_enter run_command t ++ (run_command ∷ map type_command quick_cmds))

  module _ {Float : Type 0} (a : App Float) where
    abbrev pub topbar_asks : List Ask
    topbar_asks =
        search_for t
        ∷ (clear_asks t a.shell.search_query (search_for [])
            ++ (toggle_list
                ∷ list_asks t a.shell.notif_open a.queue.notifications dismiss_one dismiss_every))

    abbrev pub page_asks : (U : Unicode) → ExplorerPage.Page → PageId → List Ask
    page_asks U p keys =
        on_page (typed_search t)
        ∷ (clear_asks t (active_search U p.local_search a.shell.search_query)
              (on_page (typed_search []))
            ++ (on_page (chose_type t)
                ∷ (gather (row_asks U on_page delete_row t)
                      (shown_rows U a.shell.search_query a.keys p)
                    ++ open_modal_asks p.modal)))
    page_asks U p pubsub =
        type_channel t
        ∷ (on_enter enter_channel t
            ++ (enter_channel
                ∷ (map leave_channel a.feed.channels ++ map join_channel (offered a.feed))))
    page_asks U p _ = []

    abbrev pub app_asks : (U : Unicode) → ExplorerPage.Page → List Ask
    app_asks U p =
        map (λ item. go_to item.id) nav_items
        ++ (topbar_asks
            ++ (page_asks U p a.shell.page
                ++ (palette_asks
                    ++ map (λ n. dismiss_one n.id) (toast_strip a.queue.notifications))))

module _ (N : Number) (U : Unicode) (t : Text) where
  open N use {Float}

  asked-shown_page :
      (page : PageId) (a : App Float) (p : ExplorerPage.Page)
      → asked t (shown_page N U page a p) ≡ page_asks t a U p page
  unfolding asked explorer_with_modal
  asked-shown_page dashboard a p = asked-dashboard_page N U t a.live a.logs
  asked-shown_page keys a p =
      rw
        (
          asked-explorer_page U on_page delete_row t a.shell.search_query a.keys p,
          asked-modal_of t p.modal,
        )
        (simp append_assoc)
  asked-shown_page metrics a p = asked-metrics_page N U t a.live
  asked-shown_page logs a p = asked-logs_page N U t a.logs
  asked-shown_page pubsub a p =
      asked-pubsub_page N t a.feed type_channel enter_channel join_channel leave_channel

  -- All that the handlers of the page ask for, when `t` is typed or is the key pressed, in the order of the
  -- document: the five pages; the search, its clear button where something is searched, the bell, and
  -- with the list open the dismissal of all and of each; what the shown page offers, which is for the
  -- keys page its search and filter, three buttons for each row shown and the modal's, with Save and the
  -- text area in edit mode once the value is there, and for the pub/sub page its field and a click for
  -- each channel; the command line and its quick commands; and a dismissal for each toast. The other
  -- pages offer nothing.
  pub asked-app_view :
      (year : ℕ) (a : App Float) (p : ExplorerPage.Page)
      → asked t (app_view N U year a p) ≡ app_asks t a U p
  unfolding asked app_view toast_strip
  asked-app_view year a p =
      rw
        (
          asked-sidebar t year a.shell.page a.region go_to,
          asked-topbar t (page_title a.shell.page) a.live.server_online a.shell.search_query
              search_for a.queue.notifications a.shell.notif_open toggle_list dismiss_one
              dismiss_every,
          asked-shown_page a.shell.page a p,
          asked-command_palette t a.cmd_input a.cmd_result a.live.server_online type_command
              run_command,
          asked-strip t (take 3 a.queue.notifications) dismiss_one,
        )
        (simp append_assoc)
