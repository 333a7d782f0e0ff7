-- ===== src/View/Whole/Texts.antt =====
-- What the page shows of the state.
use mathlib.Core.List.{append-nil}
use cachestack.Base.{ℕ, ◌≡◌, [], ◌∷◌, map, take}
use cachestack.Text.{text, Unicode}
use cachestack.Number.{Number}
use cachestack.Types.{dashboard, keys, logs, pubsub}
use cachestack.Explorer.Page as ExplorerPage
use cachestack.Explorer.Page.{shown_rows}
use cachestack.Shell.{page_title}
use cachestack.App.{App}
use cachestack.View.{of_class}
use cachestack.View.Sidebar.{sidebar}
use cachestack.View.Explorer.{closed, typed_value}
use cachestack.View.Shown.{
  active-sidebar, keys-logs_page, keys-dashboard_page, bodies-pubsub_page, names-explorer_page,
  names-modal_of,
}
use cachestack.View.Whole.{
  Ask, go_to, type_channel, enter_channel, join_channel, leave_channel, delete_row, save_row,
  on_page, explorer_with_modal, shown_page,
}

module _ (N : Number) (U : Unicode) where
  open N use {Float}

  names-explorer_with_modal :
      (a : App Float) (p : ExplorerPage.Page)
      → of_class (text "key-name") (explorer_with_modal N U a.shell.search_query a.keys p)
        ≡ map (λ k. k.key) (shown_rows U a.shell.search_query a.keys p)
  unfolding of_class explorer_with_modal
  names-explorer_with_modal a p =
      rw
        (
          names-explorer_page U on_page delete_row a.shell.search_query a.keys p,
          names-modal_of (on_page closed) delete_row save_row (λ v. on_page (typed_value v))
              p.modal,
        )
        (append-nil _)

  -- In the side bar one entry is marked as active, the one with the title of the page. The names in
  -- the table are the keys of the rows that pass the search and the filter, in their order, whatever
  -- part of them is highlighted. The logs page shows the key of every line of the log, the dashboard
  -- those of the six newest, and the pub/sub page the body of every message kept, each in their order.
  pub shown_texts :
      (year : ℕ) (a : App Float) (p : ExplorerPage.Page)
      → (of_class (text "nav-item active") (sidebar year a.shell.page a.region go_to)
          ≡ page_title a.shell.page ∷ [])
        × (of_class (text "key-name") (shown_page N U keys a p)
            ≡ map (λ k. k.key) (shown_rows U a.shell.search_query a.keys p))
        × (of_class (text "log-key") (shown_page N U logs a p) ≡ map (λ l. l.key) a.logs)
        × (of_class (text "log-key") (shown_page N U dashboard a p)
            ≡ map (λ l. l.key) (take 6 a.logs))
        × (of_class (text "pubsub-body") (shown_page N U pubsub a p)
            ≡ map (λ m. m.body) a.feed.messages)
  shown_texts year a p = (
    active-sidebar Ask year a.shell.page a.region go_to,
    names-explorer_with_modal a p,
    keys-logs_page N U Ask a.logs,
    keys-dashboard_page N U Ask a.live a.logs,
    bodies-pubsub_page N Ask a.feed type_channel enter_channel join_channel leave_channel,
  )
