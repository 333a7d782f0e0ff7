-- ===== src/Shell.antt =====
-- The page around the components: frontend/src/App.tsx (titles, navigation, the global search, the
-- notification panel) and what components/Sidebar.tsx, Topbar.tsx, NotificationPanel.tsx,
-- ToastStrip.tsx, CommandPalette.tsx and the pages' own tests on their figures show.
pub mod Panel
pub mod Pages
use cachestack.Base.{
  ℕ, Bool, true, false, not, ◌&&◌, List, [], ◌∷◌, ◌++◌, Option, none, some, take, filter, any, map,
  length, if◌then◌else◌, ltb,
}
use cachestack.Text.{Text, text, text_eq, is_empty, trim}
use cachestack.Text.Decimal.{show_ℕ}
use cachestack.Number.{Number}
use cachestack.Types.{
  PageId, dashboard, keys, metrics, logs, pubsub, NotifLevel, info, success, warning, error,
  Notification, LogEntry,
}

abbrev pub page_title : PageId → Text
page_title dashboard = text "Dashboard"
page_title keys = text "Keys"
page_title metrics = text "Metrics"
page_title logs = text "Logs"
page_title pubsub = text "Pub/Sub"

-- An entry of `NAV_ITEMS`.
pub record NavItem : Type 0 where
  pub id : PageId
  pub label : Text
  pub icon : Text

abbrev pub nav_items : List NavItem
nav_items =
    record { id = dashboard; label = text "Dashboard"; icon = text "dashboard" }
    ∷ record { id = keys; label = text "Keys"; icon = text "keys" }
    ∷ record { id = metrics; label = text "Metrics"; icon = text "metrics" }
    ∷ record { id = logs; label = text "Logs"; icon = text "logs" }
    ∷ record { id = pubsub; label = text "Pub/Sub"; icon = text "pubsub" }
    ∷ []

abbrev pub is_keys : PageId → Bool
is_keys keys = true
is_keys _ = false

pub record Shell : Type 0 where
  pub page : PageId
  pub search_query : Text
  pub notif_open : Bool

-- `page === item.id`
unfoldable pub same_page : PageId → PageId → Bool
same_page dashboard dashboard = true
same_page keys keys = true
same_page metrics metrics = true
same_page logs logs = true
same_page pubsub pubsub = true
same_page _ _ = false

-- The entries of the side bar that are marked as active.
unfoldable pub active_items : PageId → List NavItem
active_items page = filter (λ item. same_page page item.id) nav_items

unfoldable pub navigate : PageId → Shell → Shell
navigate p s = record s { page = p }

-- `handleSearchChange(q)`
unfoldable pub search_change : Text → Shell → Shell
search_change q s = record s {
  search_query = q;
  page = if not (is_empty (trim q)) && not (is_keys s.page) then keys else s.page;
}

unfoldable pub toggle_panel : Shell → Shell
toggle_panel s = record s { notif_open = not s.notif_open }

-- An element of the document: whether it has the attribute `data-notif-panel`, and the same of the
-- elements around it, outwards.
abbrev pub Element : Type 0
Element = List Bool

-- `<div id="root" data-notif-panel>`, within the elements of index.html around it.
unfoldable pub app_root : Element → Element
app_root page = true ∷ page

-- An element within another, behind those that lie between.
unfoldable pub within : List Bool → Element → Element
within between outer = between ++ outer

-- `target.closest('[data-notif-panel]')` finds an element.
unfoldable pub closest_panel : Element → Bool
closest_panel = any (λ b. b)

-- The listener for `mousedown`, which is there while the panel is open.
unfoldable pub mouse_down : Element → Shell → Shell
mouse_down target s =
    if s.notif_open && not (closest_panel target) then record s { notif_open = false } else s

pub data Accent : Type 0 where
  blue green yellow red : Accent

-- `COLORS` and the colours of `LEVEL_STYLE`.
abbrev pub level_color : NotifLevel → Accent
level_color info = blue
level_color success = green
level_color warning = yellow
level_color error = red

-- The toasts that float: `notifications.slice(0, 3)`, of which the strip shows four at most.
unfoldable pub toast_strip : List Notification → List Notification
toast_strip ns = take 4 (take 3 ns)

-- The badge of the bell: none without notifications, red for a newest one of level error.
abbrev pub is_error : NotifLevel → Bool
is_error error = true
is_error _ = false

unfoldable pub bell_badge : List Notification → Option Accent
bell_badge [] = none
bell_badge (n ∷ ns) = some (if is_error n.level then red else yellow)

-- The heading of the panel.
unfoldable pub panel_heading : List Notification → Text
panel_heading ns =
    text "Notifications "
    ++ (if ltb 0 (length ns) then text "(" ++ (show_ℕ (length ns) ++ text ")") else [])

unfoldable pub status_text : Bool → Text
status_text online = if online then text "ONLINE :6399" else text "OFFLINE (mock)"

module _ (N : Number) where
  open N use {Float, lt, of_ℕ, div, show_fixed1}

  -- The card of the key count.
  unfoldable pub total_keys_text : ℕ → Text
  total_keys_text n =
      if ltb n 1000 then show_ℕ n else show_fixed1 (div (of_ℕ n) (of_ℕ 1000)) ++ text "K"

  unfoldable pub cpu_color : Float → Accent
  cpu_color cpu = if lt (of_ℕ 80) cpu then red else if lt (of_ℕ 60) cpu then yellow else green
