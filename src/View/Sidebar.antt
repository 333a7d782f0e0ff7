-- ===== src/View/Sidebar.antt =====
-- frontend/src/components/Sidebar.tsx.
use cachestack.Base.{ℕ, [], ◌∷◌, ◌++◌, if◌then◌else◌}
use cachestack.Text.{Text, text}
use cachestack.Text.Decimal.{show_ℕ}
use cachestack.Types.{PageId, dashboard, keys, metrics, logs, pubsub}
use cachestack.Region.{RegionInfo, instance_text, footer_text}
use cachestack.Shell.{NavItem, nav_items, same_page}
use cachestack.View.{
  fixed, Node, nothing, words, element, ◌<>◌, style, attr, class, class_name, named, key, on_click,
  on_mouse_enter, on_mouse_leave, say, div, span, each,
}
use cachestack.View.Icon.{icon_of}

abbrev pub github_url : Text
github_url = text "https://github.com/anshulyadavv/cachestack"

-- `key={item.id}`: the page's name in the source.
abbrev pub page_name : PageId → Text
page_name dashboard = text "dashboard"
page_name keys = text "keys"
page_name metrics = text "metrics"
page_name logs = text "logs"
page_name pubsub = text "pubsub"

module _ {A : Type 0} where
  unfoldable pub nav_entry : PageId → (on_navigate : PageId → A) → NavItem → Node A
  unfolding same_page
  nav_entry page on_navigate item =
      div
        (key (page_name item.id)
          ∷ class_name (text "nav-item" ++ (if same_page page item.id then text " active" else []))
          ∷ on_click (on_navigate item.id ∷ [])
          ∷ [])
        (icon_of item.icon [] <> words item.label)

  -- The link to the repository, with its cat and its star.
  unfoldable pub github_link : Node A
  github_link =
      element (text "a")
        (named (text "href") github_url
          ∷ attr "target" "_blank"
          ∷ attr "rel" "noopener noreferrer"
          ∷ style (
              fixed "display" "flex"
              ∷ fixed "alignItems" "center"
              ∷ fixed "gap" "8"
              ∷ fixed "margin" "8px 12px"
              ∷ fixed "padding" "7px 12px"
              ∷ fixed "background" "rgba(255,255,255,0.03)"
              ∷ fixed "border" "1px solid var(--border)"
              ∷ fixed "borderRadius" "6"
              ∷ fixed "textDecoration" "none"
              ∷ fixed "color" "var(--text2)"
              ∷ fixed "fontSize" "12"
              ∷ fixed "transition" "all 0.15s"
              ∷ fixed "cursor" "pointer"
              ∷ [])
          ∷ on_mouse_enter (
              fixed "borderColor" "var(--border2)"
              ∷ fixed "color" "var(--text)"
              ∷ fixed "background" "rgba(255,255,255,0.06)"
              ∷ [])
          ∷ on_mouse_leave (
              fixed "borderColor" "var(--border)"
              ∷ fixed "color" "var(--text2)"
              ∷ fixed "background" "rgba(255,255,255,0.03)"
              ∷ [])
          ∷ [])
        (element (text "svg")
            (attr "width" "14"
              ∷ attr "height" "14"
              ∷ attr "viewBox" "0 0 24 24"
              ∷ attr "fill" "currentColor"
              ∷ [])
            (element (text "path")
              (attr "d"
                  "M12 0C5.37 0 0 5.37 0 12c0 5.31 3.435 9.795 8.205 11.385.6.105.825-.255.825-.57 0-.285-.015-1.23-.015-2.235-3.015.555-3.795-.735-4.035-1.41-.135-.345-.72-1.41-1.23-1.695-.42-.225-1.02-.78-.015-.795.945-.015 1.62.87 1.845 1.23 1.08 1.815 2.805 1.305 3.495.99.105-.78.42-1.305.765-1.605-2.67-.3-5.46-1.335-5.46-5.925 0-1.305.465-2.385 1.23-3.225-.12-.3-.54-1.53.12-3.18 0 0 1.005-.315 3.3 1.23.96-.27 1.98-.405 3-.405s2.04.135 3 .405c2.295-1.56 3.3-1.23 3.3-1.23.66 1.65.24 2.88.12 3.18.765.84 1.23 1.905 1.23 3.225 0 4.605-2.805 5.625-5.475 5.925.435.375.81 1.095.81 2.22 0 1.605-.015 2.895-.015 3.3 0 .315.225.69.825.57A12.02 12.02 0 0 0 24 12c0-6.63-5.37-12-12-12z"
                ∷ [])
              nothing)
          <> span (style (fixed "flex" "1" ∷ []) ∷ []) (say "Star this repo")
          <> element (text "svg")
              (attr "width" "11"
                ∷ attr "height" "11"
                ∷ attr "viewBox" "0 0 24 24"
                ∷ attr "fill" "var(--yellow)"
                ∷ attr "stroke" "var(--yellow)"
                ∷ attr "strokeWidth" "1"
                ∷ [])
              (element (text "polygon")
                (attr "points"
                    "12,2 15.09,8.26 22,9.27 17,14.14 18.18,21.02 12,17.77 5.82,21.02 7,14.14 2,9.27 8.91,8.26"
                  ∷ [])
                nothing))

  -- `year` is `new Date().getFullYear()`.
  unfoldable pub side_footer : (year : ℕ) → RegionInfo → Node A
  unfolding footer_text
  side_footer year region =
      div
        (class "sidebar-footer"
          ∷ style (
              fixed "flexDirection" "column"
              ∷ fixed "gap" "4"
              ∷ fixed "alignItems" "flex-start"
              ∷ [])
          ∷ [])
        (div
            (style
                (fixed "display" "flex" ∷ fixed "width" "100%" ∷ fixed "alignItems" "center" ∷ [])
              ∷ [])
            (span (style (fixed "fontFamily" "var(--mono)" ∷ fixed "fontSize" "10" ∷ []) ∷ [])
                (say "v1.0.0")
              <> span
                  (style (
                      fixed "marginLeft" "auto"
                      ∷ fixed "fontSize" "10"
                      ∷ fixed "color" "var(--text3)"
                      ∷ [])
                    ∷ [])
                  (words (footer_text region)))
          <> div
              (style (
                  fixed "fontSize" "9"
                  ∷ fixed "color" "var(--text3)"
                  ∷ fixed "lineHeight" "1.4"
                  ∷ [])
                ∷ [])
              (say "© " <> words (show_ℕ year) <> say " CACHESTACK. All rights reserved."))

  unfoldable pub sidebar : (year : ℕ) → PageId → RegionInfo → (on_navigate : PageId → A) → Node A
  unfolding nav_entry github_link side_footer instance_text
  sidebar year page region on_navigate = div (class "sidebar" ∷ []) (
      div (class "sidebar-logo" ∷ []) (icon_of (text "db") [] <> say "CACHE STACK")
      <> div (class "sidebar-instance" ∷ []) (
          div (class "inst-name" ∷ [])
            (say "CACHESTACK::instance_01 · " <> words (instance_text region))
          <> div (class "inst-badge" ∷ []) (say "Status: OK"))
      <> element (text "nav") (class "sidebar-nav" ∷ [])
          (each (nav_entry page on_navigate) nav_items)
      <> github_link
      <> side_footer year region)
