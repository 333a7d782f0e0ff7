-- ===== src/View/Topbar.antt =====
-- frontend/src/components/Topbar.tsx.
use cachestack.Base.{ℕ, Bool, List, [], ◌∷◌, ◌++◌, if◌then◌else◌}
use cachestack.Text.{Text, text}
use cachestack.Types.{Notification}
use cachestack.Shell.{status_text}
use cachestack.View.{
  fixed, styled, Node, nothing, words, element, ◌<>◌, style, attr, named, class, on_click,
  on_change, say, div, span, when_text,
}
use cachestack.View.Icon.{icon_of}
use cachestack.View.Panel.{notification_panel}

module _ {A : Type 0} where
  unfoldable pub status_badge : Bool → Node A
  unfolding status_text
  status_badge online =
      div
        (style (
            fixed "display" "flex"
            ∷ fixed "alignItems" "center"
            ∷ fixed "gap" "5"
            ∷ fixed "fontSize" "10"
            ∷ fixed "fontFamily" "var(--mono)"
            ∷ fixed "padding" "3px 9px"
            ∷ fixed "borderRadius" "4"
            ∷ fixed "whiteSpace" "nowrap"
            ∷ styled "background"
                (if online then text "rgba(74,222,128,0.1)" else text "rgba(248,113,113,0.1)")
            ∷ styled "border" (
                text "1px solid "
                ++ (if online then text "rgba(74,222,128,0.25)" else text "rgba(248,113,113,0.25)"))
            ∷ styled "color" (if online then text "var(--accent)" else text "var(--red)")
            ∷ [])
          ∷ [])
        (span
            (style (
                fixed "width" "5"
                ∷ fixed "height" "5"
                ∷ fixed "borderRadius" "50%"
                ∷ styled "background" (if online then text "var(--accent)" else text "var(--red)")
                ∷ fixed "display" "inline-block"
                ∷ styled "animation" (if online then text "pulse 2s infinite" else text "none")
                ∷ [])
              ∷ [])
            nothing
          <> words (status_text online))

  -- The field of the global search, and the button that empties it.
  unfoldable pub search_field : Text → (on_search_change : Text → A) → Node A
  search_field query on_search_change =
      div (class "topbar-search" ∷ style (fixed "flex" "1" ∷ fixed "maxWidth" "280" ∷ []) ∷ []) (
        icon_of (text "search") (fixed "color" "var(--text3)" ∷ fixed "flexShrink" "0" ∷ [])
        <> element (text "input")
            (attr "type" "text"
              ∷ attr "placeholder" "Search keys, commands…"
              ∷ named (text "value") query
              ∷ on_change (λ t. on_search_change t ∷ [])
              ∷ [])
            nothing
        <> when_text query (
            span
              (on_click (on_search_change [] ∷ [])
                ∷ style (
                    fixed "color" "var(--text3)"
                    ∷ fixed "cursor" "pointer"
                    ∷ fixed "fontSize" "14"
                    ∷ fixed "lineHeight" "1"
                    ∷ [])
                ∷ [])
              (say "×")))

  unfoldable pub topbar :
      (title : Text) (online : Bool) (query : Text)
      → (on_search_change : Text → A) → List Notification
      → (notif_open : Bool) → (on_notif_toggle : A) (on_dismiss : ℕ → A) (on_dismiss_all : A)
      → Node A
  topbar title online query on_search_change ns notif_open on_notif_toggle on_dismiss
        on_dismiss_all =
      div (class "topbar" ∷ []) (
        div (class "topbar-title" ∷ []) (words title)
        <> status_badge online
        <> search_field query on_search_change
        <> notification_panel ns notif_open on_notif_toggle on_dismiss on_dismiss_all
        <> div (class "topbar-user" ∷ [])
            (icon_of (text "user") [] <> say "Admin" <> icon_of (text "chevron") []))
