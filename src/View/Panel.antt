-- ===== src/View/Panel.antt =====
-- frontend/src/components/NotificationPanel.tsx and ToastStrip.tsx: the bell with its list, and the toasts.
use cachestack.Base.{ℕ, Bool, List, [], ◌∷◌, ◌++◌, Option, none, some, take, length, ltb}
use cachestack.Text.{Text, text}
use cachestack.Text.Decimal.{show_ℕ}
use cachestack.Types.{NotifLevel, info, success, warning, error, Notification}
use cachestack.Shell.{Accent, blue, green, yellow, red, level_color, bell_badge, panel_heading}
use cachestack.View.{
  fixed, styled, Node, nothing, words, element, ◌<>◌, style, attr, class, key, on_click, say, div,
  span, when, each,
}

-- The colours as the styles name them.
abbrev pub accent_text : Accent → Text
accent_text blue = text "var(--blue)"
accent_text green = text "var(--accent)"
accent_text yellow = text "var(--yellow)"
accent_text red = text "var(--red)"

-- `bg`, `border` and `icon` of `LEVEL_STYLE`.
abbrev pub level_bg : NotifLevel → Text
level_bg info = text "rgba(96,165,250,0.08)"
level_bg success = text "rgba(74,222,128,0.08)"
level_bg warning = text "rgba(251,191,36,0.08)"
level_bg error = text "rgba(248,113,113,0.08)"

abbrev pub level_border : NotifLevel → Text
level_border info = text "rgba(96,165,250,0.2)"
level_border success = text "rgba(74,222,128,0.2)"
level_border warning = text "rgba(251,191,36,0.2)"
level_border error = text "rgba(248,113,113,0.2)"

abbrev pub level_icon : NotifLevel → Text
level_icon info = text "ℹ"
level_icon success = text "✓"
level_icon warning = text "⚠"
level_icon error = text "✕"

module _ {A : Type 0} where
  abbrev pub badge_dot : Option Accent → Node A
  badge_dot none = nothing
  badge_dot (some c) =
      span
        (style (
            fixed "position" "absolute"
            ∷ fixed "top" "5"
            ∷ fixed "right" "5"
            ∷ fixed "width" "7"
            ∷ fixed "height" "7"
            ∷ fixed "borderRadius" "50%"
            ∷ styled "background" (accent_text c)
            ∷ fixed "border" "1px solid var(--bg1)"
            ∷ fixed "fontSize" "0"
            ∷ [])
          ∷ [])
        nothing

  unfoldable pub bell : List Notification → (on_toggle : A) → Node A
  unfolding bell_badge
  bell ns on_toggle =
      div
        (class "topbar-btn"
          ∷ on_click (on_toggle ∷ [])
          ∷ style (fixed "cursor" "pointer" ∷ [])
          ∷ attr "title" "Notifications"
          ∷ [])
        (element (text "svg")
            (attr "width" "14"
              ∷ attr "height" "14"
              ∷ attr "fill" "none"
              ∷ attr "stroke" "currentColor"
              ∷ attr "strokeWidth" "1.5"
              ∷ attr "viewBox" "0 0 24 24"
              ∷ [])
            (element (text "path") (attr "d" "M18 8A6 6 0 0 0 6 8c0 7-3 9-3 9h18s-3-2-3-9" ∷ [])
                nothing
              <> element (text "path") (attr "d" "M13.73 21a2 2 0 0 1-3.46 0" ∷ []) nothing)
          <> badge_dot (bell_badge ns))

  -- A notification in the list.
  unfoldable pub notice : (on_dismiss : ℕ → A) → Notification → Node A
  notice on_dismiss n =
      div
        (key (show_ℕ n.id)
          ∷ style (
              fixed "display" "flex"
              ∷ fixed "alignItems" "flex-start"
              ∷ fixed "gap" "10"
              ∷ fixed "padding" "10px 14px"
              ∷ fixed "borderBottom" "1px solid var(--border)"
              ∷ styled "background" (level_bg n.level)
              ∷ [])
          ∷ [])
        (span
            (style (
                fixed "fontSize" "12"
                ∷ styled "color" (accent_text (level_color n.level))
                ∷ fixed "marginTop" "1"
                ∷ fixed "minWidth" "14"
                ∷ fixed "textAlign" "center"
                ∷ [])
              ∷ [])
            (words (level_icon n.level))
          <> div (style (fixed "flex" "1" ∷ []) ∷ []) (
              div
                (style (
                    fixed "fontSize" "12"
                    ∷ fixed "color" "var(--text)"
                    ∷ fixed "lineHeight" "1.4"
                    ∷ [])
                  ∷ [])
                (words n.message)
              <> div
                  (style (
                      fixed "fontSize" "10"
                      ∷ fixed "color" "var(--text3)"
                      ∷ fixed "marginTop" "3"
                      ∷ fixed "fontFamily" "var(--mono)"
                      ∷ [])
                    ∷ [])
                  (words n.ts))
          <> span
              (on_click (on_dismiss n.id ∷ [])
                ∷ style (
                    fixed "color" "var(--text3)"
                    ∷ fixed "cursor" "pointer"
                    ∷ fixed "fontSize" "14"
                    ∷ fixed "lineHeight" "1"
                    ∷ fixed "padding" "0 2px"
                    ∷ [])
                ∷ [])
              (say "×"))

  -- The list, or the text that stands for an empty one.
  abbrev pub notices : (on_dismiss : ℕ → A) → List Notification → Node A
  notices on_dismiss [] =
      div
        (style (
            fixed "padding" "24px 14px"
            ∷ fixed "textAlign" "center"
            ∷ fixed "color" "var(--text3)"
            ∷ fixed "fontSize" "12"
            ∷ [])
          ∷ [])
        (say "No notifications")
  notices on_dismiss (n ∷ ns) = each (notice on_dismiss) (n ∷ ns)

  unfoldable pub dropdown : List Notification → (on_dismiss : ℕ → A) (on_dismiss_all : A) → Node A
  unfolding panel_heading
  dropdown ns on_dismiss on_dismiss_all =
      div
        (style (
            fixed "position" "absolute"
            ∷ fixed "top" "38"
            ∷ fixed "right" "0"
            ∷ fixed "width" "320"
            ∷ fixed "maxHeight" "400"
            ∷ fixed "background" "var(--bg1)"
            ∷ fixed "border" "1px solid var(--border2)"
            ∷ fixed "borderRadius" "8"
            ∷ fixed "zIndex" "200"
            ∷ fixed "overflow" "hidden"
            ∷ fixed "display" "flex"
            ∷ fixed "flexDirection" "column"
            ∷ fixed "boxShadow" "0 8px 32px rgba(0,0,0,0.4)"
            ∷ [])
          ∷ [])
        (div
            (style (
                fixed "display" "flex"
                ∷ fixed "alignItems" "center"
                ∷ fixed "justifyContent" "space-between"
                ∷ fixed "padding" "10px 14px"
                ∷ fixed "borderBottom" "1px solid var(--border)"
                ∷ [])
              ∷ [])
            (span
                (style (
                    fixed "fontSize" "11"
                    ∷ fixed "fontWeight" "600"
                    ∷ fixed "letterSpacing" "0.06em"
                    ∷ fixed "textTransform" "uppercase"
                    ∷ fixed "color" "var(--text3)"
                    ∷ [])
                  ∷ [])
                (words (panel_heading ns))
              <> when (ltb 0 (length ns)) (
                  span
                    (on_click (on_dismiss_all ∷ [])
                      ∷ style (
                          fixed "fontSize" "10"
                          ∷ fixed "color" "var(--text3)"
                          ∷ fixed "cursor" "pointer"
                          ∷ fixed "padding" "2px 6px"
                          ∷ fixed "borderRadius" "3"
                          ∷ fixed "border" "1px solid var(--border)"
                          ∷ [])
                      ∷ [])
                    (say "Clear all")))
          <> div (style (fixed "overflowY" "auto" ∷ fixed "flex" "1" ∷ []) ∷ [])
              (notices on_dismiss ns))

  -- The component, for the list whose length is the count of unread ones.
  unfoldable pub notification_panel :
      List Notification
      → (open_now : Bool) → (on_toggle : A) (on_dismiss : ℕ → A) (on_dismiss_all : A) → Node A
  notification_panel ns open_now on_toggle on_dismiss on_dismiss_all =
      div (style (fixed "position" "relative" ∷ []) ∷ [])
        (bell ns on_toggle <> when open_now (dropdown ns on_dismiss on_dismiss_all))

  unfoldable pub toast : (on_dismiss : ℕ → A) → Notification → Node A
  toast on_dismiss t =
      div
        (key (show_ℕ t.id)
          ∷ style (
              fixed "display" "flex"
              ∷ fixed "alignItems" "center"
              ∷ fixed "gap" "10"
              ∷ fixed "background" "var(--bg1)"
              ∷ styled "border"
                  (text "1px solid " ++ (accent_text (level_color t.level) ++ text "44"))
              ∷ styled "borderLeft" (text "3px solid " ++ accent_text (level_color t.level))
              ∷ fixed "borderRadius" "6"
              ∷ fixed "padding" "10px 12px"
              ∷ fixed "animation" "slideUp 0.2s ease"
              ∷ fixed "boxShadow" "0 4px 16px rgba(0,0,0,0.4)"
              ∷ [])
          ∷ [])
        (div (style (fixed "flex" "1" ∷ []) ∷ []) (
            div
              (style (
                  fixed "fontSize" "12"
                  ∷ fixed "color" "var(--text)"
                  ∷ fixed "lineHeight" "1.4"
                  ∷ [])
                ∷ [])
              (words t.message)
            <> div
                (style (
                    fixed "fontSize" "10"
                    ∷ fixed "color" "var(--text3)"
                    ∷ fixed "marginTop" "2"
                    ∷ fixed "fontFamily" "var(--mono)"
                    ∷ [])
                  ∷ [])
                (words t.ts))
          <> span
              (on_click (on_dismiss t.id ∷ [])
                ∷ style (
                    fixed "color" "var(--text3)"
                    ∷ fixed "cursor" "pointer"
                    ∷ fixed "fontSize" "16"
                    ∷ fixed "lineHeight" "1"
                    ∷ [])
                ∷ [])
              (say "×"))

  -- The component, for the toasts that App hands it.
  abbrev pub strip : List Notification → (on_dismiss : ℕ → A) → Node A
  strip [] on_dismiss = nothing
  strip (t ∷ ts) on_dismiss =
      div
        (style (
            fixed "position" "fixed"
            ∷ fixed "bottom" "20"
            ∷ fixed "right" "20"
            ∷ fixed "display" "flex"
            ∷ fixed "flexDirection" "column"
            ∷ fixed "gap" "8"
            ∷ fixed "zIndex" "999"
            ∷ fixed "maxWidth" "340"
            ∷ [])
          ∷ [])
        (each (toast on_dismiss) (take 4 (t ∷ ts)))
