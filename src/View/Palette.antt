-- ===== src/View/Palette.antt =====
-- frontend/src/components/CommandPalette.tsx.
use cachestack.Base.{Bool, List, [], ◌∷◌, if◌then◌else◌}
use cachestack.Text.{Text, text, text_eq}
use cachestack.Palette.{quick_cmds}
use cachestack.View.{
  fixed, Node, nothing, words, element, ◌<>◌, style, named, class, key, on_click, on_change,
  on_key_down, say, div, span, button, when_text, each,
}

-- `e.key === 'Enter' && action()`
abbrev pub on_enter : {A : Type 0} → A → Text → List A
on_enter action pressed = if text_eq pressed (text "Enter") then action ∷ [] else []

module _ {A : Type 0} where
  unfoldable pub quick_cmd : (on_typed : Text → A) → Text → Node A
  quick_cmd on_typed q =
      span
        (key q
          ∷ style (
              fixed "fontFamily" "var(--mono)"
              ∷ fixed "fontSize" "10"
              ∷ fixed "color" "var(--text3)"
              ∷ fixed "cursor" "pointer"
              ∷ fixed "padding" "2px 6px"
              ∷ fixed "background" "var(--bg2)"
              ∷ fixed "borderRadius" "3"
              ∷ fixed "border" "1px solid var(--border)"
              ∷ [])
          ∷ on_click (on_typed q ∷ [])
          ∷ [])
        (words q)

  unfoldable pub command_palette :
      (value result : Text) (online : Bool) → (on_typed : Text → A) (on_exec : A) → Node A
  command_palette value result online on_typed on_exec =
      div (style (fixed "marginTop" "16" ∷ []) ∷ []) (
        div (class "section-title" ∷ []) (say "Command Palette")
        <> div (class "card" ∷ []) (
            div
              (style (
                  fixed "display" "flex"
                  ∷ fixed "gap" "8"
                  ∷ fixed "padding" "10px 14px"
                  ∷ fixed "borderBottom" "1px solid var(--border)"
                  ∷ [])
                ∷ [])
              (element (text "input")
                  (class "channel-input"
                    ∷ style (
                        fixed "flex" "1"
                        ∷ fixed "fontFamily" "var(--mono)"
                        ∷ fixed "fontSize" "12"
                        ∷ [])
                    ∷ named (text "placeholder") (
                        if online
                        then text "Type a command e.g. SET foo bar | GET foo | DBSIZE"
                        else text "Server offline — commands won't be sent")
                    ∷ named (text "value") value
                    ∷ on_change (λ t. on_typed t ∷ [])
                    ∷ on_key_down (on_enter on_exec)
                    ∷ [])
                  nothing
                <> button (class "subscribe-btn" ∷ on_click (on_exec ∷ []) ∷ []) (say "Execute"))
            <> when_text result (
                div
                  (style (
                      fixed "padding" "8px 14px"
                      ∷ fixed "fontFamily" "var(--mono)"
                      ∷ fixed "fontSize" "12"
                      ∷ fixed "color" "var(--accent)"
                      ∷ fixed "borderBottom" "1px solid var(--border)"
                      ∷ [])
                    ∷ [])
                  (span (style (fixed "color" "var(--text3)" ∷ fixed "marginRight" "8" ∷ []) ∷ [])
                      (say "→")
                    <> words result))
            <> div
                (style (
                    fixed "padding" "6px 14px"
                    ∷ fixed "display" "flex"
                    ∷ fixed "gap" "8"
                    ∷ fixed "flexWrap" "wrap"
                    ∷ [])
                  ∷ [])
                (each (quick_cmd on_typed) quick_cmds)))
