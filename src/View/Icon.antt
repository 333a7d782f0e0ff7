-- ===== src/View/Icon.antt =====
-- frontend/src/components/Icon.tsx: the icons, and the element that shows one by its name.
use cachestack.Base.{List, [], ◌∷◌}
use cachestack.Text.{Text, text}
use cachestack.Palette.{or_given}
use cachestack.View.{Property, fixed, Node, style, inner_html, found_in, nothing, span}

-- `ICONS`
unfoldable pub icons : List (Text × Text)
icons =
    (
      text "dashboard",
      text
          "<svg width=\"14\" height=\"14\" fill=\"none\" stroke=\"currentColor\" stroke-width=\"1.5\" viewBox=\"0 0 24 24\"><rect x=\"3\" y=\"3\" width=\"7\" height=\"7\" rx=\"1\"/><rect x=\"14\" y=\"3\" width=\"7\" height=\"7\" rx=\"1\"/><rect x=\"3\" y=\"14\" width=\"7\" height=\"7\" rx=\"1\"/><rect x=\"14\" y=\"14\" width=\"7\" height=\"7\" rx=\"1\"/></svg>",
    )
    ∷ (
      text "keys",
      text
          "<svg width=\"14\" height=\"14\" fill=\"none\" stroke=\"currentColor\" stroke-width=\"1.5\" viewBox=\"0 0 24 24\"><circle cx=\"8\" cy=\"15\" r=\"5\"/><path d=\"M13 15l8-8M17 7l3 3\"/></svg>",
    )
    ∷ (
      text "metrics",
      text
          "<svg width=\"14\" height=\"14\" fill=\"none\" stroke=\"currentColor\" stroke-width=\"1.5\" viewBox=\"0 0 24 24\"><path d=\"M3 18l4-8 4 5 4-7 4 10\"/></svg>",
    )
    ∷ (
      text "logs",
      text
          "<svg width=\"14\" height=\"14\" fill=\"none\" stroke=\"currentColor\" stroke-width=\"1.5\" viewBox=\"0 0 24 24\"><path d=\"M4 6h16M4 10h16M4 14h10M4 18h8\"/></svg>",
    )
    ∷ (
      text "pubsub",
      text
          "<svg width=\"14\" height=\"14\" fill=\"none\" stroke=\"currentColor\" stroke-width=\"1.5\" viewBox=\"0 0 24 24\"><circle cx=\"12\" cy=\"12\" r=\"3\"/><path d=\"M12 2v4M12 18v4M2 12h4M18 12h4\"/></svg>",
    )
    ∷ (
      text "search",
      text
          "<svg width=\"12\" height=\"12\" fill=\"none\" stroke=\"currentColor\" stroke-width=\"1.5\" viewBox=\"0 0 24 24\"><circle cx=\"11\" cy=\"11\" r=\"7\"/><path d=\"M20 20l-4-4\"/></svg>",
    )
    ∷ (
      text "db",
      text
          "<svg width=\"16\" height=\"16\" fill=\"none\" stroke=\"currentColor\" stroke-width=\"1.5\" viewBox=\"0 0 24 24\"><ellipse cx=\"12\" cy=\"5\" rx=\"9\" ry=\"3\"/><path d=\"M3 5v14c0 1.66 4.03 3 9 3s9-1.34 9-3V5\"/><path d=\"M3 12c0 1.66 4.03 3 9 3s9-1.34 9-3\"/></svg>",
    )
    ∷ (
      text "eye",
      text
          "<svg width=\"12\" height=\"12\" fill=\"none\" stroke=\"currentColor\" stroke-width=\"1.5\" viewBox=\"0 0 24 24\"><path d=\"M1 12s4-8 11-8 11 8 11 8-4 8-11 8-11-8-11-8z\"/><circle cx=\"12\" cy=\"12\" r=\"3\"/></svg>",
    )
    ∷ (
      text "pencil",
      text
          "<svg width=\"12\" height=\"12\" fill=\"none\" stroke=\"currentColor\" stroke-width=\"1.5\" viewBox=\"0 0 24 24\"><path d=\"M11 4H4a2 2 0 0 0-2 2v14a2 2 0 0 0 2 2h14a2 2 0 0 0 2-2v-7\"/><path d=\"M18.5 2.5a2.121 2.121 0 0 1 3 3L12 15l-4 1 1-4 9.5-9.5z\"/></svg>",
    )
    ∷ (
      text "trash",
      text
          "<svg width=\"12\" height=\"12\" fill=\"none\" stroke=\"currentColor\" stroke-width=\"1.5\" viewBox=\"0 0 24 24\"><polyline points=\"3,6 5,6 21,6\"/><path d=\"M19 6l-1 14a2 2 0 0 1-2 2H8a2 2 0 0 1-2-2L5 6\"/><path d=\"M10 11v6M14 11v6M9 6V4h6v2\"/></svg>",
    )
    ∷ (
      text "bell",
      text
          "<svg width=\"14\" height=\"14\" fill=\"none\" stroke=\"currentColor\" stroke-width=\"1.5\" viewBox=\"0 0 24 24\"><path d=\"M18 8A6 6 0 0 0 6 8c0 7-3 9-3 9h18s-3-2-3-9\"/><path d=\"M13.73 21a2 2 0 0 1-3.46 0\"/></svg>",
    )
    ∷ (
      text "user",
      text
          "<svg width=\"14\" height=\"14\" fill=\"none\" stroke=\"currentColor\" stroke-width=\"1.5\" viewBox=\"0 0 24 24\"><path d=\"M20 21v-2a4 4 0 0 0-4-4H8a4 4 0 0 0-4 4v2\"/><circle cx=\"12\" cy=\"7\" r=\"4\"/></svg>",
    )
    ∷ (
      text "chevron",
      text
          "<svg width=\"10\" height=\"10\" fill=\"none\" stroke=\"currentColor\" stroke-width=\"2\" viewBox=\"0 0 24 24\"><polyline points=\"6,9 12,15 18,9\"/></svg>",
    )
    ∷ []

module _ {A : Type 0} where
  -- The component, with the properties of its own style behind: of a name set twice the last counts.
  unfoldable pub icon_of : (name : Text) → List Property → Node A
  icon_of name given =
      span
        (inner_html (or_given (found_in name icons) [])
          ∷ style (fixed "display" "inline-flex" ∷ fixed "alignItems" "center" ∷ given)
          ∷ [])
        nothing
