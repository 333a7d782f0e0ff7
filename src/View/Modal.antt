-- ===== src/View/Modal.antt =====
-- frontend/src/components/ViewModal.tsx, its elements.
use cachestack.Base.{ℕ, [], ◌∷◌, ◌++◌, Option, none, some, if◌then◌else◌}
use cachestack.Text.{Text, text}
use cachestack.Types.{type_name}
use cachestack.Explorer.Page.{Modal}
use cachestack.View.{
  fixed, styled, Node, nothing, words, element, ◌<>◌, style, named, flag, class, on_click,
  on_click_self, on_change, say, div, span, button, when,
}

module _ {A : Type 0} where
  abbrev pub kv_row : Text → Node A → Node A
  kv_row label value =
      div (class "kv-row" ∷ []) (div (class "kv-label" ∷ []) (words label) <> value)

  unfoldable pub value_row : (on_val : Text → A) → Modal → Node A
  value_row on_val m =
      div (class "kv-row" ∷ style (fixed "flexDirection" "column" ∷ fixed "gap" "4" ∷ []) ∷ []) (
        div (class "kv-label" ∷ style (fixed "paddingTop" "0" ∷ []) ∷ []) (
          say "Value "
          <> when m.inner.loading (
              span (style (fixed "color" "var(--text3)" ∷ fixed "fontSize" "10" ∷ []) ∷ [])
                (say "loading...")))
        <> (if m.is_edit
            then element (text "textarea")
                (class "kv-val editable"
                  ∷ style (
                      fixed "resize" "vertical"
                      ∷ fixed "minHeight" "100"
                      ∷ fixed "width" "100%"
                      ∷ styled "opacity" (if m.inner.loading then text "0.5" else text "1")
                      ∷ [])
                  ∷ named (text "value") m.inner.val
                  ∷ on_change (λ t. on_val t ∷ [])
                  ∷ flag (text "disabled") m.inner.loading
                  ∷ [])
                nothing
            else div
                (class "kv-val"
                  ∷ style (
                      fixed "whiteSpace" "pre-wrap"
                      ∷ fixed "maxHeight" "200"
                      ∷ fixed "overflowY" "auto"
                      ∷ [])
                  ∷ [])
                (words (if m.inner.loading then text "Loading..." else m.inner.val))))

  unfoldable pub modal_footer :
      (on_close : A) (on_delete : ℕ → A) (on_save : ℕ → Text → A) → Modal → Node A
  modal_footer on_close on_delete on_save m = div (class "modal-footer" ∷ []) (
      if m.is_edit
      then (button (class "btn btn-danger" ∷ on_click (on_delete m.item.id ∷ on_close ∷ []) ∷ [])
            (say "Delete")
          <> button (class "btn btn-ghost" ∷ on_click (on_close ∷ []) ∷ []) (say "Cancel")
          <> button
              (class "btn btn-primary"
                ∷ flag (text "disabled") m.inner.loading
                ∷ on_click (on_save m.item.id m.inner.val ∷ on_close ∷ [])
                ∷ [])
              (say "Save"))
      else button (class "btn btn-ghost" ∷ on_click (on_close ∷ []) ∷ []) (say "Close"))

  unfoldable pub view_modal :
      (on_close : A) (on_delete : ℕ → A) (on_save : ℕ → Text → A) (on_val : Text → A)
      → Modal
      → Node A
  view_modal on_close on_delete on_save on_val m =
      div (class "modal-overlay" ∷ on_click_self (on_close ∷ []) ∷ []) (
        div (class "modal" ∷ []) (
          div (class "modal-header" ∷ []) (
            div (class "modal-title" ∷ [])
              (words ((if m.is_edit then text "Edit — " else text "View — ") ++ m.item.key))
            <> button (class "modal-close" ∷ on_click (on_close ∷ []) ∷ []) (say "×"))
          <> div (class "modal-body" ∷ []) (
              kv_row (text "Key") (
                div
                  (class "kv-val"
                    ∷ style (fixed "fontFamily" "IBM Plex Mono" ∷ fixed "color" "#60a5fa" ∷ [])
                    ∷ [])
                  (words m.item.key))
              <> kv_row (text "Type") (div (class "kv-val" ∷ []) (words (type_name m.item.type)))
              <> kv_row (text "TTL") (div (class "kv-val" ∷ []) (words m.item.ttl))
              <> kv_row (text "Size") (div (class "kv-val" ∷ []) (words m.item.size))
              <> value_row on_val m)
          <> modal_footer on_close on_delete on_save m))

  abbrev pub modal_of :
      (on_close : A) (on_delete : ℕ → A) (on_save : ℕ → Text → A) (on_val : Text → A)
      → Option Modal
      → Node A
  modal_of on_close on_delete on_save on_val none = nothing
  modal_of on_close on_delete on_save on_val (some m) =
      view_modal on_close on_delete on_save on_val m
