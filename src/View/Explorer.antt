-- ===== src/View/Explorer.antt =====
-- frontend/src/pages/KeyExplorerPage.tsx: the search bar and the table. The page's state is `Page` of
-- cachestack.Explorer.Page; its buttons ask for the functions of that module, and for `onDelete`.
use cachestack.Base.{ℕ, Bool, true, false, List, [], ◌∷◌, ◌++◌, length, if◌then◌else◌}
use cachestack.Text.{Text, text, text_eq, Unicode}
use cachestack.Text.Decimal.{show_ℕ}
use cachestack.Types.{KeyType, string, hash, list, set, zset, type_name, KeyEntry}
use cachestack.Explorer.{all, only, Shown, plain, marked, choice_value, active_search, key_cell}
use cachestack.Explorer.Page.{Page, shown_rows, search_typed, view_row, close_modal, text_typed}
use cachestack.View.{
  fixed, Node, nothing, words, element, ◌<>◌, style, attr, named, class, class_name, key, on_click,
  on_change, say, div, span, button, when_text, each,
}
use cachestack.View.Icon.{icon_of}

-- What the page's own handlers set: the local search, the type filter as the option's value, the modal.
pub data PageEvent : Type 0 where
  typed_search : Text → PageEvent
  chose_type : Text → PageEvent
  opened : (is_edit : Bool) → KeyEntry → PageEvent
  closed : PageEvent
  typed_value : Text → PageEvent

-- What they do to the page's state.
unfoldable pub page_step : PageEvent → Page → Page
page_step (typed_search v) p = search_typed v p
page_step (chose_type v) p = record p { type_filter = v }
page_step (opened is_edit row) p = view_row is_edit row p
page_step closed p = close_modal p
page_step (typed_value v) p = text_typed v p

abbrev pub type_class : KeyType → Text
type_class string = text "type-string"
type_class hash = text "type-hash"
type_class list = text "type-list"
type_class set = text "type-set"
type_class zset = text "type-zset"

abbrev pub menu_types : List KeyType
menu_types = string ∷ hash ∷ list ∷ set ∷ zset ∷ []

module _ {A : Type 0} where
  -- What `highlightMatch` returns.
  abbrev pub shown_node : Shown → Node A
  shown_node (plain s) = words s
  shown_node (marked before middle after) =
      words before
      <> span (style (fixed "color" "var(--yellow)" ∷ fixed "fontWeight" "600" ∷ []) ∷ [])
          (words middle)
      <> words after

  abbrev pub cell : Node A → Node A
  cell = element (text "td") []

  abbrev pub heading : Node A → Node A
  heading = element (text "th") []

module _ (U : Unicode) {A : Type 0} (on_page : PageEvent → A) (on_delete : ℕ → A) where
  unfoldable pub search_bar : (active type_filter : Text) → (shown total : ℕ) → Node A
  unfolding choice_value
  search_bar active type_filter shown total = div (class "search-bar" ∷ []) (
      div (class "search-input-wrap" ∷ []) (
        icon_of (text "search") []
        <> element (text "input")
            (attr "type" "text"
              ∷ attr "placeholder" "Filter keys… (e.g. user:, session:)"
              ∷ named (text "value") active
              ∷ on_change (λ t. on_page (typed_search t) ∷ [])
              ∷ [])
            nothing
        <> when_text active (
            span
              (on_click (on_page (typed_search []) ∷ [])
                ∷ style (
                    fixed "color" "var(--text3)"
                    ∷ fixed "cursor" "pointer"
                    ∷ fixed "fontSize" "14"
                    ∷ [])
                ∷ [])
              (say "×")))
      <> element (text "select")
          (class "filter-select"
            ∷ named (text "value") type_filter
            ∷ on_change (λ t. on_page (chose_type t) ∷ [])
            ∷ [])
          (element (text "option") (named (text "value") (choice_value U all) ∷ [])
              (say "All Types")
            <> each
                (λ t.
                  element (text "option")
                    (key (type_name t) ∷ named (text "value") (choice_value U (only t)) ∷ [])
                    (words (type_name t)))
                menu_types)
      <> span
          (style (
              fixed "fontSize" "11"
              ∷ fixed "color" "var(--text3)"
              ∷ fixed "whiteSpace" "nowrap"
              ∷ [])
            ∷ [])
          (words (show_ℕ shown) <> say " / " <> words (show_ℕ total) <> say " keys"))

  unfoldable pub table_row : (active : Text) → KeyEntry → Node A
  table_row active row = element (text "tr") (key (show_ℕ row.id) ∷ []) (
      cell (span (class "key-name" ∷ []) (shown_node (key_cell U active row)))
      <> cell (
          span (class_name (text "type-badge " ++ type_class row.type) ∷ [])
            (words (type_name row.type)))
      <> cell (
          span
            (class_name
                (text "ttl-val" ++ (if text_eq row.ttl (text "∞") then text " ttl-inf" else []))
              ∷ [])
            (words row.ttl))
      <> cell (
          span (class "size-val" ∷ style (fixed "color" "var(--text2)" ∷ []) ∷ []) (words row.size))
      <> cell (
          div (class "actions" ∷ []) (
            button (class "act-btn view" ∷ on_click (on_page (opened false row) ∷ []) ∷ [])
              (icon_of (text "eye") [] <> say " View")
            <> button (class "act-btn edit" ∷ on_click (on_page (opened true row) ∷ []) ∷ [])
                (icon_of (text "pencil") [] <> say " Edit")
            <> button (class "act-btn del" ∷ on_click (on_delete row.id ∷ []) ∷ [])
                (icon_of (text "trash") [] <> say " Del"))))

  -- The rows, or the text that stands for none: of an empty store, or of a search that finds nothing.
  abbrev pub empty_text : List KeyEntry → Text
  empty_text [] = text "No keys in store yet — run SET to add one."
  empty_text (k ∷ ks) = text "No keys match your search."

  abbrev pub table_body : (active : Text) (keys rows : List KeyEntry) → Node A
  table_body active keys [] = element (text "tr") [] (
      element (text "td")
        (attr "colSpan" "5"
          ∷ style (
              fixed "textAlign" "center" ∷ fixed "padding" "32" ∷ fixed "color" "var(--text3)" ∷ [])
          ∷ [])
        (words (empty_text keys)))
  table_body active keys (k ∷ ks) = each (table_row active) (k ∷ ks)

  -- The page under the global search `query`, without its modal.
  unfoldable pub explorer_page : (query : Text) → List KeyEntry → Page → Node A
  explorer_page query keys p =
      let active = active_search U p.local_search query in
      let rows = shown_rows U query keys p in
      div (class "card" ∷ []) (
        search_bar active p.type_filter (length rows) (length keys)
        <> div (class "table-wrap" ∷ []) (
            element (text "table") [] (
              element (text "thead") [] (
                element (text "tr") [] (
                  heading (say "Key")
                  <> heading (say "Type")
                  <> heading (say "TTL")
                  <> heading (say "Size")
                  <> heading (say "Actions")))
              <> element (text "tbody") [] (table_body active keys rows))))
