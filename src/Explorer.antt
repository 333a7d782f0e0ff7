-- ===== src/Explorer.antt =====
-- frontend/src/pages/KeyExplorerPage.tsx and components/ViewModal.tsx: the search over the key table,
-- the type filter, the highlight of what was searched, and the modal that loads and edits a value.
pub mod Filter
pub mod Highlight
pub mod Modal
pub mod Page
pub mod Actions
use cachestack.Base.{
  ℕ, ◌+◌, Bool, true, false, ◌&&◌, ◌||◌, List, [], ◌∷◌, ◌++◌, Option, none, some, filter, length,
  take, drop, if◌then◌else◌,
}
use cachestack.Text.{Text, text, text_eq, is_empty, or_else, index_of, includes, Unicode}
use cachestack.Types.{KeyType, type_name, lower_name, KeyEntry}
use cachestack.Client.{Answer, KeyValue, Request, api_fetch, key_value_request}

-- An option of the type menu, and its `value`.
pub data Choice : Type 0 where
  all : Choice
  only : KeyType → Choice

-- What a cell of the Key column shows: the text, or the text in three parts with the middle marked.
pub data Shown : Type 0 where
  plain : Text → Shown
  marked : (before middle after : Text) → Shown

-- The characters shown, in order.
abbrev pub letters : Shown → Text
letters (plain s) = s
letters (marked before middle after) = before ++ (middle ++ after)

module _ (U : Unicode) where
  open U use {to_lower}

  unfoldable pub choice_value : Choice → Text
  choice_value all = text "all"
  choice_value (only ty) = to_lower (type_name ty)

  -- `localSearch || searchQuery`
  unfoldable pub active_search : (local_search search_query : Text) → Text
  active_search local_search search_query = or_else local_search search_query

  unfoldable pub is_match : (active type_filter : Text) → KeyEntry → Bool
  is_match active type_filter k =
      includes (to_lower active) (to_lower k.key)
      && (text_eq type_filter (text "all") || text_eq (to_lower (type_name k.type)) type_filter)

  unfoldable pub filtered : (active type_filter : Text) → List KeyEntry → List KeyEntry
  filtered active type_filter = filter (is_match active type_filter)

  -- The three parts at an index; `slice` stops at the end of the text.
  abbrev pub mark_at : Text → Text → Option ℕ → Shown
  mark_at s query none = plain s
  mark_at s query (some i) =
      marked (take i s) (take (length query) (drop i s)) (drop (i + length query) s)

  unfoldable pub highlight_match : (s query : Text) → Shown
  highlight_match s [] = plain s
  highlight_match s (c ∷ query) =
      mark_at s (c ∷ query) (index_of (to_lower (c ∷ query)) (to_lower s))

  unfoldable pub key_cell : (active : Text) → KeyEntry → Shown
  key_cell [] k = plain k.key
  key_cell (c ∷ active) k = highlight_match k.key (c ∷ active)

-- The modal's state.
pub record ModalState : Type 0 where
  pub val : Text
  pub loading : Bool

-- Whether the value has to be fetched.
unfoldable pub needs_value : KeyEntry → Bool
needs_value item = text_eq item.value (text "(click Edit to load)") || text_eq item.value []

-- The modal once its effect has run, and the request that it sends, if any.
unfoldable pub open_modal : KeyEntry → ModalState
open_modal item = record { val = item.value; loading = needs_value item }

unfoldable pub modal_sends : Option Text → KeyEntry → Option Request
modal_sends env item = if needs_value item then key_value_request env item.key else none

-- `data?.value !== undefined`
abbrev pub loaded_value : Option KeyValue → Option Text
loaded_value none = none
loaded_value (some v) = v.value

abbrev pub set_loaded : Option Text → ModalState → ModalState
set_loaded none m = record m { loading = false }
set_loaded (some v) m = record { val = v; loading = false }

unfoldable pub value_loaded : Answer KeyValue → ModalState → ModalState
value_loaded answer m = set_loaded (loaded_value (api_fetch answer)) m

-- Typing in the text area, which is disabled while the value loads.
unfoldable pub edit_modal : Text → ModalState → ModalState
edit_modal v m = if m.loading then m else record m { val = v }

-- What the Save button hands to `onSave`; it is disabled while the value loads.
unfoldable pub save_modal : ModalState → Option Text
save_modal m = if m.loading then none else some m.val
