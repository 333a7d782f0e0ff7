-- ===== src/Explorer/Page.antt =====
-- frontend/src/pages/KeyExplorerPage.tsx, the page's own state: the local search, the chosen type, and the
-- modal with its mode. The buttons of the modal hand an action to App's handlers. An answer that comes in
-- after its modal was closed reaches no component, so it is no operation here.
use cachestack.Base.{ℕ, Bool, List, [], Option, none, some, if◌then◌else◌}
use cachestack.Text.{Text, text, Unicode}
use cachestack.Types.{KeyEntry}
use cachestack.Client.{Answer, KeyValue}
use cachestack.Explorer.{
  Choice, ModalState, choice_value, active_search, filtered, open_modal, value_loaded, edit_modal,
  save_modal,
}

-- `modal`, with the state of the component ViewModal that it shows.
pub record Modal : Type 0 where
  pub item : KeyEntry
  pub is_edit : Bool
  pub inner : ModalState

pub record Page : Type 0 where
  pub local_search : Text
  pub type_filter : Text
  pub modal : Option Modal

abbrev pub fresh_page : Page
fresh_page = record { local_search = []; type_filter = text "all"; modal = none }

-- What the page asks of App: `onDelete(id)` and `onSave(id, val)`.
pub data Action : Type 0 where
  delete_key : ℕ → Action
  save_key : ℕ → Text → Action

unfoldable pub search_typed : Text → Page → Page
search_typed v p = record p { local_search = v }

-- The clear button of the search field.
unfoldable pub clear_search : Page → Page
clear_search p = record p { local_search = [] }

unfoldable pub choose_type : (U : Unicode) → Choice → Page → Page
choose_type U c p = record p { type_filter = choice_value U c }

-- The rows shown, under the global search `search_query`.
unfoldable pub shown_rows : (U : Unicode) → Text → List KeyEntry → Page → List KeyEntry
shown_rows U search_query keys p =
    filtered U (active_search U p.local_search search_query) p.type_filter keys

-- The View and Edit buttons of a row.
unfoldable pub view_row : (is_edit : Bool) → KeyEntry → Page → Page
view_row is_edit item p = record p {
  modal = some (record { item = item; is_edit = is_edit; inner = open_modal item });
}

unfoldable pub close_modal : Page → Page
close_modal p = record p { modal = none }

abbrev pub change_inner : (ModalState → ModalState) → Option Modal → Option Modal
change_inner f none = none
change_inner f (some m) = some (record m { inner = f m.inner })

unfoldable pub value_came : Answer KeyValue → Page → Page
value_came answer p = record p { modal = change_inner (value_loaded answer) p.modal }

-- Typing in the text area, which is there in edit mode only.
abbrev pub typed_in : Text → Option Modal → Option Modal
typed_in v none = none
typed_in v (some m) = if m.is_edit then some (record m { inner = edit_modal v m.inner }) else some m

unfoldable pub text_typed : Text → Page → Page
text_typed v p = record p { modal = typed_in v p.modal }

-- The Save button, which is there in edit mode only; it asks for the save and closes the modal.
abbrev pub save_asked : KeyEntry → Option Text → Page → Option Action × Page
save_asked item none p = (none, p)
save_asked item (some v) p = (some (save_key item.id v), record p { modal = none })

abbrev pub save_from : Option Modal → Page → Option Action × Page
save_from none p = (none, p)
save_from (some m) p = if m.is_edit then save_asked m.item (save_modal m.inner) p else (none, p)

unfoldable pub press_save : Page → Option Action × Page
press_save p = save_from p.modal p

-- The modal's Delete button, likewise.
abbrev pub delete_from : Option Modal → Page → Option Action × Page
delete_from none p = (none, p)
delete_from (some m) p =
    if m.is_edit then (some (delete_key m.item.id), record p { modal = none }) else (none, p)

unfoldable pub press_delete : Page → Option Action × Page
press_delete p = delete_from p.modal p
