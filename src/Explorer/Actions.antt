-- ===== src/Explorer/Actions.antt =====
-- What the explorer's page shows and asks for.
use cachestack.Base.{ℕ, ◌≡◌, refl, ap, true, false, List, ◌∷◌, ◌++◌, In, ◌↔◌, none, some}
use cachestack.Text.{Text, Unicode}
use cachestack.Types.{KeyEntry}
use cachestack.Client.{Answer, KeyValue}
use cachestack.Explorer.{Choice, active_search, needs_value}
use cachestack.Explorer.Filter.{OfChoice, filtered_iff}
use cachestack.Explorer.Modal.{save_modal-value_loaded}
use cachestack.Explorer.Page.{
  Page, delete_key, save_key, search_typed, clear_search, choose_type, shown_rows, view_row,
  value_came, text_typed, press_save, press_delete, save_asked,
}

-- The key holds the search, without regard to letter case.
abbrev pub Holds : (U : Unicode) → Text → KeyEntry → Type 0
Holds U search k =
    (pre : Text) × (post : Text) × (U.to_lower k.key ≡ pre ++ (U.to_lower search ++ post))

-- With a type chosen in the menu, what is typed in the page replaces the global search; the clear button
-- brings back the global search, and does not show the rows that this hides.
pub shown_rows_iff :
    (U : Unicode) (c : ℕ) (v q : Text) (choice : Choice) (k : KeyEntry) (keys : List KeyEntry)
    (p : Page)
    → (In k (shown_rows U q keys (search_typed (c ∷ v) (choose_type U choice p)))
        ↔ (In k keys × Holds U (c ∷ v) k × OfChoice choice k.type))
      × (In k (shown_rows U q keys (clear_search (search_typed (c ∷ v) (choose_type U choice p))))
          ↔ (In k keys × Holds U q k × OfChoice choice k.type))
unfolding shown_rows search_typed clear_search choose_type active_search
shown_rows_iff U c v q choice k keys p =
    (filtered_iff U (c ∷ v) choice k keys, filtered_iff U q choice k keys)

-- A row opened to be viewed only: neither button asks for anything, and typing changes nothing.
-- A row opened to be edited whose value has to be fetched: until the answer is there Save asks for
-- nothing, but Delete asks to delete the row's id and closes the modal; once the answer is there, whatever
-- it is, what is typed is saved under the row's id, and the modal closes.
pub press_save-view_row :
    (item : KeyEntry) (answer : Answer KeyValue) (typed : Text) (p : Page)
    → needs_value item ≡ true
    → (press_save (view_row false item p) ≡ (none, view_row false item p))
      × (press_delete (view_row false item p) ≡ (none, view_row false item p))
      × (text_typed typed (view_row false item p) ≡ view_row false item p)
      × (press_save (view_row true item p) ≡ (none, view_row true item p))
      × (press_delete (view_row true item p)
          ≡ (some (delete_key item.id), record p { modal = none }))
      × (press_save (text_typed typed (value_came answer (view_row true item p)))
          ≡ (some (save_key item.id typed), record p { modal = none }))
unfolding press_save press_delete view_row text_typed value_came
press_save-view_row item answer typed p needs =
    let (_, waits, _, saved) = save_modal-value_loaded item answer typed needs in
    (
      refl,
      refl,
      refl,
      ap (λ o. save_asked item o (view_row true item p)) waits,
      refl,
      ap (λ o. save_asked item o (text_typed typed (value_came answer (view_row true item p))))
          saved,
    )
