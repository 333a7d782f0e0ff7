-- ===== src/Tests/Explorer.antt =====
-- Runs of the key explorer.
use cachestack.Base.{◌≡◌, ◌⊎◌, ◌↔◌, refl, true, false, [], ◌∷◌, ◌++◌, map, none, some, In}
use cachestack.Text.{Text, text, text_eq, ascii_lower}
use cachestack.Text.Sample.{ascii}
use cachestack.Types.{hash, KeyEntry}
use cachestack.Client.{Answer, answered, KeyValue, api_fetch}
use cachestack.Explorer.{
  only, choice_value, filtered, needs_value, open_modal, edit_modal, save_modal, value_loaded,
  loaded_value,
}
use cachestack.Explorer.Filter.{OfChoice, filtered_iff}
use cachestack.Explorer.Page.{
  Page, fresh_page, delete_key, save_key, search_typed, clear_search, choose_type, shown_rows,
  view_row, value_came, text_typed, press_save, press_delete,
}
use cachestack.Explorer.Actions.{Holds, shown_rows_iff, press_save-view_row}
use cachestack.Explorer.Modal.{save_modal-value_loaded}

abbrev key : Text → KeyEntry
key name = record { id = 1; key = name; type = hash; ttl = text "∞"; size = text "8B"; value = [] }

filtered_iff_example :
    In
      (key (text "User:1"))
      (filtered ascii (text "user") (choice_value ascii (only hash)) (key (text "User:1") ∷ []))
    ↔ (In (key (text "User:1")) (key (text "User:1") ∷ [])
        × ((pre : Text) × (post : Text) × (map ascii_lower (text "User:1")
              ≡ pre ++ (map ascii_lower (text "user") ++ post)))
        × OfChoice (only hash) hash)
filtered_iff_example =
    filtered_iff ascii (text "user") (only hash) (key (text "User:1")) (key (text "User:1") ∷ [])

abbrev loaded : Answer KeyValue
loaded = answered 200 (some (record { key = none; type = none; value = some (text "{}") }))

key-needs_value : needs_value (key (text "user:1")) ≡ true
unfolding needs_value text_eq
key-needs_value = refl

save_modal-value_loaded_example :
    (edit_modal (text "x") (open_modal (key (text "user:1"))) ≡ open_modal (key (text "user:1")))
    × (save_modal (open_modal (key (text "user:1"))) ≡ none)
    × (((v : Text) × (loaded_value (api_fetch loaded) ≡ some v)
          × (save_modal (value_loaded loaded (open_modal (key (text "user:1")))) ≡ some v))
        ⊎ ((loaded_value (api_fetch loaded) ≡ none)
            × (save_modal (value_loaded loaded (open_modal (key (text "user:1")))) ≡ some [])))
    × (save_modal (edit_modal (text "x") (value_loaded loaded (open_modal (key (text "user:1")))))
        ≡ some (text "x"))
save_modal-value_loaded_example =
    save_modal-value_loaded (key (text "user:1")) loaded (text "x") key-needs_value

a-needs_value : needs_value (key (text "a")) ≡ true
unfolding needs_value text_eq
a-needs_value = refl

abbrev searched : Page
searched = search_typed (text "us") (choose_type ascii (only hash) fresh_page)

shown_rows_iff_example :
    (In (key (text "User:1")) (shown_rows ascii (text "job") (key (text "User:1") ∷ []) searched)
      ↔ (In (key (text "User:1")) (key (text "User:1") ∷ [])
          × Holds ascii (text "us") (key (text "User:1"))
          × OfChoice (only hash) hash))
    × (In
          (key (text "User:1"))
          (shown_rows ascii (text "job") (key (text "User:1") ∷ []) (clear_search searched))
        ↔ (In (key (text "User:1")) (key (text "User:1") ∷ [])
            × Holds ascii (text "job") (key (text "User:1"))
            × OfChoice (only hash) hash))
shown_rows_iff_example =
    shown_rows_iff ascii b'u' (text "s") (text "job") (only hash) (key (text "User:1"))
      (key (text "User:1") ∷ []) fresh_page

press_save-view_row_example :
    (press_save (view_row false (key (text "a")) fresh_page)
      ≡ (none, view_row false (key (text "a")) fresh_page))
    × (press_delete (view_row false (key (text "a")) fresh_page)
        ≡ (none, view_row false (key (text "a")) fresh_page))
    × (text_typed (text "x") (view_row false (key (text "a")) fresh_page)
        ≡ view_row false (key (text "a")) fresh_page)
    × (press_save (view_row true (key (text "a")) fresh_page)
        ≡ (none, view_row true (key (text "a")) fresh_page))
    × (press_delete (view_row true (key (text "a")) fresh_page) ≡ (some (delete_key 1), fresh_page))
    × (press_save
          (text_typed (text "x") (value_came loaded (view_row true (key (text "a")) fresh_page)))
        ≡ (some (save_key 1 (text "x")), fresh_page))
press_save-view_row_example =
    press_save-view_row (key (text "a")) loaded (text "x") fresh_page a-needs_value
