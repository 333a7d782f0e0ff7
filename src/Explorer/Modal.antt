-- ===== src/Explorer/Modal.antt =====
-- The life of the modal.
use cachestack.Base.{◌≡◌, ◌⊎◌, refl, ap, true, Option, none, some, Option-cases, inl, inr}
use cachestack.Text.{Text}
use cachestack.Types.{KeyEntry}
use cachestack.Client.{Answer, KeyValue, api_fetch}
use cachestack.Explorer.{
  ModalState, needs_value, open_modal, loaded_value, set_loaded, value_loaded, edit_modal,
  save_modal,
}

typed_after :
    (typed : Text) (o : Option Text) (m : ModalState)
    → save_modal (edit_modal typed (set_loaded o m)) ≡ some typed
unfolding edit_modal save_modal
typed_after typed none m = refl
typed_after typed (some v) m = refl

-- A row whose value has to be fetched: until the answer is there nothing can be typed or saved; once
-- it is there, whatever it is, what is saved is the server's value if it gave one, and the row's value
-- otherwise, or what was typed after that.
pub save_modal-value_loaded :
    (item : KeyEntry) (answer : Answer KeyValue) (typed : Text)
    → needs_value item ≡ true
    → (edit_modal typed (open_modal item) ≡ open_modal item)
      × (save_modal (open_modal item) ≡ none)
      × (((v : Text) × (loaded_value (api_fetch answer) ≡ some v)
            × (save_modal (value_loaded answer (open_modal item)) ≡ some v))
          ⊎ ((loaded_value (api_fetch answer) ≡ none)
              × (save_modal (value_loaded answer (open_modal item)) ≡ some item.value)))
      × (save_modal (edit_modal typed (value_loaded answer (open_modal item))) ≡ some typed)
unfolding open_modal edit_modal save_modal value_loaded
save_modal-value_loaded item answer typed needs = (
  rw needs refl,
  rw needs refl,
  elim (Option-cases (loaded_value (api_fetch answer))) [
    | inl e ↦ inr (e, ap (λ o. save_modal (set_loaded o (open_modal item))) e)
    | inr (v, e) ↦ inl (v, e, ap (λ o. save_modal (set_loaded o (open_modal item))) e)
  ],
  typed_after typed (loaded_value (api_fetch answer)) (open_modal item),
)
