-- ===== src/Keys/Delete.antt =====
-- What deleting a row does to the table.
use cachestack.Base.{
  ℕ, ◌+◌, ◌≤◌, ◌≡◌, ◌≢◌, ◌∙◌, refl, ap, false, List, [], ◌∷◌, ◌++◌, Option, none, some, length,
  arith, ◌==◌, ==_self, get_elem?-append,
}
use cachestack.Text.{Text, text}
use cachestack.Types.{KeyEntry, ApiKeyInfo, warning}
use cachestack.Notifications.{Queue, push}
use cachestack.Client.{Request, Answer, delete_key_request}
use cachestack.Keys.{
  Table, row, rows_from, find_row, drop_row, delete_sends, delete_found, handle_delete_key,
}
use cachestack.Keys.Rows.{find_row-rows_from}

find_row-drop_row_self : (id : ℕ) (xs : List KeyEntry) → find_row id (drop_row id xs) ≡ none
find_row-drop_row_self id [] = refl
find_row-drop_row_self id (x ∷ xs) = ground (arith, find_row-drop_row_self id xs)

find_row-drop_row_ne :
    (id j : ℕ) (xs : List KeyEntry) → j ≢ id → find_row j (drop_row id xs) ≡ find_row j xs
find_row-drop_row_ne id j [] h = refl
find_row-drop_row_ne id j (x ∷ xs) h = ground (arith, find_row-drop_row_ne id j xs h)

-- A delete of a row that was captured, whose key can be sent: once the server has answered, whatever
-- it answered, no row has the id, every other row is as it was, and the newest toast, of level
-- warning and with a timer of 4 s, says that the key captured was deleted.
pub handle_delete_key-found :
    (env : Option Text) (captured : List KeyEntry) (id : ℕ) (answer : Answer ℕ) (clock : Text)
    (t : Table) {k : KeyEntry} {request : Request}
    → find_row id captured ≡ some k
    → delete_key_request env k.key ≡ some request
    → (find_row id (handle_delete_key env captured id answer clock t).keys ≡ none)
      × ((j : ℕ)
          → j ≢ id
          → find_row j (handle_delete_key env captured id answer clock t).keys ≡ find_row j t.keys)
      × ((handle_delete_key env captured id answer clock t).queue
          ≡ (push (text "Key \"" ++ (k.key ++ text "\" deleted.")) warning 4000 clock t.queue).0)
unfolding handle_delete_key
handle_delete_key-found env captured id answer clock t {k} {request} found sent =
    let done : handle_delete_key env captured id answer clock t
        ≡ delete_found (some k) (some request) id clock t =
      ap (λ o. delete_found o (delete_sends env o) id clock t) found
      ∙ ap (λ r. delete_found (some k) r id clock t) sent in
    (
      ap (λ u. find_row id u.keys) done ∙ find_row-drop_row_self id t.keys,
      λ j ne. ap (λ u. find_row j u.keys) done ∙ find_row-drop_row_ne id j t.keys ne,
      ap (λ u. u.queue) done,
    )

drop_row-rows_from-below :
    (id i : ℕ) (ks : List ApiKeyInfo) → id ≤ i → drop_row id (rows_from i ks) ≡ rows_from i ks
unfolding rows_from
drop_row-rows_from-below id i [] h = refl
drop_row-rows_from-below id i (k ∷ ks) h =
    let other : (i + 1 == id) ≡ false = ground arith in
    rw other (ap (◌∷◌ (row (i + 1) k)) (drop_row-rows_from-below id (i + 1) ks (omega arith)))

-- Deleting the row of the key behind `xs` in the rows of an answer.
drop_row-rows_from :
    (i m : ℕ) (xs : List ApiKeyInfo) (k : ApiKeyInfo) (ys : List ApiKeyInfo)
    → m ≡ i + length xs + 1
    → drop_row m (rows_from i (xs ++ (k ∷ ys))) ≡ rows_from i xs ++ rows_from m ys
unfolding rows_from
drop_row-rows_from i m [] k ys e =
    let same : i + 1 ≡ m = omega arith in
    rw (same, ==_self m) (drop_row-rows_from-below m m ys (omega arith))
drop_row-rows_from i m (x ∷ xs) k ys e =
    let other : (i + 1 == m) ≡ false = ground arith in
    rw other (ap (◌∷◌ (row (i + 1) x)) (drop_row-rows_from (i + 1) m xs k ys (omega arith)))

-- Ids are places in the last answer. If a poll ends between the click and the end of the delete, and
-- the key is already missing from its answer, then the delete takes away the row of the next key: the
-- table shows the keys before and the keys behind that one, though the toast names the key deleted.
pub handle_delete_key-late :
    (env : Option Text) (xs : List ApiKeyInfo) (k next : ApiKeyInfo) (ys : List ApiKeyInfo)
    (answer : Answer ℕ) (clock : Text) (q : Queue) (request : Request)
    → delete_key_request env k.key ≡ some request
    → handle_delete_key env
        (rows_from 0 (xs ++ (k ∷ next ∷ ys)))
        (length xs + 1)
        answer
        clock
        (record { keys = rows_from 0 (xs ++ (next ∷ ys)); queue = q })
      ≡ record {
        keys = rows_from 0 xs ++ rows_from (length xs + 1) ys;
        queue = (push (text "Key \"" ++ (k.key ++ text "\" deleted.")) warning 4000 clock q).0;
      }
unfolding handle_delete_key
handle_delete_key-late env xs k next ys answer clock q request sent =
    let m = length xs + 1 in
    let t : Table = record { keys = rows_from 0 (xs ++ (next ∷ ys)); queue = q } in
    ap (λ o. delete_found o (delete_sends env o) m clock t)
      (find_row-rows_from 0 (length xs) m (xs ++ (k ∷ next ∷ ys)) k (omega arith)
        (get_elem?-append xs k (next ∷ ys)))
    ∙ (ap (λ r. delete_found (some (row m k)) r m clock t) sent
        ∙ ap
            (λ ks. record {
              keys = ks;
              queue =
                  (push (text "Key \"" ++ (k.key ++ text "\" deleted.")) warning 4000 clock q).0;
            })
            (drop_row-rows_from 0 m xs next ys (omega arith)))
