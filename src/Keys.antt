-- ===== src/Keys.antt =====
-- frontend/src/App.tsx, the key table: the rows made of an answer of /api/keys, and the handlers that
-- delete a key and save a value. A handler looks its row up in the keys that it captured when it was
-- made, awaits the server, and then changes the keys as they are by then.
pub mod Ids
pub mod Rows
pub mod Delete
pub mod Save
use cachestack.Base.{
  ℕ, zero, suc, ◌+◌, Bool, true, false, not, List, [], ◌∷◌, ◌++◌, Option, none, some, map, filter,
  find?, if◌then◌else◌, ◌==◌,
}
use cachestack.Text.{Text, text, text_eq, starts_with}
use cachestack.Text.Decimal.{ℤ, pos, negsuc, show_ℤ}
use cachestack.Types.{
  KeyType, string, hash, list, set, zset, KeyEntry, ApiKeyInfo, NotifLevel, success, warning, error,
}
use cachestack.Notifications.{Queue, push}
use cachestack.Client.{Request, Answer, ExecResult, api_fetch, delete_key_request, exec_request}

-- `normaliseType`: its table, tried in order. The names that every object inherits, such as
-- `constructor`, are not in it; the server sends none of them.
abbrev pub type_table : List (Text × KeyType)
type_table =
    (text "string", string)
    ∷ (text "hash", hash)
    ∷ (text "list", list)
    ∷ (text "set", set)
    ∷ (text "zset", zset)
    ∷ (text "String", string)
    ∷ (text "Hash", hash)
    ∷ (text "List", list)
    ∷ (text "Set", set)
    ∷ (text "ZSet", zset)
    ∷ []

unfoldable pub look_up : Text → List (Text × KeyType) → KeyType
look_up t [] = string
look_up t ((name, type) ∷ more) = let rest = look_up t more in if text_eq name t then type else rest

unfoldable pub normalise_type : Text → KeyType
unfolding look_up
normalise_type t = look_up t type_table

-- `k.ttl === -1 ? '∞' : k.ttl === -2 ? 'expired' : `${k.ttl}s``
unfoldable pub ttl_text : ℤ → Text
ttl_text (negsuc zero) = text "∞"
ttl_text (negsuc (suc zero)) = text "expired"
ttl_text (negsuc (suc (suc n))) = show_ℤ (negsuc (suc (suc n))) ++ text "s"
ttl_text (pos n) = show_ℤ (pos n) ++ text "s"

abbrev pub row : ℕ → ApiKeyInfo → KeyEntry
row id k = record {
  id = id;
  key = k.key;
  type = normalise_type k.type;
  ttl = ttl_text k.ttl;
  size = text "—";
  value = [];
}

-- `data.map((k, i) => ({ id: i + 1, … }))`, from the index `i` on.
unfoldable pub rows_from : ℕ → List ApiKeyInfo → List KeyEntry
rows_from i [] = []
rows_from i (k ∷ ks) = row (i + 1) k ∷ rows_from (i + 1) ks

-- `fetchKeys`, once its answer is there: no answer and an empty one change nothing.
abbrev pub replace_keys : Option (List ApiKeyInfo) → List KeyEntry → List KeyEntry
replace_keys none keys = keys
replace_keys (some []) keys = keys
replace_keys (some (k ∷ ks)) keys = rows_from 0 (k ∷ ks)

unfoldable pub fetch_keys : Answer (List ApiKeyInfo) → List KeyEntry → List KeyEntry
fetch_keys answer keys = replace_keys (api_fetch answer) keys

pub record Table : Type 0 where
  pub keys : List KeyEntry
  pub queue : Queue

abbrev pub find_row : ℕ → List KeyEntry → Option KeyEntry
find_row id = find? (λ x. x.id == id)

abbrev pub drop_row : ℕ → List KeyEntry → List KeyEntry
drop_row id = filter (λ x. not (x.id == id))

abbrev pub set_value : ℕ → Text → List KeyEntry → List KeyEntry
set_value id v = map (λ x. if x.id == id then record x { value = v } else x)

abbrev pub deleted_text : Text → Text
deleted_text key = text "Key \"" ++ (key ++ text "\" deleted.")

abbrev pub updated_text : Text → Text
updated_text key = text "Key \"" ++ (key ++ text "\" updated.")

abbrev pub failed_text : Text → Text
failed_text key = text "Failed to save \"" ++ (key ++ text "\".")

-- What `handleDeleteKey` sends, if it sends anything.
abbrev pub delete_sends : Option Text → Option KeyEntry → Option Request
delete_sends env none = none
delete_sends env (some k) = delete_key_request env k.key

-- The rest of `handleDeleteKey` for the row found and the request made.
abbrev pub delete_found : Option KeyEntry → Option Request → ℕ → Text → Table → Table
delete_found none _ id clock t = record t { keys = drop_row id t.keys }
delete_found (some k) none id clock t = t
delete_found (some k) (some request) id clock t = record {
  keys = drop_row id t.keys;
  queue = (push (deleted_text k.key) warning 4000 clock t.queue).0;
}

-- `handleDeleteKey(id)` over the captured keys, up to its end, with the server's answer and with the
-- table as it is once that is there. A key that `encodeURIComponent` refuses ends the handler.
unfoldable pub handle_delete_key : Option Text → List KeyEntry → ℕ → Answer ℕ → Text → Table → Table
handle_delete_key env captured id answer clock t =
    let k = find_row id captured in delete_found k (delete_sends env k) id clock t

-- `res?.result?.startsWith('+OK')`
abbrev pub says_ok : Option ExecResult → Bool
says_ok none = false
says_ok (some r) = elim r.result [ none ↦ false | some s ↦ starts_with (text "+OK") s ]

-- `SET ${k.key} ${newVal}`
abbrev pub set_command : Text → Text → Text
set_command key v = text "SET " ++ (key ++ (text " " ++ v))

abbrev pub save_sends : Option Text → Option KeyEntry → Text → Option Request
save_sends env none v = none
save_sends env (some k) v = some (exec_request env (set_command k.key v))

abbrev pub save_found : Option KeyEntry → Option ExecResult → Text → Queue → Queue
save_found none res clock q = q
save_found (some k) res clock q =
    let saved = (push (updated_text k.key) success 3000 clock q).0 in
    let failed = (push (failed_text k.key) error 5000 clock q).0 in
    if says_ok res then saved else failed

-- `handleSaveKey(id, newVal)`, in the same way.
unfoldable pub handle_save_key : List KeyEntry → ℕ → Text → Answer ExecResult → Text → Table → Table
handle_save_key captured id v answer clock t = record {
  keys = set_value id v t.keys;
  queue = save_found (find_row id captured) (api_fetch answer) clock t.queue;
}
