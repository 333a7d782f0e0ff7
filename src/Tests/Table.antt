-- ===== src/Tests/Table.antt =====
-- Runs of the key table and of the requests.
use cachestack.Base.{
  ℕ, ◌+◌, ◌≤◌, ◌<◌, ◌≡◌, ◌≢◌, ◌↔◌, refl, List, [], ◌∷◌, ◌++◌, none, some, All, length, arith,
}
use cachestack.Text.{Text, text}
use cachestack.Text.Decimal.{negsuc}
use cachestack.Types.{KeyEntry, ApiKeyInfo, success, warning, error}
use cachestack.Notifications.{empty, push}
use cachestack.Client.{Request, delete, answered, api_base, api_fetch, delete_key_request}
use cachestack.Client.Uri.{code_points, encode_uri_component, escape, flat, is_unreserved}
use cachestack.Client.Requests.{
  unescape, bytes_of, IsSafeUnit, delete_key_request_lem, api_fetch_iff,
}
use cachestack.Keys.{Table, row, rows_from, find_row, handle_delete_key, handle_save_key}
use cachestack.Keys.Delete.{handle_delete_key-found, handle_delete_key-late}
use cachestack.Keys.Save.{with_value, SaysOk, handle_save_key-found}

abbrev noon : Text
noon = text "12:00:00 GMT+0000"

abbrev info_of : Text → Text → ApiKeyInfo
info_of key type = record { key = key; ttl = negsuc 0; type = type }

abbrev first : ApiKeyInfo
first = info_of (text "user:1") (text "String")

abbrev second : ApiKeyInfo
second = info_of (text "jobs") (text "list")

abbrev third : ApiKeyInfo
third = info_of (text "tags") (text "Set")

abbrev keys : List KeyEntry
keys = rows_from 0 (first ∷ second ∷ third ∷ [])

abbrev table : Table
table = record { keys = keys; queue = empty }

second-found : find_row 2 keys ≡ some (row 2 second)
unfolding rows_from
second-found = refl

abbrev second_request : Request
second_request = record {
  url = text "http://127.0.0.1:6380/api/keys?key=jobs";
  method = delete;
  cmd = none;
  timeout = 1500;
}

second-sent : delete_key_request none (text "jobs") ≡ some second_request
unfolding delete_key_request encode_uri_component code_points escape flat is_unreserved api_base
second-sent = refl

handle_delete_key-found_example :
    (find_row 2 (handle_delete_key none keys 2 (answered 500 none) noon table).keys ≡ none)
    × ((j : ℕ)
        → j ≢ 2
        → find_row j (handle_delete_key none keys 2 (answered 500 none) noon table).keys
          ≡ find_row j keys)
    × ((handle_delete_key none keys 2 (answered 500 none) noon table).queue
        ≡ (push (text "Key \"" ++ (text "jobs" ++ text "\" deleted.")) warning 4000 noon empty).0)
handle_delete_key-found_example =
    handle_delete_key-found none keys 2 (answered 500 none) noon table second-found second-sent

-- The poll's answer without `jobs` is there before the delete ends: `tags` leaves the table.
handle_delete_key-late_example :
    handle_delete_key none
      (rows_from 0 ((first ∷ []) ++ (second ∷ third ∷ [])))
      (length (first ∷ []) + 1)
      (answered 200 (some 1))
      noon
      (record { keys = rows_from 0 ((first ∷ []) ++ (third ∷ [])); queue = empty })
    ≡ record {
      keys = rows_from 0 (first ∷ []) ++ rows_from (length (first ∷ []) + 1) [];
      queue =
          (push (text "Key \"" ++ (text "jobs" ++ text "\" deleted.")) warning 4000 noon empty).0;
    }
handle_delete_key-late_example =
    handle_delete_key-late none (first ∷ []) second third [] (answered 200 (some 1)) noon empty
      second_request second-sent

handle_save_key-found_example :
    (let answer = answered 503 none in
      let after = handle_save_key keys 2 (text "[]") answer noon table in
      (find_row 2 after.keys ≡ with_value (text "[]") (find_row 2 keys))
      × ((j : ℕ) → j ≢ 2 → find_row j after.keys ≡ find_row j keys)
      × (SaysOk answer
          → after.queue
            ≡ (push
                (text "Key \"" ++ (text "jobs" ++ text "\" updated."))
                success
                3000
                noon
                empty).0)
      × (¬ SaysOk answer
          → after.queue
            ≡ (push
                (text "Failed to save \"" ++ (text "jobs" ++ text "\"."))
                error
                5000
                noon
                empty).0))
handle_save_key-found_example =
    handle_save_key-found keys 2 (text "[]") (answered 503 none) noon table second-found

abbrev query : Text
query = text "a b&é"

query-units : All (λ c. c < 0x10000) query
query-units = omega arith

query-sent :
    delete_key_request none query
    ≡ some (record {
      url = text "http://127.0.0.1:6380/api/keys?key=a%20b%26%C3%A9";
      method = delete;
      cmd = none;
      timeout = 1500;
    })
unfolding delete_key_request encode_uri_component code_points escape flat is_unreserved api_base
query-sent = refl

delete_key_request_lem_example :
    (q : Text) × (text "http://127.0.0.1:6380/api/keys?key=a%20b%26%C3%A9"
      ≡ api_base none ++ (text "/api/keys?key=" ++ q))
    × (unescape q ≡ bytes_of (code_points query))
    × All IsSafeUnit q
    × (delete ≡ delete)
delete_key_request_lem_example = delete_key_request_lem none query _ query-units query-sent

api_fetch_iff_example :
    (api_fetch (answered 204 (some noon)) ≡ some noon)
    ↔ ((s : ℕ) × ((answered 204 (some noon) ≡ answered s (some noon)) × ((200 ≤ s) × (s ≤ 299))))
api_fetch_iff_example = api_fetch_iff (answered 204 (some noon)) noon

encoded_sample : encode_uri_component (text "a b&é€") ≡ some (text "a%20b%26%C3%A9%E2%82%AC")
unfolding encode_uri_component code_points escape flat is_unreserved
encoded_sample = refl
