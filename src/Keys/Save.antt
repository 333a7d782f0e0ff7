-- ===== src/Keys/Save.antt =====
-- What saving a value does to the table.
use cachestack.Base.{
  ℕ, ◌≡◌, ◌≢◌, ◌↔◌, ◌≤◌, ◌++◌, sym, take, drop, take-append-drop, Option-cases, ◌∙◌, refl, ap, true,
  List, [], ◌∷◌, Option, none, some, arith, ◌==◌, Bool-cases, inl, inr, if◌then◌else◌,
}
use mathlib.Core.Bool.{false≢true}
use cachestack.Text.{Text, text, starts_with}
use cachestack.Text.Search.{take_of_starts_with, starts_with-append}
use cachestack.Types.{KeyEntry, success, error}
use cachestack.Notifications.{Queue, push}
use cachestack.Client.{Answer, answered, ExecResult, api_fetch}
use cachestack.Client.Requests.{api_fetch_iff}
use cachestack.Keys.{
  Table, find_row, set_value, updated_text, failed_text, says_ok, save_found, handle_save_key,
}

abbrev pub with_value : Text → Option KeyEntry → Option KeyEntry
with_value v none = none
with_value v (some x) = some (record x { value = v })

find_row-set_value_self :
    (id : ℕ) (v : Text) (xs : List KeyEntry)
    → find_row id (set_value id v xs) ≡ with_value v (find_row id xs)
find_row-set_value_self id v [] = refl
find_row-set_value_self id v (y ∷ xs) = elim (Bool-cases (y.id == id)) [
  | inl e ↦ rw (e, e) refl
  | inr e ↦ rw (e, e) (find_row-set_value_self id v xs)
]

find_row-set_value_ne :
    (id j : ℕ) (v : Text) (xs : List KeyEntry)
    → j ≢ id
    → find_row j (set_value id v xs) ≡ find_row j xs
find_row-set_value_ne id j v [] h = refl
find_row-set_value_ne id j v (x ∷ xs) h = ground (arith, find_row-set_value_ne id j v xs h)

-- The server answered with a success status a result that begins with "+OK".
abbrev pub SaysOk : Answer ExecResult → Type 0
SaysOk answer =
    (status : ℕ) × (r : ExecResult) × (rest : Text) × (answer ≡ answered status (some r))
    × ((200 ≤ status) × (status ≤ 299))
    × (r.result ≡ some (text "+OK" ++ rest))

SaysOk-result :
    (answer : Answer ExecResult) (r : ExecResult)
    → api_fetch answer ≡ some r
    → says_ok (some r) ≡ true
    → SaysOk answer
SaysOk-result answer r e h =
    let (status, (same, range)) = (api_fetch_iff answer r).0 e in
    elim (Option-cases r.result) [
      | inl f ↦ absurd (false≢true (rw f at h))
      | inr (s, f) ↦
          let start : starts_with (text "+OK") s ≡ true = rw f at h in
          let front : take 3 s ≡ text "+OK" = take_of_starts_with (text "+OK") s start in
          (
            status,
            r,
            drop 3 s,
            same,
            range,
            f ∙ ap some (sym (take-append-drop 3 s) ∙ ap (λ l. l ++ drop 3 s) front),
          )
    ]

says_ok_iff : (answer : Answer ExecResult) → (says_ok (api_fetch answer) ≡ true) ↔ SaysOk answer
says_ok_iff answer = (
  λ h. elim (Option-cases (api_fetch answer)) [
    | inl e ↦ absurd (false≢true (rw e at h))
    | inr (r, e) ↦ SaysOk-result answer r e (rw e at h)
  ],
  λ h.
      let (status, r, rest, same, range, said) = h in
      rw ((api_fetch_iff answer r).1 (status, (same, range)), said)
        (starts_with-append (text "+OK") rest),
)

-- A save of a row that was captured: once the server has answered, the row with the id has the new
-- value and every other row is as it was; the newest toast names the key captured, and says that it
-- was updated if the server answered with a success status a result that begins with "+OK", and that
-- it could not be saved in every other case. The new value is shown in either case.
pub handle_save_key-found :
    (captured : List KeyEntry) (id : ℕ) (v : Text) (answer : Answer ExecResult) (clock : Text)
    (t : Table) {k : KeyEntry}
    → find_row id captured ≡ some k
    → (let after = handle_save_key captured id v answer clock t in
        (find_row id after.keys ≡ with_value v (find_row id t.keys))
        × ((j : ℕ) → j ≢ id → find_row j after.keys ≡ find_row j t.keys)
        × (SaysOk answer
            → after.queue
              ≡ (push
                  (text "Key \"" ++ (k.key ++ text "\" updated."))
                  success
                  3000
                  clock
                  t.queue).0)
        × (¬ SaysOk answer
            → after.queue
              ≡ (push
                  (text "Failed to save \"" ++ (k.key ++ text "\"."))
                  error
                  5000
                  clock
                  t.queue).0))
unfolding handle_save_key
handle_save_key-found captured id v answer clock t {k} found = (
  find_row-set_value_self id v t.keys,
  λ j ne. find_row-set_value_ne id j v t.keys ne,
  λ ok. told ∙ ap (λ b. if b then saved else failed) ((says_ok_iff answer).1 ok),
  λ bad. elim (Bool-cases (says_ok (api_fetch answer))) [
    | inl e ↦ absurd (bad ((says_ok_iff answer).0 e))
    | inr e ↦ told ∙ ap (λ b. if b then saved else failed) e
  ],
)
  where
    saved : Queue
    saved = (push (updated_text k.key) success 3000 clock t.queue).0

    failed : Queue
    failed = (push (failed_text k.key) error 5000 clock t.queue).0

    told :
        save_found (find_row id captured) (api_fetch answer) clock t.queue
        ≡ (if says_ok (api_fetch answer) then saved else failed)
    told = ap (λ o. save_found o (api_fetch answer) clock t.queue) found
