-- ===== src/Keys/Ids.antt =====
-- The ids of the rows: they rise along the table, so no two rows share one.
use cachestack.Base.{
  ℕ, ◌+◌, ◌≤◌, ◌<◌, List, [], ◌∷◌, Option, none, some, arith, ◌==◌, Bool-cases, inl, inr,
}
use cachestack.Text.{Text}
use cachestack.Types.{KeyEntry, ApiKeyInfo}
use cachestack.Mock.{initial_keys}
use cachestack.Client.{Request, Answer, api_fetch}
use cachestack.Keys.{Table, rows_from, replace_keys, fetch_keys, drop_row, set_value, delete_found}

-- All ids are above `b`, and they rise along the table.
abbrev pub Rises : ℕ → List KeyEntry → Type 0
Rises b [] = Unit
Rises b (x ∷ xs) = (b < x.id) × Rises x.id xs

pub Rises-mono : (b c : ℕ) (xs : List KeyEntry) → b ≤ c → Rises c xs → Rises b xs
Rises-mono b c [] h r = tt
Rises-mono b c (x ∷ xs) h (lt, r) = (omega arith, r)

rows_from-Rises : (i : ℕ) (ks : List ApiKeyInfo) → Rises i (rows_from i ks)
unfolding rows_from
rows_from-Rises i [] = tt
rows_from-Rises i (k ∷ ks) = (omega arith, rows_from-Rises (i + 1) ks)

replace_keys-Rises :
    (o : Option (List ApiKeyInfo)) (xs : List KeyEntry) → Rises 0 xs → Rises 0 (replace_keys o xs)
replace_keys-Rises none xs r = r
replace_keys-Rises (some []) xs r = r
replace_keys-Rises (some (k ∷ ks)) xs r = rows_from-Rises 0 (k ∷ ks)

pub fetch_keys-Rises :
    (answer : Answer (List ApiKeyInfo)) (xs : List KeyEntry)
    → Rises 0 xs
    → Rises 0 (fetch_keys answer xs)
unfolding fetch_keys
fetch_keys-Rises answer xs r = replace_keys-Rises (api_fetch answer) xs r

drop_row-Rises : (b id : ℕ) (xs : List KeyEntry) → Rises b xs → Rises b (drop_row id xs)
drop_row-Rises b id [] r = tt
drop_row-Rises b id (x ∷ xs) (lt, r) = elim (Bool-cases (x.id == id)) [
  | inl e ↦ rw e (drop_row-Rises b id xs (Rises-mono b x.id xs (omega arith) r))
  | inr e ↦ rw e (lt, drop_row-Rises x.id id xs r)
]

pub set_value-Rises :
    (b id : ℕ) (v : Text) (xs : List KeyEntry) → Rises b xs → Rises b (set_value id v xs)
set_value-Rises b id v [] r = tt
set_value-Rises b id v (x ∷ xs) (lt, r) = elim (Bool-cases (x.id == id)) [
  | inl e ↦ rw e (lt, set_value-Rises x.id id v xs r)
  | inr e ↦ rw e (lt, set_value-Rises x.id id v xs r)
]

pub delete_found-Rises :
    (k : Option KeyEntry) (request : Option Request) (id : ℕ) (clock : Text) (t : Table)
    → Rises 0 t.keys
    → Rises 0 (delete_found k request id clock t).keys
delete_found-Rises none request id clock t r = drop_row-Rises 0 id t.keys r
delete_found-Rises (some k) none id clock t r = r
delete_found-Rises (some k) (some request) id clock t r = drop_row-Rises 0 id t.keys r

pub initial_keys-Rises : Rises 0 initial_keys
initial_keys-Rises = omega arith
