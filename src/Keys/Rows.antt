-- ===== src/Keys/Rows.antt =====
-- The rows of an answer: each key once, under its place in the answer.
use cachestack.Base.{
  In, head, tail, All-In, ℕ, zero, suc, ◌+◌, ◌≡◌, ◌≢◌, ◌⊎◌, ◌↔◌, subst, ◌∙◌, sym, refl, ap, false,
  List, [], ◌∷◌, none, some, length, get_elem?, arith, ◌==◌, ==_self, All, Bool-cases, inl, inr,
}
use cachestack.Text.{Text, text_eq}
use cachestack.Text.Equality.{text_eq_iff}
use cachestack.Types.{
  KeyType, string, hash, list, set, zset, type_name, lower_name, KeyEntry, ApiKeyInfo,
}
use cachestack.Keys.{
  type_table, look_up, normalise_type, row, rows_from, find_row, replace_keys, fetch_keys,
}
use cachestack.Client.{Answer, api_fetch}

pub length-rows_from : (i : ℕ) (ks : List ApiKeyInfo) → length (rows_from i ks) ≡ length ks
unfolding rows_from
length-rows_from i [] = refl
length-rows_from i (k ∷ ks) = ap suc (length-rows_from (i + 1) ks)

pub find_row-rows_from :
    (i j m : ℕ) (ks : List ApiKeyInfo) (k : ApiKeyInfo)
    → m ≡ i + j + 1
    → get_elem? ks j ≡ some k
    → find_row m (rows_from i ks) ≡ some (row m k)
unfolding rows_from
find_row-rows_from i j m [] k e h = ground arith
find_row-rows_from i zero m (l ∷ ks) k e h =
    let same : i + 1 ≡ m = omega arith in
    rw (same, ==_self m) (ap (λ o. elim o [ none ↦ none | some x ↦ some (row m x) ]) h)
find_row-rows_from i (suc j) m (l ∷ ks) k e h =
    let other : (i + 1 == m) ≡ false = ground arith in
    rw other (find_row-rows_from (i + 1) j m ks k (omega arith) h)

-- An answer with keys replaces the table by as many rows, and row j + 1 shows the key at index j of
-- the answer.
fetch_keys-rows :
    (answer : Answer (List ApiKeyInfo)) (keys : List KeyEntry) (ks : List ApiKeyInfo)
    → api_fetch answer ≡ some ks
    → ks ≢ []
    → (length (fetch_keys answer keys) ≡ length ks)
      × ((j : ℕ) (k : ApiKeyInfo)
          → get_elem? ks j ≡ some k
          → find_row (j + 1) (fetch_keys answer keys) ≡ some (row (j + 1) k))
unfolding fetch_keys
fetch_keys-rows answer keys [] e h = absurd (h refl)
fetch_keys-rows answer keys (k ∷ ks) e h =
    subst
      (λ o.
        (length (replace_keys o keys) ≡ length (k ∷ ks))
        × ((j : ℕ) (l : ApiKeyInfo)
            → get_elem? (k ∷ ks) j ≡ some l
            → find_row (j + 1) (replace_keys o keys) ≡ some (row (j + 1) l)))
      (sym e)
      (
        length-rows_from 0 (k ∷ ks),
        λ j l at. find_row-rows_from 0 j (j + 1) (k ∷ ks) l (omega arith) at,
      )

look_up-some :
    (t : Text) (table : List (Text × KeyType)) (ty : KeyType)
    → ty ≢ string
    → look_up t table ≡ ty
    → In (t, ty) table
unfolding look_up
look_up-some t [] ty ne e = absurd (ne (sym e))
look_up-some t ((name, type) ∷ more) ty ne e = elim (Bool-cases (text_eq name t)) [
  | inl same ↦
      let names : name ≡ t = (text_eq_iff name t).0 same in
      let types : type ≡ ty = rw same at e in
      subst (λ p. In p ((name, type) ∷ more)) (λ i. (names i, types i)) head
  | inr other ↦ tail (look_up-some t more ty ne (rw other at e))
]

normalise_type-type_name : (ty : KeyType) → normalise_type (type_name ty) ≡ ty
unfolding normalise_type text_eq
normalise_type-type_name string = refl
normalise_type-type_name hash = refl
normalise_type-type_name list = refl
normalise_type-type_name set = refl
normalise_type-type_name zset = refl

normalise_type-lower_name : (ty : KeyType) → normalise_type (lower_name ty) ≡ ty
unfolding normalise_type text_eq
normalise_type-lower_name string = refl
normalise_type-lower_name hash = refl
normalise_type-lower_name list = refl
normalise_type-lower_name set = refl
normalise_type-lower_name zset = refl

abbrev IsSpelling : Text × KeyType → Type 0
IsSpelling (t, ty) = (t ≡ type_name ty) ⊎ (t ≡ lower_name ty)

type_table-IsSpelling : All IsSpelling type_table
type_table-IsSpelling = (
  inr refl,
  (
    inr refl,
    (
      inr refl,
      (inr refl, (inr refl, (inl refl, (inl refl, (inl refl, (inl refl, (inl refl, tt))))))),
    ),
  ),
)

-- Both spellings of each type are read as that type, and a text that is read as a type other than
-- String is one of that type's two spellings.
pub normalise_type_iff :
    (t : Text) (ty : KeyType)
    → ty ≢ string
    → (normalise_type t ≡ ty) ↔ ((t ≡ type_name ty) ⊎ (t ≡ lower_name ty))
unfolding normalise_type
normalise_type_iff t ty ne = (
  λ e.
      All-In IsSpelling (t, ty) type_table type_table-IsSpelling
        (look_up-some t type_table ty ne e),
  λ h. elim h [
    | inl same ↦ ap normalise_type same ∙ normalise_type-type_name ty
    | inr same ↦ ap normalise_type same ∙ normalise_type-lower_name ty
  ],
)
