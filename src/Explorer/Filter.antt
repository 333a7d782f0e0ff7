-- ===== src/Explorer/Filter.antt =====
-- Which rows a search shows.
use cachestack.Base.{
  ◌≡◌, ◌∙◌, ◌↔◌, refl, ap, sym, Bool, true, false, ◌&&◌, ◌||◌, List, ◌++◌, map, arith, In,
  In-filter_iff,
}
use cachestack.Text.{Text, text, text_eq, includes, Unicode, ascii_lower, IsAscii}
use cachestack.Text.Equality.{text_eq_iff}
use cachestack.Text.Search.{includes_iff}
use cachestack.Types.{KeyType, string, hash, list, set, zset, type_name, lower_name, KeyEntry}
use cachestack.Explorer.{Choice, all, only, choice_value, is_match, filtered}

type_name-IsAscii : (ty : KeyType) → IsAscii (type_name ty)
type_name-IsAscii string = omega arith
type_name-IsAscii hash = omega arith
type_name-IsAscii list = omega arith
type_name-IsAscii set = omega arith
type_name-IsAscii zset = omega arith

map-type_name : (ty : KeyType) → map ascii_lower (type_name ty) ≡ lower_name ty
unfolding ascii_lower
map-type_name string = refl
map-type_name hash = refl
map-type_name list = refl
map-type_name set = refl
map-type_name zset = refl

lower_name-ne-all : (ty : KeyType) → text_eq (lower_name ty) (text "all") ≡ false
unfolding text_eq
lower_name-ne-all string = refl
lower_name-ne-all hash = refl
lower_name-ne-all list = refl
lower_name-ne-all set = refl
lower_name-ne-all zset = refl

lower_name-injective : (a b : KeyType) → text_eq (lower_name a) (lower_name b) ≡ true → a ≡ b
unfolding text_eq
lower_name-injective string string h = refl
lower_name-injective hash hash h = refl
lower_name-injective list list h = refl
lower_name-injective set set h = refl
lower_name-injective zset zset h = refl
lower_name-injective a b h = cc

and-split : (a : Bool) {b : Bool} → (a && b) ≡ true → (a ≡ true) × (b ≡ true)
and-split true h = (refl, h)
and-split false h = cc

and-join : {a b : Bool} → a ≡ true → b ≡ true → (a && b) ≡ true
and-join p q = rw (p, q) refl

-- The rows of which the menu's choice is true.
abbrev pub OfChoice : Choice → KeyType → Type 0
OfChoice all ty = Unit
OfChoice (only wanted) ty = ty ≡ wanted

module _ (U : Unicode) where
  open U use {to_lower, to_lower_ascii}

  to_lower-type_name : (ty : KeyType) → to_lower (type_name ty) ≡ lower_name ty
  to_lower-type_name ty = to_lower_ascii (type_name ty) (type_name-IsAscii ty) ∙ map-type_name ty

  abbrev type_test : Choice → KeyType → Bool
  type_test c ty =
      text_eq (choice_value U c) (text "all")
      || text_eq (to_lower (type_name ty)) (choice_value U c)

  type_test-only :
      (wanted ty : KeyType)
      → type_test (only wanted) ty ≡ text_eq (lower_name ty) (lower_name wanted)
  unfolding choice_value
  type_test-only wanted ty =
      rw (to_lower-type_name wanted, to_lower-type_name ty, lower_name-ne-all wanted) refl

  type_test_iff : (c : Choice) (ty : KeyType) → (type_test c ty ≡ true) ↔ OfChoice c ty
  unfolding choice_value text_eq
  type_test_iff all ty = (λ h. tt, λ h. refl)
  type_test_iff (only wanted) ty = (
    λ h. lower_name-injective ty wanted (sym (type_test-only wanted ty) ∙ h),
    λ e.
        type_test-only wanted ty
        ∙ (text_eq_iff (lower_name ty) (lower_name wanted)).1 (ap lower_name e),
  )

  -- The table shows a row exactly if it is one of the keys, its name holds the search without regard
  -- to letter case, and its type is the one chosen, if one is chosen.
  pub filtered_iff :
      (active : Text) (c : Choice) (k : KeyEntry) (keys : List KeyEntry)
      → In k (filtered U active (choice_value U c) keys) ↔ (
          In k keys
          × ((pre : Text) × (post : Text) × (to_lower k.key ≡ pre ++ (to_lower active ++ post)))
          × OfChoice c k.type)
  unfolding filtered is_match
  filtered_iff active c k keys =
      let (found, keep) = In-filter_iff (is_match U active (choice_value U c)) k keys in
      let (cut, glue) = includes_iff (to_lower active) (to_lower k.key) in
      let (typed, of_type) = type_test_iff c k.type in
      (
        λ m.
            let (listed, test) = found m in
            let (hit, type) = and-split (includes (to_lower active) (to_lower k.key)) test in
            (listed, cut hit, typed type),
        λ (listed, hit, type). keep (listed, and-join (glue hit) (of_type type)),
      )
