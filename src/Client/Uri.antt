-- ===== src/Client/Uri.antt =====
-- `encodeURIComponent` of the language, by the steps of its standard, which client.ts puts keys into queries with:
-- the code points of a text, their UTF-8 bytes, and the escapes of all bytes but the unreserved letters.
use cachestack.Base.{
  ℕ, ◌+◌, ◌-◌, ◌*◌, ◌/◌, ◌%◌, Bool, ◌&&◌, ◌||◌, List, [], ◌∷◌, ◌++◌, Option, none, some, leb, ltb,
  ◌==◌, if◌then◌else◌, any,
}
use cachestack.Text.{Text, text}

abbrev pub is_high : ℕ → Bool
is_high c = leb 0xd800 c && ltb c 0xdc00

abbrev pub is_low : ℕ → Bool
is_low c = leb 0xdc00 c && ltb c 0xe000

abbrev pub cons_point {ℓ} : {A : Type ℓ} → A → Option (List A) → Option (List A)
cons_point c none = none
cons_point c (some cs) = some (c ∷ cs)

-- The code points of UTF-16 code units; `none` at a surrogate without its pair.
unfoldable pub code_points : Text → Option (List ℕ)
code_points [] = some []
code_points (c ∷ []) = if is_high c || is_low c then none else some (c ∷ [])
code_points (c ∷ d ∷ s) =
    let rest = code_points (d ∷ s) in
    let behind = code_points s in
    if is_low c
    then none
    else if is_high c
    then (if is_low d
        then cons_point (0x10000 + (c - 0xd800) * 0x400 + (d - 0xdc00)) behind
        else none)
    else cons_point c rest

unfoldable pub utf8 : ℕ → List ℕ
utf8 p =
    if ltb p 0x80
    then p ∷ []
    else if ltb p 0x800
    then (0xc0 + p / 64) ∷ (0x80 + p % 64) ∷ []
    else if ltb p 0x10000
    then (0xe0 + p / 4096) ∷ (0x80 + p / 64 % 64) ∷ (0x80 + p % 64) ∷ []
    else (0xf0 + p / 262144) ∷ (0x80 + p / 4096 % 64) ∷ (0x80 + p / 64 % 64) ∷ (0x80 + p % 64) ∷ []

-- Letters, digits and - _ . ! ~ * ' ( )
unfoldable pub is_unreserved : ℕ → Bool
is_unreserved c =
    (leb b'A' c && leb c b'Z')
    || (leb b'a' c && leb c b'z')
    || (leb b'0' c && leb c b'9')
    || any (λ u. c == u) (text "-_.!~*'()")

abbrev pub hex_digit : ℕ → ℕ
hex_digit d = if ltb d 10 then 48 + d else 55 + d

abbrev pub percent : ℕ → Text
percent b = b'%' ∷ hex_digit (b / 16) ∷ hex_digit (b % 16) ∷ []

unfoldable pub flat {ℓ κ} : {A : Type ℓ} {B : Type κ} → (A → List B) → List A → List B
flat f [] = []
flat f (x ∷ xs) = f x ++ flat f xs

unfoldable pub escape : ℕ → Text
unfolding is_unreserved utf8 flat
escape p = if is_unreserved p then p ∷ [] else flat percent (utf8 p)

abbrev pub encoded : Option (List ℕ) → Option Text
encoded none = none
encoded (some ps) = some (flat escape ps)

unfoldable pub encode_uri_component : Text → Option Text
encode_uri_component s = encoded (code_points s)
