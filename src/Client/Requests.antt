-- ===== src/Client/Requests.antt =====
-- Keys in queries: what the server decodes is the key, byte for byte; and when an answer counts.
use cachestack.Base.{
  ℕ, ◌+◌, ◌-◌, ◌*◌, ◌/◌, ◌%◌, ◌<◌, ◌≤◌, ◌≡◌, ◌↔◌, ◌∙◌, refl, ap, sym, Bool, true, false, ◌&&◌, ◌||◌,
  List, [], ◌∷◌, ◌++◌, Option, none, some, All, leb, ◌==◌, if◌then◌else◌, Option-cases, subst,
  All-append, Bool-cases, inl, inr, arith,
}
use mathlib.Core.Option.{some-injective, none-ne-some}
use cachestack.Text.{Text, text}
use cachestack.Client.{
  Answer, rejected, answered, is_ok, api_fetch, Request, delete, api_base, request,
  delete_key_request,
}
use cachestack.Client.Uri.{
  is_high, is_low, cons_point, code_points, utf8, is_unreserved, encoded, hex_digit, percent, flat,
  escape, encode_uri_component,
}

-- The value of a hexadecimal digit.
unfoldable pub from_hex : ℕ → Option ℕ
from_hex c =
    if leb b'0' c && leb c b'9'
    then some (c - 48)
    else if leb b'A' c && leb c b'F'
    then some (c - 55)
    else none

abbrev pub byte_of : Option ℕ → Option ℕ → Option ℕ
byte_of (some h) (some l) = some (h * 16 + l)
byte_of _ _ = none

abbrev pub cons_byte : Option ℕ → Option (List ℕ) → Option (List ℕ)
cons_byte (some b) (some bs) = some (b ∷ bs)
cons_byte _ _ = none

-- Percent-decoding of a query's value, as the server does it: the reference for the encoding.
unfoldable pub unescape : Text → Option (List ℕ)
unescape [] = some []
unescape (c ∷ []) = if c == b'%' then none else some (c ∷ [])
unescape (c ∷ d ∷ []) =
    let rest = unescape (d ∷ []) in if c == b'%' then none else cons_byte (some c) rest
unescape (c ∷ d ∷ e ∷ s) =
    let rest = unescape (d ∷ e ∷ s) in
    let behind = unescape s in
    if c == b'%'
    then cons_byte (byte_of (from_hex d) (from_hex e)) behind
    else cons_byte (some c) rest

abbrev onto : List ℕ → Option (List ℕ) → Option (List ℕ)
onto bs none = none
onto bs (some cs) = some (bs ++ cs)

cons_byte-onto : (c : ℕ) (o : Option (List ℕ)) → cons_byte (some c) o ≡ onto (c ∷ []) o
cons_byte-onto c none = refl
cons_byte-onto c (some bs) = refl

unescape-plain :
    (c : ℕ) (s : Text) → (c == b'%') ≡ false → unescape (c ∷ s) ≡ onto (c ∷ []) (unescape s)
unfolding unescape
unescape-plain c [] h = rw h refl
unescape-plain c (d ∷ []) h = rw h (cons_byte-onto c (unescape (d ∷ [])))
unescape-plain c (d ∷ e ∷ s) h = rw h (cons_byte-onto c (unescape (d ∷ e ∷ s)))

from_hex-hex_digit : (d : ℕ) → d < 16 → from_hex (hex_digit d) ≡ some d
unfolding from_hex
from_hex-hex_digit d h = ground arith

byte_of-digits :
    (b : ℕ)
    → b < 256
    → byte_of (from_hex (hex_digit (b / 16))) (from_hex (hex_digit (b % 16))) ≡ some b
byte_of-digits b h =
    ap (λ o. byte_of o (from_hex (hex_digit (b % 16)))) (from_hex-hex_digit (b / 16) omega arith)
    ∙ ap (byte_of (some (b / 16))) (from_hex-hex_digit (b % 16) omega arith)
    ∙ ap some omega arith

unescape-percent :
    (b : ℕ) (s : Text) → b < 256 → unescape (percent b ++ s) ≡ onto (b ∷ []) (unescape s)
unfolding unescape
unescape-percent b s h =
    ap (λ o. cons_byte o (unescape s)) (byte_of-digits b h) ∙ cons_byte-onto b (unescape s)

onto-onto :
    (b : ℕ) (bs : List ℕ) (o : Option (List ℕ)) → onto (b ∷ []) (onto bs o) ≡ onto (b ∷ bs) o
onto-onto b bs none = refl
onto-onto b bs (some cs) = refl

onto-nil : (o : Option (List ℕ)) → o ≡ onto [] o
onto-nil none = refl
onto-nil (some cs) = refl

unescape-flat :
    (bs : List ℕ) (s : Text)
    → All (λ b. b < 256) bs
    → unescape (flat percent bs ++ s) ≡ onto bs (unescape s)
unfolding flat
unescape-flat [] s h = onto-nil (unescape s)
unescape-flat (b ∷ bs) s (lt, h) =
    unescape-percent b (flat percent bs ++ s) lt
    ∙ ap (onto (b ∷ [])) (unescape-flat bs s h)
    ∙ onto-onto b bs (unescape s)

utf8-bytes : (p : ℕ) → p < 0x110000 → All (λ b. b < 256) (utf8 p)
unfolding utf8
utf8-bytes p h = ground arith

-- An unreserved character is a byte of its own, and no percent sign.
unreserved_ascii : (p : ℕ) → is_unreserved p ≡ true → (p < 0x80) × ((p == b'%') ≡ false)
unfolding is_unreserved
unreserved_ascii p h = ground arith

utf8-ascii : (p : ℕ) → p < 0x80 → utf8 p ≡ p ∷ []
unfolding utf8
utf8-ascii p h = ground arith

unescape-unreserved :
    (p : ℕ) (s : Text)
    → (p < 0x80) × ((p == b'%') ≡ false)
    → is_unreserved p ≡ true
    → unescape (escape p ++ s) ≡ onto (utf8 p) (unescape s)
unfolding escape
unescape-unreserved p s (ascii, plain) h = rw h (rw (utf8-ascii p ascii) (unescape-plain p s plain))

unescape-escape :
    (p : ℕ) (s : Text) → p < 0x110000 → unescape (escape p ++ s) ≡ onto (utf8 p) (unescape s)
unfolding escape
unescape-escape p s lt = elim (Bool-cases (is_unreserved p)) [
  | inl h ↦ unescape-unreserved p s (unreserved_ascii p h) h
  | inr h ↦ rw h (unescape-flat (utf8 p) s (utf8-bytes p lt))
]

unescape-flat-escape :
    (ps : List ℕ) → All (λ p. p < 0x110000) ps → unescape (flat escape ps) ≡ some (flat utf8 ps)
unfolding flat unescape
unescape-flat-escape [] h = refl
unescape-flat-escape (p ∷ ps) (lt, h) =
    unescape-escape p (flat escape ps) lt ∙ ap (onto (utf8 p)) (unescape-flat-escape ps h)

-- All code points of a text, if it has them.
abbrev Points : Option (List ℕ) → Type 0
Points none = Unit
Points (some ps) = All (λ p. p < 0x110000) ps

if-Points :
    (b : Bool) (x y : Option (List ℕ))
    → (b ≡ true → Points x)
    → Points y
    → Points (if b then x else y)
if-Points true x y h k = h refl
if-Points false x y h k = k

cons_point-Points :
    (p : ℕ) (o : Option (List ℕ)) → p < 0x110000 → Points o → Points (cons_point p o)
cons_point-Points p none lt h = tt
cons_point-Points p (some ps) lt h = (lt, h)

pair-bounded :
    (c d : ℕ)
    → is_high c ≡ true
    → is_low d ≡ true
    → 0x10000 + (c - 0xd800) * 0x400 + (d - 0xdc00) < 0x110000
pair-bounded c d h l = ground arith

-- A text of 16-bit units has no code point beyond the last plane.
code_points-Points : (s : Text) → All (λ c. c < 0x10000) s → Points (code_points s)
unfolding code_points
code_points-Points [] h = tt
code_points-Points (c ∷ []) (lt, h) =
    if-Points (is_high c || is_low c) none (some (c ∷ [])) (λ _. tt) (omega arith, tt)
code_points-Points (c ∷ d ∷ s) (lt, (lt', h)) =
    if-Points (is_low c) none _ (λ _. tt)
      (if-Points (is_high c) _ _
        (λ high.
          if-Points (is_low d) _ none
            (λ low.
              cons_point-Points _ (code_points s) (pair-bounded c d high low)
                (code_points-Points s h))
            tt)
        (cons_point-Points c (code_points (d ∷ s)) omega arith
          (code_points-Points (d ∷ s) (lt', h))))

-- What the encoding of a text decodes to, given its code points.
abbrev pub bytes_of : Option (List ℕ) → Option (List ℕ)
bytes_of none = none
bytes_of (some ps) = some (flat utf8 ps)

unescape-encoded :
    (o : Option (List ℕ)) (t : Text) → Points o → encoded o ≡ some t → unescape t ≡ bytes_of o
unescape-encoded none t h e = absurd (ground arith)
unescape-encoded (some ps) t h e =
    ap unescape (sym (some-injective _ _ e)) ∙ unescape-flat-escape ps h

-- A unit that neither ends the value of a parameter nor stands for a space.
abbrev pub IsSafeUnit : ℕ → Type 0
IsSafeUnit c = ((c == b'&') ≡ false) × ((c == b'#') ≡ false) × ((c == b'+') ≡ false)

hex_digit-IsSafeUnit : (d : ℕ) → d < 16 → IsSafeUnit (hex_digit d)
hex_digit-IsSafeUnit d h = (ground arith, ground arith, ground arith)

unreserved-IsSafeUnit : (c : ℕ) → is_unreserved c ≡ true → IsSafeUnit c
unfolding is_unreserved
unreserved-IsSafeUnit c h = (ground arith, ground arith, ground arith)

flat-percent-IsSafeUnit : (bs : List ℕ) → All (λ b. b < 256) bs → All IsSafeUnit (flat percent bs)
unfolding flat
flat-percent-IsSafeUnit [] h = tt
flat-percent-IsSafeUnit (b ∷ bs) (lt, h) = (
  (refl, refl, refl),
  (
    hex_digit-IsSafeUnit (b / 16) omega arith,
    (hex_digit-IsSafeUnit (b % 16) omega arith, flat-percent-IsSafeUnit bs h),
  ),
)

flat-escape-IsSafeUnit :
    (ps : List ℕ) → All (λ p. p < 0x110000) ps → All IsSafeUnit (flat escape ps)
unfolding flat escape
flat-escape-IsSafeUnit [] h = tt
flat-escape-IsSafeUnit (p ∷ ps) (lt, h) = elim (Bool-cases (is_unreserved p)) [
  | inl plain ↦ rw plain (unreserved-IsSafeUnit p plain, flat-escape-IsSafeUnit ps h)
  | inr other ↦ rw other (
      All-append IsSafeUnit (flat percent (utf8 p)) (flat escape ps)
        (flat-percent-IsSafeUnit (utf8 p) (utf8-bytes p lt)) (flat-escape-IsSafeUnit ps h))
]

-- A value of a parameter that a query carries whole, and that decodes to these bytes.
abbrev Carries : Option (List ℕ) → Text → Type 0
Carries o q = (unescape q ≡ bytes_of o) × All IsSafeUnit q

encoded-Carries : (o : Option (List ℕ)) (q : Text) → Points o → encoded o ≡ some q → Carries o q
encoded-Carries none q h e = absurd (ground arith)
encoded-Carries (some ps) q h e = (
  unescape-encoded (some ps) q h e,
  subst (All IsSafeUnit) (some-injective _ _ e) (flat-escape-IsSafeUnit ps h),
)

encode_uri_component-Carries :
    (s q : Text)
    → All (λ c. c < 0x10000) s
    → encode_uri_component s ≡ some q
    → Carries (code_points s) q
unfolding encode_uri_component
encode_uri_component-Carries s q units e =
    encoded-Carries (code_points s) q (code_points-Points s units) e

-- The request that deletes a key of 16-bit code units, if one is sent: a DELETE of /api/keys whose query has the
-- one parameter `key`, and percent-decoding its value gives exactly the UTF-8 bytes of the key's code points;
-- no unit of it ends the value or is decoded to a space.
pub delete_key_request_lem :
    (env : Option Text) (key : Text) (r : Request)
    → All (λ c. c < 0x10000) key
    → delete_key_request env key ≡ some r
    → (q : Text) × (r.url ≡ api_base env ++ (text "/api/keys?key=" ++ q))
      × (unescape q ≡ bytes_of (code_points key))
      × All IsSafeUnit q
      × (r.method ≡ delete)
unfolding delete_key_request
delete_key_request_lem env key r units e = elim (Option-cases (encode_uri_component key)) [
  | inl f ↦ absurd (
      none-ne-some r (
        sym (
          ap
            (λ o. elim o [
              | none ↦ none
              | some k ↦ some (request env (text "/api/keys?key=" ++ k) delete none)
            ])
            f)
        ∙ e))
  | inr (q, f) ↦
      let sent : some (request env (text "/api/keys?key=" ++ q) delete none) ≡ some r =
        sym (
          ap
            (λ o. elim o [
              | none ↦ none
              | some k ↦ some (request env (text "/api/keys?key=" ++ k) delete none)
            ])
            f)
        ∙ e in
      let same = some-injective _ r sent in
      let (decoded, safe) = encode_uri_component-Carries key q units f in
      (q, sym (ap (λ r. r.url) same), decoded, safe, sym (ap (λ r. r.method) same))
]

is_ok_iff : (s : ℕ) → (is_ok s ≡ true) ↔ ((200 ≤ s) × (s ≤ 299))
is_ok_iff s = ground arith

fetch_found {ℓ} :
    {A : Type ℓ} (a : Answer A) (v : A)
    → api_fetch a ≡ some v
    → (s : ℕ) × ((a ≡ answered s (some v)) × ((200 ≤ s) × (s ≤ 299)))
unfolding api_fetch
fetch_found rejected v e = absurd (none-ne-some v e)
fetch_found (answered s o) v e = elim (Bool-cases (is_ok s)) [
  | inl h ↦ (s, (ap (answered s) (sym (ap (λ b. if b then o else none) h) ∙ e), (is_ok_iff s).0 h))
  | inr h ↦ absurd (none-ne-some v (sym (ap (λ b. if b then o else none) h) ∙ e))
]

-- `apiFetch` returns a value exactly when the request is answered with a status from 200 to 299
-- and a body that parses, and then it is the parsed body.
pub api_fetch_iff {ℓ} :
    {A : Type ℓ} (a : Answer A) (v : A)
    → (api_fetch a ≡ some v) ↔ ((s : ℕ) × ((a ≡ answered s (some v)) × ((200 ≤ s) × (s ≤ 299))))
unfolding api_fetch
api_fetch_iff a v = (
  fetch_found a v,
  λ (s, (e, b)). ap api_fetch e ∙ ap (λ b. if b then some v else none) ((is_ok_iff s).1 b),
)
