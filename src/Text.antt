-- ===== src/Text.antt =====
-- JavaScript strings as lists of UTF-16 code units, and the string methods that the dashboard calls:
-- `trim`, `split`, `join`, `startsWith`, `indexOf`, `includes`, `slice`, `===`, `replace(/\s+/g, c)`.
-- Letter case is Unicode's table, which the source does not hold: it is the parameter `Unicode`.
pub mod Equality
pub mod Names
pub mod Split
pub mod Search
pub mod Spaces
pub mod Decimal
pub mod Sample
use Prim.Native.Char.{code}
use Prim.Native.String.{String}
use cachestack.Base.{
  ℕ, zero, suc, ◌+◌, ◌≤◌, ◌<◌, ◌≡◌, Bool, true, false, ◌&&◌, ◌||◌, List, [], ◌∷◌, ◌++◌, Option,
  none, some, map, if◌then◌else◌, leb, ltb, ◌==◌, All, drop, length, take,
}

abbrev pub Text : Type 0
Text = List ℕ

-- A literal of the source; its characters are all below 0x10000, one code unit each.
abbrev pub text : String → Text
text String.[] = []
text (String.◌∷◌ c s) = code c ∷ text s

-- `s === t`
unfoldable pub text_eq : Text → Text → Bool
text_eq [] [] = true
text_eq (a ∷ s) (b ∷ t) = a == b && text_eq s t
text_eq _ _ = false

-- A string as a condition: `""` is falsy.
abbrev pub is_empty : Text → Bool
is_empty [] = true
is_empty (_ ∷ _) = false

-- `a || b` on strings
abbrev pub or_else : Text → Text → Text
or_else [] t = t
or_else (c ∷ s) t = c ∷ s

-- White space and line terminators, the class of `trim` and of `\s`.
unfoldable pub is_space : ℕ → Bool
is_space c =
    (leb 9 c && leb c 13)
    || c == 32
    || c == 160
    || c == 0x1680
    || (leb 0x2000 c && leb c 0x200a)
    || c == 0x2028
    || c == 0x2029
    || c == 0x202f
    || c == 0x205f
    || c == 0x3000
    || c == 0xfeff

unfoldable pub trim_start : Text → Text
trim_start [] = []
trim_start (c ∷ s) = let rest = trim_start s in if is_space c then rest else c ∷ s

-- Drops white space at the end: a space is kept if something is kept behind it.
unfoldable pub trim_end : Text → Text
trim_end [] = []
trim_end (c ∷ s) = let rest = trim_end s in if is_space c && is_empty rest then [] else c ∷ rest

unfoldable pub trim : Text → Text
trim s = trim_end (trim_start s)

-- The first part of `s.split(sep)`, and the parts behind it.
abbrev pub onto_first : ℕ → Text × List Text → Text × List Text
onto_first c (first, more) = (c ∷ first, more)

abbrev pub new_first : Text × List Text → Text × List Text
new_first (first, more) = ([], first ∷ more)

unfoldable pub split_first : ℕ → Text → Text × List Text
split_first sep [] = ([], [])
split_first sep (c ∷ s) =
    let rest = split_first sep s in if c == sep then new_first rest else onto_first c rest

-- `s.split(sep)` for a separator of one code unit: never empty.
unfoldable pub split : ℕ → Text → List Text
unfolding split_first
split sep s = let (first, more) = split_first sep s in first ∷ more

-- `parts.join(sep)`
unfoldable pub join : Text → List Text → Text
join sep [] = []
join sep (part ∷ []) = part
join sep (part ∷ next ∷ more) = part ++ (sep ++ join sep (next ∷ more))

unfoldable pub starts_with : Text → Text → Bool
starts_with [] s = true
starts_with (_ ∷ _) [] = false
starts_with (a ∷ p) (b ∷ s) = a == b && starts_with p s

-- `s.indexOf(p)`; `none` is -1.
unfoldable pub index_of : Text → Text → Option ℕ
unfolding starts_with
index_of p [] = if is_empty p then some 0 else none
index_of p (c ∷ s) =
    let later = index_of p s in
    if starts_with p (c ∷ s) then some 0 else elim later [ none ↦ none | some i ↦ some (suc i) ]

-- `s.includes(p)`
unfoldable pub includes : Text → Text → Bool
unfolding index_of
includes p s = elim (index_of p s) [ none ↦ false | some _ ↦ true ]

-- `s.replace(/\s+/g, c)`: each run of white space becomes one `c`. The flag says that the code unit
-- before was white space.
unfoldable pub squeeze_from : Bool → ℕ → Text → Text
squeeze_from before r [] = []
squeeze_from before r (c ∷ s) =
    let rest = squeeze_from (is_space c) r s in
    if is_space c then (if before then rest else r ∷ rest) else c ∷ rest

unfoldable pub squeeze_spaces : ℕ → Text → Text
unfolding squeeze_from
squeeze_spaces r s = squeeze_from false r s

-- ASCII letter case, one code unit at a time.
abbrev pub IsAscii : Text → Type 0
IsAscii s = All (λ c. c < 128) s

unfoldable pub ascii_lower : ℕ → ℕ
ascii_lower c = if leb b'A' c && leb c b'Z' then c + 32 else c

-- `toLowerCase` and `toUpperCase`, which follow Unicode's tables.
pub record Unicode : Type 0 where
  pub to_lower : Text → Text
  pub to_upper : Text → Text
  -- On ASCII text the lower case is that of each letter.
  pub to_lower_ascii : (s : Text) → IsAscii s → to_lower s ≡ map ascii_lower s
