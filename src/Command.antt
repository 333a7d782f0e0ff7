-- ===== src/Command.antt =====
-- backend/internal/parser/parser.go: a line of the text protocol, cut into tokens. Go strings are lists of
-- bytes. Go's tables of letter case are the parameter `Case`.
pub mod Tokens
pub mod Quotes
use cachestack.Base.{
  ℕ, Bool, true, false, not, ◌&&◌, ◌||◌, ◌≡◌, ◌-◌, List, [], ◌∷◌, ◌++◌, Option, none, some, map,
  leb, ◌==◌, if◌then◌else◌,
}
use cachestack.Text.{Text, text, text_eq, is_empty, ascii_lower, IsAscii}
use cachestack.Client.Uri.{utf8}

abbrev pub Bytes : Type 0
Bytes = Text

abbrev pub ascii_upper : ℕ → ℕ
ascii_upper c = if leb b'a' c && leb c b'z' then c - 32 else c

-- `strings.ToUpper` and `strings.ToLower`, on UTF-8.
pub record Case : Type 0 where
  pub upper : Bytes → Bytes
  pub lower : Bytes → Bytes
  pub upper_ascii : (s : Bytes) → IsAscii s → upper s ≡ map ascii_upper s
  pub lower_ascii : (s : Bytes) → IsAscii s → lower s ≡ map ascii_lower s

pub record Command : Type 0 where
  pub name : Bytes
  pub args : List Bytes

-- `unicode.IsSpace(rune(b))` for a byte.
unfoldable pub is_gap : ℕ → Bool
is_gap c = (leb 9 c && leb c 13) || c == 32 || c == 0x85 || c == 0xa0

-- The variables of `tokenize`.
pub record Scan : Type 0 where
  pub tokens : List Bytes
  pub cur : Bytes
  pub in_quote : Bool

-- `if cur.Len() > 0 { tokens = append(tokens, cur.String()) }`
abbrev pub flushed : List Bytes → Bytes → List Bytes
flushed tokens cur = if is_empty cur then tokens else tokens ++ (cur ∷ [])

-- One round of the loop; `WriteRune(rune(s[i]))` writes the byte as a code point.
unfoldable pub scan_byte : ℕ → Scan → Scan
scan_byte c s =
    if c == b'"'
    then record s { in_quote = not s.in_quote }
    else if not s.in_quote && is_gap c
    then record s { tokens = flushed s.tokens s.cur; cur = [] }
    else record s { cur = s.cur ++ utf8 c }

unfoldable pub scan : Bytes → Scan → Scan
scan [] s = s
scan (c ∷ bytes) s = scan bytes (scan_byte c s)

abbrev pub scanned : Scan → Option (List Bytes)
scanned s = if s.in_quote then none else some (flushed s.tokens s.cur)

-- `none` is the error of an unterminated quote.
unfoldable pub tokenize : Bytes → Option (List Bytes)
tokenize s = scanned (scan s (record { tokens = []; cur = []; in_quote = false }))

-- `strings.TrimRight(line, "\r\n")`
unfoldable pub trim_eol : Bytes → Bytes
trim_eol [] = []
trim_eol (c ∷ s) =
    let rest = trim_eol s in if (c == 13 || c == 10) && is_empty rest then [] else c ∷ rest

pub data Parsed : Type 0 where
  parsed : Command → Parsed
  empty_command : Parsed
  unterminated : Parsed

abbrev pub command_of : Case → Option (List Bytes) → Parsed
command_of K none = unterminated
command_of K (some []) = empty_command
command_of K (some (t ∷ ts)) = parsed (record { name = K.upper t; args = ts })

unfoldable pub parse : Case → Bytes → Parsed
parse K line = command_of K (tokenize (trim_eol line))

-- `Arity`: the table, and -1 for every other name.
abbrev pub fixed_arity : List (Bytes × ℕ)
fixed_arity =
    (text "GET", 1)
    ∷ (text "DEL", 1)
    ∷ (text "TTL", 1)
    ∷ (text "LPOP", 1)
    ∷ (text "SMEMBERS", 1)
    ∷ (text "KEYS", 0)
    ∷ (text "DBSIZE", 0)
    ∷ (text "PING", 0)
    ∷ (text "FLUSHALL", 0)
    ∷ []

unfoldable pub arity_in : Bytes → List (Bytes × ℕ) → Option ℕ
arity_in name [] = none
arity_in name ((n, k) ∷ more) =
    let rest = arity_in name more in if text_eq n name then some k else rest

unfoldable pub arity : Bytes → Option ℕ
unfolding arity_in
arity name = arity_in name fixed_arity
