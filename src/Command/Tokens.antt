-- ===== src/Command/Tokens.antt =====
-- What is written as tokens is read back as them.
use cachestack.Base.{
  ◌<◌, ◌≡◌, ◌∙◌, refl, ap, sym, Bool, true, false, List, [], ◌∷◌, ◌++◌, some, arith, ◌==◌, All,
}
use mathlib.Core.List.{append_assoc, append-nil}
use cachestack.Text.{text, join, is_empty}
use cachestack.Command.{Bytes, is_gap, scan_byte, scan, scanned, tokenize}
use cachestack.Command.Quotes.{
  IsSolid, strip_quotes, flips, at_scan, scan-append, scan_byte-kept, scan-IsSolid,
}

-- A word that needs no quotes, and one that can stand in them.
abbrev pub IsPlain : Bytes → Type 0
IsPlain = All (λ c. (c < 128) × (is_gap c ≡ false) × ((c == b'"') ≡ false))

abbrev pub IsQuotable : Bytes → Type 0
IsQuotable = All (λ c. (c < 128) × ((c == b'"') ≡ false))

abbrev pub IsWord : Bytes → Type 0
IsWord w = is_empty w ≡ false

-- How a word can be written: as it is, in quotes, or with quotes in pairs anywhere, which are dropped.
pub data Written : Bytes → Bytes → Type 0 where
  bare : (w : Bytes) → IsWord w → IsPlain w → Written w w
  paired :
      (w t : Bytes)
      → IsWord w
      → IsSolid t
      → flips false t ≡ false
      → w ≡ strip_quotes t
      → Written t w
  quoted : (w t : Bytes) → IsWord w → IsQuotable w → t ≡ b'"' ∷ (w ++ text "\"") → Written t w

pub scan-IsPlain :
    (w : Bytes) (ts : List Bytes) (cur : Bytes) (q : Bool)
    → IsPlain w
    → scan w (at_scan ts cur q) ≡ at_scan ts (cur ++ w) q
unfolding scan
scan-IsPlain [] ts cur q h = ap (λ u. at_scan ts u q) (sym (append-nil cur))
scan-IsPlain (c ∷ w) ts cur q ((lt, gap, quote), h) =
    ap (scan w) (scan_byte-kept c ts cur q lt quote (λ _. gap))
    ∙ scan-IsPlain w ts (cur ++ (c ∷ [])) q h
    ∙ ap (λ u. at_scan ts u q) (append_assoc cur (c ∷ []) w)

scan-IsQuotable :
    (w : Bytes) (ts : List Bytes) (cur : Bytes)
    → IsQuotable w
    → scan w (at_scan ts cur true) ≡ at_scan ts (cur ++ w) true
unfolding scan
scan-IsQuotable [] ts cur h = ap (λ u. at_scan ts u true) (sym (append-nil cur))
scan-IsQuotable (c ∷ w) ts cur ((lt, quote), h) =
    ap (scan w) (scan_byte-kept c ts cur true lt quote (λ e. absurd (ground arith)))
    ∙ scan-IsQuotable w ts (cur ++ (c ∷ [])) h
    ∙ ap (λ u. at_scan ts u true) (append_assoc cur (c ∷ []) w)

pub scan-Written :
    {t w : Bytes} (ts : List Bytes)
    → Written t w
    → scan t (at_scan ts [] false) ≡ at_scan ts w false
unfolding scan scan_byte
scan-Written ts (bare w word plain) = scan-IsPlain w ts [] false plain
scan-Written ts (paired w t word solid even e) =
    scan-IsSolid t ts [] false solid
    ∙ ap (at_scan ts (strip_quotes t)) even
    ∙ ap (λ u. at_scan ts u false) (sym e)
scan-Written ts (quoted w t word plain e) =
    ap (λ u. scan u (at_scan ts [] false)) e
    ∙ scan-append w (text "\"") (at_scan ts [] true)
    ∙ ap (scan (text "\"")) (scan-IsQuotable w ts [] plain)

Written-IsWord : {t w : Bytes} → Written t w → IsWord w
Written-IsWord (bare w word plain) = word
Written-IsWord (paired w t word solid even e) = word
Written-IsWord (quoted w t word plain e) = word

-- A space outside quotes, behind a word.
scan_byte-space :
    (ts : List Bytes) (w : Bytes)
    → IsWord w
    → scan_byte 32 (at_scan ts w false) ≡ at_scan (ts ++ (w ∷ [])) [] false
unfolding scan_byte is_gap
scan_byte-space ts w word = rw word refl

-- Tokens as they are written, and the words that they stand for.
pub data Spelled : List Bytes → List Bytes → Type 0 where
  none_left : Spelled [] []
  one_more :
      {t w : Bytes} {ts ws : List Bytes} → Written t w → Spelled ts ws → Spelled (t ∷ ts) (w ∷ ws)

scan-Spelled :
    {ts ws : List Bytes} (read : List Bytes)
    → Spelled ts ws
    → scanned (scan (join (text " ") ts) (at_scan read [] false)) ≡ some (read ++ ws)
unfolding join scan
scan-Spelled read none_left = ap some (sym (append-nil read))
scan-Spelled read (one_more {w = w} h none_left) =
    ap scanned (scan-Written read h) ∙ ap some (rw (Written-IsWord h) refl)
scan-Spelled read (one_more {t = t} {w = w} {ws = ws} h (one_more {t = u} {ts = us} k more)) =
    ap scanned (scan-append t (32 ∷ join (text " ") (u ∷ us)) (at_scan read [] false))
    ∙ ap (λ s. scanned (scan (32 ∷ join (text " ") (u ∷ us)) s)) (scan-Written read h)
    ∙ ap (λ s. scanned (scan (join (text " ") (u ∷ us)) s))
        (scan_byte-space read w (Written-IsWord h))
    ∙ scan-Spelled (read ++ (w ∷ [])) (one_more k more)
    ∙ ap some (append_assoc read (w ∷ []) ws)

-- Words of ASCII that are not empty, with a space between two, are read as exactly these words, where each
-- is written as it is, if it holds neither white space nor a quote; or in quotes, if it holds no quote; or
-- with an even number of quotes put anywhere into it, if it holds no white space: these are dropped.
pub tokenize-Spelled :
    {ts ws : List Bytes} → Spelled ts ws → tokenize (join (text " ") ts) ≡ some ws
unfolding tokenize
tokenize-Spelled h = scan-Spelled [] h
