-- ===== src/Command/Quotes.antt =====
-- A run of bytes without gaps: its quotes are dropped, and every other byte is kept.
use cachestack.Base.{
  ℕ, ◌<◌, ◌≡◌, ◌∙◌, refl, ap, sym, Bool, true, false, not, List, [], ◌∷◌, ◌++◌, arith, filter, ◌==◌,
  if◌then◌else◌, All, Bool-cases, inl, inr,
}
use mathlib.Core.List.{append_assoc, append-nil}
use cachestack.Client.Uri.{utf8}
use cachestack.Command.{Bytes, is_gap, Scan, scan_byte, scan}

-- ASCII, and no white space.
abbrev pub IsSolid : Bytes → Type 0
IsSolid = All (λ c. (c < 128) × (is_gap c ≡ false))

abbrev pub strip_quotes : Bytes → Bytes
strip_quotes = filter (λ c. not (c == b'"'))

-- Whether the scan is inside quotes behind these bytes.
unfoldable pub flips : Bool → Bytes → Bool
flips q [] = q
flips q (c ∷ s) = flips (if c == b'"' then not q else q) s

pub utf8-ascii : (c : ℕ) → c < 128 → utf8 c ≡ c ∷ []
unfolding utf8
utf8-ascii c h = ground arith

pub scan-append : (s t : Bytes) (r : Scan) → scan (s ++ t) r ≡ scan t (scan s r)
unfolding scan
scan-append [] t r = refl
scan-append (c ∷ s) t r = scan-append s t (scan_byte c r)

abbrev pub at_scan : List Bytes → Bytes → Bool → Scan
at_scan ts cur q = record { tokens = ts; cur = cur; in_quote = q }

-- A byte that is neither a quote nor, outside quotes, white space.
pub scan_byte-kept :
    (c : ℕ) (ts : List Bytes) (cur : Bytes) (q : Bool)
    → c < 128
    → (c == b'"') ≡ false
    → (q ≡ false → is_gap c ≡ false)
    → scan_byte c (at_scan ts cur q) ≡ at_scan ts (cur ++ (c ∷ [])) q
unfolding scan_byte
scan_byte-kept c ts cur true lt no_quote h =
    rw no_quote (ap (λ u. at_scan ts (cur ++ u) true) (utf8-ascii c lt))
scan_byte-kept c ts cur false lt no_quote h =
    rw no_quote (rw (h refl) (ap (λ u. at_scan ts (cur ++ u) false) (utf8-ascii c lt)))

scan_byte-quote :
    (c : ℕ) (ts : List Bytes) (cur : Bytes) (q : Bool)
    → (c == b'"') ≡ true
    → scan_byte c (at_scan ts cur q) ≡ at_scan ts cur (not q)
unfolding scan_byte
scan_byte-quote c ts cur q e = rw e refl

pub scan-IsSolid :
    (s : Bytes) (ts : List Bytes) (cur : Bytes) (q : Bool)
    → IsSolid s
    → scan s (at_scan ts cur q) ≡ at_scan ts (cur ++ strip_quotes s) (flips q s)
unfolding scan flips
scan-IsSolid [] ts cur q h = ap (λ u. at_scan ts u q) (sym (append-nil cur))
scan-IsSolid (c ∷ s) ts cur q ((lt, solid), h) = elim (Bool-cases (c == b'"')) [
  | inl e ↦ ap (scan s) (scan_byte-quote c ts cur q e) ∙ scan-IsSolid s ts cur (not q) h ∙ rw e refl
  | inr e ↦
      ap (scan s) (scan_byte-kept c ts cur q lt e (λ _. solid))
      ∙ scan-IsSolid s ts (cur ++ (c ∷ [])) q h
      ∙ rw e (ap (λ u. at_scan ts u (flips q s)) (append_assoc cur (c ∷ []) (strip_quotes s)))
]
