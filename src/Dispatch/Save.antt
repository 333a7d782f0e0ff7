-- ===== src/Dispatch/Save.antt =====
-- A save in the dashboard, over the server's way of it: frontend/src/App.tsx, `handleSaveKey`, and `handleExec`.
use cachestack.Base.{
  ℕ, ◌<◌, ◌≡◌, ◌∙◌, refl, ap, false, [], ◌∷◌, ◌++◌, some, All-append, All_map, arith, ◌==◌,
}
use cachestack.Text.{text, text_eq, join, is_empty, IsAscii}
use cachestack.Keys.{set_command}
use cachestack.Command.{Bytes, Case, parsed, command_of, is_gap, tokenize, parse}
use cachestack.Command.Quotes.{IsSolid, strip_quotes, flips}
use cachestack.Command.Tokens.{IsPlain, IsWord, none_left, one_more, bare, paired, tokenize-Spelled}
use cachestack.Store.{set_string}
use cachestack.Log.{append}
use cachestack.Log.Replay.{
  IsTrim, NoBreak, IsPlain-NoBreak, trim_eol-NoBreak, NoGapLast, NoGapLast-cons, NoGapLast-append,
}
use cachestack.Dispatch.{dispatch}
use cachestack.Dispatch.Wire.{Host, Server}
use cachestack.Dispatch.Handlers
use cachestack.Dispatch.Http.{Codec, result, post_method, handle_exec}

IsSolid-NoBreak : (v : Bytes) → IsSolid v → NoBreak v
unfolding is_gap
IsSolid-NoBreak [] h = tt
IsSolid-NoBreak (c ∷ v) ((lt, gap), h) = ((ground arith, ground arith), IsSolid-NoBreak v h)

IsSolid-NoGapLast : (v : Bytes) → IsSolid v → NoGapLast v
IsSolid-NoGapLast [] h = tt
IsSolid-NoGapLast (c ∷ []) ((_, gap), _) = gap
IsSolid-NoGapLast (c ∷ d ∷ v) (_, h) = IsSolid-NoGapLast (d ∷ v) h

-- A value without white space, with its quotes in pairs, and something besides quotes.
pub record IsSaved (k v : Bytes) : Type 0 where
  pub key_word : IsWord k
  pub key_plain : IsPlain k
  pub solid : IsSolid v
  pub even : flips false v ≡ false
  pub left : IsWord (strip_quotes v)

some_solid : (v : Bytes) → IsWord (strip_quotes v) → is_empty v ≡ false
some_solid [] h = absurd (ground arith)
some_solid (c ∷ v) h = refl

line-NoBreak : (k v : Bytes) → IsSaved k v → NoBreak (set_command k v)
line-NoBreak k v h =
    All-append NotEnd (text "SET ") (k ++ (32 ∷ v))
      ((refl, refl), ((refl, refl), ((refl, refl), ((refl, refl), tt))))
      (All-append NotEnd k (32 ∷ v) (IsPlain-NoBreak k h.key_plain)
        ((refl, refl), IsSolid-NoBreak v h.solid))
  where
    NotEnd : ℕ → Type 0
    NotEnd c = ((c == 10) ≡ false) × ((c == 13) ≡ false)

line-IsAscii : (k v : Bytes) → IsSaved k v → IsAscii (set_command k v)
line-IsAscii k v h =
    All-append (λ c. c < 128) (text "SET ") (k ++ (32 ∷ v))
      (omega arith, (omega arith, (omega arith, (omega arith, tt))))
      (All-append (λ c. c < 128) k (32 ∷ v) (All_map _ (λ c. c < 128) k (λ c p. p.0) h.key_plain)
        (omega arith, All_map _ (λ c. c < 128) v (λ c p. p.0) h.solid))

line-NoGapLast : (k v : Bytes) → IsSaved k v → NoGapLast (set_command k v)
line-NoGapLast k v h =
    NoGapLast-append (text "SET " ++ k) (32 ∷ v) refl
      (NoGapLast-cons 32 v (some_solid v h.left) (IsSolid-NoGapLast v h.solid))

tokenize-line :
    (k v : Bytes)
    → IsSaved k v
    → tokenize (set_command k v) ≡ some (text "SET" ∷ k ∷ strip_quotes v ∷ [])
unfolding join is_gap
tokenize-line k v h = tokenize-Spelled (
    one_more
      (bare (text "SET") refl
        ((omega arith, refl, refl), ((omega arith, refl, refl), ((omega arith, refl, refl), tt))))
      (one_more (bare k h.key_word h.key_plain)
        (one_more (paired (strip_quotes v) v h.left h.solid h.even refl) none_left)))

parse-line :
    (K : Case) (k v : Bytes)
    → IsSaved k v
    → parse K (set_command k v)
      ≡ parsed (record { name = text "SET"; args = k ∷ strip_quotes v ∷ [] })
unfolding parse
parse-line K k v h =
    ap (λ l. command_of K (tokenize l)) (trim_eol-NoBreak (set_command k v) (line-NoBreak k v h))
    ∙ ap (command_of K) (tokenize-line k v h)
    ∙ ap (λ n. parsed (record { name = n; args = k ∷ strip_quotes v ∷ [] }))
        (K.upper_ascii (text "SET") (omega arith, (omega arith, (omega arith, tt))))

module _ {Float : Type 0} (H : Host Float) (C : Codec) (now : ℕ) where
  -- What the dashboard sends to save a value, for a key and a value of ASCII without white space, the
  -- key not empty and without quotes, and the value with an even number of quotes and something
  -- besides: the server answers +OK, the command is logged, and the key holds the value without its
  -- quotes; if TrimSpace leaves ASCII text that neither begins nor ends with white space.
  pub handle_exec-set_command :
      (k v : Bytes) (srv : Server Float)
      → IsTrim C.trim_space
      → IsSaved k v
      → handle_exec H C now post_method (set_command k v) srv
        ≡ some (
          result (text "+OK"),
          record srv {
            store = set_string k (strip_quotes v) srv.store;
            aof = append (text "SET") (k ∷ strip_quotes v ∷ []) srv.aof;
          },
        )
  unfolding handle_exec dispatch Handlers.set_command text_eq is_gap
  handle_exec-set_command k v srv t h =
      let trimmed : C.trim_space (set_command k v) ≡ set_command k v =
        t (set_command k v) (line-IsAscii k v h) refl (line-NoGapLast k v h) in
      rw trimmed (rw (parse-line H.letter_case k v h) refl)
