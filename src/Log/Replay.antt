-- ===== src/Log/Replay.antt =====
-- What is appended, next to what is read back.
use cachestack.Base.{
  ℕ, ◌<◌, ◌≡◌, ◌∙◌, refl, ap, sym, true, false, List, [], ◌∷◌, ◌++◌, take, drop, take-append-drop,
  some, map, filter, length, ◌==◌, arith, All, All-append, All_map,
}
use mathlib.Core.List.{append_assoc, append-nil}
use cachestack.Text.{text, is_empty, join, split, split_first, onto_first, starts_with, IsAscii}
use cachestack.Command.{Bytes, Command, Case, is_gap, parsed, parse, tokenize, trim_eol, command_of}
use cachestack.Command.Tokens.{
  IsPlain, IsWord, Spelled, none_left, one_more, bare, tokenize-Spelled,
}
use cachestack.Log.{
  Aof, opened, next_line, onto_line, line_of, append, flush, drop_cr, fits_buffer, scan_lines,
  is_record, replay, onto_commands, commands,
}

-- `strings.TrimSpace` on ASCII leaves a text that no white space begins or ends.
abbrev pub NoGapFirst : Bytes → Type 0
NoGapFirst [] = Unit
NoGapFirst (c ∷ s) = is_gap c ≡ false

abbrev pub NoGapLast : Bytes → Type 0
NoGapLast [] = Unit
NoGapLast (c ∷ []) = is_gap c ≡ false
NoGapLast (c ∷ d ∷ s) = NoGapLast (d ∷ s)

abbrev pub IsTrim : (Bytes → Bytes) → Type 0
IsTrim trim_space = (s : Bytes) → IsAscii s → NoGapFirst s → NoGapLast s → trim_space s ≡ s

-- The line without its end.
abbrev pub body : Command → Bytes
body c = join (text " ") (c.name ∷ c.args)

-- A command that its line says all of: its words are ASCII, not empty, without white space and quotes.
pub record IsRecorded (K : Case) (c : Command) : Type 0 where
  pub words : All (λ w. IsWord w × IsPlain w) (c.name ∷ c.args)
  pub named : K.upper c.name ≡ c.name
  pub no_comment : starts_with (text "#") (body c) ≡ false
  pub short : length (body c) < 65536

unfoldable pub recorded : List Command → Aof → Aof
recorded [] a = a
recorded (c ∷ cs) a = recorded cs (append c.name c.args a)

unfoldable pub written : List Command → Bytes
written [] = []
written (c ∷ cs) = line_of c.name c.args ++ written cs

-- What is in the file and the buffer together.
abbrev pub content : Aof → Bytes
content a = a.file ++ a.buffer

pub content-append :
    (cmd : Bytes) (args : List Bytes) (a : Aof)
    → content (append cmd args a) ≡ content a ++ line_of cmd args
unfolding append
content-append cmd args a =
    let held : Bytes = a.buffer ++ line_of cmd args in
    let n : ℕ = a.writer a.buffer (line_of cmd args) in
    append_assoc a.file (take n held) (drop n held)
    ∙ ap (λ b. a.file ++ b) (take-append-drop n held)
    ∙ sym (append_assoc a.file a.buffer (line_of cmd args))

pub content-recorded :
    (cs : List Command) (a : Aof) → content (recorded cs a) ≡ content a ++ written cs
unfolding recorded written
content-recorded [] a = sym (append-nil (content a))
content-recorded (c ∷ cs) a =
    content-recorded cs (append c.name c.args a)
    ∙ ap (λ b. b ++ written cs) (content-append c.name c.args a)
    ∙ append_assoc (content a) (line_of c.name c.args) (written cs)

pub flush-recorded :
    (cs : List Command) (a : Aof) → (flush (recorded cs a)).file ≡ content a ++ written cs
unfolding flush
flush-recorded cs a = content-recorded cs a

-- No byte of a line ends it.
abbrev pub NoBreak : Bytes → Type 0
NoBreak = All (λ c. ((c == 10) ≡ false) × ((c == 13) ≡ false))

pub IsPlain-NoBreak : (w : Bytes) → IsPlain w → NoBreak w
unfolding is_gap
IsPlain-NoBreak [] h = tt
IsPlain-NoBreak (c ∷ w) ((lt, gap, quote), h) = ((ground arith, ground arith), IsPlain-NoBreak w h)

join-NoBreak : (ws : List Bytes) → All (λ w. IsWord w × IsPlain w) ws → NoBreak (join (text " ") ws)
unfolding join
join-NoBreak [] h = tt
join-NoBreak (w ∷ []) ((word, plain), h) = IsPlain-NoBreak w plain
join-NoBreak (w ∷ v ∷ ws) ((word, plain), h) =
    All-append (λ c. ((c == 10) ≡ false) × ((c == 13) ≡ false)) w (32 ∷ join (text " ") (v ∷ ws))
      (IsPlain-NoBreak w plain) ((refl, refl), join-NoBreak (v ∷ ws) h)

join-IsAscii : (ws : List Bytes) → All (λ w. IsWord w × IsPlain w) ws → IsAscii (join (text " ") ws)
unfolding join
join-IsAscii [] h = tt
join-IsAscii (w ∷ []) ((word, plain), h) = All_map _ (λ c. c < 128) w (λ c p. p.0) plain
join-IsAscii (w ∷ v ∷ ws) ((word, plain), h) =
    All-append (λ c. c < 128) w (32 ∷ join (text " ") (v ∷ ws))
      (All_map _ (λ c. c < 128) w (λ c p. p.0) plain) (omega arith, join-IsAscii (v ∷ ws) h)

split_first-line :
    (l rest : Bytes)
    → NoBreak l
    → split_first 10 (l ++ (10 ∷ rest)) ≡ (l, (split_first 10 rest).0 ∷ (split_first 10 rest).1)
unfolding split_first
split_first-line [] rest h = refl
split_first-line (c ∷ l) rest ((e, _), h) = rw e (ap (onto_first c) (split_first-line l rest h))

split-line : (l rest : Bytes) → NoBreak l → split 10 (l ++ (10 ∷ rest)) ≡ l ∷ split 10 rest
unfolding split
split-line l rest h = ap (λ p. p.0 ∷ p.1) (split_first-line l rest h)

pub next_line-line : (l rest : Bytes) → NoBreak l → next_line (l ++ (10 ∷ rest)) ≡ (l, some rest)
unfolding next_line
next_line-line [] rest h = refl
next_line-line (c ∷ l) rest ((e, _), h) = rw e (ap (onto_line c) (next_line-line l rest h))

pub drop_cr-NoBreak : (l : Bytes) → NoBreak l → drop_cr l ≡ l
unfolding drop_cr
drop_cr-NoBreak [] h = refl
drop_cr-NoBreak (c ∷ l) ((_, e), h) = rw e (ap (◌∷◌ c) (drop_cr-NoBreak l h))

pub trim_eol-NoBreak : (l : Bytes) → NoBreak l → trim_eol l ≡ l
unfolding trim_eol
trim_eol-NoBreak [] h = refl
trim_eol-NoBreak (c ∷ l) ((e, f), h) = rw (e, f) (ap (◌∷◌ c) (trim_eol-NoBreak l h))

is_empty-append : (s t : Bytes) → is_empty s ≡ false → is_empty (s ++ t) ≡ false
is_empty-append [] t h = absurd (ground arith)
is_empty-append (c ∷ s) t h = refl

join-IsWord : (w : Bytes) (ws : List Bytes) → IsWord w → is_empty (join (text " ") (w ∷ ws)) ≡ false
unfolding join
join-IsWord w [] h = h
join-IsWord w (v ∷ ws) h = is_empty-append w (32 ∷ join (text " ") (v ∷ ws)) h

join-NoGapFirst :
    (w : Bytes) (ws : List Bytes) → IsWord w → IsPlain w → NoGapFirst (join (text " ") (w ∷ ws))
unfolding join
join-NoGapFirst [] ws word plain = absurd (ground arith)
join-NoGapFirst (c ∷ w) [] word ((_, gap, _), _) = gap
join-NoGapFirst (c ∷ w) (v ∷ ws) word ((_, gap, _), _) = gap

pub NoGapLast-cons : (c : ℕ) (s : Bytes) → is_empty s ≡ false → NoGapLast s → NoGapLast (c ∷ s)
NoGapLast-cons c [] some_left h = absurd (ground arith)
NoGapLast-cons c (d ∷ s) some_left h = h

pub NoGapLast-append : (p s : Bytes) → is_empty s ≡ false → NoGapLast s → NoGapLast (p ++ s)
NoGapLast-append [] s some_left h = h
NoGapLast-append (c ∷ p) s some_left h =
    NoGapLast-cons c (p ++ s) (some_behind p) (NoGapLast-append p s some_left h)
  where
    some_behind : (p : Bytes) → is_empty (p ++ s) ≡ false
    some_behind [] = some_left
    some_behind (c ∷ p) = refl

IsPlain-NoGapLast : (w : Bytes) → IsPlain w → NoGapLast w
IsPlain-NoGapLast [] h = tt
IsPlain-NoGapLast (c ∷ []) ((_, gap, _), _) = gap
IsPlain-NoGapLast (c ∷ d ∷ w) (_, h) = IsPlain-NoGapLast (d ∷ w) h

join-NoGapLast :
    (ws : List Bytes) → All (λ w. IsWord w × IsPlain w) ws → NoGapLast (join (text " ") ws)
unfolding join
join-NoGapLast [] h = tt
join-NoGapLast (w ∷ []) ((word, plain), h) = IsPlain-NoGapLast w plain
join-NoGapLast (w ∷ v ∷ ws) (_, ((word, plain), h)) =
    NoGapLast-append w (32 ∷ join (text " ") (v ∷ ws)) refl (
      NoGapLast-cons 32 (join (text " ") (v ∷ ws)) (join-IsWord v ws word)
        (join-NoGapLast (v ∷ ws) ((word, plain), h)))

Spelled-bare : (ws : List Bytes) → All (λ w. IsWord w × IsPlain w) ws → Spelled ws ws
Spelled-bare [] h = none_left
Spelled-bare (w ∷ ws) ((word, plain), h) = one_more (bare w word plain) (Spelled-bare ws h)

module _ (K : Case) where
  pub parse-body : (c : Command) → IsRecorded K c → parse K (body c) ≡ parsed c
  unfolding parse
  parse-body c r =
      ap (λ l. command_of K (tokenize l))
        (trim_eol-NoBreak (body c) (join-NoBreak (c.name ∷ c.args) r.words))
      ∙ ap (command_of K) (tokenize-Spelled (Spelled-bare (c.name ∷ c.args) r.words))
      ∙ ap (λ n. parsed (record { name = n; args = c.args })) r.named

  pub is_record-body : (c : Command) → IsRecorded K c → is_record (body c) ≡ true
  is_record-body c r = rw (join-IsWord c.name c.args r.words.0.0, r.no_comment) refl

  scan_lines-written :
      (cs : List Command) → All (IsRecorded K) cs → scan_lines (split 10 (written cs)) ≡ map body cs
  unfolding written line_of scan_lines split split_first
  scan_lines-written [] h = refl
  scan_lines-written (c ∷ cs) (r, h) =
      let clean : NoBreak (body c) = join-NoBreak (c.name ∷ c.args) r.words in
      let short : fits_buffer (body c) ≡ true = long_enough (body c) r.short in
      ap (λ s. scan_lines (split 10 s)) (append_assoc (body c) (text "\n") (written cs))
      ∙ ap scan_lines (split-line (body c) (written cs) clean)
      ∙ rw (short, drop_cr-NoBreak (body c) clean) (ap (◌∷◌ (body c)) (scan_lines-written cs h))
    where
      long_enough : (l : Bytes) → length l < 65536 → fits_buffer l ≡ true
      long_enough l h = ground arith

  pub trim-body :
      (trim_space : Bytes → Bytes) (c : Command)
      → IsTrim trim_space
      → IsRecorded K c
      → trim_space (body c) ≡ body c
  trim-body trim_space c t r =
      t (body c) (join-IsAscii (c.name ∷ c.args) r.words)
        (join-NoGapFirst c.name c.args r.words.0.0 r.words.0.1)
        (join-NoGapLast (c.name ∷ c.args) r.words)

  pub body-NoBreak : (c : Command) → IsRecorded K c → NoBreak (body c)
  body-NoBreak c r = join-NoBreak (c.name ∷ c.args) r.words

  trimmed :
      (trim_space : Bytes → Bytes) (cs : List Command)
      → IsTrim trim_space
      → All (IsRecorded K) cs
      → map trim_space (map body cs) ≡ map body cs
  trimmed trim_space [] t h = refl
  trimmed trim_space (c ∷ cs) t (r, h) =
      ap (λ l. l ∷ map trim_space (map body cs)) (trim-body trim_space c t r)
      ∙ ap (◌∷◌ (body c)) (trimmed trim_space cs t h)

  all_records :
      (cs : List Command) → All (IsRecorded K) cs → filter is_record (map body cs) ≡ map body cs
  all_records [] h = refl
  all_records (c ∷ cs) (r, h) = rw (is_record-body c r) (ap (◌∷◌ (body c)) (all_records cs h))

  commands-body : (cs : List Command) → All (IsRecorded K) cs → commands K (map body cs) ≡ cs
  unfolding commands
  commands-body [] h = refl
  commands-body (c ∷ cs) (r, h) =
      ap (λ p. onto_commands p (commands K (map body cs))) (parse-body c r)
      ∙ ap (◌∷◌ c) (commands-body cs h)

  -- Commands that are appended to an empty file and flushed are what a replay of the file yields, in
  -- their order, whenever the writer wrote its buffer out in between, where each one's words are not empty
  -- and are ASCII without white space and quotes, its name is in upper case, its line begins no comment and
  -- is shorter than 64 KB, and TrimSpace leaves ASCII text that neither begins nor ends with white space.
  pub commands-replay :
      (trim_space : Bytes → Bytes) (writer : Bytes → Bytes → ℕ) (cs : List Command)
      → IsTrim trim_space
      → All (IsRecorded K) cs
      → commands K (replay trim_space (flush (recorded cs (opened writer))).file) ≡ cs
  unfolding replay
  commands-replay trim_space writer cs t h =
      ap (λ f. commands K (filter is_record (map trim_space (scan_lines (split 10 f)))))
        (flush-recorded cs (opened writer))
      ∙ ap (λ ls. commands K (filter is_record (map trim_space ls))) (scan_lines-written cs h)
      ∙ ap (λ ls. commands K (filter is_record ls)) (trimmed trim_space cs t h)
      ∙ ap (commands K) (all_records cs h)
      ∙ commands-body cs h
