-- ===== src/Log.antt =====
-- backend/internal/persistence/aof.go: the append-only file, and what is read from it at a start. `bufio.Writer` is
-- the library's: how much of its buffer it writes to the file when a line comes is a parameter.
pub mod Replay
use cachestack.Base.{
  ℕ, Bool, true, not, ◌&&◌, List, [], ◌∷◌, ◌++◌, ◌+◌, ◌≤◌, ◌≡◌, take, drop, Option, none, some, map,
  filter, length, ltb, ◌==◌, if◌then◌else◌,
}
use cachestack.Text.{text, is_empty, join, split, starts_with}
use cachestack.Command.{Bytes, Command, Case, Parsed, parsed, empty_command, unterminated, parse}

-- `writer b s`: how many bytes go to the file when `s` is written behind the buffer `b`.
pub record Aof : Type 0 where
  pub file : Bytes
  pub buffer : Bytes
  pub writer : Bytes → Bytes → ℕ

-- A writer with a buffer of 64 KB: it writes nothing out while there is room, and never holds more.
pub record IsWriter (writer : Bytes → Bytes → ℕ) : Type 0 where
  pub waits : (b s : Bytes) → length b + length s ≤ 65536 → writer b s ≡ 0
  pub bounded : (b s : Bytes) → length b ≤ 65536 → length (drop (writer b s) (b ++ s)) ≤ 65536

-- `Open` of a path where no file is.
abbrev pub opened : (Bytes → Bytes → ℕ) → Aof
opened writer = record { file = []; buffer = []; writer = writer }

-- The line that `Append` writes.
unfoldable pub line_of : Bytes → List Bytes → Bytes
line_of cmd args = join (text " ") (cmd ∷ args) ++ text "\n"

-- `Append`
unfoldable pub append : Bytes → List Bytes → Aof → Aof
append cmd args a =
    let held : Bytes = a.buffer ++ line_of cmd args in
    let n : ℕ = a.writer a.buffer (line_of cmd args) in
    record a { file = a.file ++ take n held; buffer = drop n held }

-- `Flush`
unfoldable pub flush : Aof → Aof
flush a = record a { file = a.file ++ a.buffer; buffer = [] }

-- `dropCR` of the library: one carriage return at the end of a line.
unfoldable pub drop_cr : Bytes → Bytes
drop_cr [] = []
drop_cr (c ∷ s) = let rest = drop_cr s in if c == 13 && is_empty s then [] else c ∷ rest

-- The next line of what is unread, and what is behind its end, if it has one.
abbrev pub onto_line : ℕ → Bytes × Option Bytes → Bytes × Option Bytes
onto_line c (line, more) = (c ∷ line, more)

unfoldable pub next_line : Bytes → Bytes × Option Bytes
next_line [] = ([], none)
next_line (c ∷ s) = let rest = next_line s in if c == 10 then ([], some s) else onto_line c rest

-- `bufio.Scanner` by lines: an empty last line is none, and a line of 64 KB ends the scan with an error.
abbrev pub fits_buffer : Bytes → Bool
fits_buffer line = ltb (length line) 65536

unfoldable pub scan_lines : List Bytes → List Bytes
scan_lines [] = []
scan_lines (line ∷ []) = if not (is_empty line) && fits_buffer line then drop_cr line ∷ [] else []
scan_lines (line ∷ next ∷ more) =
    let rest = scan_lines (next ∷ more) in if fits_buffer line then drop_cr line ∷ rest else []

abbrev pub is_record : Bytes → Bool
is_record line = not (is_empty line) && not (starts_with (text "#") line)

-- `Replay` of a file that does not change meanwhile: the lines that the handler is called with. `trim_space` is `strings.TrimSpace`.
unfoldable pub replay : (Bytes → Bytes) → Bytes → List Bytes
replay trim_space file = filter is_record (map trim_space (scan_lines (split 10 file)))

-- The handler in backend/cmd/server/main.go: a line that is no command is skipped.
abbrev pub onto_commands : Parsed → List Command → List Command
onto_commands (parsed c) cs = c ∷ cs
onto_commands empty_command cs = cs
onto_commands unterminated cs = cs

unfoldable pub commands : Case → List Bytes → List Command
commands K [] = []
commands K (line ∷ lines) = onto_commands (parse K line) (commands K lines)
