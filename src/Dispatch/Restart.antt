-- ===== src/Dispatch/Restart.antt =====
-- backend/cmd/server/main.go: the commands of the append-only file are dispatched again at a start. The dispatch
-- logs to the file that is read, which was opened with O_APPEND: each line is looked for in the file as it is by
-- then. The file only grows at its end, so it does not matter how far the scanner has read ahead.
use cachestack.Base.{ℕ, zero, suc, Bool, [], ◌++◌, Option, none, some, drop, length, if◌then◌else◌}
use cachestack.Text.{is_empty}
use cachestack.Command.{Bytes, Parsed, parsed, empty_command, unterminated, parse}
use cachestack.Store.{new_store}
use cachestack.Broker.{new_broker}
use cachestack.Counters.{new_collector}
use cachestack.Log.{Aof, flush, next_line, drop_cr, fits_buffer, is_record}
use cachestack.Dispatch.{dispatch}
use cachestack.Dispatch.Wire.{Host, Server, Session}

-- A start ends, panics, or still reads when the fuel is used up.
pub data Started (Float : Type 0) : Type 0 where
  ended : Server Float → Started Float
  panicked : Started Float
  reading : Started Float

module _ {Float : Type 0} where
  -- A command without a connection: `emptySubs` and `noop`.
  abbrev pub alone : Server Float → Session Float
  alone v = record { server = v; client_subs = []; out = [] }

  abbrev pub server_of : Option (Bytes × Session Float) → Option (Server Float)
  server_of none = none
  server_of (some (_, s)) = some s.server

  -- The state of `main` before the replay.
  abbrev pub fresh : ℕ → Aof → Server Float
  fresh max_keys a = record {
    store = new_store max_keys;
    aof = a;
    metrics = new_collector;
    broker = new_broker;
  }

  -- A round of `periodicFsync`, if one comes.
  abbrev pub synced : Bool → Server Float → Server Float
  synced tick v = if tick then record v { aof = flush v.aof } else v

  -- What is read on after a line: what was behind it, and what was written to the file since. A line without an
  -- end was the last one.
  abbrev pub after_line :
      (Bytes → Server Float → Started Float)
      → Bool
      → Option Bytes
      → Server Float
      → Option (Server Float)
      → Started Float
  after_line on tick more v none = panicked
  after_line on tick none v (some w) = ended w
  after_line on tick (some rest) v (some w) =
      let w' : Server Float = synced tick w in on (rest ++ drop (length v.aof.file) w'.aof.file) w'

  module _ (H : Host Float) (now : ℕ) (trim_space : Bytes → Bytes) (ticks : ℕ → Bool) where
    -- The handler that main.go hands to `Replay`: a line that is no command is skipped.
    abbrev pub handled : Parsed → Server Float → Option (Server Float)
    handled (parsed c) v = server_of (dispatch H now c (alone v))
    handled empty_command v = some v
    handled unterminated v = some v

    abbrev pub handle_record : Bytes → Server Float → Option (Server Float)
    handle_record line v = if is_record line then handled (parse H.letter_case line) v else some v

    -- `Replay`, from line number k on; `ticks` says after which lines a periodic flush comes.
    unfoldable pub read_on : ℕ → ℕ → Bytes → Server Float → Started Float
    read_on zero k unread v = reading
    read_on (suc fuel) k unread v =
        let (line, more) = next_line unread in
        if is_empty unread
        then ended v
        else if fits_buffer line
        then after_line (read_on fuel (suc k)) (ticks k) more v
            (handle_record (trim_space (drop_cr line)) v)
        else ended v

    unfoldable pub start : ℕ → ℕ → Aof → Started Float
    start fuel max_keys a = read_on fuel 0 a.file (fresh max_keys a)
