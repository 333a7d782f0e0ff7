-- ===== src/Dispatch.antt =====
-- backend/internal/networking/server.go: the commands. `Session` is the server with what a connection keeps: the
-- channels that it subscribed to, and the lines written to it. Go's library and the clock are `Host`; a
-- command is at one time of the clock, `now`, and reads a lock-protected part in one step. `none` is a panic.
pub mod Wire
pub mod Handlers
pub mod Restart
pub mod Http
pub mod Good
pub mod Safe
pub mod Lists
pub mod Total
pub mod Changes
pub mod Lasting
pub mod Runs
pub mod Reread
pub mod Recover
pub mod Relog
pub mod Endless
pub mod Save
use cachestack.Base.{
  ℕ, ◌+◌, Bool, true, false, List, [], ◌∷◌, ◌++◌, Option, none, some, if◌then◌else◌,
}
use cachestack.Text.{text, text_eq, is_empty}
use cachestack.Command.{Bytes, Command, Parsed, parsed, empty_command, unterminated, parse}
use cachestack.Counters.{record_op, record_error}
use cachestack.Dispatch.Wire.{Host, Session, Server, Reply, reply, unknown_text}
use cachestack.Dispatch.Handlers.{
  ping, echo, db_size, keys_command, info, flush_command, set_command, get_command, del_command,
  exists_command, expire_command, ttl_command, lpush_command, rpush_command, lpop_command,
  lrange_command, sadd_command, smembers_command, zadd_command, zrange_command, subscribe_command,
  unsubscribe_command, publish_command,
}

module _ {Float : Type 0} (H : Host Float) (now : ℕ) where
  -- `Dispatch`
  unfoldable pub dispatch : Command → Session Float → Reply Float
  dispatch c s =
      let is : Bytes → Bool = text_eq c.name in
      if is (text "PING")
      then ping c.args s
      else if is (text "ECHO")
      then echo H c.name c.args s
      else if is (text "DBSIZE")
      then db_size s
      else if is (text "KEYS")
      then keys_command H now s
      else if is (text "INFO")
      then info H now s
      else if is (text "FLUSHALL")
      then flush_command s
      else if is (text "SET")
      then set_command H now c.name c.args s
      else if is (text "GET")
      then get_command H now c.name c.args s
      else if is (text "DEL")
      then del_command H c.name c.args s
      else if is (text "EXISTS")
      then exists_command H now c.name c.args s
      else if is (text "EXPIRE")
      then expire_command H now c.name c.args s
      else if is (text "TTL")
      then ttl_command H now c.name c.args s
      else if is (text "LPUSH")
      then lpush_command H now c.name c.args s
      else if is (text "RPUSH")
      then rpush_command H now c.name c.args s
      else if is (text "LPOP")
      then lpop_command H now c.name c.args s
      else if is (text "LRANGE")
      then lrange_command H c.name c.args s
      else if is (text "SADD")
      then sadd_command H now c.name c.args s
      else if is (text "SMEMBERS")
      then smembers_command H c.name c.args s
      else if is (text "ZADD")
      then zadd_command H now c.name c.args s
      else if is (text "ZRANGE")
      then zrange_command H c.name c.args s
      else if is (text "SUBSCRIBE")
      then subscribe_command H c.name c.args s
      else if is (text "UNSUBSCRIBE")
      then unsubscribe_command c.args s
      else if is (text "PUBLISH")
      then publish_command H c.name c.args s
      else reply (unknown_text c.name)
          (record s { server = record s.server { metrics = record_error s.server.metrics } })

  -- `writeLine`
  abbrev write_line : Bytes → Session Float → Session Float
  write_line line s = record s { out = s.out ++ ((line ++ text "\r\n") ∷ []) }

  abbrev answered : Reply Float → Option (Session Float)
  answered none = none
  answered (some (resp, s)) = some (if is_empty resp then s else write_line resp s)

  -- A round of the loop in `handleConn`, for a line that was read.
  abbrev handle_parsed : Parsed → Session Float → Option (Session Float)
  handle_parsed (parsed c) s =
      answered (
        dispatch c (record s { server = record s.server { metrics = record_op s.server.metrics } }))
  handle_parsed empty_command s = some s
  handle_parsed unterminated s =
      let t = write_line (text "-ERR unterminated quoted string") s in
      some (record t { server = record t.server { metrics = record_error t.server.metrics } })

  unfoldable pub handle_line : Bytes → Session Float → Option (Session Float)
  handle_line line s = handle_parsed (parse H.letter_case line) s
