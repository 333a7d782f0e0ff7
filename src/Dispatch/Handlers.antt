-- ===== src/Dispatch/Handlers.antt =====
-- The cases of `Dispatch`.
use cachestack.Base.{ℕ, ◌+◌, Bool, List, [], ◌∷◌, ◌++◌, Option, none, some, length, if◌then◌else◌}
use cachestack.Text.{text, text_eq}
use cachestack.Text.Decimal.{ℤ, show_ℕ, show_ℤ}
use cachestack.Command.{Bytes}
use cachestack.Store.{Store, lookup, without, set_string, get_string, del, expire, ttl}
use cachestack.Store.Values.{duration}
use cachestack.Store.Methods.{
  lpush, rpush, lpop, lrange, sadd, smembers, zadd, zrange, len, keys, flush_all, exists,
}
use cachestack.Broker.{Broker, subscribe, unsubscribe, publish}
use cachestack.Counters.{summary}
use cachestack.Log.{append}
use cachestack.Dispatch.Wire.{
  Session, Host, Reply, reply, with_store, colon, bulk_string, bulk_or_nil, format_array, arg_err,
}

abbrev one_or_zero : Bool → Bytes
one_or_zero b = if b then text ":1" else text ":0"

abbrev not_integer : Bytes
not_integer = text "-ERR value is not an integer"

abbrev left_text : Bytes → ℕ → Bytes
left_text ch n =
    text "*3\r\n$11\r\nunsubscribe\r\n$"
    ++ (show_ℕ (length ch) ++ (text "\r\n" ++ (ch ++ (text "\r\n:" ++ show_ℕ n))))

abbrev joined_text : Bytes → ℕ → Bytes
joined_text ch n =
    text "*3\r\n$9\r\nsubscribe\r\n$"
    ++ (show_ℕ (length ch) ++ (text "\r\n" ++ (ch ++ (text "\r\n:" ++ show_ℕ n))))

module _ {Float : Type 0} where
  -- `s.AOF.Append`
  abbrev pub logged : Bytes → List Bytes → Session Float → Session Float
  logged cmd args s = record s { server = record s.server { aof = append cmd args s.server.aof } }

  abbrev with_broker : Broker → Session Float → Session Float
  with_broker b s = record s { server = record s.server { broker = b } }

  unfoldable pub ping : List Bytes → Session Float → Reply Float
  ping [] s = reply (text "+PONG") s
  ping (a ∷ _) s = reply (text "+" ++ a) s

  unfoldable pub db_size : Session Float → Reply Float
  db_size s = reply (colon (show_ℕ (len s.server.store))) s

  unfoldable pub flush_command : Session Float → Reply Float
  flush_command s =
      reply (text "+OK") (logged (text "FLUSHALL") [] (with_store (flush_all s.server.store) s))

  -- A number, with the command logged; a panic stays one.
  abbrev pub pushed : Bytes → List Bytes → Session Float → Option (ℕ × Store Float) → Reply Float
  pushed cmd args s none = none
  pushed cmd args s (some (n, t)) = reply (colon (show_ℕ n)) (logged cmd args (with_store t s))

  abbrev pub shown : Session Float → Option (List Bytes) → Reply Float
  shown s none = none
  shown s (some items) = reply (format_array items) s

  -- `UNSUBSCRIBE`, a channel at a time.
  abbrev pub leave : Bytes → Option ℕ → Session Float → Session Float
  leave ch none s = s
  leave ch (some id) s =
      let rest : List (Bytes × ℕ) = without ch s.client_subs in
      record (with_broker (unsubscribe ch id s.server.broker) s) {
        client_subs = rest;
        out = s.out ++ ((left_text ch (length rest) ++ text "\r\n") ∷ []);
      }

  unfoldable pub leave_each : List Bytes → Session Float → Session Float
  leave_each [] s = s
  leave_each (ch ∷ chs) s = leave_each chs (leave ch (lookup ch s.client_subs) s)

  unfoldable pub unsubscribe_command : List Bytes → Session Float → Reply Float
  unsubscribe_command chs s = reply [] (leave_each chs s)

  -- `SUBSCRIBE`, a channel at a time.
  abbrev pub enter : Bytes → Option ℕ → Session Float → Session Float
  enter ch (some _) s = s
  enter ch none s =
      let (id, b) = subscribe ch s.server.broker in
      let subs : List (Bytes × ℕ) = (ch, id) ∷ s.client_subs in
      record (with_broker b s) {
        client_subs = subs;
        out = s.out ++ ((joined_text ch (length subs) ++ text "\r\n") ∷ []);
      }

  unfoldable pub enter_each : List Bytes → Session Float → Session Float
  enter_each [] s = s
  enter_each (ch ∷ chs) s = enter_each chs (enter ch (lookup ch s.client_subs) s)

  module _ (H : Host Float) where
    abbrev pub refused : Bytes → Session Float → Reply Float
    refused name s = reply (arg_err H.letter_case name) s

    unfoldable pub echo : Bytes → List Bytes → Session Float → Reply Float
    echo name [] s = refused name s
    echo name (a ∷ _) s = reply (text "+" ++ a) s

    unfoldable pub del_command : Bytes → List Bytes → Session Float → Reply Float
    del_command name [] s = refused name s
    del_command name (key ∷ more) s =
        let (n, t) = del (key ∷ more) s.server.store in
        reply (colon (show_ℕ n)) (logged (text "DEL") (key ∷ more) (with_store t s))

    abbrev pub range_of :
        (ℤ → ℤ → Option (List Bytes)) → Option ℤ → Option ℤ → Session Float → Reply Float
    range_of f (some start) (some stop) s = shown s (f start stop)
    range_of f _ _ s = reply not_integer s

    unfoldable pub lrange_command : Bytes → List Bytes → Session Float → Reply Float
    lrange_command name (key ∷ a ∷ b ∷ _) s =
        range_of (λ i j. lrange key i j s.server.store) (H.atoi a) (H.atoi b) s
    lrange_command name _ s = refused name s

    unfoldable pub zrange_command : Bytes → List Bytes → Session Float → Reply Float
    zrange_command name (key ∷ a ∷ b ∷ _) s =
        range_of (λ i j. zrange H.score.less H.score_order key i j s.server.store) (H.atoi a)
          (H.atoi b) s
    zrange_command name _ s = refused name s

    unfoldable pub smembers_command : Bytes → List Bytes → Session Float → Reply Float
    smembers_command name [] s = refused name s
    smembers_command name (key ∷ _) s =
        reply (format_array (smembers H.member_order key s.server.store)) s

    unfoldable pub subscribe_command : Bytes → List Bytes → Session Float → Reply Float
    subscribe_command name [] s = refused name s
    subscribe_command name (ch ∷ chs) s = reply [] (enter_each (ch ∷ chs) s)

    unfoldable pub publish_command : Bytes → List Bytes → Session Float → Reply Float
    publish_command name (ch ∷ payload ∷ _) s =
        let (n, b) = publish ch payload s.server.broker in
        reply (colon (show_ℕ n)) (with_broker b s)
    publish_command name _ s = refused name s

    module _ (now : ℕ) where
      unfoldable pub keys_command : Session Float → Reply Float
      keys_command s = reply (format_array (keys now H.entry_order s.server.store)) s

      unfoldable pub info : Session Float → Reply Float
      info s =
          let sent : Bytes =
            summary (H.uptime now) s.server.metrics (len s.server.store) s.server.store.byte_used in
          reply (bulk_string sent) s

      -- `SET key value EX seconds`; what follows is ignored, as is any other third word.
      abbrev pub expiring : Bytes → List Bytes → Option ℤ → Session Float → Reply Float
      expiring key args none s = reply (text "-ERR invalid EX value") s
      expiring key args (some secs) s =
          let (_, t) = expire now key (duration secs) s.server.store in
          reply (text "+OK") (logged (text "SET") args (with_store t s))

      abbrev pub option_of : Bytes → List Bytes → List Bytes → Session Float → Reply Float
      option_of key args (word ∷ secs ∷ _) s =
          if text_eq (H.letter_case.upper word) (text "EX")
          then expiring key args (H.atoi secs) s
          else reply (text "+OK") (logged (text "SET") args s)
      option_of key args _ s = reply (text "+OK") (logged (text "SET") args s)

      unfoldable pub set_command : Bytes → List Bytes → Session Float → Reply Float
      set_command name (key ∷ val ∷ more) s =
          option_of key (key ∷ val ∷ more) more (with_store (set_string key val s.server.store) s)
      set_command name _ s = refused name s

      unfoldable pub get_command : Bytes → List Bytes → Session Float → Reply Float
      get_command name [] s = refused name s
      get_command name (key ∷ _) s =
          let (found, t) = get_string now key s.server.store in
          reply (bulk_or_nil found) (with_store t s)

      unfoldable pub exists_each : List Bytes → ℕ × Store Float → ℕ × Store Float
      exists_each [] r = r
      exists_each (key ∷ more) (n, t) =
          let (there, t') = exists now key t in exists_each more ((if there then n + 1 else n), t')

      unfoldable pub exists_command : Bytes → List Bytes → Session Float → Reply Float
      exists_command name [] s = refused name s
      exists_command name (key ∷ more) s =
          let (n, t) = exists_each (key ∷ more) (0, s.server.store) in
          reply (colon (show_ℕ n)) (with_store t s)

      abbrev pub expired : Bytes → List Bytes → Option ℤ → Session Float → Reply Float
      expired key args none s = reply not_integer s
      expired key args (some secs) s =
          let (ok, t) = expire now key (duration secs) s.server.store in
          reply (one_or_zero ok) (logged (text "EXPIRE") args (with_store t s))

      unfoldable pub expire_command : Bytes → List Bytes → Session Float → Reply Float
      expire_command name (key ∷ secs ∷ more) s = expired key (key ∷ secs ∷ more) (H.atoi secs) s
      expire_command name _ s = refused name s

      unfoldable pub ttl_command : Bytes → List Bytes → Session Float → Reply Float
      ttl_command name [] s = refused name s
      ttl_command name (key ∷ _) s = reply (colon (show_ℤ (ttl H.whole now key s.server.store))) s

      unfoldable pub lpush_command : Bytes → List Bytes → Session Float → Reply Float
      lpush_command name (key ∷ v ∷ vs) s =
          pushed (text "LPUSH") (key ∷ v ∷ vs) s (lpush now key (v ∷ vs) s.server.store)
      lpush_command name _ s = refused name s

      unfoldable pub rpush_command : Bytes → List Bytes → Session Float → Reply Float
      rpush_command name (key ∷ v ∷ vs) s =
          pushed (text "RPUSH") (key ∷ v ∷ vs) s (rpush now key (v ∷ vs) s.server.store)
      rpush_command name _ s = refused name s

      unfoldable pub lpop_command : Bytes → List Bytes → Session Float → Reply Float
      lpop_command name [] s = refused name s
      lpop_command name (key ∷ _) s =
          let (found, t) = lpop now key s.server.store in
          reply (bulk_or_nil found) (logged (text "LPOP") (key ∷ []) (with_store t s))

      unfoldable pub sadd_command : Bytes → List Bytes → Session Float → Reply Float
      sadd_command name (key ∷ m ∷ ms) s =
          pushed (text "SADD") (key ∷ m ∷ ms) s (sadd now key (m ∷ ms) s.server.store)
      sadd_command name _ s = refused name s

      abbrev pub scored : Bytes → Bytes → List Bytes → Option Float → Session Float → Reply Float
      scored key m args none s = reply (text "-ERR score is not a float") s
      scored key m args (some score) s =
          pushed (text "ZADD") args s (zadd now key score m s.server.store)

      unfoldable pub zadd_command : Bytes → List Bytes → Session Float → Reply Float
      zadd_command name (key ∷ score ∷ m ∷ more) s =
          scored key m (key ∷ score ∷ m ∷ more) (H.score.parse_float score) s
      zadd_command name _ s = refused name s
