-- ===== src/Dispatch/Http.antt =====
-- backend/internal/networking/http.go: what the dashboard's requests do. A request is decoded and an answer encoded
-- by the library: a body is its field, an answer its data.
use cachestack.Base.{ℕ, ◌+◌, ◌*◌, List, [], ◌∷◌, Option, none, some, map, if◌then◌else◌}
use cachestack.Text.{text, text_eq, is_empty}
use cachestack.Text.Decimal.{ℤ, pos, negsuc}
use cachestack.Command.{Bytes, Parsed, parsed, empty_command, unterminated, parse}
use cachestack.Store.{Store, del, ttl, get_string}
use cachestack.Store.Methods.{Order, len, keys, type_of, lrange, smembers, zrange}
use cachestack.Broker.{active_channels, subscriber_count}
use cachestack.Log.{append}
use cachestack.Dispatch.{dispatch}
use cachestack.Dispatch.Wire.{Host, Server, Reply}
use cachestack.Dispatch.Restart.{alone}

-- `keyInfo`, and `chanInfo`.
pub record KeyInfo : Type 0 where
  pub key : Bytes
  pub ttl_left : ℤ
  pub type : Bytes

pub record ChanInfo : Type 0 where
  pub channel : Bytes
  pub subscribers : ℕ

-- What `handleMetrics` reads, each part by a method of its own.
pub record Figures : Type 0 where
  pub ops_per_sec : ℕ
  pub total_ops : ℕ
  pub active_conns : ℤ
  pub total_conns : ℕ
  pub total_errors : ℕ
  pub uptime : Bytes
  pub key_count : ℕ
  pub mem_bytes : ℕ
  pub channels : List Bytes

-- The answers: an HTTP error with its text, or JSON.
pub data HttpAnswer : Type 0 where
  http_error : Bytes → ℕ → HttpAnswer
  key_list : List KeyInfo → HttpAnswer
  deleted : ℕ → HttpAnswer
  failed : Bytes → HttpAnswer
  result : Bytes → HttpAnswer
  key_value : Bytes → Bytes → ℤ → Bytes → HttpAnswer
  channel_list : List ChanInfo → HttpAnswer
  health : (status time : Bytes) → HttpAnswer
  figures : Figures → HttpAnswer

pub data HttpMethod : Type 0 where
  get_method delete_method post_method other_method : HttpMethod

-- `json.Marshal` of a list, where an empty list stands for nil (no set is empty), and `strings.TrimSpace`.
pub record Codec : Type 0 where
  pub marshal : List Bytes → Bytes
  pub trim_space : Bytes → Bytes

module _ {Float : Type 0} (H : Host Float) (C : Codec) (now : ℕ) where
  -- What the calls of `TTL` and `Type` find, by their number: each takes the lock for itself, so other
  -- connections may change the store and time may pass in between.
  abbrev pub Reads : Type 0
  Reads = ℕ → ℕ × Store Float

  -- The key at index `i` of those that `Keys` returned, and those behind it.
  unfoldable pub key_infos : Reads → ℕ → List Bytes → List KeyInfo
  key_infos reads i [] = []
  key_infos reads i (key ∷ more) =
      let (at_ttl, for_ttl) = reads (2 * i) in
      let (at_type, for_type) = reads (2 * i + 1) in
      record {
        key = key;
        ttl_left = ttl H.whole at_ttl key for_ttl;
        type = type_of at_type key for_type;
      }
      ∷ key_infos reads (i + 1) more

  -- `handleKeys`, for the parameter `key` of the query.
  abbrev delete_key : Bytes → Server Float → HttpAnswer × Server Float
  delete_key key v =
      let (n, t) = del (key ∷ []) v.store in
      (deleted n, record v { store = t; aof = append (text "DEL") (key ∷ []) v.aof })

  abbrev missing_key : HttpAnswer
  missing_key = http_error (text "missing ?key= param") 400

  unfoldable pub handle_keys : Reads → HttpMethod → Bytes → Server Float → HttpAnswer × Server Float
  handle_keys reads get_method key v =
      (key_list (key_infos reads 0 (keys now H.entry_order v.store)), v)
  handle_keys reads delete_method key v =
      if is_empty key then (missing_key, v) else delete_key key v
  handle_keys reads _ key v = (http_error (text "method not allowed") 405, v)

  -- `handleKeyValue`; none is a panic.
  abbrev text_of : Option Bytes → Bytes
  text_of none = []
  text_of (some s) = s

  abbrev as_value : Bytes → Bytes → Bytes → Server Float → Option (HttpAnswer × Server Float)
  as_value key t value v = some (key_value key t (ttl H.whole now key v.store) value, v)

  abbrev marshalled :
      Bytes → Bytes → Option (List Bytes) → Server Float → Option (HttpAnswer × Server Float)
  marshalled key t none v = none
  marshalled key t (some items) v = as_value key t (C.marshal items) v

  unfoldable pub value_as : Bytes → Bytes → Server Float → Option (HttpAnswer × Server Float)
  value_as t key v =
      if text_eq t (text "String")
      then (let (found, s) = get_string now key v.store in
          as_value key t (text_of found) (record v { store = s }))
      else if text_eq t (text "List")
      then marshalled key t (lrange key (pos 0) (negsuc 0) v.store) v
      else if text_eq t (text "Set")
      then marshalled key t (some (smembers H.member_order key v.store)) v
      else if text_eq t (text "ZSet")
      then marshalled key t (zrange H.score.less H.score_order key (pos 0) (negsuc 0) v.store) v
      else as_value key t [] v

  unfoldable pub handle_key_value : Bytes → Server Float → Option (HttpAnswer × Server Float)
  handle_key_value key v =
      let t : Bytes = type_of now key v.store in
      if is_empty key
      then some (missing_key, v)
      else if is_empty t
      then some (failed (text "key not found"), v)
      else value_as t key v

  -- `handleExec`, for the field `cmd` of the body.
  abbrev ran : Reply Float → Option (HttpAnswer × Server Float)
  ran none = none
  ran (some (resp, s)) = some (result resp, s.server)

  abbrev exec_parsed : Parsed → Server Float → Option (HttpAnswer × Server Float)
  exec_parsed (parsed c) v = ran (dispatch H now c (alone v))
  exec_parsed empty_command v = some (failed (text "empty command"), v)
  exec_parsed unterminated v = some (failed (text "unterminated quoted string"), v)

  unfoldable pub handle_exec :
      HttpMethod → Bytes → Server Float → Option (HttpAnswer × Server Float)
  handle_exec post_method cmd v =
      let sent : Bytes = C.trim_space cmd in
      if is_empty sent
      then some (http_error (text "empty cmd") 400, v)
      else exec_parsed (parse H.letter_case sent) v
  handle_exec _ cmd v = some (http_error (text "method not allowed") 405, v)

  -- `handleChannels`, with the order of `range`.
  unfoldable pub handle_channels : Order Bytes → Server Float → HttpAnswer
  handle_channels order v = channel_list (
      map (λ ch. record { channel = ch; subscribers = subscriber_count ch v.broker })
        (active_channels order v.broker))

  -- `handleMetrics`, with the order of `range`; the seconds of the uptime are formatted by the library.
  unfoldable pub handle_metrics : Order Bytes → Server Float → HttpAnswer
  handle_metrics order v = figures (record {
    ops_per_sec = v.metrics.ops_last_sec;
    total_ops = v.metrics.total_ops;
    active_conns = v.metrics.active_conns;
    total_conns = v.metrics.total_conns;
    total_errors = v.metrics.total_errors;
    uptime = H.uptime now;
    key_count = len v.store;
    mem_bytes = v.store.byte_used;
    channels = active_channels order v.broker;
  })

-- `handleHealth`, for the time as the library formats it.
unfoldable pub handle_health : Bytes → HttpAnswer
handle_health time = health (text "ok") time
