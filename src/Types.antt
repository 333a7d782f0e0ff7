-- ===== src/Types.antt =====
-- frontend/src/types/index.ts and the types of hooks/useNotifications.ts. Texts are lists of code
-- units; a field that the code reads with `??` may be absent and is an option. Log lines and messages
-- carry fractional ids (`Date.now() + Math.random()`), so they take the type of fractions.
use cachestack.Base.{ℕ, List, Option}
use cachestack.Text.{Text, text}
use cachestack.Text.Decimal.{ℤ}

pub data KeyType : Type 0 where
  string hash list set zset : KeyType

-- The name of a type, as the table shows it and as some servers spell it.
abbrev pub type_name : KeyType → Text
type_name string = text "String"
type_name hash = text "Hash"
type_name list = text "List"
type_name set = text "Set"
type_name zset = text "ZSet"

abbrev pub lower_name : KeyType → Text
lower_name string = text "string"
lower_name hash = text "hash"
lower_name list = text "list"
lower_name set = text "set"
lower_name zset = text "zset"

pub record KeyEntry : Type 0 where
  pub id : ℕ
  pub key : Text
  pub type : KeyType
  pub ttl : Text
  pub size : Text
  pub value : Text

pub record LogEntry (Float : Type 0) : Type 0 where
  pub id : Float
  pub cmd : Text
  pub key : Text
  pub latency : Text
  pub ts : Text

pub record PubSubMessage (Float : Type 0) : Type 0 where
  pub id : Float
  pub channel : Text
  pub body : Text
  pub ts : Text

pub record ServerMetrics : Type 0 where
  pub ops_per_sec : Option ℕ
  pub total_ops : ℕ
  pub active_conns : Option ℕ
  pub total_conns : ℕ
  pub total_errors : Option ℕ
  pub uptime : ℕ
  pub key_count : Option ℕ
  pub mem_bytes : ℕ
  pub channels : List Text

pub record ApiKeyInfo : Type 0 where
  pub key : Text
  pub ttl : ℤ
  pub type : Text

pub record ChannelInfo : Type 0 where
  pub name : Text
  pub subscribers : ℕ

pub data PageId : Type 0 where
  dashboard keys metrics logs pubsub : PageId

pub data NotifLevel : Type 0 where
  info success warning error : NotifLevel

pub record Notification : Type 0 where
  pub id : ℕ
  pub message : Text
  pub level : NotifLevel
  pub ts : Text
