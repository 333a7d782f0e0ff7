-- ===== src/Dispatch/Wire.antt =====
-- The state that the commands work on, and the form of their answers.
use cachestack.Base.{ℕ, List, [], ◌∷◌, ◌++◌, Option, none, some, length}
use cachestack.Text.{text}
use cachestack.Text.Decimal.{ℤ, show_ℕ}
use cachestack.Command.{Bytes, Case, trim_eol}
use cachestack.Store.{Store}
use cachestack.Store.Values.{Entry, IsScore}
use cachestack.Store.Methods.{Order}
use cachestack.Broker.{Broker}
use cachestack.Counters.{Collector}
use cachestack.Log.{Aof}

-- `Server`, without the address.
pub record Server (Float : Type 0) : Type 0 where
  pub store : Store Float
  pub aof : Aof
  pub metrics : Collector
  pub broker : Broker

-- `clientSubs`, and what `writeLine` wrote.
pub record Session (Float : Type 0) : Type 0 where
  pub server : Server Float
  pub client_subs : List (Bytes × ℕ)
  pub out : List Bytes

-- Go's library: letter case, `strconv.Atoi`, float64, `int64(d.Seconds())`, the seconds since the start as
-- text, and the orders of `range`.
pub record Host (Float : Type 0) : Type 0 where
  pub letter_case : Case
  pub atoi : Bytes → Option ℤ
  pub score : IsScore Float
  pub whole : ℕ → ℕ
  pub uptime : ℕ → Bytes
  pub entry_order : Order (Bytes × Entry Float)
  pub member_order : Order Bytes
  pub score_order : Order (Bytes × Float)

-- The answer and the state after it.
abbrev pub Reply : Type 0 → Type 0
Reply Float = Option (Bytes × Session Float)

module _ {Float : Type 0} where
  abbrev pub reply : Bytes → Session Float → Reply Float
  reply resp s = some (resp, s)

  -- The server with another store.
  abbrev pub with_store : Store Float → Session Float → Session Float
  with_store t s = record s { server = record s.server { store = t } }

abbrev pub colon : Bytes → Bytes
colon n = text ":" ++ n

-- `bulkString`
unfoldable pub bulk_string : Bytes → Bytes
bulk_string s = text "$" ++ (show_ℕ (length s) ++ (text "\r\n" ++ s))

abbrev pub bulk_or_nil : Option Bytes → Bytes
bulk_or_nil none = text "$-1"
bulk_or_nil (some v) = bulk_string v

unfoldable pub array_items : List Bytes → Bytes
unfolding bulk_string
array_items [] = []
array_items (item ∷ more) = bulk_string item ++ (text "\r\n" ++ array_items more)

-- `formatArray`; the empty list and nil have the same answer.
unfoldable pub format_array : List Bytes → Bytes
unfolding array_items
format_array items =
    trim_eol (text "*" ++ (show_ℕ (length items) ++ (text "\r\n" ++ array_items items)))

-- `argErr`
unfoldable pub arg_err : Case → Bytes → Bytes
arg_err K name = text "-ERR wrong number of arguments for '" ++ (K.lower name ++ text "'")

abbrev pub unknown_text : Bytes → Bytes
unknown_text name = text "-ERR unknown command '" ++ (name ++ text "'")
