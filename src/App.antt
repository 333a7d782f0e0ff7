-- ===== src/App.antt =====
-- frontend/src/App.tsx as a whole: its state, and everything that changes it, as events. An event that
-- ends an await carries the answer; one that follows from a closure carries what the closure captured.
pub mod Parts
pub mod Sound
use cachestack.Base.{ℕ, ◌≡◌, Bool, true, false, List, [], ◌∷◌, Option, none, some}
use cachestack.Text.{Text, Unicode}
use cachestack.Text.Names.{has}
use cachestack.Number.{Number}
use cachestack.Types.{ServerMetrics, ApiKeyInfo, KeyEntry, LogEntry, PageId, dashboard}
use cachestack.Notifications.{Queue, dismiss, dismiss_all, fire}
use cachestack.Notifications.Steps.{pending}
use cachestack.Mock.{Chance, initial_keys}
use cachestack.Client.{Answer, ExecResult}
use cachestack.Poll.{Live, Dash, Draws, tick}
use cachestack.Poll.Start.{start}
use cachestack.Keys.{Table, fetch_keys, handle_delete_key, handle_save_key}
use cachestack.Palette.{Console, exec_cmd}
use cachestack.PubSub
use cachestack.PubSub.{Feed, subscribe, unsubscribe, handle_sub, type_input, offered, receive}
use cachestack.Region.{RegionInfo, fallback, GeoAnswer, detect, announce_region}
use cachestack.Shell.{Shell, Element, navigate, search_change, toggle_panel, mouse_down}

pub record App (Float : Type 0) : Type 0 where
  pub shell : Shell
  pub keys : List KeyEntry
  pub live : Live Float
  pub logs : List (LogEntry Float)
  pub queue : Queue
  pub feed : Feed Float
  pub cmd_input : Text
  pub cmd_result : Text
  pub region : RegionInfo

-- What happens to the dashboard.
pub data Event (Draw : Type 0) : Type 0 where
  polled : Option ServerMetrics → Draws Draw → Event Draw
  keys_came : Answer (List ApiKeyInfo) → Event Draw
  streamed : Chance Draw → Event Draw
  region_came : GeoAnswer → (clock : Text) → Event Draw
  delete_came : (captured : List KeyEntry) (id : ℕ) (answer : Answer ℕ) (clock : Text) → Event Draw
  save_came :
      (captured : List KeyEntry) (id : ℕ) (value : Text) (answer : Answer ExecResult) (clock : Text)
      → Event Draw
  exec_came : (captured : Text) (answer : Answer ExecResult) (now : ℕ) (clock : Text) → Event Draw
  cmd_typed : Text → Event Draw
  clicked_page : PageId → Event Draw
  searched : Text → Event Draw
  toggled : Event Draw
  pressed : Element → Event Draw
  dismissed : ℕ → Event Draw
  cleared : Event Draw
  timed_out : ℕ → Event Draw
  channel_typed : Text → Event Draw
  channel_entered : Event Draw
  channel_joined : Text → Event Draw
  channel_left : Text → Event Draw

-- A timer that waits can fire, and a tag that is offered can be clicked; the rest can always happen.
unfoldable pub allowed : {Float Draw : Type 0} → Event Draw → App Float → Bool
allowed (timed_out id) a = pending id a.queue
allowed (channel_joined ch) a = has ch (offered a.feed)
allowed _ a = true

-- The parts of the state that the handlers of the components work on.
module _ {Float : Type 0} where
  abbrev pub dash_of : App Float → Dash Float
  dash_of a = record { live = a.live; logs = a.logs; queue = a.queue }

  abbrev pub with_dash : Dash Float → App Float → App Float
  with_dash d a = record a { live = d.live; logs = d.logs; queue = d.queue }

  abbrev pub table_of : App Float → Table
  table_of a = record { keys = a.keys; queue = a.queue }

  abbrev pub with_table : Table → App Float → App Float
  with_table t a = record a { keys = t.keys; queue = t.queue }

  abbrev pub console_of : App Float → Console Float
  console_of a = record { cmd_result = a.cmd_result; logs = a.logs; queue = a.queue }

  abbrev pub with_console : Console Float → App Float → App Float
  with_console c a = record a { cmd_result = c.cmd_result; logs = c.logs; queue = c.queue }

module _ (N : Number) (U : Unicode) (env : Option Text) where
  open N use {Float, Draw}

  -- The first state, with the draws of its charts and of its log.
  abbrev pub opened : Dash Float → App Float
  opened d = record {
    shell = record { page = dashboard; search_query = []; notif_open = false };
    keys = initial_keys;
    live = d.live;
    logs = d.logs;
    queue = d.queue;
    feed = cachestack.PubSub.start;
    cmd_input = [];
    cmd_result = [];
    region = fallback;
  }

  abbrev pub open_with : Option (Dash Float) → Option (App Float)
  open_with none = none
  open_with (some d) = some (opened d)

  unfoldable pub open_app : (ops trend : ℕ → Draw) → (ℕ → Chance Draw) → Option (App Float)
  open_app ops trend cs = open_with (start N ops trend cs)

  unfoldable pub step : Event Draw → App Float → App Float
  step (polled answer d) a = with_dash (tick N answer d (dash_of a)) a
  step (keys_came answer) a = record a { keys = fetch_keys answer a.keys }
  step (streamed c) a = record a { feed = receive N c a.feed }
  step (region_came answer clock) a = record a {
    region = detect U answer;
    queue = announce_region a.region (detect U answer) clock a.queue;
  }
  step (delete_came captured id answer clock) a =
      with_table (handle_delete_key env captured id answer clock (table_of a)) a
  step (save_came captured id value answer clock) a =
      with_table (handle_save_key captured id value answer clock (table_of a)) a
  step (exec_came captured answer now clock) a =
      with_console (exec_cmd N U captured answer now clock (console_of a)) a
  step (cmd_typed v) a = record a { cmd_input = v }
  step (clicked_page p) a = record a { shell = navigate p a.shell }
  step (searched q) a = record a { shell = search_change q a.shell }
  step toggled a = record a { shell = toggle_panel a.shell }
  step (pressed target) a = record a { shell = mouse_down target a.shell }
  step (dismissed id) a = record a { queue = dismiss id a.queue }
  step cleared a = record a { queue = dismiss_all a.queue }
  step (timed_out id) a = record a { queue = fire id a.queue }
  step (channel_typed v) a = record a { feed = type_input v a.feed }
  step channel_entered a = record a { feed = handle_sub a.feed }
  step (channel_joined ch) a = record a { feed = subscribe ch a.feed }
  step (channel_left ch) a = record a { feed = unsubscribe ch a.feed }

  -- What can come of a state.
  pub data Reach (s : App Float) : App Float → Type 0 where
    here : Reach s s
    next : {t : App Float} → Reach s t → (e : Event Draw) → allowed e t ≡ true → Reach s (step e t)
