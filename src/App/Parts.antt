-- ===== src/App/Parts.antt =====
-- The queue and the feed within the whole: the dashboard uses them by their own operations only.
use cachestack.Base.{ℕ, ◌≡◌, Bool, true, false, List, [], ◌∷◌, Option, none, some, if◌then◌else◌}
use cachestack.Text.{Text, Unicode, trim}
use cachestack.Number.{Number}
use cachestack.Types.{ServerMetrics, NotifLevel, success, error, KeyEntry}
use cachestack.Notifications.{Queue, push}
use cachestack.Notifications.Steps as QueueSteps
use cachestack.Client.{Request, ExecResult, api_fetch}
use cachestack.Poll.{
  Dash, Draws, tick, announce, push_if, was_offline, was_not_offline, lost_text, back_text,
  is_failing, failing_text, warn_errors,
}
use cachestack.Keys.{
  Table, find_row, delete_sends, delete_found, handle_delete_key, says_ok, save_found,
  handle_save_key,
}
use cachestack.Palette.{Console, error_of, push_error, exec_trimmed, exec_cmd}
use cachestack.PubSub.{Feed, offered}
use cachestack.Text.Names.{has_iff}
use cachestack.PubSub.Steps as FeedSteps
use cachestack.Region.{announce_region}
use cachestack.App.{
  App, Event, polled, keys_came, streamed, region_came, delete_came, save_came, exec_came,
  cmd_typed, clicked_page, searched, toggled, pressed, dismissed, cleared, timed_out, channel_typed,
  channel_entered, channel_joined, channel_left, allowed, dash_of, table_of, console_of, step,
  Reach, here, next,
}

abbrev pub QueueReach : Queue → Queue → Type 0
QueueReach = QueueSteps.Reach

stay : {q : Queue} → QueueReach q q
stay = QueueSteps.here

then_push :
    {q r : Queue} (m : Text) (l : NotifLevel) (d : ℕ) (ts : Text)
    → QueueReach q r
    → QueueReach q (push m l d ts r).0
then_push {r = r} m l d ts p = QueueSteps.next p (QueueSteps.pushed m l d ts r)

if_path :
    {q : Queue} (b : Bool) (x y : Queue)
    → QueueReach q x
    → QueueReach q y
    → QueueReach q (if b then x else y)
if_path true x y p r = p
if_path false x y p r = r

announce_path :
    (b : Bool) (m : Text) (l : NotifLevel) (c : Text) (q : Queue) (ids : List ℕ)
    → QueueReach q (announce b m l c (q, ids)).0
announce_path false m l c q ids = stay
announce_path true m l c q ids = then_push m l 5000 c stay

push_if_path :
    {q : Queue} (b : Bool) (m : Text) (l : NotifLevel) (d : ℕ) (c : Text) (r : Queue)
    → QueueReach q r
    → QueueReach q (push_if b m l d c r)
push_if_path true m l d c r p = then_push m l d c p
push_if_path false m l d c r p = p

delete_path :
    (k : Option KeyEntry) (request : Option Request) (id : ℕ) (clock : Text) (t : Table)
    → QueueReach t.queue (delete_found k request id clock t).queue
delete_path none request id clock t = stay
delete_path (some k) none id clock t = stay
delete_path (some k) (some request) id clock t = then_push _ _ 4000 clock stay

save_path :
    (k : Option KeyEntry) (res : Option ExecResult) (clock : Text) (q : Queue)
    → QueueReach q (save_found k res clock q)
save_path none res clock q = stay
save_path (some k) res clock q =
    if_path (says_ok res) _ _ (then_push _ _ 3000 clock stay) (then_push _ _ 5000 clock stay)

error_path : (e clock : Text) (q : Queue) → QueueReach q (push_error e clock q)
error_path [] clock q = stay
error_path (c ∷ e) clock q = then_push _ _ 5000 clock stay

module _ (N : Number) where
  open N use {Float}

  abbrev pub FeedReach : Feed Float → Feed Float → Type 0
  FeedReach = FeedSteps.Reach N

module _ (N : Number) (U : Unicode) where
  open N use {Float, Draw}

  tick_path :
      (answer : Option ServerMetrics) (d : Draws Draw) (s : Dash Float)
      → QueueReach s.queue (tick N answer d s).queue
  unfolding tick warn_errors
  tick_path (some m) d s = push_if_path (is_failing N m) (failing_text N m) error 8000 d.clock _ (
      announce_path (was_offline s.live.prev_online) back_text success d.clock s.queue
        s.live.toast_ids)
  tick_path none d s =
      announce_path (was_not_offline s.live.prev_online) lost_text error d.clock s.queue
        s.live.toast_ids

  exec_path :
      (cmd : Text) (res : Option ExecResult) (now : ℕ) (clock : Text) (s : Console Float)
      → QueueReach s.queue (exec_trimmed N U cmd res now clock s).queue
  exec_path [] res now clock s = stay
  exec_path (c ∷ cmd) res now clock s = error_path (error_of res) clock s.queue

  module _ (env : Option Text) where
    step_queue :
        (e : Event Draw) (a : App Float)
        → allowed e a ≡ true
        → QueueReach a.queue (step N U env e a).queue
    unfolding step allowed handle_delete_key handle_save_key exec_cmd announce_region
    step_queue (polled answer d) a h = tick_path answer d (dash_of a)
    step_queue (keys_came answer) a h = stay
    step_queue (streamed c) a h = stay
    step_queue (region_came answer clock) a h = if_path _ _ _ stay (then_push _ _ 4000 clock stay)
    step_queue (delete_came captured id answer clock) a h =
        delete_path (find_row id captured) (delete_sends env (find_row id captured)) id clock
          (table_of a)
    step_queue (save_came captured id value answer clock) a h =
        save_path (find_row id captured) (api_fetch answer) clock a.queue
    step_queue (exec_came captured answer now clock) a h =
        exec_path (trim captured) (api_fetch answer) now clock (console_of a)
    step_queue (cmd_typed v) a h = stay
    step_queue (clicked_page p) a h = stay
    step_queue (searched q) a h = stay
    step_queue toggled a h = stay
    step_queue (pressed target) a h = stay
    step_queue (dismissed id) a h = QueueSteps.next stay (QueueSteps.dismissed id a.queue)
    step_queue cleared a h = QueueSteps.next stay (QueueSteps.cleared a.queue)
    step_queue (timed_out id) a h = QueueSteps.next stay (QueueSteps.fired id a.queue h)
    step_queue (channel_typed v) a h = stay
    step_queue channel_entered a h = stay
    step_queue (channel_joined ch) a h = stay
    step_queue (channel_left ch) a h = stay

    -- Each event acts on the channels and messages by one operation of the feed, or not at all.
    step_feed :
        (e : Event Draw) (a : App Float)
        → allowed e a ≡ true
        → FeedReach N a.feed (step N U env e a).feed
    unfolding step allowed
    step_feed (polled answer d) a h = FeedSteps.here
    step_feed (keys_came answer) a h = FeedSteps.here
    step_feed (streamed c) a h = FeedSteps.next FeedSteps.here (FeedSteps.received c a.feed)
    step_feed (region_came answer clock) a h = FeedSteps.here
    step_feed (delete_came captured id answer clock) a h = FeedSteps.here
    step_feed (save_came captured id value answer clock) a h = FeedSteps.here
    step_feed (exec_came captured answer now clock) a h = FeedSteps.here
    step_feed (cmd_typed v) a h = FeedSteps.here
    step_feed (clicked_page p) a h = FeedSteps.here
    step_feed (searched q) a h = FeedSteps.here
    step_feed toggled a h = FeedSteps.here
    step_feed (pressed target) a h = FeedSteps.here
    step_feed (dismissed id) a h = FeedSteps.here
    step_feed cleared a h = FeedSteps.here
    step_feed (timed_out id) a h = FeedSteps.here
    step_feed (channel_typed v) a h = FeedSteps.next FeedSteps.here (FeedSteps.typed v a.feed)
    step_feed channel_entered a h = FeedSteps.next FeedSteps.here (FeedSteps.entered a.feed)
    step_feed (channel_joined ch) a h =
        FeedSteps.next FeedSteps.here
          (FeedSteps.joined ch a.feed ((has_iff ch (offered a.feed)).0 h))
    step_feed (channel_left ch) a h = FeedSteps.next FeedSteps.here (FeedSteps.left ch a.feed)

    queue_then : {q r s : Queue} → QueueReach q r → QueueReach r s → QueueReach q s
    queue_then p QueueSteps.here = p
    queue_then p (QueueSteps.next r st) = QueueSteps.next (queue_then p r) st

    feed_then : {q r s : Feed Float} → FeedReach N q r → FeedReach N r s → FeedReach N q s
    feed_then p FeedSteps.here = p
    feed_then p (FeedSteps.next r st) = FeedSteps.next (feed_then p r) st

    -- Whatever happens to the dashboard, its queue of toasts changes only by calls of the hook and by
    -- timers that were waiting, and its channels and messages only by the operations of the feed.
    pub Reach-parts :
        (a b : App Float)
        → Reach N U env a b
        → QueueReach a.queue b.queue × FeedReach N a.feed b.feed
    Reach-parts a b here = (stay, FeedSteps.here)
    Reach-parts a b (next {t = t} r e h) =
        let (q, f) = Reach-parts a t r in
        (queue_then q (step_queue e t h), feed_then f (step_feed e t h))
