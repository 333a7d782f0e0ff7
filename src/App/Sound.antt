-- ===== src/App/Sound.antt =====
-- What holds of the dashboard whatever happens to it.
use cachestack.Base.{ℕ, ◌≤◌, ◌≡◌, ap, sym, subst, [], ◌∷◌, Option, some, length, length-take, arith}
use cachestack.Text.{Text, Unicode, trim}
use cachestack.Number.{Number}
use cachestack.Notifications.{Queue, empty}
use cachestack.Notifications.Order.{IsOrdered}
use cachestack.Notifications.Steps.{Reach-IsOrdered}
use cachestack.Mock.{Chance}
use cachestack.Client.{ExecResult, api_fetch}
use cachestack.Poll.{Dash}
use cachestack.Poll.Windows.{IsSteady, tick-IsSteady, start_total}
use cachestack.Keys.{find_row, delete_sends, handle_delete_key, handle_save_key}
use cachestack.Keys.Ids.{
  Rises, fetch_keys-Rises, set_value-Rises, delete_found-Rises, initial_keys-Rises,
}
use cachestack.Palette.{Console, exec_trimmed, exec_cmd}
use cachestack.PubSub.Steps.{IsTidy, Reach-IsTidy, start-IsTidy}
use cachestack.App.{
  App, Event, polled, keys_came, streamed, region_came, delete_came, save_came, exec_came,
  cmd_typed, clicked_page, searched, toggled, pressed, dismissed, cleared, timed_out, channel_typed,
  channel_entered, channel_joined, channel_left, dash_of, table_of, console_of, opened, open_with,
  open_app, step, Reach, here, next,
}
use cachestack.App.Parts.{Reach-parts}

module _ (N : Number) (U : Unicode) (env : Option Text) where
  open N use {Float, Draw}

  IsSteady-queue : (d : Dash Float) (q : Queue) → IsSteady N d → IsSteady N (record d { queue = q })
  IsSteady-queue d q v = record {
    ops_points = v.ops_points;
    trend_points = v.trend_points;
    log_lines = v.log_lines;
    cpu_range = v.cpu_range;
  }

  log_lines-exec :
      (cmd : Text) (res : Option ExecResult) (now : ℕ) (clock : Text) (s : Console Float)
      → length s.logs ≤ 60
      → length (exec_trimmed N U cmd res now clock s).logs ≤ 60
  log_lines-exec [] res now clock s h = h
  log_lines-exec (c ∷ cmd) res now clock s h = omega (arith, length-take 59 s.logs)

  -- What an event does to the figures and the log, and to the rows.
  step-IsSteady :
      (e : Event Draw) (a : App Float)
      → IsSteady N (dash_of a)
      → IsSteady N (dash_of (step N U env e a))
  unfolding step exec_cmd
  step-IsSteady (polled answer d) a v = tick-IsSteady N answer d (dash_of a) v
  step-IsSteady (exec_came captured answer now clock) a v = record {
    ops_points = v.ops_points;
    trend_points = v.trend_points;
    log_lines =
        log_lines-exec (trim captured) (api_fetch answer) now clock (console_of a) v.log_lines;
    cpu_range = v.cpu_range;
  }
  step-IsSteady (region_came answer clock) a v = IsSteady-queue (dash_of a) _ v
  step-IsSteady (delete_came captured id answer clock) a v = IsSteady-queue (dash_of a) _ v
  step-IsSteady (save_came captured id value answer clock) a v = IsSteady-queue (dash_of a) _ v
  step-IsSteady (dismissed id) a v = IsSteady-queue (dash_of a) _ v
  step-IsSteady cleared a v = IsSteady-queue (dash_of a) _ v
  step-IsSteady (timed_out id) a v = IsSteady-queue (dash_of a) _ v
  step-IsSteady (keys_came answer) a v = v
  step-IsSteady (streamed c) a v = v
  step-IsSteady (cmd_typed t) a v = v
  step-IsSteady (clicked_page p) a v = v
  step-IsSteady (searched q) a v = v
  step-IsSteady toggled a v = v
  step-IsSteady (pressed target) a v = v
  step-IsSteady (channel_typed t) a v = v
  step-IsSteady channel_entered a v = v
  step-IsSteady (channel_joined ch) a v = v
  step-IsSteady (channel_left ch) a v = v

  step-Rises : (e : Event Draw) (a : App Float) → Rises 0 a.keys → Rises 0 (step N U env e a).keys
  unfolding step handle_delete_key handle_save_key
  step-Rises (keys_came answer) a r = fetch_keys-Rises answer a.keys r
  step-Rises (delete_came captured id answer clock) a r =
      delete_found-Rises (find_row id captured) (delete_sends env (find_row id captured)) id clock
        (table_of a) r
  step-Rises (save_came captured id value answer clock) a r = set_value-Rises 0 id value a.keys r
  step-Rises (polled answer d) a r = r
  step-Rises (streamed c) a r = r
  step-Rises (region_came answer clock) a r = r
  step-Rises (exec_came captured answer now clock) a r = r
  step-Rises (cmd_typed t) a r = r
  step-Rises (clicked_page p) a r = r
  step-Rises (searched q) a r = r
  step-Rises toggled a r = r
  step-Rises (pressed target) a r = r
  step-Rises (dismissed id) a r = r
  step-Rises cleared a r = r
  step-Rises (timed_out id) a r = r
  step-Rises (channel_typed t) a r = r
  step-Rises channel_entered a r = r
  step-Rises (channel_joined ch) a r = r
  step-Rises (channel_left ch) a r = r

  pub record IsSound (a : App Float) : Type 0 where
    pub toasts : IsOrdered a.queue
    pub feed : IsTidy N a.feed
    pub figures : IsSteady N (dash_of a)
    pub rows : Rises 0 a.keys

  Reach-IsSound : (a b : App Float) → IsSound a → Reach N U env a b → IsSound b
  Reach-IsSound a b v r =
      let (q, f) = Reach-parts N U env a b r in
      record {
        toasts = Reach-IsOrdered a.queue b.queue v.toasts q;
        feed = Reach-IsTidy N a.feed b.feed v.feed f;
        figures = figures b r;
        rows = rows b r;
      }
    where
      figures : (b : App Float) → Reach N U env a b → IsSteady N (dash_of b)
      figures b here = v.figures
      figures b (next {t = t} r e h) = step-IsSteady e t (figures t r)

      rows : (b : App Float) → Reach N U env a b → Rises 0 b.keys
      rows b here = v.rows
      rows b (next {t = t} r e h) = step-Rises e t (rows t r)

  opened-IsSound : (d : Dash Float) → IsSteady N d → d.queue ≡ empty → IsSound (opened N U env d)
  opened-IsSound d v e = record {
    toasts = subst IsOrdered (sym e) (record { falls = tt; bounded = omega arith });
    feed = start-IsTidy N;
    figures = v;
    rows = initial_keys-Rises;
  }

  -- The dashboard opens, whatever is drawn. From then on, whatever comes in, in any order: at most 20
  -- toasts are shown, newest first and each under an id of its own; no channel is subscribed twice and
  -- at most 50 messages are kept; the charts have 20 points, the log at most 60 lines, and the processor
  -- load is in [5, 95]; and the ids of the rows rise, so no two rows share one.
  pub open_app-IsSound :
      (ops trend : ℕ → Draw) (cs : ℕ → Chance Draw)
      → (a : App Float) × (open_app N U env ops trend cs ≡ some a)
        × ((b : App Float) → Reach N U env a b → IsSound b)
  unfolding open_app
  open_app-IsSound ops trend cs =
      let (d, e, v, q) = start_total N ops trend cs in
      (
        opened N U env d,
        ap (open_with N U env) e,
        λ b. Reach-IsSound (opened N U env d) b (opened-IsSound d v q),
      )
