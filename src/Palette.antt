-- ===== src/Palette.antt =====
-- frontend/src/App.tsx, `execCmd`, and components/CommandPalette.tsx: running a command line and
-- logging it. `now` is `Date.now()`, `clock` is `new Date().toTimeString()`.
pub mod Laws
use cachestack.Base.{ℕ, Bool, List, [], ◌∷◌, ◌++◌, Option, none, some, take}
use cachestack.Text.{Text, text, trim, split_first, join, Unicode}
use cachestack.Number.{Number}
use cachestack.Types.{LogEntry, error}
use cachestack.Notifications.{Queue, push}
use cachestack.Client.{Request, Answer, ExecResult, api_fetch, exec_request}

abbrev pub quick_cmds : List Text
quick_cmds = text "PING" ∷ text "DBSIZE" ∷ text "KEYS" ∷ text "INFO" ∷ []

pub record Console (Float : Type 0) : Type 0 where
  pub cmd_result : Text
  pub logs : List (LogEntry Float)
  pub queue : Queue

-- `a ?? b`
abbrev pub or_given {ℓ} : {A : Type ℓ} → Option A → A → A
or_given none b = b
or_given (some a) b = a

-- `data?.result ?? data?.error ?? '(server offline)'`
abbrev pub result_text : Option ExecResult → Text
result_text none = text "(server offline)"
result_text (some r) = or_given r.result (or_given r.error (text "(server offline)"))

-- `if (data?.error) push(…)`: an empty message is falsy.
abbrev pub error_of : Option ExecResult → Text
error_of none = []
error_of (some r) = or_given r.error []

abbrev pub push_error : Text → Text → Queue → Queue
push_error [] clock q = q
push_error (c ∷ message) clock q =
    (push (text "Command error: " ++ (c ∷ message)) error 5000 clock q).0

-- The request for a command line; a blank one sends none.
abbrev pub sends_trimmed : Option Text → Text → Option Request
sends_trimmed env [] = none
sends_trimmed env (c ∷ cmd) = some (exec_request env (c ∷ cmd))

unfoldable pub exec_sends : Option Text → Text → Option Request
exec_sends env input = sends_trimmed env (trim input)

module _ (N : Number) (U : Unicode) where
  open N use {Float, of_ℕ}
  open U use {to_upper}

  -- The line for a command: its first word in upper case, and the words behind it.
  unfoldable pub log_of : Text → ℕ → Text → LogEntry Float
  log_of cmd now clock =
      let (first, more) = split_first b' ' cmd in
      record {
        id = of_ℕ now;
        cmd = to_upper first;
        key = join (text " ") more;
        latency = text "—";
        ts = take 8 clock;
      }

  abbrev pub exec_trimmed : Text → Option ExecResult → ℕ → Text → Console Float → Console Float
  exec_trimmed [] res now clock s = s
  exec_trimmed (c ∷ cmd) res now clock s = record {
    cmd_result = result_text res;
    logs = take 60 (log_of (c ∷ cmd) now clock ∷ s.logs);
    queue = push_error (error_of res) clock s.queue;
  }

  -- `execCmd` over the input that it captured, up to its end.
  unfoldable pub exec_cmd : Text → Answer ExecResult → ℕ → Text → Console Float → Console Float
  exec_cmd input answer now clock s = exec_trimmed (trim input) (api_fetch answer) now clock s
