-- ===== src/Tests/Pages.antt =====
-- Runs of the command line, the pub/sub page, the region and the shell.
use cachestack.Base.{All, ◌≢◌, ℕ, ◌≡◌, ◌⊎◌, refl, true, false, [], ◌∷◌, ◌++◌, none, some}
use cachestack.Text.{Text, text, trim, trim_start, trim_end, is_space}
use cachestack.Text.Sample.{ascii}
use cachestack.Number.Sample.{fractions}
use cachestack.Types.{metrics, LogEntry, Notification, error}
use cachestack.Notifications.{empty}
use cachestack.Client.{rejected, api_fetch, exec_request}
use cachestack.Mock.{Chance}
use cachestack.Palette.{Console, exec_sends, exec_cmd}
use cachestack.Palette.Laws.{exec_runs, Shows}
use cachestack.PubSub.{Feed, start, handle_sub, type_input}
use cachestack.Region
use cachestack.Region.{GeoAnswer, detect}
use cachestack.Region.Laws.{IsShown, detect-IsShown}
use cachestack.Shell.{Shell, app_root, within, closest_panel, mouse_down}
use cachestack.Shell.Panel.{mouse_down-within}
open fractions use {Float, of_ℕ}

abbrev noon : Text
noon = text "12:00:00 GMT+0000"

abbrev console : Console Float
console = record { cmd_result = []; logs = []; queue = empty }

ping-trim : trim (text " get k ") ≡ text "get k"
unfolding trim trim_end trim_start is_space
ping-trim = refl

exec_runs_example :
    (let after = exec_cmd fractions ascii (text " get k ") rejected 5 noon console in
      (exec_sends none (text " get k ") ≡ some (exec_request none (text "get k")))
      × ((word : Text) × (entry : LogEntry Float) × (after.logs ≡ entry ∷ [])
          × (entry.cmd ≡ ascii.to_upper word)
          × All (λ d. d ≢ b' ') word
          × (((text "get k" ≡ word) × (entry.key ≡ []))
              ⊎ (text "get k" ≡ word ++ (text " " ++ entry.key))))
      × Shows (api_fetch rejected) after.cmd_result)
exec_runs_example =
    exec_runs fractions ascii none (text " get k ") rejected 5 noon console b'g' (text "et k")
      ping-trim

abbrev chance : Chance ℕ
chance = record { first = 7; second = 3; for_id = 5; for_latency = 11; now = 1000; clock = noon }

abbrev feed : Feed Float
feed = start

abbrev joined_feed : Feed Float
joined_feed = handle_sub (type_input (text " alerts ") feed)

abbrev delhi : GeoAnswer
delhi = cachestack.Region.answered (record {
  failed = false;
  city = some (text "New Delhi");
  region = none;
  country_code = some (text "IN");
  country = none;
  country_name = some (text "India");
})

detect-IsShown_example : IsShown ascii (detect ascii delhi)
detect-IsShown_example = detect-IsShown ascii delhi

abbrev shell : Shell
shell = record { page = metrics; search_query = []; notif_open = true }

mouse_down-within_example :
    (mouse_down (within (false ∷ []) (app_root (false ∷ []))) shell ≡ shell)
    × (closest_panel (false ∷ []) ≡ false → (mouse_down (false ∷ []) shell).notif_open ≡ false)
mouse_down-within_example = mouse_down-within (false ∷ []) (false ∷ []) shell

abbrev failed_toast : Notification
failed_toast = record { id = 2; message = text "failed"; level = error; ts = text "12:00:00" }
