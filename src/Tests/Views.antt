-- ===== src/Tests/Views.antt =====
-- Runs of what the page shows and asks for.
use cachestack.Base.{◌≡◌, refl, sym, subst, [], ◌∷◌, none, some, map, take, In, head, tail}
use cachestack.Text.{text, text_eq}
use cachestack.Text.Names.{has}
use cachestack.Text.Sample.{ascii}
use cachestack.Number.Sample.{fractions}
use cachestack.Types.{dashboard, keys, logs, pubsub}
use cachestack.Client.{answered, rejected}
use cachestack.Explorer.Page.{fresh_page, shown_rows}
use cachestack.PubSub.{offered}
use cachestack.Shell.{navigate, page_title}
use cachestack.App.{App, clicked_page, allowed, opened, open_app, step, Reach, here, next}
use cachestack.App.Sound.{open_app-IsSound}
use cachestack.View.{asked, of_class}
use cachestack.View.Sidebar.{sidebar}
use cachestack.View.Whole.{go_to, join_channel, Reply, event_of, shown_page, app_view}
use cachestack.View.Whole.Asks.{app_asks, asked-app_view}
use cachestack.View.Whole.Meant.{IsMeant, after, asked-Reach}
use cachestack.View.Whole.Texts.{shown_texts}
use cachestack.View.Whole.Distinct.{IsKeyed, Reach-IsKeyed}
use cachestack.Tests.Polls.{noon, chance, dash}
open fractions use {Float}

abbrev first : App Float
first = opened fractions ascii none dash

abbrev second : App Float
second = step fractions ascii none (clicked_page pubsub) first

first-second : Reach fractions ascii none first second
unfolding allowed
first-second = next here (clicked_page pubsub) refl

abbrev reply : Reply
reply = record { deleted = answered 200 (some 1); executed = rejected; now = 5; clock = noon }

asked-app_view_example :
    asked (text "x") (app_view fractions ascii 2025 second fresh_page)
    ≡ app_asks (text "x") second ascii fresh_page
asked-app_view_example = asked-app_view fractions ascii (text "x") 2025 second fresh_page

-- The tag of a channel that is not subscribed is clicked.
offers :
    In
      (join_channel (text "notifications"))
      (asked (text "x") (app_view fractions ascii 2025 second fresh_page))
unfolding offered has text_eq step navigate
offers =
    subst (In (join_channel (text "notifications")))
      (sym (asked-app_view fractions ascii (text "x") 2025 second fresh_page))
      (tail (tail (tail (tail (tail (tail (tail (tail (tail (tail (tail head)))))))))))

asked-Reach_example :
    IsMeant second fresh_page (join_channel (text "notifications"))
    × Reach fractions ascii none first (
        after fractions ascii none
          (event_of reply second (join_channel (text "notifications")))
          second)
asked-Reach_example =
    asked-Reach fractions ascii none 2025 first second fresh_page (text "x")
      (join_channel (text "notifications")) reply first-second offers

shown_texts_example :
    (of_class (text "nav-item active") (sidebar 2025 second.shell.page second.region go_to)
      ≡ page_title second.shell.page ∷ [])
    × (of_class (text "key-name") (shown_page fractions ascii keys second fresh_page)
        ≡ map (λ k. k.key) (shown_rows ascii second.shell.search_query second.keys fresh_page))
    × (of_class (text "log-key") (shown_page fractions ascii logs second fresh_page)
        ≡ map (λ l. l.key) second.logs)
    × (of_class (text "log-key") (shown_page fractions ascii dashboard second fresh_page)
        ≡ map (λ l. l.key) (take 6 second.logs))
    × (of_class (text "pubsub-body") (shown_page fractions ascii pubsub second fresh_page)
        ≡ map (λ m. m.body) second.feed.messages)
shown_texts_example = shown_texts fractions ascii 2025 second fresh_page

abbrev started : App Float
started = (open_app-IsSound fractions ascii none (λ i. i) (λ i. i) (λ i. chance)).0

started-opens : open_app fractions ascii none (λ i. i) (λ i. i) (λ i. chance) ≡ some started
started-opens = (open_app-IsSound fractions ascii none (λ i. i) (λ i. i) (λ i. chance)).1

then_keys :
    Reach fractions ascii none started (step fractions ascii none (clicked_page keys) started)
unfolding allowed
then_keys = next here (clicked_page keys) refl

Reach-IsKeyed_example :
    IsKeyed fractions ascii (step fractions ascii none (clicked_page keys) started) fresh_page
Reach-IsKeyed_example =
    Reach-IsKeyed fractions ascii none (λ i. i) (λ i. i) (λ i. chance) started
      (step fractions ascii none (clicked_page keys) started) fresh_page started-opens then_keys
