-- ===== src/View/Whole/Distinct.antt =====
-- The keys of what stands side by side on the page.
use mathlib.Core.Option.{some-injective}
use cachestack.Base.{ℕ, ◌≡◌, ◌∙◌, refl, subst, sym, List, [], ◌∷◌, Option, some, map, take, not}
use cachestack.Text.{Text, text_eq, Unicode}
use cachestack.Text.Names.{has, Distinct, Distinct-filter, all_distinct, all_distinct_sound}
use cachestack.Number.{Number}
use cachestack.Types.{KeyEntry, Notification}
use cachestack.Mock.{Chance, all_channels}
use cachestack.Notifications.Order.{Falls, Falls-take}
use cachestack.Explorer.{filtered}
use cachestack.Explorer.Page as ExplorerPage
use cachestack.Explorer.Page.{shown_rows}
use cachestack.PubSub.{Feed, offered}
use cachestack.Text.Decimal.{show_ℕ}
use cachestack.Shell.{toast_strip}
use cachestack.Keys.Ids.{Rises}
use cachestack.App.{App, open_app, Reach}
use cachestack.App.Sound.{IsSound, open_app-IsSound}
use cachestack.View.{each, sibling_keys}
use cachestack.View.Panel.{notice, toast}
use cachestack.View.Channels.{joined_tag, offered_tag}
use cachestack.View.Explorer.{table_row}
use cachestack.View.Siblings.{
  sibling_keys-each, Rises-filter, Distinct-rows, Distinct-notifications,
}
use cachestack.View.Whole.{dismiss_one, join_channel, leave_channel, delete_row, on_page}

map_self : (cs : List Text) → map (λ ch. ch) cs ≡ cs
map_self [] = refl
map_self (c ∷ cs) = rw (map_self cs)

all_channels-Distinct : Distinct all_channels
unfolding all_distinct text_eq
all_channels-Distinct = all_distinct_sound all_channels refl

Falls-toast_strip : (b : ℕ) (ns : List Notification) → Falls b ns → Falls b (toast_strip ns)
unfolding toast_strip
Falls-toast_strip b ns f = Falls-take b 4 (take 3 ns) (Falls-take b 3 ns f)

Rises-shown_rows :
    (U : Unicode) (q : Text) (xs : List KeyEntry) (p : ExplorerPage.Page)
    → Rises 0 xs
    → Rises 0 (shown_rows U q xs p)
unfolding shown_rows filtered
Rises-shown_rows U q xs p r = Rises-filter _ 0 xs r

Distinct-offered : {Float : Type 0} (feed : Feed Float) → Distinct (offered feed)
unfolding offered
Distinct-offered feed =
    Distinct-filter (λ c. not (has c feed.channels)) all_channels all_channels-Distinct

module _ (N : Number) (U : Unicode) where
  open N use {Float}

  -- Distinct keys: of the notifications listed and of the toasts, of the rows shown and of the tags.
  pub record IsKeyed (a : App Float) (p : ExplorerPage.Page) : Type 0 where
    pub notices : Distinct (sibling_keys (each (notice dismiss_one) a.queue.notifications))
    pub toasts :
        Distinct (sibling_keys (each (toast dismiss_one) (toast_strip a.queue.notifications)))
    pub rows :
        (active : Text)
        → Distinct (
            sibling_keys (
              each
                (table_row U on_page delete_row active)
                (shown_rows U a.shell.search_query a.keys p)))
    pub joined : Distinct (sibling_keys (each (joined_tag leave_channel) a.feed.channels))
    pub others : Distinct (sibling_keys (each (offered_tag join_channel) (offered a.feed)))

module _ (N : Number) (U : Unicode) (env : Option Text) where
  open N use {Float, Draw}

  IsSound-IsKeyed : (a : App Float) (p : ExplorerPage.Page) → IsSound N U env a → IsKeyed N U a p
  unfolding sibling_keys notice toast table_row joined_tag offered_tag
  IsSound-IsKeyed a p v = record {
    notices =
        subst Distinct
          (sym (
            sibling_keys-each (notice dismiss_one) (λ n. show_ℕ n.id) a.queue.notifications
              (λ n. refl)))
          (Distinct-notifications _ a.queue.notifications v.toasts.falls);
    toasts =
        subst Distinct
          (sym (
            sibling_keys-each (toast dismiss_one) (λ n. show_ℕ n.id)
              (toast_strip a.queue.notifications) (λ n. refl)))
          (Distinct-notifications _ (toast_strip a.queue.notifications)
            (Falls-toast_strip _ a.queue.notifications v.toasts.falls));
    rows = λ active.
        subst Distinct
          (sym (
            sibling_keys-each (table_row U on_page delete_row active) (λ k. show_ℕ k.id)
              (shown_rows U a.shell.search_query a.keys p) (λ k. refl)))
          (Distinct-rows 0 (shown_rows U a.shell.search_query a.keys p)
            (Rises-shown_rows U a.shell.search_query a.keys p v.rows));
    joined =
        subst Distinct
          (sym (
            sibling_keys-each (joined_tag leave_channel) (λ ch. ch) a.feed.channels (λ ch. refl)
            ∙ map_self _))
          v.feed.distinct;
    others =
        subst Distinct
          (sym (
            sibling_keys-each (offered_tag join_channel) (λ ch. ch) (offered a.feed) (λ ch. refl)
            ∙ map_self _))
          (Distinct-offered a.feed);
  }

  -- In every state that comes of the dashboard's first one, whatever is drawn and happens, and whatever
  -- the explorer's page holds, the keys are distinct within each of these arrays: the notifications
  -- listed, the toasts, the rows shown, the tags of the channels subscribed and those of the others.
  pub Reach-IsKeyed :
      (ops trend : ℕ → Draw) (cs : ℕ → Chance Draw) (a b : App Float) (p : ExplorerPage.Page)
      → open_app N U env ops trend cs ≡ some a
      → Reach N U env a b
      → IsKeyed N U b p
  Reach-IsKeyed ops trend cs a b p opens reach =
      let (a', e, sound) = open_app-IsSound N U env ops trend cs in
      IsSound-IsKeyed b p
        (sound b (subst (λ x. Reach N U env x b) (some-injective a a' (sym opens ∙ e)) reach))
