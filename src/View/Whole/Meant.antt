-- ===== src/View/Whole/Meant.antt =====
-- What is asked for is about what is shown, and is something that can happen to the dashboard.
use cachestack.Base.{
  ℕ, ◌≡◌, ◌⊎◌, refl, subst, Bool, true, false, List, [], ◌∷◌, Option, none, some, map, take, All,
  In, All-append, All-take, All-of_In, All-map, All-In, In-filter_iff, if◌then◌else◌, inl, inr,
}
use cachestack.Text.{Text, text, text_eq, Unicode}
use cachestack.Text.Names.{has_iff}
use cachestack.Number.{Number}
use cachestack.Types.{PageId, dashboard, keys, metrics, logs, pubsub, KeyEntry, Notification}
use cachestack.PubSub.{offered}
use cachestack.Explorer.{active_search, filtered}
use cachestack.Explorer.Page as ExplorerPage
use cachestack.Explorer.Page.{Modal, shown_rows}
use cachestack.Shell.{toast_strip}
use cachestack.App.{App, Event, allowed, step, Reach, next}
use cachestack.View.{asked}
use cachestack.View.Palette.{on_enter}
use cachestack.View.Explorer.{typed_search, opened, closed, typed_value}
use cachestack.View.Asked.{gather, clear_asks, list_asks}
use cachestack.View.Asked.Pages.{modal_asks, row_asks}
use cachestack.View.Whole.{
  Ask, go_to, search_for, toggle_list, dismiss_one, dismiss_every, type_command, run_command,
  type_channel, enter_channel, join_channel, leave_channel, delete_row, save_row, on_page, Reply,
  event_of, app_view,
}
use cachestack.View.Whole.Asks.{
  open_modal_asks, palette_asks, topbar_asks, page_asks, app_asks, asked-app_view,
}

module _ {Float : Type 0} (a : App Float) (p : ExplorerPage.Page) where
  -- The id is that of a row of the table, or that of the row for which the modal was opened.
  abbrev pub IsRow : ℕ → Type 0
  IsRow id =
      ((k : KeyEntry) × In k a.keys × (k.id ≡ id))
      ⊎ ((m : Modal) × (p.modal ≡ some m) × (m.item.id ≡ id))

  -- What each ask is about.
  abbrev pub IsMeant : Ask → Type 0
  IsMeant (dismiss_one id) = (n : Notification) × In n a.queue.notifications × (n.id ≡ id)
  IsMeant (join_channel ch) = In ch (offered a.feed)
  IsMeant (leave_channel ch) = In ch a.feed.channels
  IsMeant (delete_row id) = IsRow id
  IsMeant (save_row id v) =
      (m : Modal) × (p.modal ≡ some m)
      × (m.is_edit ≡ true)
      × (m.inner.loading ≡ false)
      × (m.item.id ≡ id)
      × (m.inner.val ≡ v)
  IsMeant (on_page (opened is_edit k)) = In k a.keys
  IsMeant _ = Unit {0}

  on_enter-IsMeant : (b : Bool) (x : Ask) → IsMeant x → All IsMeant (if b then x ∷ [] else [])
  on_enter-IsMeant true x h = (h, tt)
  on_enter-IsMeant false x h = tt

  clear_asks-IsMeant : (t query : Text) (x : Ask) → IsMeant x → All IsMeant (clear_asks t query x)
  clear_asks-IsMeant t [] x h = tt
  clear_asks-IsMeant t (c ∷ query) x h = (h, tt)

  dismissals :
      (ns : List Notification)
      → All (λ n. In n a.queue.notifications) ns
      → All IsMeant (map (λ n. dismiss_one n.id) ns)
  dismissals [] h = tt
  dismissals (n ∷ ns) (m, h) = ((n, m, refl), dismissals ns h)

  list_asks-IsMeant :
      (t : Text) (shown : Bool) (ns : List Notification)
      → All (λ n. In n a.queue.notifications) ns
      → All IsMeant (list_asks t shown ns dismiss_one dismiss_every)
  list_asks-IsMeant t false ns h = tt
  list_asks-IsMeant t true [] h = tt
  list_asks-IsMeant t true (n ∷ ns) h = (tt, dismissals (n ∷ ns) h)

  row_asks-IsMeant :
      (t : Text) (U : Unicode) (rows : List KeyEntry)
      → All (λ k. In k a.keys) rows
      → All IsMeant (gather (row_asks U on_page delete_row t) rows)
  row_asks-IsMeant t U [] h = tt
  row_asks-IsMeant t U (k ∷ rows) (m, h) = (m, (m, (inl (k, m, refl), row_asks-IsMeant t U rows h)))

  modal_asks-IsMeant :
      (t : Text) (is_edit loading : Bool) (m : Modal)
      → p.modal ≡ some m
      → m.is_edit ≡ is_edit
      → m.inner.loading ≡ loading
      → All IsMeant (
          modal_asks t is_edit loading m.item.id m.inner.val
            (on_page closed)
            delete_row
            save_row
            (λ v. on_page (typed_value v)))
  modal_asks-IsMeant t false loading m e f g = (tt, (tt, (tt, tt)))
  modal_asks-IsMeant t true true m e f g = (tt, (tt, (inr (m, e, refl), (tt, (tt, tt)))))
  modal_asks-IsMeant t true false m e f g =
      (tt, (tt, (tt, (inr (m, e, refl), (tt, (tt, ((m, e, f, g, refl, refl), (tt, tt))))))))

  open_modal_asks-IsMeant :
      (t : Text) (o : Option Modal) → p.modal ≡ o → All IsMeant (open_modal_asks t o)
  open_modal_asks-IsMeant t none e = tt
  open_modal_asks-IsMeant t (some m) e =
      modal_asks-IsMeant t m.is_edit m.inner.loading m e refl refl

  page_asks-IsMeant :
      (t : Text) (U : Unicode) (page : PageId) → All IsMeant (page_asks t a U p page)
  unfolding shown_rows filtered
  page_asks-IsMeant t U dashboard = tt
  page_asks-IsMeant t U keys = (
    tt,
    All-append IsMeant
        (clear_asks t (active_search U p.local_search a.shell.search_query)
          (on_page (typed_search [])))
        _
        (clear_asks-IsMeant t (active_search U p.local_search a.shell.search_query)
          (on_page (typed_search [])) tt)
        (
          tt,
          All-append IsMeant
              (gather (row_asks U on_page delete_row t)
                (shown_rows U a.shell.search_query a.keys p))
              _
              (row_asks-IsMeant t U (shown_rows U a.shell.search_query a.keys p)
                (All-of_In _ _ (λ k m. ((In-filter_iff _ k a.keys).0 m).0)))
              (open_modal_asks-IsMeant t p.modal refl),
        ),
  )
  page_asks-IsMeant t U metrics = tt
  page_asks-IsMeant t U logs = tt
  page_asks-IsMeant t U pubsub = (
    tt,
    All-append IsMeant (on_enter enter_channel t) _
        (on_enter-IsMeant (text_eq t (text "Enter")) enter_channel tt)
        (
          tt,
          All-append IsMeant (map leave_channel a.feed.channels) (map join_channel (offered a.feed))
              (All-map IsMeant leave_channel a.feed.channels (All-of_In _ _ (λ ch m. m)))
              (All-map IsMeant join_channel (offered a.feed) (All-of_In _ _ (λ ch m. m))),
        ),
  )

  topbar_asks-IsMeant : (t : Text) → All IsMeant (topbar_asks t a)
  topbar_asks-IsMeant t = (
    tt,
    All-append IsMeant (clear_asks t a.shell.search_query (search_for [])) _
        (clear_asks-IsMeant t a.shell.search_query (search_for []) tt)
        (
          tt,
          list_asks-IsMeant t a.shell.notif_open a.queue.notifications (All-of_In _ _ (λ n m. m)),
        ),
  )

  palette_asks-IsMeant : (t : Text) → All IsMeant (palette_asks t)
  palette_asks-IsMeant t = (
    tt,
    All-append IsMeant (on_enter run_command t) _
        (on_enter-IsMeant (text_eq t (text "Enter")) run_command tt)
        (tt, (tt, (tt, (tt, (tt, tt))))),
  )

  pub app_asks-IsMeant : (t : Text) (U : Unicode) → All IsMeant (app_asks t a U p)
  unfolding toast_strip
  app_asks-IsMeant t U = (
    tt,
    (
      tt,
      (
        tt,
        (
          tt,
          (
            tt,
            All-append IsMeant (topbar_asks t a) _ (topbar_asks-IsMeant t) (
                All-append IsMeant (page_asks t a U p a.shell.page) _
                  (page_asks-IsMeant t U a.shell.page)
                  (All-append IsMeant (palette_asks t) _ (palette_asks-IsMeant t) (
                    dismissals (toast_strip a.queue.notifications) (
                      All-take _ 4 (take 3 a.queue.notifications)
                        (All-take _ 3 a.queue.notifications (All-of_In _ _ (λ n m. m))))))),
          ),
        ),
      ),
    ),
  )

module _ (N : Number) (U : Unicode) (env : Option Text) where
  open N use {Float, Draw}

  -- The state after what is asked, if that concerns App.
  abbrev pub after : Option (Event Draw) → App Float → App Float
  after none a = a
  after (some e) a = step N U env e a

  Reach-event_of :
      (r : Reply) (a b : App Float) (p : ExplorerPage.Page) (ask : Ask)
      → Reach N U env a b
      → IsMeant b p ask
      → Reach N U env a (after (event_of r b ask) b)
  unfolding event_of allowed
  Reach-event_of r a b p (go_to page) reach h = next reach _ refl
  Reach-event_of r a b p (search_for q) reach h = next reach _ refl
  Reach-event_of r a b p toggle_list reach h = next reach _ refl
  Reach-event_of r a b p (dismiss_one id) reach h = next reach _ refl
  Reach-event_of r a b p dismiss_every reach h = next reach _ refl
  Reach-event_of r a b p (type_command v) reach h = next reach _ refl
  Reach-event_of r a b p run_command reach h = next reach _ refl
  Reach-event_of r a b p (type_channel v) reach h = next reach _ refl
  Reach-event_of r a b p enter_channel reach h = next reach _ refl
  Reach-event_of r a b p (join_channel ch) reach h =
      next reach _ ((has_iff ch (offered b.feed)).1 h)
  Reach-event_of r a b p (leave_channel ch) reach h = next reach _ refl
  Reach-event_of r a b p (delete_row id) reach h = next reach _ refl
  Reach-event_of r a b p (save_row id v) reach h = next reach _ refl
  Reach-event_of r a b p (on_page e) reach h = reach

  -- Whatever a handler of the page asks for, in a state `b` that comes of `a`, is about what is there: a
  -- dismissal about a notification of the queue, a channel to join about one that is offered, one to
  -- leave about one that is subscribed, a deletion about a row of the table or the row of the open modal,
  -- a save about the modal's row and value, in edit mode and with nothing loading, and a row to open about
  -- one of the table. And what comes of it, whatever the server answers, comes of `a` too.
  pub asked-Reach :
      (year : ℕ) (a b : App Float) (p : ExplorerPage.Page) (t : Text) (ask : Ask) (r : Reply)
      → Reach N U env a b
      → In ask (asked t (app_view N U year b p))
      → IsMeant b p ask × Reach N U env a (after (event_of r b ask) b)
  asked-Reach year a b p t ask r reach m =
      let meant =
        All-In (IsMeant b p) ask (app_asks t b U p) (app_asks-IsMeant b p t U)
          (subst (In ask) (asked-app_view N U t year b p) m) in
      (meant, Reach-event_of r a b p ask reach meant)
