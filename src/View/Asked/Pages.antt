-- ===== src/View/Asked/Pages.antt =====
-- What the handlers of each page and of the command palette ask for.
use mathlib.Core.List.{append-nil, append_assoc}
use cachestack.Base.{
  ℕ, ◌≡◌, refl, Bool, true, false, List, [], ◌∷◌, ◌++◌, map, take, length, Bool-cases, inl, inr,
}
use cachestack.Text.{Text, text_eq, Unicode}
use cachestack.Number.{Number}
use cachestack.Types.{KeyEntry, LogEntry, PubSubMessage}
use cachestack.Poll.{Live}
use cachestack.Palette.{quick_cmds}
use cachestack.PubSub.{Feed, offered}
use cachestack.Explorer.{Shown, plain, marked, active_search, key_cell}
use cachestack.Explorer.Page.{Page, Modal, shown_rows}
use cachestack.View.{asked}
use cachestack.View.Icon.{icon_of}
use cachestack.View.Logs.{log_line, command_color, logs_page, recent_commands}
use cachestack.View.Figures.{bar_card, metrics_page, dashboard_page}
use cachestack.View.Palette.{on_enter, quick_cmd, command_palette}
use cachestack.View.Channels.{joined_tag, offered_tag, message, messages_of, pubsub_page}
use cachestack.View.Explorer.{
  PageEvent, typed_search, chose_type, opened, shown_node, search_bar, table_row, table_body,
  explorer_page,
}
use cachestack.View.Modal.{value_row, modal_footer, view_modal}
use cachestack.View.Asked.{gather, clear_asks, asked-each, asked-each-map, asked-each_nil}

module _ {A : Type 0} (t : Text) where
  pub asked-command_palette :
      (value result : Text) (online : Bool) (f : Text → A) (exec : A)
      → asked t (command_palette value result online f exec)
        ≡ f t ∷ (on_enter exec t ++ (exec ∷ map f quick_cmds))
  unfolding asked command_palette quick_cmd
  asked-command_palette value [] online f exec = simp (append-nil, append_assoc)
  asked-command_palette value (c ∷ result) online f exec = simp (append-nil, append_assoc)

  asked-joined_tag : (f : Text → A) (ch : Text) → asked t (joined_tag f ch) ≡ f ch ∷ []
  unfolding asked joined_tag
  asked-joined_tag f ch = refl

  asked-offered_tag : (f : Text → A) (ch : Text) → asked t (offered_tag f ch) ≡ f ch ∷ []
  unfolding asked offered_tag
  asked-offered_tag f ch = refl

  asked-shown_node : (s : Shown) → asked {A = A} t (shown_node s) ≡ []
  unfolding asked
  asked-shown_node (plain s) = refl
  asked-shown_node (marked before middle after) = refl

  -- The modal's handlers, by its mode and by whether its value still loads.
  abbrev pub modal_asks :
      (is_edit loading : Bool) (id : ℕ) (val : Text)
      → A
      → (ℕ → A)
      → (ℕ → Text → A)
      → (Text → A)
      → List A
  modal_asks false loading id val close del save f = close ∷ close ∷ close ∷ []
  modal_asks true true id val close del save f = close ∷ close ∷ del id ∷ close ∷ close ∷ []
  modal_asks true false id val close del save f =
      close ∷ close ∷ f t ∷ del id ∷ close ∷ close ∷ save id val ∷ close ∷ []

  pub asked-view_modal :
      (close : A) (del : ℕ → A) (save : ℕ → Text → A) (f : Text → A) (m : Modal)
      → asked t (view_modal close del save f m)
        ≡ modal_asks m.is_edit m.inner.loading m.item.id m.inner.val close del save f
  unfolding asked view_modal value_row modal_footer text_eq
  asked-view_modal close del save f m = elim (Bool-cases m.is_edit) [
    | inl e ↦ elim (Bool-cases m.inner.loading) [ inl l ↦ rw (e, l) refl | inr l ↦ rw (e, l) refl ]
    | inr e ↦ elim (Bool-cases m.inner.loading) [ inl l ↦ rw (e, l) refl | inr l ↦ rw (e, l) refl ]
  ]

module _ (N : Number) (U : Unicode) {A : Type 0} (t : Text) where
  open N use {Float}

  -- The figures and the log ask for nothing.
  pub asked-metrics_page : (live : Live Float) → asked {A = A} t (metrics_page N live) ≡ []
  unfolding asked metrics_page bar_card
  asked-metrics_page live = refl

  pub asked-dashboard_page :
      (live : Live Float) (logs : List (LogEntry Float))
      → asked {A = A} t (dashboard_page N U live logs) ≡ []
  unfolding asked dashboard_page recent_commands
  asked-dashboard_page live logs = asked-each_nil t (log_line N U []) (take 6 logs) (λ log. refl)

  pub asked-logs_page : (logs : List (LogEntry Float)) → asked {A = A} t (logs_page N U logs) ≡ []
  unfolding asked logs_page command_color
  asked-logs_page logs =
      asked-each_nil t (λ log. log_line N U (command_color N U log ∷ []) log) logs (λ log. refl)

module _ (N : Number) {A : Type 0} (t : Text) where
  open N use {Float}

  asked-messages_of : (ms : List (PubSubMessage Float)) → asked {A = A} t (messages_of N ms) ≡ []
  unfolding asked message
  asked-messages_of [] = refl
  asked-messages_of (m ∷ ms) = asked-each_nil t (message N) (m ∷ ms) (λ n. refl)

  pub asked-pubsub_page :
      (feed : Feed Float) (f : Text → A) (e : A) (s u : Text → A)
      → asked t (pubsub_page N feed f e s u)
        ≡ f t ∷ (on_enter e t ++ (e ∷ (map u feed.channels ++ map s (offered feed))))
  unfolding asked pubsub_page
  asked-pubsub_page feed f e s u =
      rw
        (
          asked-each-map t (joined_tag u) u feed.channels (asked-joined_tag t u),
          asked-each-map t (offered_tag s) s (offered feed) (asked-offered_tag t s),
          asked-messages_of feed.messages,
        )
        (simp (append-nil, append_assoc))

module _ (U : Unicode) {A : Type 0} (g : PageEvent → A) (d : ℕ → A) (t : Text) where
  -- What the buttons of a row ask for.
  abbrev pub row_asks : KeyEntry → List A
  row_asks k = g (opened false k) ∷ g (opened true k) ∷ d k.id ∷ []

  asked-table_row : (active : Text) (k : KeyEntry) → asked t (table_row U g d active k) ≡ row_asks k
  unfolding asked table_row icon_of
  asked-table_row active k = rw (asked-shown_node {A = A} t (key_cell U active k)) refl

  asked-table_body :
      (active : Text) (keys rows : List KeyEntry)
      → asked t (table_body U g d active keys rows) ≡ gather row_asks rows
  unfolding asked
  asked-table_body active keys [] = refl
  asked-table_body active keys (k ∷ ks) =
      asked-each t (table_row U g d active) row_asks (k ∷ ks) (asked-table_row active)

  asked-search_bar :
      (active type_filter : Text) (m n : ℕ)
      → asked t (search_bar U g d active type_filter m n)
        ≡ g (typed_search t)
          ∷ (clear_asks t active (g (typed_search [])) ++ (g (chose_type t) ∷ []))
  unfolding asked search_bar icon_of
  asked-search_bar [] type_filter m n = refl
  asked-search_bar (c ∷ active) type_filter m n = refl

  pub asked-explorer_page :
      (query : Text) (keys : List KeyEntry) (p : Page)
      → asked t (explorer_page U g d query keys p)
        ≡ g (typed_search t)
          ∷ (clear_asks t (active_search U p.local_search query) (g (typed_search []))
              ++ (g (chose_type t) ∷ gather row_asks (shown_rows U query keys p)))
  unfolding asked explorer_page
  asked-explorer_page query keys p =
      rw
        (
          asked-search_bar (active_search U p.local_search query) p.type_filter
              (length (shown_rows U query keys p)) (length keys),
          asked-table_body (active_search U p.local_search query) keys (shown_rows U query keys p),
        )
        (simp append_assoc)
