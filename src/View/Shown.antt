-- ===== src/View/Shown.antt =====
-- The texts that the pages show.
use mathlib.Core.List.{append-nil}
use cachestack.Base.{
  ℕ, ◌≡◌, refl, List, [], ◌∷◌, Option, none, some, map, take, length, Bool-cases, inl, inr,
}
use cachestack.Text.{Text, text, Unicode}
use cachestack.Number.{Number}
use cachestack.Types.{
  PageId, dashboard, keys, metrics, logs, pubsub, KeyEntry, LogEntry, PubSubMessage,
}
use cachestack.Poll.{Live}
use cachestack.Region.{RegionInfo}
use cachestack.Shell.{page_title}
use cachestack.Explorer.{Shown, plain, marked, letters, active_search, key_cell}
use cachestack.Explorer.Highlight.{letters-key_cell}
use cachestack.Explorer.Page.{Page, Modal, shown_rows}
use cachestack.PubSub.{Feed, offered}
use cachestack.View.{Node, each, content, of_class}
use cachestack.View.Icon.{icon_of}
use cachestack.View.Sidebar.{sidebar}
use cachestack.View.Logs.{log_line, command_color, logs_page, recent_commands}
use cachestack.View.Figures.{dashboard_page}
use cachestack.View.Channels.{joined_tag, offered_tag, message, messages_of, pubsub_page}
use cachestack.View.Explorer.{
  PageEvent, shown_node, search_bar, table_row, table_body, explorer_page,
}
use cachestack.View.Modal.{value_row, modal_footer, view_modal, modal_of}

module _ {A : Type 0} (c : Text) where
  pub of_class-each {ℓ} :
      {B : Type ℓ} (f : B → Node A) (g : B → Text) (bs : List B)
      → ((b : B) → of_class c (f b) ≡ g b ∷ [])
      → of_class c (each f bs) ≡ map g bs
  unfolding of_class
  of_class-each f g [] h = refl
  of_class-each f g (b ∷ bs) h = rw (h b, of_class-each f g bs h) refl

  pub of_class-each_nil {ℓ} :
      {B : Type ℓ} (f : B → Node A) (bs : List B)
      → ((b : B) → of_class c (f b) ≡ [])
      → of_class c (each f bs) ≡ []
  unfolding of_class
  of_class-each_nil f [] h = refl
  of_class-each_nil f (b ∷ bs) h = rw (h b, of_class-each_nil f bs h) refl

module _ (A : Type 0) where
  content-shown_node : (s : Shown) → content (shown_node {A = A} s) ≡ letters s
  unfolding content
  content-shown_node (plain s) = refl
  content-shown_node (marked before middle after) = refl

  of_class-shown_node : (c : Text) (s : Shown) → of_class c (shown_node {A = A} s) ≡ []
  unfolding of_class
  of_class-shown_node c (plain s) = refl
  of_class-shown_node c (marked before middle after) = refl

  -- One entry of the side bar is marked, that of the page.
  pub active-sidebar :
      (year : ℕ) (page : PageId) (region : RegionInfo) (f : PageId → A)
      → of_class (text "nav-item active") (sidebar year page region f) ≡ page_title page ∷ []
  unfolding of_class sidebar icon_of
  active-sidebar year dashboard region f = refl
  active-sidebar year keys region f = refl
  active-sidebar year metrics region f = refl
  active-sidebar year logs region f = refl
  active-sidebar year pubsub region f = refl

module _ (N : Number) (U : Unicode) (A : Type 0) where
  open N use {Float}

  pub keys-logs_page :
      (ls : List (LogEntry Float))
      → of_class (text "log-key") (logs_page N U {A = A} ls) ≡ map (λ l. l.key) ls
  unfolding of_class logs_page
  keys-logs_page ls =
      of_class-each (text "log-key") (λ l. log_line N U (command_color N U l ∷ []) l) (λ l. l.key)
        ls (λ l. refl)

  pub keys-dashboard_page :
      (live : Live Float) (ls : List (LogEntry Float))
      → of_class (text "log-key") (dashboard_page N U {A = A} live ls)
        ≡ map (λ l. l.key) (take 6 ls)
  unfolding of_class dashboard_page recent_commands
  keys-dashboard_page live ls =
      of_class-each (text "log-key") (log_line N U []) (λ l. l.key) (take 6 ls) (λ l. refl)

module _ (N : Number) (A : Type 0) where
  open N use {Float}

  bodies-messages_of :
      (ms : List (PubSubMessage Float))
      → of_class (text "pubsub-body") (messages_of N {A = A} ms) ≡ map (λ m. m.body) ms
  unfolding of_class message
  bodies-messages_of [] = refl
  bodies-messages_of (m ∷ ms) =
      of_class-each (text "pubsub-body") (message N) (λ n. n.body) (m ∷ ms) (λ n. refl)

  pub bodies-pubsub_page :
      (feed : Feed Float) (f : Text → A) (e : A) (s u : Text → A)
      → of_class (text "pubsub-body") (pubsub_page N feed f e s u) ≡ map (λ m. m.body) feed.messages
  unfolding of_class pubsub_page joined_tag offered_tag
  bodies-pubsub_page feed f e s u =
      rw
        (
          of_class-each_nil (text "pubsub-body") (joined_tag u) feed.channels (λ ch. refl),
          of_class-each_nil (text "pubsub-body") (offered_tag s) (offered feed) (λ ch. refl),
          bodies-messages_of feed.messages,
        )
        (append-nil _)

module _ (U : Unicode) {A : Type 0} (g : PageEvent → A) (d : ℕ → A) where
  names-search_bar :
      (active type_filter : Text) (m n : ℕ)
      → of_class (text "key-name") (search_bar U g d active type_filter m n) ≡ []
  unfolding of_class search_bar icon_of
  names-search_bar [] type_filter m n = refl
  names-search_bar (c ∷ active) type_filter m n = refl

  name-table_row :
      (active : Text) (k : KeyEntry)
      → of_class (text "key-name") (table_row U g d active k) ≡ k.key ∷ []
  unfolding of_class table_row icon_of
  name-table_row active k = rw (
    of_class-shown_node A (text "key-name") (key_cell U active k),
    content-shown_node A (key_cell U active k),
    letters-key_cell U active k,
  )

  names-table_body :
      (active : Text) (table rows : List KeyEntry)
      → of_class (text "key-name") (table_body U g d active table rows) ≡ map (λ k. k.key) rows
  unfolding of_class
  names-table_body active table [] = refl
  names-table_body active table (k ∷ ks) =
      of_class-each (text "key-name") (table_row U g d active) (λ r. r.key) (k ∷ ks)
        (name-table_row active)

  pub names-explorer_page :
      (query : Text) (table : List KeyEntry) (p : Page)
      → of_class (text "key-name") (explorer_page U g d query table p)
        ≡ map (λ k. k.key) (shown_rows U query table p)
  unfolding of_class explorer_page
  names-explorer_page query table p = rw (
    names-search_bar (active_search U p.local_search query) p.type_filter
        (length (shown_rows U query table p)) (length table),
    names-table_body (active_search U p.local_search query) table (shown_rows U query table p),
  )

module _ {A : Type 0} (close : A) (d : ℕ → A) (save : ℕ → Text → A) (f : Text → A) where
  names-view_modal : (m : Modal) → of_class (text "key-name") (view_modal close d save f m) ≡ []
  unfolding of_class view_modal value_row modal_footer
  names-view_modal m = elim (Bool-cases m.is_edit) [
    | inl e ↦ elim (Bool-cases m.inner.loading) [ inl l ↦ rw (e, l) refl | inr l ↦ rw (e, l) refl ]
    | inr e ↦ elim (Bool-cases m.inner.loading) [ inl l ↦ rw (e, l) refl | inr l ↦ rw (e, l) refl ]
  ]

  pub names-modal_of :
      (o : Option Modal) → of_class (text "key-name") (modal_of close d save f o) ≡ []
  unfolding of_class
  names-modal_of none = refl
  names-modal_of (some m) = names-view_modal m
