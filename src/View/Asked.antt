-- ===== src/View/Asked.antt =====
-- What the handlers of each component ask for, in the order of the document.
pub mod Pages
use cachestack.Base.{
  ℕ, suc, arith, ◌≡◌, ◌∙◌, refl, ap, Bool, true, false, List, [], ◌∷◌, ◌++◌, Option, none, some,
  map, take, length, if◌then◌else◌, ltb,
}
use cachestack.Text.{Text, text, text_eq, Unicode}
use cachestack.Number.{Number}
use cachestack.Types.{PageId, dashboard, keys, metrics, logs, pubsub, Notification, KeyEntry}
use cachestack.Region.{RegionInfo}
use cachestack.Shell.{nav_items, bell_badge, Accent}
use mathlib.Core.List.{append-nil}
use cachestack.View.{Node, each, when, asked}
use cachestack.View.Icon.{icon_of}
use cachestack.View.Panel.{
  notice, notices, toast, strip, bell, badge_dot, dropdown, notification_panel,
}
use cachestack.View.Sidebar.{nav_entry, github_link, side_footer, sidebar}
use cachestack.View.Topbar.{status_badge, search_field, topbar}

-- `items.flatMap(f)`
abbrev pub gather {ℓ} : {A : Type 0} {B : Type ℓ} → (B → List A) → List B → List A
gather f [] = []
gather f (b ∷ bs) = f b ++ gather f bs

ltb-zero_suc : (n : ℕ) → ltb 0 (suc n) ≡ true
ltb-zero_suc n = ground arith

module _ {A : Type 0} (t : Text) where
  pub asked-each {ℓ} :
      {B : Type ℓ} (f : B → Node A) (g : B → List A) (bs : List B)
      → ((b : B) → asked t (f b) ≡ g b)
      → asked t (each f bs) ≡ gather g bs
  unfolding asked
  asked-each f g [] h = refl
  asked-each f g (b ∷ bs) h = rw (h b, asked-each f g bs h) refl

  pub asked-each-map {ℓ} :
      {B : Type ℓ} (f : B → Node A) (g : B → A) (bs : List B)
      → ((b : B) → asked t (f b) ≡ g b ∷ [])
      → asked t (each f bs) ≡ map g bs
  unfolding asked
  asked-each-map f g [] h = refl
  asked-each-map f g (b ∷ bs) h = rw (h b, asked-each-map f g bs h) refl

  pub asked-each_nil {ℓ} :
      {B : Type ℓ} (f : B → Node A) (bs : List B)
      → ((b : B) → asked t (f b) ≡ [])
      → asked t (each f bs) ≡ []
  unfolding asked
  asked-each_nil f [] h = refl
  asked-each_nil f (b ∷ bs) h = rw (h b, asked-each_nil f bs h) refl

  pub asked-sidebar :
      (year : ℕ) (page : PageId) (region : RegionInfo) (f : PageId → A)
      → asked t (sidebar year page region f)
        ≡ f dashboard ∷ f keys ∷ f metrics ∷ f logs ∷ f pubsub ∷ []
  unfolding asked sidebar icon_of
  asked-sidebar year page region f = refl

  -- The list under the bell, where it is open.
  abbrev pub list_asks : (shown : Bool) → List Notification → (ℕ → A) → A → List A
  list_asks false ns on_dismiss on_dismiss_all = []
  list_asks true [] on_dismiss on_dismiss_all = []
  list_asks true (n ∷ ns) on_dismiss on_dismiss_all =
      on_dismiss_all ∷ map (λ m. on_dismiss m.id) (n ∷ ns)

  asked-notice : (f : ℕ → A) (n : Notification) → asked t (notice f n) ≡ f n.id ∷ []
  unfolding asked notice
  asked-notice f n = refl

  asked-toast : (f : ℕ → A) (n : Notification) → asked t (toast f n) ≡ f n.id ∷ []
  unfolding asked toast
  asked-toast f n = refl

  asked-badge : (o : Option Accent) → asked {A = A} t (badge_dot o) ≡ []
  unfolding asked
  asked-badge none = refl
  asked-badge (some c) = refl

  asked-dropdown :
      (shown : Bool) (ns : List Notification) (f : ℕ → A) (all : A)
      → asked t (when shown (dropdown ns f all)) ≡ list_asks shown ns f all
  unfolding asked dropdown
  asked-dropdown false ns f all = refl
  asked-dropdown true [] f all = refl
  asked-dropdown true (n ∷ ns) f all =
      rw (ltb-zero_suc (length ns))
        (ap (λ r. all ∷ r) (asked-each-map (notice f) (λ m. f m.id) (n ∷ ns) (asked-notice f)))

  asked-notification_panel :
      (ns : List Notification) (shown : Bool) (toggle : A) (f : ℕ → A) (all : A)
      → asked t (notification_panel ns shown toggle f all) ≡ toggle ∷ list_asks shown ns f all
  unfolding asked notification_panel bell
  asked-notification_panel ns shown toggle f all =
      rw (asked-badge (bell_badge ns)) (ap (λ r. toggle ∷ r) (asked-dropdown shown ns f all))

  -- The button that empties a field, where there is one.
  abbrev pub clear_asks : Text → A → List A
  clear_asks [] clear = []
  clear_asks (c ∷ query) clear = clear ∷ []

  asked-search_field :
      (query : Text) (f : Text → A) → asked t (search_field query f) ≡ f t ∷ clear_asks query (f [])
  unfolding asked search_field icon_of
  asked-search_field [] f = refl
  asked-search_field (c ∷ query) f = refl

  pub asked-topbar :
      (title : Text) (online : Bool) (query : Text) (f : Text → A) (ns : List Notification)
      (shown : Bool) (toggle : A) (g : ℕ → A) (all : A)
      → asked t (topbar title online query f ns shown toggle g all)
        ≡ (f t ∷ clear_asks query (f [])) ++ (toggle ∷ list_asks shown ns g all)
  unfolding asked topbar status_badge icon_of
  asked-topbar title online query f ns shown toggle g all =
      rw (asked-search_field query f, asked-notification_panel ns shown toggle g all, append-nil)
        refl

  pub asked-strip :
      (ns : List Notification) (f : ℕ → A) → asked t (strip ns f) ≡ map (λ n. f n.id) (take 4 ns)
  unfolding asked
  asked-strip [] f = refl
  asked-strip (n ∷ ns) f = asked-each-map (toast f) (λ m. f m.id) (take 4 (n ∷ ns)) (asked-toast f)
