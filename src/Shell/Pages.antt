-- ===== src/Shell/Pages.antt =====
-- Navigation and the global search.
use cachestack.Base.{◌≡◌, ◌≢◌, refl, true, not, ◌&&◌, [], ◌∷◌, All, arith, if◌then◌else◌}
use cachestack.Text.{Text, is_space, is_empty, trim}
use cachestack.Text.Spaces.{trim-nil_iff}
use cachestack.Types.{PageId, dashboard, keys, metrics, logs, pubsub}
use cachestack.Shell.{
  Shell, NavItem, page_title, active_items, same_page, is_keys, navigate, search_change,
}

-- After a click on an entry of the side bar exactly one entry is marked, that of the page shown, and
-- its label is the title of the page.
pub active_items-navigate :
    (p : PageId) (s : Shell)
    → (item : NavItem) × (active_items (navigate p s).page ≡ item ∷ [])
      × (item.id ≡ p)
      × (item.label ≡ page_title (navigate p s).page)
unfolding navigate active_items same_page
active_items-navigate dashboard s = (_, refl, refl, refl)
active_items-navigate keys s = (_, refl, refl, refl)
active_items-navigate metrics s = (_, refl, refl, refl)
active_items-navigate logs s = (_, refl, refl, refl)
active_items-navigate pubsub s = (_, refl, refl, refl)

page_after :
    (t : Text) (p : PageId)
    → (t ≡ [] → (if not (is_empty t) && not (is_keys p) then keys else p) ≡ p)
      × (t ≢ [] → (if not (is_empty t) && not (is_keys p) then keys else p) ≡ keys)
page_after [] p = (λ h. refl, λ h. absurd (h refl))
page_after (c ∷ t) keys = (λ h. refl, λ h. refl)
page_after (c ∷ t) dashboard = (λ h. absurd (ground arith), λ h. refl)
page_after (c ∷ t) metrics = (λ h. absurd (ground arith), λ h. refl)
page_after (c ∷ t) logs = (λ h. absurd (ground arith), λ h. refl)
page_after (c ∷ t) pubsub = (λ h. absurd (ground arith), λ h. refl)

-- The global search keeps what is typed, blank or not; it goes to the keys page if that is not blank,
-- and stays on the page if it is.
pub search_change_page :
    (q : Text) (s : Shell)
    → ((search_change q s).search_query ≡ q)
      × (All (λ c. is_space c ≡ true) q → (search_change q s).page ≡ s.page)
      × (¬ All (λ c. is_space c ≡ true) q → (search_change q s).page ≡ keys)
unfolding search_change
search_change_page q s = (
  refl,
  λ blank. (page_after (trim q) s.page).0 ((trim-nil_iff q).1 blank),
  λ more. (page_after (trim q) s.page).1 (λ e. more ((trim-nil_iff q).0 e)),
)
