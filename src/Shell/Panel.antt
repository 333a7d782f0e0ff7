-- ===== src/Shell/Panel.antt =====
-- The notification panel and the toasts.
use cachestack.Base.{
  ◌≡◌, ◌↔◌, ◌∙◌, refl, ap, Bool, true, false, List, [], ◌∷◌, ◌++◌, none, some, any, take,
  take_of_length-le, length-take, arith, if◌then◌else◌,
}
use cachestack.Types.{NotifLevel, info, success, warning, error, Notification}
use cachestack.Shell.{
  Shell, Element, app_root, within, closest_panel, mouse_down, toast_strip, bell_badge, red, yellow,
  is_error,
}

any-append : (xs ys : List Bool) → any (λ b. b) ys ≡ true → any (λ b. b) (xs ++ ys) ≡ true
any-append [] ys h = h
any-append (true ∷ xs) ys h = refl
any-append (false ∷ xs) ys h = any-append xs ys h

-- A press of the mouse on any element of the page leaves the panel as it is: the root of the page
-- itself has the attribute by which the listener tells the panel, so a press outside the panel does
-- not close it. A press outside the page does.
pub mouse_down-within :
    (between : List Bool) (outer : Element) (s : Shell)
    → (mouse_down (within between (app_root outer)) s ≡ s)
      × (closest_panel outer ≡ false → (mouse_down outer s).notif_open ≡ false)
unfolding mouse_down within app_root closest_panel
mouse_down-within between outer s =
    (ground (arith, any-append between (true ∷ outer) refl), λ h. ground arith)

-- The strip shows the three newest notifications: the second cut, at four, never cuts.
pub toast_strip_lem : (ns : List Notification) → toast_strip ns ≡ take 3 ns
unfolding toast_strip
toast_strip_lem ns = take_of_length-le 4 (take 3 ns) (omega (arith, length-take 3 ns))

error_of_red : (l : NotifLevel) → some (if is_error l then red else yellow) ≡ some red → l ≡ error
error_of_red info h = absurd (ground arith)
error_of_red success h = absurd (ground arith)
error_of_red warning h = absurd (ground arith)
error_of_red error h = refl

red_of_error : (l : NotifLevel) → l ≡ error → some (if is_error l then red else yellow) ≡ some red
red_of_error l h = ap (λ k. some (if is_error k then red else yellow)) h

head-injective : {m n : Notification} {ms ns : List Notification} → m ∷ ms ≡ n ∷ ns → m ≡ n
head-injective h = cc

-- The strip is empty exactly if the bell has no badge, and the badge is red exactly if the first toast
-- of the strip is an error.
pub bell_badge-toast_strip :
    (ns : List Notification)
    → ((bell_badge ns ≡ none) ↔ (toast_strip ns ≡ []))
      × ((bell_badge ns ≡ some red) ↔ (
          (n : Notification) × (rest : List Notification) × (toast_strip ns ≡ n ∷ rest)
          × (n.level ≡ error)))
unfolding bell_badge toast_strip
bell_badge-toast_strip [] =
    ((λ h. refl, λ h. refl), (λ h. absurd (ground arith), λ (n, rest, e, l). absurd (ground arith)))
bell_badge-toast_strip (n ∷ ns) = (
  (λ h. absurd (ground arith), λ h. absurd (ground arith)),
  (
    λ h. (n, take 3 (take 2 ns), refl, error_of_red n.level h),
    λ (m, rest, e, l). red_of_error n.level (ap (λ x. x.level) (head-injective e) ∙ l),
  ),
)
