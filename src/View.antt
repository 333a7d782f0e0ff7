-- ===== src/View.antt =====
-- What the components of frontend/src return: React's elements as a tree, with their attributes, the
-- styles set on them, and their handlers. `A` is what a handler asks of the component above, so a
-- component is a function of its props, the callbacks among them. A fragment, an array and a condition
-- that gives no element are flattened, as React does; a number in a style is written in decimal.
pub mod Icon
pub mod Panel
pub mod Sidebar
pub mod Topbar
pub mod Logs
pub mod Figures
pub mod Palette
pub mod Channels
pub mod Explorer
pub mod Modal
pub mod Asked
pub mod Shown
pub mod Siblings
pub mod Whole
use cachestack.Base.{
  Bool, true, false, ◌&&◌, ◌||◌, List, [], ◌∷◌, ◌++◌, Option, none, some, if◌then◌else◌,
}
use cachestack.Text.{Text, text, text_eq}
use Prim.Native.String.{String}

-- A property of `style`: its name and its value.
pub record Property : Type 0 where
  pub name : Text
  pub value : Text

-- A fixed value, and one that the component computes.
abbrev pub fixed : String → String → Property
fixed name value = record { name = text name; value = text value }

abbrev pub styled : String → Text → Property
styled name value = record { name = text name; value = value }

-- `table[name]`
unfoldable pub found_in : Text → List (Text × Text) → Option Text
found_in name [] = none
found_in name ((n, value) ∷ more) =
    let rest = found_in name more in if text_eq n name then some value else rest

pub data Attr (A : Type 0) : Type 0 where
  class_name : Text → Attr A
  style : List Property → Attr A
  -- An attribute with a text, such as `title`, `value` or `href`, and one that is set or not.
  named : Text → Text → Attr A
  flag : Text → Bool → Attr A
  -- `key`, `ref` and `dangerouslySetInnerHTML`
  key : Text → Attr A
  ref : Text → Attr A
  inner_html : Text → Attr A
  -- `onClick`; the clicks on the element itself, not on one within it; `onChange` with the text that
  -- is then in the field; `onKeyDown` with the key.
  on_click : List A → Attr A
  on_click_self : List A → Attr A
  on_change : (Text → List A) → Attr A
  on_key_down : (Text → List A) → Attr A
  -- `onMouseEnter` and `onMouseLeave`, with the properties that they set on the element's own style.
  on_mouse_enter : List Property → Attr A
  on_mouse_leave : List Property → Attr A

infixr 25 ◌<>◌
pub data Node (A : Type 0) : Type 0 where
  nothing : Node A
  words : Text → Node A
  element : (tag : Text) → List (Attr A) → (children : Node A) → Node A
  ◌<>◌ : Node A → Node A → Node A

module _ {A : Type 0} where
  abbrev pub class : String → Attr A
  class name = class_name (text name)

  abbrev pub attr : String → String → Attr A
  attr name value = named (text name) (text value)

  abbrev pub say : String → Node A
  say s = words (text s)

  abbrev pub div : List (Attr A) → Node A → Node A
  div = element (text "div")

  abbrev pub span : List (Attr A) → Node A → Node A
  span = element (text "span")

  abbrev pub button : List (Attr A) → Node A → Node A
  button = element (text "button")

  -- `condition && node`
  abbrev pub when : Bool → Node A → Node A
  when true n = n
  when false n = nothing

  -- `text && node`
  abbrev pub when_text : Text → Node A → Node A
  when_text [] n = nothing
  when_text (c ∷ s) n = n

  -- `items.map(f)`
  abbrev pub each {ℓ} : {B : Type ℓ} → (B → Node A) → List B → Node A
  each f [] = nothing
  each f (b ∷ bs) = f b <> each f bs

  -- What the handlers of an element ask for, when the text typed or the key pressed is `t`.
  abbrev pub asked_by : Text → Attr A → List A
  asked_by t (on_click acts) = acts
  asked_by t (on_click_self acts) = acts
  asked_by t (on_change f) = f t
  asked_by t (on_key_down f) = f t
  asked_by t _ = []

  abbrev pub asked_by_all : Text → List (Attr A) → List A
  asked_by_all t [] = []
  asked_by_all t (a ∷ more) = asked_by t a ++ asked_by_all t more

  -- An element with `disabled` takes no click and no typing.
  abbrev pub is_disabled : List (Attr A) → Bool
  is_disabled [] = false
  is_disabled (flag name b ∷ more) = text_eq name (text "disabled") && b || is_disabled more
  is_disabled (_ ∷ more) = is_disabled more

  -- All that the handlers of a page can ask for, in the order of the document.
  unfoldable pub asked : Text → Node A → List A
  unfolding text_eq
  asked t nothing = []
  asked t (words s) = []
  asked t (element tag attrs n) =
      (if is_disabled attrs then [] else asked_by_all t attrs) ++ asked t n
  asked t (m <> n) = asked t m ++ asked t n

  -- The text of a page.
  unfoldable pub content : Node A → Text
  content nothing = []
  content (words s) = s
  content (element tag attrs n) = content n
  content (m <> n) = content m ++ content n

  abbrev pub is_class : Text → List (Attr A) → Bool
  is_class c [] = false
  is_class c (class_name d ∷ more) = text_eq d c
  is_class c (_ ∷ more) = is_class c more

  -- The texts of the elements whose `className` is `c`, from the outermost on, in their order.
  unfoldable pub of_class : Text → Node A → List Text
  unfolding content text_eq
  of_class c nothing = []
  of_class c (words s) = []
  of_class c (element tag attrs n) =
      let within = of_class c n in if is_class c attrs then content n ∷ within else within
  of_class c (m <> n) = of_class c m ++ of_class c n

  -- The keys of the elements that stand side by side.
  abbrev pub key_of : List (Attr A) → List Text
  key_of [] = []
  key_of (key k ∷ more) = k ∷ []
  key_of (_ ∷ more) = key_of more

  unfoldable pub sibling_keys : Node A → List Text
  sibling_keys nothing = []
  sibling_keys (words s) = []
  sibling_keys (element tag attrs n) = key_of attrs
  sibling_keys (m <> n) = sibling_keys m ++ sibling_keys n
