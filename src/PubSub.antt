-- ===== src/PubSub.antt =====
-- frontend/src/App.tsx, the mock pub/sub stream, and pages/PubSubPage.tsx: the channels subscribed, the
-- text field, and the 50 newest messages.
pub mod Channels
pub mod Steps
use cachestack.Base.{
  ℕ, Bool, not, List, [], ◌∷◌, ◌++◌, Option, none, some, filter, any, take_last, if◌then◌else◌,
}
use cachestack.Text.{Text, text, text_eq, trim}
use cachestack.Text.Names.{has}
use cachestack.Number.{Number}
use cachestack.Types.{PubSubMessage}
use cachestack.Mock.{all_channels, Chance, gen_pub_sub_msg}

pub record Feed (Float : Type 0) : Type 0 where
  pub messages : List (PubSubMessage Float)
  pub channels : List Text
  pub input : Text

-- `useState<string[]>(['events_core', 'global'])`
abbrev pub start : {Float : Type 0} → Feed Float
start = record { messages = []; channels = text "events_core" ∷ text "global" ∷ []; input = [] }

module _ {Float : Type 0} where
  -- `onSubscribe` and `onUnsubscribe`
  unfoldable pub subscribe : Text → Feed Float → Feed Float
  subscribe ch s = record s { channels = s.channels ++ (ch ∷ []) }

  unfoldable pub unsubscribe : Text → Feed Float → Feed Float
  unsubscribe ch s = record s { channels = filter (λ c. not (text_eq c ch)) s.channels }

  -- `handleSub` for the trimmed text of the field.
  abbrev pub sub_trimmed : Text → Feed Float → Feed Float
  sub_trimmed [] s = s
  sub_trimmed (c ∷ ch) s =
      if has (c ∷ ch) s.channels then s else record (subscribe (c ∷ ch) s) { input = [] }

  unfoldable pub handle_sub : Feed Float → Feed Float
  handle_sub s = sub_trimmed (trim s.input) s

  unfoldable pub type_input : Text → Feed Float → Feed Float
  type_input v s = record s { input = v }

  -- `ALL_CHANNELS.filter(c => !channels.includes(c))`: the tags that offer a channel.
  unfoldable pub offered : Feed Float → List Text
  offered s = filter (λ c. not (has c s.channels)) all_channels

-- `[...prev, m].slice(-50)`, for the message made.
abbrev pub onto_messages {ℓ} : {A : Type ℓ} → Option A → List A → List A
onto_messages none prev = prev
onto_messages (some m) prev = take_last 50 (prev ++ (m ∷ []))

module _ (N : Number) where
  open N use {Float, Draw}

  -- One firing of the interval; there is none while no channel is subscribed.
  abbrev pub receive_from : List Text → Chance Draw → Feed Float → Feed Float
  receive_from [] c s = s
  receive_from (ch ∷ chs) c s = record s {
    messages = onto_messages (gen_pub_sub_msg N (ch ∷ chs) c) s.messages;
  }

  unfoldable pub receive : Chance Draw → Feed Float → Feed Float
  receive c s = receive_from s.channels c s
