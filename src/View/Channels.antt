-- ===== src/View/Channels.antt =====
-- frontend/src/pages/PubSubPage.tsx.
use cachestack.Base.{List, [], ◌∷◌, length}
use cachestack.Text.{Text, text}
use cachestack.Text.Decimal.{show_ℕ}
use cachestack.Number.{Number}
use cachestack.Types.{PubSubMessage}
use cachestack.PubSub.{Feed, offered}
use cachestack.View.{
  fixed, Node, nothing, words, element, ◌<>◌, style, attr, named, class, key, ref, on_click,
  on_change, on_key_down, say, div, span, button, each,
}
use cachestack.View.Palette.{on_enter}

module _ {A : Type 0} where
  -- The tag of a channel that is subscribed, with its button, and of one that is not.
  unfoldable pub joined_tag : (on_unsubscribe : Text → A) → Text → Node A
  joined_tag on_unsubscribe ch = div (key ch ∷ class "channel-tag active" ∷ []) (
      span (class "dot" ∷ []) nothing
      <> words ch
      <> span (class "close" ∷ on_click (on_unsubscribe ch ∷ []) ∷ []) (say "×"))

  unfoldable pub offered_tag : (on_subscribe : Text → A) → Text → Node A
  offered_tag on_subscribe ch =
      div
        (key ch
          ∷ class "channel-tag"
          ∷ style (fixed "cursor" "pointer" ∷ [])
          ∷ on_click (on_subscribe ch ∷ [])
          ∷ [])
        (words ch)

module _ (N : Number) {A : Type 0} where
  open N use {Float, show}

  unfoldable pub message : PubSubMessage Float → Node A
  message msg = div (key (show msg.id) ∷ class "pubsub-msg" ∷ []) (
      div (class "pubsub-msg-header" ∷ []) (
        span (class "pubsub-channel" ∷ []) (say "[" <> words msg.channel <> say "]")
        <> span (class "pubsub-ts" ∷ []) (words msg.ts))
      <> div (class "pubsub-body" ∷ []) (words msg.body))

  abbrev pub messages_of : List (PubSubMessage Float) → Node A
  messages_of [] =
      div (class "empty-state" ∷ []) (say "Subscribe to a channel to see live messages")
  messages_of (m ∷ ms) = each message (m ∷ ms)

  -- `on_typed` sets the text of the field, `on_entered` is `handleSub`.
  unfoldable pub pubsub_page :
      Feed Float
      → (on_typed : Text → A) (on_entered : A) (on_subscribe on_unsubscribe : Text → A) → Node A
  pubsub_page feed on_typed on_entered on_subscribe on_unsubscribe = div (class "card" ∷ []) (
      div (class "card-header" ∷ []) (
        div (class "card-label" ∷ []) (say "Pub/Sub")
        <> div (class "live-badge" ∷ []) (words (show_ℕ (length feed.channels)) <> say " active"))
      <> div (class "channel-list" ∷ []) (
          div (class "channel-input-row" ∷ []) (
            element (text "input")
              (class "channel-input"
                ∷ attr "type" "text"
                ∷ attr "placeholder" "Subscribe to channel..."
                ∷ named (text "value") feed.input
                ∷ on_change (λ t. on_typed t ∷ [])
                ∷ on_key_down (on_enter on_entered)
                ∷ [])
              nothing
            <> button (class "subscribe-btn" ∷ on_click (on_entered ∷ []) ∷ []) (say "Subscribe"))
          <> div (class "channel-tags" ∷ []) (
              each (joined_tag on_unsubscribe) feed.channels
              <> each (offered_tag on_subscribe) (offered feed)))
      <> div (class "pubsub-msgs" ∷ [])
          (messages_of feed.messages <> div (ref (text "msgEndRef") ∷ []) nothing))
