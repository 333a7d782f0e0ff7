-- ===== src/Broker.antt =====
-- backend/internal/pubsub/broker.go: the channels and their subscribers. A Go channel is known by a number, the
-- count of channels made before it, and holds the messages that are sent and not yet received. A method under
-- the lock is one step; what a message is delivered to does not depend on the order of `range`.
pub mod Steps
use cachestack.Base.{
  ℕ, ◌+◌, Bool, not, List, [], ◌∷◌, ◌++◌, Option, none, some, map, filter, length, ltb, ◌==◌,
  if◌then◌else◌,
}
use cachestack.Text.{text_eq}
use cachestack.Command.{Bytes}
use cachestack.Store.{lookup, without}

pub record Message : Type 0 where
  pub channel : Bytes
  pub payload : Bytes

-- A buffered channel.
pub record Subscriber : Type 0 where
  pub id : ℕ
  pub queue : List Message

pub record Broker : Type 0 where
  pub subs : List (Bytes × List Subscriber)
  pub made : ℕ

-- `New`
abbrev pub new_broker : Broker
new_broker = record { subs = []; made = 0 }

abbrev pub buffer_size : ℕ
buffer_size = 256

abbrev pub found_subs : Option (List Subscriber) → List Subscriber
found_subs none = []
found_subs (some cs) = cs

-- `b.subs[channel]`
abbrev pub subs_of : Bytes → Broker → List Subscriber
subs_of ch b = found_subs (lookup ch b.subs)

-- `Subscribe`
unfoldable pub subscribe : Bytes → Broker → ℕ × Broker
subscribe ch b =
    let c : Subscriber = record { id = b.made; queue = [] } in
    (b.made, record { subs = (ch, c ∷ subs_of ch b) ∷ without ch b.subs; made = b.made + 1 })

-- `delete(chans, c)`, and `delete(b.subs, channel)` when none is left.
abbrev pub kept :
    Bytes → List Subscriber → List (Bytes × List Subscriber) → List (Bytes × List Subscriber)
kept ch [] rest = rest
kept ch (c ∷ cs) rest = (ch, c ∷ cs) ∷ rest

-- `Unsubscribe`
unfoldable pub unsubscribe : Bytes → ℕ → Broker → Broker
unsubscribe ch id b = record b {
  subs = kept ch (filter (λ c. not (c.id == id)) (subs_of ch b)) (without ch b.subs);
}

-- `select { case ch <- msg: … default: }`
abbrev pub has_room : Subscriber → Bool
has_room c = ltb (length c.queue) buffer_size

abbrev pub offer : Message → Subscriber → Subscriber
offer msg c = if has_room c then record c { queue = c.queue ++ (msg ∷ []) } else c

-- `Publish`: how many took the message.
unfoldable pub publish : Bytes → Bytes → Broker → ℕ × Broker
publish ch payload b =
    let msg : Message = record { channel = ch; payload = payload } in
    let cs = subs_of ch b in
    (
      length (filter has_room cs),
      record b {
        subs = map (λ p. if text_eq p.0 ch then (p.0, map (offer msg) p.1) else p) b.subs;
      },
    )

-- `<-recv`, where a message waits.
abbrev pub rest_of : List Message → List Message
rest_of [] = []
rest_of (_ ∷ ms) = ms

abbrev pub take_first : Subscriber → Subscriber
take_first c = record c { queue = rest_of c.queue }

unfoldable pub receive : ℕ → Broker → Broker
receive id b = record b {
  subs = map (λ p. (p.0, map (λ c. if c.id == id then take_first c else c) p.1)) b.subs;
}

-- `ActiveChannels`, with the order of `range`.
unfoldable pub active_channels : (List Bytes → List Bytes) → Broker → List Bytes
active_channels order b = order (map (λ p. p.0) b.subs)

-- `SubscriberCount`
unfoldable pub subscriber_count : Bytes → Broker → ℕ
subscriber_count ch b = length (subs_of ch b)
