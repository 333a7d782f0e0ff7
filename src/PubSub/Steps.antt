-- ===== src/PubSub/Steps.antt =====
-- The feed as a state machine: what the user and the interval do, in any order.
use cachestack.Base.{
  ◌≤◌, ◌≡◌, ◌≢◌, ◌⊎◌, refl, ap, sym, subst, List, [], ◌∷◌, ◌++◌, take_last, length,
  length-take_last-le, arith, Option, none, some, In, inl, inr, Bool-cases,
}
use cachestack.Text.{Text, text, trim}
use cachestack.Number.{Number}
use cachestack.Types.{PubSubMessage}
use cachestack.Mock.{Chance, gen_pub_sub_msg}
use cachestack.Mock.Pools.{gen_pub_sub_msg_total}
use cachestack.PubSub.{
  Feed, start, subscribe, unsubscribe, sub_trimmed, handle_sub, type_input, offered, onto_messages,
  receive_from, receive,
}
use cachestack.Text.Names.{has, Distinct, not_has}
use cachestack.PubSub.Channels.{
  offered_iff, subscribe-Distinct, unsubscribe-Distinct, sub_trimmed-Distinct,
}

module _ (N : Number) where
  open N use {Float, Draw}

  pub data Step : Feed Float → Feed Float → Type 0 where
    typed : (v : Text) (s : Feed Float) → Step s (type_input v s)
    entered : (s : Feed Float) → Step s (handle_sub s)
    -- A click on the tag of an offered channel.
    joined : (ch : Text) (s : Feed Float) → In ch (offered s) → Step s (subscribe ch s)
    left : (ch : Text) (s : Feed Float) → Step s (unsubscribe ch s)
    received : (c : Chance Draw) (s : Feed Float) → Step s (receive N c s)

  pub data Reach (s : Feed Float) : Feed Float → Type 0 where
    here : Reach s s
    next : {t u : Feed Float} → Reach s t → Step t u → Reach s u

  pub record IsTidy (s : Feed Float) : Type 0 where
    pub distinct : Distinct s.channels
    pub bounded : length s.messages ≤ 50

  bounded-onto_messages :
      (o : Option (PubSubMessage Float)) (ms : List (PubSubMessage Float))
      → length ms ≤ 50
      → length (onto_messages o ms) ≤ 50
  bounded-onto_messages none ms h = h
  bounded-onto_messages (some m) ms h = length-take_last-le 50 (ms ++ (m ∷ []))

  receive_from-IsTidy :
      (cs : List Text) (c : Chance Draw) (s : Feed Float)
      → IsTidy s
      → IsTidy (receive_from N cs c s)
  receive_from-IsTidy [] c s v = v
  receive_from-IsTidy (ch ∷ chs) c s v = record {
    distinct = v.distinct;
    bounded = bounded-onto_messages (gen_pub_sub_msg N (ch ∷ chs) c) s.messages v.bounded;
  }

  sub_trimmed-messages : (ch : Text) (s : Feed Float) → (sub_trimmed ch s).messages ≡ s.messages
  unfolding subscribe
  sub_trimmed-messages [] s = refl
  sub_trimmed-messages (c ∷ ch) s = elim (Bool-cases (has (c ∷ ch) s.channels)) [
    | inl e ↦ rw e refl
    | inr e ↦ rw e refl
  ]

  Step-IsTidy : {s t : Feed Float} → Step s t → IsTidy s → IsTidy t
  unfolding type_input handle_sub subscribe unsubscribe receive
  Step-IsTidy (typed v s) h = record { distinct = h.distinct; bounded = h.bounded }
  Step-IsTidy (entered s) h = record {
    distinct = sub_trimmed-Distinct (trim s.input) s h.distinct;
    bounded = subst (λ ms. length ms ≤ 50) (sym (sub_trimmed-messages (trim s.input) s)) h.bounded;
  }
  Step-IsTidy (joined ch s m) h = record {
    distinct =
        subscribe-Distinct ch s (not_has ch s.channels ((offered_iff ch s).0 m).1) h.distinct;
    bounded = h.bounded;
  }
  Step-IsTidy (left ch s) h = record {
    distinct = unsubscribe-Distinct ch s h.distinct;
    bounded = h.bounded;
  }
  Step-IsTidy (received c s) h = receive_from-IsTidy s.channels c s h

  pub Reach-IsTidy : (s t : Feed Float) → IsTidy s → Reach s t → IsTidy t
  Reach-IsTidy s t v here = v
  Reach-IsTidy s t v (next {t = m} r st) = Step-IsTidy st (Reach-IsTidy s m v r)

  other : text "global" ≢ text "events_core"
  other e = ground arith

  pub start-IsTidy : IsTidy start
  start-IsTidy = record { distinct = ((other, tt), (tt, tt)); bounded = omega arith }

  -- From the page's first state, whatever is typed, joined, left and received, no channel is subscribed
  -- twice and at most 50 messages are kept.
  Reach-start-IsTidy : (s : Feed Float) → Reach start s → IsTidy s
  Reach-start-IsTidy s r = Reach-IsTidy start s start-IsTidy r

  receive_from_sound :
      (cs : List Text) (c : Chance Draw) (s : Feed Float)
      → ((cs ≡ []) × (receive_from N cs c s ≡ s))
        ⊎ ((m : PubSubMessage Float) × In m.channel cs
            × (receive_from N cs c s
                ≡ record s { messages = take_last 50 (s.messages ++ (m ∷ [])) }))
  receive_from_sound [] c s = inl (refl, refl)
  receive_from_sound (ch ∷ chs) c s =
      let (m, made, from, _) = gen_pub_sub_msg_total N (ch ∷ chs) c in
      elim from [
        | inl listed ↦
            inr (m, listed, ap (λ o. record s { messages = onto_messages o s.messages }) made)
        | inr (none_left, _) ↦ absurd (ground arith)
      ]

  -- While a channel is subscribed, each firing of the interval adds one message behind the others, of
  -- a channel that is subscribed, and keeps the 50 newest; while none is, it does nothing.
  pub receive_sound :
      (c : Chance Draw) (s : Feed Float)
      → ((s.channels ≡ []) × (receive N c s ≡ s))
        ⊎ ((m : PubSubMessage Float) × In m.channel s.channels
            × (receive N c s ≡ record s { messages = take_last 50 (s.messages ++ (m ∷ [])) }))
  unfolding receive
  receive_sound c s = receive_from_sound s.channels c s
