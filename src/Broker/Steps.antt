-- ===== src/Broker/Steps.antt =====
-- What holds of the broker whatever is called on it, in whatever order.
use cachestack.Base.{
  ℕ, ◌+◌, ◌≤◌, ◌≡◌, ◌∙◌, refl, ap, sym, subst, Bool, true, false, not, List, [], ◌∷◌, ◌++◌, map,
  filter, length, ◌==◌, if◌then◌else◌, arith, All, All-filter, Bool-cases, inl, inr,
}
use cachestack.Text.{text_eq}
use cachestack.Text.Equality.{text_eq_self}
use cachestack.Text.Names.{has, Distinct, Distinct-filter, All-ne_of_has}
use cachestack.Command.{Bytes}
use cachestack.Store.{lookup, without}
use cachestack.Store.Maps.{names, names-without, has-drop_name}
use cachestack.Broker.{
  Message, Subscriber, Broker, new_broker, found_subs, subs_of, subscribe, kept, unsubscribe,
  has_room, offer, publish, rest_of, take_first, receive,
}

-- A call of a method, or the receipt of a message.
pub data Step : Broker → Broker → Type 0 where
  subscribed : {b : Broker} (ch : Bytes) → Step b (subscribe ch b).1
  unsubscribed : {b : Broker} (ch : Bytes) (id : ℕ) → Step b (unsubscribe ch id b)
  published : {b : Broker} (ch payload : Bytes) → Step b (publish ch payload b).1
  received : {b : Broker} (id : ℕ) → Step b (receive id b)

pub data Reach : Broker → Broker → Type 0 where
  here : {b : Broker} → Reach b b
  next : {b c d : Broker} → Step b c → Reach c d → Reach b d

-- Somebody listens to the channel, and no buffer holds more than its size.
abbrev is_nil : List Subscriber → Bool
is_nil [] = true
is_nil (_ ∷ _) = false

abbrev Within : List Subscriber → Type 0
Within = All (λ c. length c.queue ≤ 256)

pub record IsOrderly (b : Broker) : Type 0 where
  pub heard : All (λ p. is_nil p.1 ≡ false) b.subs
  pub within : All (λ p. Within p.1) b.subs
  pub distinct : Distinct (names b.subs)

found_subs-Within :
    (ch : Bytes) (ps : List (Bytes × List Subscriber))
    → All (λ p. Within p.1) ps
    → Within (found_subs (lookup ch ps))
found_subs-Within ch [] h = tt
found_subs-Within ch ((k, cs) ∷ ps) (w, h) = elim (Bool-cases (text_eq k ch)) [
  | inl e ↦ rw e w
  | inr e ↦ rw e (found_subs-Within ch ps h)
]

without-Distinct :
    (ch : Bytes) (ps : List (Bytes × List Subscriber))
    → Distinct (names ps)
    → Distinct (names (without ch ps))
without-Distinct ch ps d =
    subst Distinct (sym (names-without ch ps))
      (Distinct-filter (λ k. not (text_eq k ch)) (names ps) d)

-- The other channels with one in front.
front-IsOrderly :
    (ch : Bytes) (c : Subscriber) (cs : List Subscriber) (b : Broker) (made : ℕ)
    → IsOrderly b
    → Within (c ∷ cs)
    → IsOrderly (record { subs = (ch, c ∷ cs) ∷ without ch b.subs; made = made })
front-IsOrderly ch c cs b made h w = record {
  heard = (refl, All-filter (λ p. is_nil p.1 ≡ false) (λ p. not (text_eq p.0 ch)) b.subs h.heard);
  within = (w, All-filter (λ p. Within p.1) (λ p. not (text_eq p.0 ch)) b.subs h.within);
  distinct = (
    All-ne_of_has ch (names (without ch b.subs)) (
        ap (has ch) (names-without ch b.subs)
        ∙ has-drop_name ch ch (names b.subs)
        ∙ rw (text_eq_self ch) refl),
    without-Distinct ch b.subs h.distinct,
  );
}

kept-IsOrderly :
    (ch : Bytes) (cs : List Subscriber) (b : Broker)
    → IsOrderly b
    → Within cs
    → IsOrderly (record b { subs = kept ch cs (without ch b.subs) })
kept-IsOrderly ch [] b h w = record {
  heard = All-filter (λ p. is_nil p.1 ≡ false) (λ p. not (text_eq p.0 ch)) b.subs h.heard;
  within = All-filter (λ p. Within p.1) (λ p. not (text_eq p.0 ch)) b.subs h.within;
  distinct = without-Distinct ch b.subs h.distinct;
}
kept-IsOrderly ch (c ∷ cs) b h w = front-IsOrderly ch c cs b b.made h w

-- A change in place: no channel goes, none loses its subscribers, and no buffer overflows.
record IsTame (g : Bytes × List Subscriber → Bytes × List Subscriber) : Type 0 where
  name_kept : (p : Bytes × List Subscriber) → (g p).0 ≡ p.0
  still_heard : (p : Bytes × List Subscriber) → is_nil p.1 ≡ false → is_nil (g p).1 ≡ false
  still_within : (p : Bytes × List Subscriber) → Within p.1 → Within (g p).1

module _ (g : Bytes × List Subscriber → Bytes × List Subscriber) (t : IsTame g) where
  map-heard :
      (ps : List (Bytes × List Subscriber))
      → All (λ p. is_nil p.1 ≡ false) ps
      → All (λ p. is_nil p.1 ≡ false) (map g ps)
  map-heard [] a = tt
  map-heard (p ∷ ps) (e, a) = (t.still_heard p e, map-heard ps a)

  map-Within :
      (ps : List (Bytes × List Subscriber))
      → All (λ p. Within p.1) ps
      → All (λ p. Within p.1) (map g ps)
  map-Within [] a = tt
  map-Within (p ∷ ps) (w, a) = (t.still_within p w, map-Within ps a)

  names-map : (ps : List (Bytes × List Subscriber)) → names (map g ps) ≡ names ps
  names-map [] = refl
  names-map (p ∷ ps) = ap (λ k. k ∷ names (map g ps)) (t.name_kept p) ∙ ap (◌∷◌ p.0) (names-map ps)

  map-IsOrderly : (b : Broker) → IsOrderly b → IsOrderly (record b { subs = map g b.subs })
  map-IsOrderly b o = record {
    heard = map-heard b.subs o.heard;
    within = map-Within b.subs o.within;
    distinct = subst Distinct (sym (names-map b.subs)) o.distinct;
  }

map_nil :
    (f : Subscriber → Subscriber) (cs : List Subscriber)
    → is_nil cs ≡ false
    → is_nil (map f cs) ≡ false
map_nil f [] e = e
map_nil f (c ∷ cs) e = refl

each-Within :
    (f : Subscriber → Subscriber) (cs : List Subscriber)
    → ((c : Subscriber) → length c.queue ≤ 256 → length (f c).queue ≤ 256)
    → Within cs
    → Within (map f cs)
each-Within f [] h w = tt
each-Within f (c ∷ cs) h (e, w) = (h c e, each-Within f cs h w)

length-concat : (ms : List Message) (m : Message) → length (ms ++ (m ∷ [])) ≡ length ms + 1
length-concat [] m = refl
length-concat (x ∷ ms) m = omega (arith, length-concat ms m)

offer-Within :
    (msg : Message) (c : Subscriber) → length c.queue ≤ 256 → length (offer msg c).queue ≤ 256
offer-Within msg c h = elim (Bool-cases (has_room c)) [ inl e ↦ rw e (room c e) | inr e ↦ rw e h ]
  where
    room : (c : Subscriber) → has_room c ≡ true → length (c.queue ++ (msg ∷ [])) ≤ 256
    room c e = ground (arith, length-concat c.queue msg)

length-rest_of : (ms : List Message) → length (rest_of ms) ≤ length ms
length-rest_of [] = omega arith
length-rest_of (m ∷ ms) = omega arith

take_first-Within : (c : Subscriber) → length c.queue ≤ 256 → length (take_first c).queue ≤ 256
take_first-Within c h = omega (arith, h, length-rest_of c.queue)

either_way {ℓ κ} :
    {A : Type ℓ} (P : A → Type κ) (b : Bool) {x y : A} → P x → P y → P (if b then x else y)
either_way P true px py = px
either_way P false px py = py

Step-IsOrderly : {b c : Broker} → Step b c → IsOrderly b → IsOrderly c
unfolding subscribe unsubscribe publish receive
Step-IsOrderly {b} (subscribed ch) o =
    front-IsOrderly ch _ (subs_of ch b) b (b.made + 1) o
      (omega arith, found_subs-Within ch b.subs o.within)
Step-IsOrderly {b} (unsubscribed ch id) o =
    kept-IsOrderly ch (filter (λ c. not (c.id == id)) (subs_of ch b)) b o (
      All-filter (λ c. length c.queue ≤ 256) (λ c. not (c.id == id)) (subs_of ch b)
        (found_subs-Within ch b.subs o.within))
Step-IsOrderly {b} (published ch payload) o =
    let msg : Message = record { channel = ch; payload = payload } in
    map-IsOrderly _
      (record {
        name_kept = λ p. ground arith;
        still_heard = λ p e.
            either_way (λ (q : Bytes × List Subscriber). is_nil q.1 ≡ false) (text_eq p.0 ch)
              (map_nil (offer msg) p.1 e) e;
        still_within = λ p w.
            either_way (λ (q : Bytes × List Subscriber). Within q.1) (text_eq p.0 ch)
              (each-Within (offer msg) p.1 (offer-Within msg) w) w;
      })
      b o
Step-IsOrderly {b} (received id) o =
    map-IsOrderly _
      (record {
        name_kept = λ p. refl;
        still_heard = λ p. map_nil _ p.1;
        still_within = λ p. each-Within _ p.1 (λ c h.
            either_way (λ (d : Subscriber). length d.queue ≤ 256) (c.id == id)
              (take_first-Within c h) h);
      })
      b o

Reach-IsOrderly : {b c : Broker} → Reach b c → IsOrderly b → IsOrderly c
Reach-IsOrderly here o = o
Reach-IsOrderly (next s r) o = Reach-IsOrderly r (Step-IsOrderly s o)

-- Whatever is called on a new broker, in whatever order: a channel that is listed has a subscriber and
-- is listed once, and no buffer holds more than its 256 messages.
pub Reach-new_broker-IsOrderly : (b : Broker) → Reach new_broker b → IsOrderly b
Reach-new_broker-IsOrderly b r =
    Reach-IsOrderly r (record { heard = tt; within = tt; distinct = tt })
