-- ===== src/PubSub/Channels.antt =====
-- The channels: what is subscribed, what is offered, and that none is subscribed twice.
use cachestack.Base.{
  ◌≡◌, ◌↔◌, ◌∙◌, ap, sym, false, not, [], ◌∷◌, In, In-filter_iff, Bool-cases, inl, inr,
}
use mathlib.Core.Bool.{false≢true}
use cachestack.Text.{Text, text_eq}
use cachestack.Text.Names.{
  has, Distinct, has_complete, All-ne_of_has, Distinct-concat, Distinct-filter, filter-concat,
  not_has,
}
use cachestack.Mock.{all_channels}
use cachestack.PubSub.{Feed, subscribe, unsubscribe, sub_trimmed, offered}

module _ {Float : Type 0} where
  pub subscribe-Distinct :
      (ch : Text) (s : Feed Float)
      → has ch s.channels ≡ false
      → Distinct s.channels
      → Distinct (subscribe ch s).channels
  unfolding subscribe
  subscribe-Distinct ch s new d = Distinct-concat s.channels ch d (All-ne_of_has ch s.channels new)

  pub unsubscribe-Distinct :
      (ch : Text) (s : Feed Float) → Distinct s.channels → Distinct (unsubscribe ch s).channels
  unfolding unsubscribe
  unsubscribe-Distinct ch s d = Distinct-filter (λ c. not (text_eq c ch)) s.channels d

  pub sub_trimmed-Distinct :
      (ch : Text) (s : Feed Float) → Distinct s.channels → Distinct (sub_trimmed ch s).channels
  sub_trimmed-Distinct [] s d = d
  sub_trimmed-Distinct (c ∷ ch) s d = elim (Bool-cases (has (c ∷ ch) s.channels)) [
    | inl e ↦ rw e d
    | inr e ↦ rw e (subscribe-Distinct (c ∷ ch) s e d)
  ]

  -- Leaving a channel that was just joined, and was not subscribed before, restores the channels, and
  -- with them what is offered.
  pub unsubscribe-subscribe :
      (ch : Text) (s : Feed Float) → has ch s.channels ≡ false → unsubscribe ch (subscribe ch s) ≡ s
  unfolding unsubscribe subscribe
  unsubscribe-subscribe ch s new =
      ap (λ cs. record s { channels = cs }) (filter-concat ch s.channels new)

  -- A channel is offered exactly if it is one of the five known ones and is not subscribed.
  pub offered_iff :
      (ch : Text) (s : Feed Float) → In ch (offered s) ↔ (In ch all_channels × (¬ In ch s.channels))
  unfolding offered
  offered_iff ch s =
      let (found, keep) = In-filter_iff (λ c. not (has c s.channels)) ch all_channels in
      (
        λ m. (
          (found m).0,
          λ n. false≢true (sym (ap not (has_complete ch s.channels n)) ∙ (found m).1),
        ),
        λ (m, out). keep (m, ap not (not_has ch s.channels out)),
      )
