-- ===== src/Dispatch/Lasting.antt =====
-- The changes that a log keeps as they came: what they do to the pairs of a store in which nothing expires.
use cachestack.Base.{
  ℕ, ◌≡◌, ◌∙◌, refl, ap, sym, not, ◌&&◌, List, [], ◌∷◌, ◌++◌, Option, none, some, All, All-take,
  All-filter, length, ltb, if◌then◌else◌, Bool-cases, inl, inr,
}
use mathlib.Core.List.{reverse}
use cachestack.Text.{text_eq}
use cachestack.Command.{Bytes, Command}
use cachestack.Store.{lookup, without}
use cachestack.Store.Values.{
  list, set, Entry, Kind, a_list, a_set, is_kind, fresh_value, expired_at, is_expired,
}
use cachestack.Store.Methods.{items, added_to}
use cachestack.Store.Pairs.{Pairs}
use cachestack.Store.Puts.{bounded, put}
use cachestack.Store.Writes.{started}
use cachestack.Store.Calls.{
  Call, do_set, do_del, do_lpush, do_rpush, do_sadd, do_flush, count, gone, all_gone, holding,
  meant,
}
use cachestack.Dispatch.Changes.{
  IsChange, set_change, del_change, lpush_change, rpush_change, sadd_change, flush_change,
}

module _ {Float : Type 0} where
  -- The call of the store that a change makes.
  abbrev pub change_call : (c : Command) → IsChange c → Call Float
  change_call c (set_change key v) = do_set key v
  change_call c (del_change key keys) = do_del (key ∷ keys)
  change_call c (lpush_change key v vs) = do_lpush key (v ∷ vs)
  change_call c (rpush_change key v vs) = do_rpush key (v ∷ vs)
  change_call c (sadd_change key v vs) = do_sadd key (v ∷ vs)
  change_call c flush_change = do_flush

  -- No pair has a time at which it expires.
  abbrev pub IsLasting : Pairs Float → Type 0
  IsLasting = All (λ p. p.1.expires_at ≡ none)

  abbrev Lasts : Option (Entry Float) → Type 0
  Lasts none = Unit
  Lasts (some e) = e.expires_at ≡ none

  lookup-Lasts : (key : Bytes) (r : Pairs Float) → IsLasting r → Lasts (lookup key r)
  lookup-Lasts key [] h = tt
  lookup-Lasts key ((k, e) ∷ r) (p, h) = elim (Bool-cases (text_eq k key)) [
    | inl same ↦ rw same p
    | inr other ↦ rw other (lookup-Lasts key r h)
  ]

  started-at :
      (now now' : ℕ) (kind : Kind) (o : Option (Entry Float))
      → Lasts o
      → started now kind o ≡ started now' kind o
  started-at now now' kind none h = refl
  started-at now now' kind (some e) h =
      let by : ℕ → Option ℕ → Entry Float = λ n x.
        if is_kind kind e.value && not (expired_at n x)
        then e
        else record { value = fresh_value kind; expires_at = none } in
      ap (by now) h ∙ sym (ap (by now') h)

  started-Lasts :
      (now : ℕ) (kind : Kind) (o : Option (Entry Float))
      → Lasts o
      → (started now kind o).expires_at ≡ none
  started-Lasts now kind none h = refl
  started-Lasts now kind (some e) h =
      elim (Bool-cases (is_kind kind e.value && not (is_expired now e))) [
        | inl good ↦ rw good h
        | inr bad ↦ rw bad refl
      ]

  bounded-IsLasting : (limit : ℕ) (r : Pairs Float) → IsLasting r → IsLasting (bounded limit r)
  bounded-IsLasting limit r h = elim (Bool-cases (ltb 0 limit)) [
    | inl on ↦ rw on (All-take _ limit r h)
    | inr off ↦ rw off h
  ]

  put-IsLasting :
      (limit : ℕ) (key : Bytes) (e : Entry Float) (r : Pairs Float)
      → e.expires_at ≡ none
      → IsLasting r
      → IsLasting (put limit key e r)
  put-IsLasting limit key e r p h =
      bounded-IsLasting limit ((key, e) ∷ without key r) (p, All-filter _ _ r h)

  gone-IsLasting :
      (key : Bytes) (o : Option (Entry Float)) (n : ℕ) (r : Pairs Float)
      → IsLasting r
      → IsLasting (gone key o (n, r)).1
  gone-IsLasting key none n r h = h
  gone-IsLasting key (some e) n r h = All-filter _ _ r h

  all_gone-IsLasting :
      (keys : List Bytes) (n : ℕ) (r : Pairs Float)
      → IsLasting r
      → IsLasting (all_gone keys (n, r)).1
  unfolding all_gone
  all_gone-IsLasting [] n r h = h
  all_gone-IsLasting (key ∷ keys) n r h =
      let (m, left) = gone key (lookup key r) (n, r) in
      all_gone-IsLasting keys m left (gone-IsLasting key (lookup key r) n r h)

  module _ (limit : ℕ) where
    -- Without times of expiry it does not matter when a change is made.
    pub meant-at :
        (now now' : ℕ) (c : Command) (change : IsChange c) (r : Pairs Float)
        → IsLasting r
        → meant limit now (change_call c change) r ≡ meant limit now' (change_call c change) r
    unfolding meant
    meant-at now now' c (set_change key v) r h = refl
    meant-at now now' c (del_change key keys) r h = refl
    meant-at now now' c (lpush_change key v vs) r h =
        ap
          (λ e.
            let xs = reverse (v ∷ vs) ++ items e.value in
            (count (length xs), holding limit key e (list xs) r))
          (started-at now now' a_list (lookup key r) (lookup-Lasts key r h))
    meant-at now now' c (rpush_change key v vs) r h =
        ap
          (λ e.
            let xs = items e.value ++ (v ∷ vs) in
            (count (length xs), holding limit key e (list xs) r))
          (started-at now now' a_list (lookup key r) (lookup-Lasts key r h))
    meant-at now now' c (sadd_change key v vs) r h =
        ap
          (λ e.
            let (now_in, added) = added_to e.value (v ∷ vs) in
            (count added, holding limit key e (set now_in) r))
          (started-at now now' a_set (lookup key r) (lookup-Lasts key r h))
    meant-at now now' c flush_change r h = refl

    pub meant-IsLasting :
        (now : ℕ) (c : Command) (change : IsChange c) (r : Pairs Float)
        → IsLasting r
        → IsLasting (meant limit now (change_call c change) r).1
    unfolding meant
    meant-IsLasting now c (set_change key v) r h = put-IsLasting limit key _ r refl h
    meant-IsLasting now c (del_change key keys) r h = all_gone-IsLasting (key ∷ keys) 0 r h
    meant-IsLasting now c (lpush_change key v vs) r h =
        put-IsLasting limit key _ r (started-Lasts now a_list (lookup key r) (lookup-Lasts key r h))
          h
    meant-IsLasting now c (rpush_change key v vs) r h =
        put-IsLasting limit key _ r (started-Lasts now a_list (lookup key r) (lookup-Lasts key r h))
          h
    meant-IsLasting now c (sadd_change key v vs) r h =
        put-IsLasting limit key _ r (started-Lasts now a_set (lookup key r) (lookup-Lasts key r h))
          h
    meant-IsLasting now c flush_change r h = tt
