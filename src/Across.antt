-- ===== src/Across.antt =====
-- The poll of the keys across both programs: backend/internal/networking/http.go answers GET /api/keys, and
-- frontend/src/App.tsx makes its table of the answer. The library of either side writes and reads the JSON; `Json` is
-- what comes of a text.
use cachestack.Base.{
  ◌*◌, ◌-◌, ◌++◌, ap, ◌∙◌, true, Option, ltb, leb, if◌then◌else◌, arith, ℕ, ◌+◌, ◌≡◌, ◌≢◌, refl,
  false, not, List, [], ◌∷◌, none, some, map, filter, All, Bool-cases, inl, inr,
}
use cachestack.Text.Decimal.{show_ℕ, show_ℤ}
use cachestack.Text.{IsAscii, text, Text, text_eq}
use cachestack.Types.{KeyType, string, list, set, zset, KeyEntry, ApiKeyInfo}
use cachestack.Client.{Answer, answered, api_fetch}
use cachestack.Keys.{normalise_type, ttl_text, rows_from, replace_keys, fetch_keys}
use cachestack.Command.{Bytes}
use cachestack.Store.{Store, lookup, ttl, ttl_until}
use cachestack.Store.Values.{Value, Entry, is_expired}
use cachestack.Store.Values as Values
use cachestack.Store.Matched.{IsMatched}
use cachestack.Store.Sweep.{IsRange, range_found}
use cachestack.Store.Methods.{Order, keys, type_of, value_type}
use cachestack.Dispatch.Wire.{Host, Server}
use cachestack.Dispatch.Http.{
  Codec, KeyInfo, HttpAnswer, key_list, get_method, key_infos, handle_keys,
}

-- The text that the dashboard reads, of the bytes that the server holds: JSON keeps an ASCII text.
pub record Json : Type 0 where
  pub decoded : Bytes → Text
  pub decoded_ascii : (s : Bytes) → IsAscii s → decoded s ≡ s

abbrev pub columns : KeyEntry → Text × (KeyType × Text)
columns k = (k.key, (k.type, k.ttl))

-- The remaining time as the table shows it.
abbrev pub time_left : (ℕ → ℕ) → ℕ → Option ℕ → Text
time_left whole now none = text "∞"
time_left whole now (some t) =
    if ltb now t then show_ℕ (whole (t - now)) ++ text "s" else text "expired"

ttl_text-ttl_until :
    (whole : ℕ → ℕ) (now : ℕ) (t : Option ℕ)
    → ttl_text (ttl_until whole now t) ≡ time_left whole now t
unfolding ttl_text show_ℤ
ttl_text-ttl_until whole now none = refl
ttl_text-ttl_until whole now (some t) = elim (Bool-cases (leb t now)) [
  | inl e ↦ let late : ltb now t ≡ false = ground arith in rw (e, late) refl
  | inr e ↦ let early : ltb now t ≡ true = ground arith in rw (e, early) refl
]

module _ (J : Json) where
  -- An element of the answer as the dashboard reads it.
  abbrev pub received : KeyInfo → ApiKeyInfo
  received i = record { key = J.decoded i.key; ttl = i.ttl_left; type = J.decoded i.type }

  -- What GET /api/keys answers, read as the answer of `fetch`.
  abbrev pub keys_answer : HttpAnswer → Answer (List ApiKeyInfo)
  keys_answer (key_list infos) = answered 200 (some (map received infos))
  keys_answer _ = answered 400 none

module _ {Float : Type 0} where
  -- The type of a value, as the table names it.
  abbrev pub kind_of : Value Float → KeyType
  kind_of (Values.str _) = string
  kind_of (Values.list _) = list
  kind_of (Values.set _) = set
  kind_of (Values.zset _) = zset

  -- The pairs that have not expired, in the order of `range`.
  abbrev pub live_pairs : ℕ → Order (Bytes × Entry Float) → Store Float → List (Bytes × Entry Float)
  live_pairs now order s = filter (λ p. not (is_expired now p.1)) (order s.entries)

  module _ (H : Host Float) (C : Codec) (J : Json) (now : ℕ) (reads : ℕ → ℕ × Store Float) where
    -- The type of an entry at a time; a key that has expired has none, and is shown as a string.
    abbrev pub kind_at : ℕ → Entry Float → KeyType
    kind_at time e = if is_expired time e then string else kind_of e.value

    -- What the rows show of the pairs from index i on: key, type and remaining time, at the times of the reads.
    abbrev pub shown_from : ℕ → List (Bytes × Entry Float) → List (Text × (KeyType × Text))
    shown_from i [] = []
    shown_from i ((key, e) ∷ ps) =
        (key, (kind_at (reads (2 * i + 1)).0 e, time_left H.whole (reads (2 * i)).0 e.expires_at))
        ∷ shown_from (i + 1) ps

    normalise_type-value_type :
        (v : Value Float) → normalise_type (J.decoded (value_type v)) ≡ kind_of v
    unfolding normalise_type text_eq
    normalise_type-value_type (Values.str _) =
        ap normalise_type (J.decoded_ascii (text "String") omega arith)
    normalise_type-value_type (Values.list _) =
        ap normalise_type (J.decoded_ascii (text "List") omega arith)
    normalise_type-value_type (Values.set _) =
        ap normalise_type (J.decoded_ascii (text "Set") omega arith)
    normalise_type-value_type (Values.zset _) =
        ap normalise_type (J.decoded_ascii (text "ZSet") omega arith)

    module _ (s : Store Float) (steady : (i : ℕ) → (reads i).1 ≡ s) where
      type_of-found :
          (i : ℕ) (key : Bytes) (e : Entry Float)
          → lookup key s.entries ≡ some e
          → normalise_type (J.decoded (type_of (reads i).0 key (reads i).1)) ≡ kind_at (reads i).0 e
      unfolding type_of normalise_type text_eq
      type_of-found i key e found =
          rw (steady i, found)
            (elim (Bool-cases (is_expired (reads i).0 e)) [
              | inl dead ↦ rw dead (ap normalise_type (J.decoded_ascii [] tt))
              | inr alive ↦ rw alive (normalise_type-value_type e.value)
            ])

      ttl-found :
          (i : ℕ) (key : Bytes) (e : Entry Float)
          → lookup key s.entries ≡ some e
          → ttl_text (ttl H.whole (reads i).0 key (reads i).1)
            ≡ time_left H.whole (reads i).0 e.expires_at
      unfolding ttl
      ttl-found i key e found =
          rw (steady i, found) (ttl_text-ttl_until H.whole (reads i).0 e.expires_at)

      IsFound : Bytes × Entry Float → Type 0
      IsFound p = (lookup p.0 s.entries ≡ some p.1) × IsAscii p.0

      infos : ℕ → List (Bytes × Entry Float) → List ApiKeyInfo
      infos i ps = map (received J) (key_infos H C now reads i (map (λ p. p.0) ps))

      rows_from-found :
          (i : ℕ) (ps : List (Bytes × Entry Float))
          → All IsFound ps
          → map columns (rows_from i (infos i ps)) ≡ shown_from i ps
      unfolding rows_from infos IsFound key_infos
      rows_from-found i [] h = refl
      rows_from-found i ((key, e) ∷ ps) ((found, ascii), h) =
          ap
            (λ k.
              (
                k,
                (
                  normalise_type
                      (J.decoded (type_of (reads (2 * i + 1)).0 key (reads (2 * i + 1)).1)),
                  ttl_text (ttl H.whole (reads (2 * i)).0 key (reads (2 * i)).1),
                ),
              )
              ∷ map columns (rows_from (i + 1) (infos (i + 1) ps)))
            (J.decoded_ascii key ascii)
          ∙ ap
              (λ t.
                (key, (t, ttl_text (ttl H.whole (reads (2 * i)).0 key (reads (2 * i)).1)))
                ∷ map columns (rows_from (i + 1) (infos (i + 1) ps)))
              (type_of-found (2 * i + 1) key e found)
          ∙ ap
              (λ t.
                (key, (kind_at (reads (2 * i + 1)).0 e, t))
                ∷ map columns (rows_from (i + 1) (infos (i + 1) ps)))
              (ttl-found (2 * i) key e found)
          ∙ ap
              (◌∷◌ (
                key,
                (kind_at (reads (2 * i + 1)).0 e, time_left H.whole (reads (2 * i)).0 e.expires_at),
              ))
              (rows_from-found (i + 1) ps h)

      replace_keys-found :
          (old : List KeyEntry) (ps : List (Bytes × Entry Float))
          → All IsFound ps
          → (ps ≢ [] → map columns (replace_keys (some (infos 0 ps)) old) ≡ shown_from 0 ps)
            × (ps ≡ [] → replace_keys (some (infos 0 ps)) old ≡ old)
      unfolding infos key_infos
      replace_keys-found old [] h = (λ more. absurd (more refl), λ e. refl)
      replace_keys-found old (p ∷ ps) h = (λ more. rows_from-found 0 (p ∷ ps) h, λ e. cc)

      filter-IsFound :
          (ps : List (Bytes × Entry Float))
          → All (λ p. lookup p.0 s.entries ≡ some p.1) ps
          → All (λ p. IsAscii p.0) (filter (λ p. not (is_expired now p.1)) ps)
          → All IsFound (filter (λ p. not (is_expired now p.1)) ps)
      unfolding IsFound
      filter-IsFound [] h a = tt
      filter-IsFound (p ∷ ps) (found, h) a = elim (Bool-cases (is_expired now p.1)) [
        | inl dead ↦ rw dead (filter-IsFound ps h (rw dead at a))
        | inr alive ↦ rw alive ((found, (rw alive at a).0), filter-IsFound ps h (rw alive at a).1)
      ]

    -- The dashboard's poll of the keys against a server whose map and LRU list match, where `range` yields
    -- the pairs of the map, the live keys are ASCII, and no other connection changes the store before the
    -- answer is complete: if a key is live, the table shows exactly the live keys, in the order of the
    -- `range`, each with the whole seconds that it had left when its time was read, "∞" if it does not
    -- expire and "expired" if its time was up by then, and with the type of its value, or as a string if it
    -- had expired when its type was read; if no key is live, the table stays as it was.
    pub fetch_keys-handle_keys :
        (v : Server Float) (old : List KeyEntry)
        → IsRange H.entry_order
        → IsMatched v.store
        → All (λ p. IsAscii p.0) (live_pairs now H.entry_order v.store)
        → ((i : ℕ) → (reads i).1 ≡ v.store)
        → (let after =
              fetch_keys (keys_answer J (handle_keys H C now reads get_method [] v).0) old in
            (live_pairs now H.entry_order v.store ≢ []
              → map columns after ≡ shown_from 0 (live_pairs now H.entry_order v.store))
            × (live_pairs now H.entry_order v.store ≡ [] → after ≡ old))
    unfolding fetch_keys handle_keys api_fetch keys infos
    fetch_keys-handle_keys v old range m ascii steady =
        replace_keys-found v.store steady old (live_pairs now H.entry_order v.store) (
          filter-IsFound v.store steady (H.entry_order v.store.entries)
            (range_found H.entry_order v.store.entries range m.keys_distinct) ascii)
