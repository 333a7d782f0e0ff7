-- ===== src/Tests/Commands.antt =====
-- Runs of the server's commands, of its log and of a start.
use cachestack.Base.{
  ℕ, zero, suc, ◌+◌, ◌<◌, ◌≤◌, leb, true, false, length, length-drop, length-append, ◌/◌, ◌^◌, ◌≡◌,
  ◌≢◌, subst, sym, ap, if◌then◌else◌, refl, ltb, List, [], ◌∷◌, ◌++◌, some, none, All, arith, map,
}
use cachestack.Text.{IsAscii, text, ascii_lower, is_empty, starts_with, join}
use cachestack.Text.Decimal.{pos, read_from, show_ℕ}
use cachestack.Command.Tokens.{IsPlain}
use cachestack.Command.{Bytes, Command, Case, ascii_upper, is_gap}
use cachestack.Command.Quotes.{flips}
use cachestack.Keys.{set_command}
use cachestack.Store.{Store, set_string, set_locked, evict}
use cachestack.Store.Refines.{new_store-Holds, call_holds}
use cachestack.Broker.{Broker, new_broker, subscribe, publish, unsubscribe}
use cachestack.Broker.Steps.{
  here, next, subscribed, published, unsubscribed, IsOrderly, Reach-new_broker-IsOrderly,
}
use cachestack.Log.{Aof, IsWriter, opened, line_of, append, flush, replay, commands}
use cachestack.Log.Replay.{IsTrim, IsRecorded, recorded, written, flush-recorded, commands-replay}
use cachestack.Dispatch.{dispatch}
use cachestack.Dispatch.Wire.{Host, Server}
use cachestack.Dispatch.Restart.{alone, fresh, start, ended, reading}
use cachestack.Dispatch.Good.{IsSafe}
use cachestack.Dispatch.Total.{dispatch-IsSafe}
use cachestack.Dispatch.Changes.{set_change, rpush_change}
use cachestack.Dispatch.Relog.{start-aof}
use cachestack.Dispatch.Endless.{start-reading}
use cachestack.Dispatch.Runs.{execute_at}
use cachestack.Dispatch.Recover.{log_of, start-execute_at}
use cachestack.Store.Pairs.{recent}
use cachestack.Across.{keys_answer, Json, columns, shown_from, live_pairs, fetch_keys-handle_keys}
use cachestack.Keys.{fetch_keys}
use cachestack.Store.Calls.{call, do_set, done}
use cachestack.Store.Matched.{IsMatched}
use cachestack.Store.Sweep.{self-IsRange}
use mathlib.Core.Option.{some-injective}
use cachestack.Store.{new_store}
use cachestack.Dispatch.Http.{get_method, handle_keys, Codec, result, post_method, handle_exec}
use cachestack.Dispatch.Save.{IsSaved, handle_exec-set_command}

abbrev ascii_case : Case
ascii_case = record {
  upper = map ascii_upper;
  lower = map ascii_lower;
  upper_ascii = λ s h. refl;
  lower_ascii = λ s h. refl;
}

abbrev host : Host ℕ
host = record {
  letter_case = ascii_case;
  atoi = λ s. if is_empty s then none else some (pos (read_from 0 s));
  score = record {
    parse_float = λ s. if is_empty s then none else some (read_from 0 s);
    less = ltb;
  };
  whole = λ d. d / 10 ^ 9;
  uptime = λ now. show_ℕ (now / 10 ^ 9);
  entry_order = λ ps. ps;
  member_order = λ ms. ms;
  score_order = λ ms. ms;
}

abbrev codec : Codec
codec = record { marshal = λ xs. join (text ",") xs; trim_space = λ s. s }

-- A writer that writes out all it has when its 64 KB do not suffice.
abbrev writer : Bytes → Bytes → ℕ
writer b s = if leb (length b + length s) 65536 then 0 else length b + length s

writer-IsWriter : IsWriter writer
writer-IsWriter = record {
  waits = λ b s room. ground arith;
  bounded = λ b s few. ground (arith, length-drop (writer b s) (b ++ s), length-append b s);
}

abbrev empty_log : Aof
empty_log = opened writer

abbrev server : Server ℕ
server = fresh 3 empty_log

abbrev push : Command
push = record { name = text "LPUSH"; args = text "l" ∷ text "a" ∷ text "b" ∷ [] }

dispatch-IsSafe_example : IsSafe 3 (dispatch host 100 push (alone server))
dispatch-IsSafe_example =
    dispatch-IsSafe host 100 push (alone server) (record { held = []; holds = new_store-Holds 3 })

abbrev changes : List Command
changes =
    record { name = text "SET"; args = text "k" ∷ text "v" ∷ [] }
    ∷ record { name = text "RPUSH"; args = text "l" ∷ text "a" ∷ [] }
    ∷ []

kept_as_is : IsTrim (λ s. s)
kept_as_is s a f l = refl

changes-IsRecorded : All (IsRecorded ascii_case) changes
unfolding is_gap join starts_with
changes-IsRecorded = (
  (record {
    words = (
      (
        refl,
        ((omega arith, refl, refl), ((omega arith, refl, refl), ((omega arith, refl, refl), tt))),
      ),
      ((refl, ((omega arith, refl, refl), tt)), ((refl, ((omega arith, refl, refl), tt)), tt)),
    );
    named = refl;
    no_comment = refl;
    short = omega arith;
  }),
  (
    (record {
      words = (
        (
          refl,
          (
            (omega arith, refl, refl),
            (
              (omega arith, refl, refl),
              (
                (omega arith, refl, refl),
                ((omega arith, refl, refl), ((omega arith, refl, refl), tt)),
              ),
            ),
          ),
        ),
        ((refl, ((omega arith, refl, refl), tt)), ((refl, ((omega arith, refl, refl), tt)), tt)),
      );
      named = refl;
      no_comment = refl;
      short = omega arith;
    }),
    tt,
  ),
)

commands-replay_example :
    commands ascii_case (replay (λ s. s) (flush (recorded changes empty_log)).file) ≡ changes
commands-replay_example =
    commands-replay ascii_case (λ s. s) writer changes kept_as_is changes-IsRecorded

changes-short : length (flush (recorded changes empty_log)).file ≤ 65536
unfolding recorded append flush line_of join
changes-short = omega arith

start-aof_example :
    (let a = log_of host 100 (λ s. s) (λ i. false) writer changes in
      (w : Server ℕ) × (start host 100 (λ s. s) (λ i. false) 3 3 a ≡ ended w)
      × ((flush w.aof).file ≡ a.file ++ a.file))
start-aof_example =
    start-aof host 100 (λ s. s) (λ i. false) writer 3 3 changes kept_as_is writer-IsWriter
      (λ i. refl) changes-IsRecorded
      (set_change (text "k") (text "v"), (rpush_change (text "l") (text "a") [], tt)) changes-short
      omega arith

-- The two changes, made at 5 and at 9.
abbrev timed : List (ℕ × Command)
timed =
    (5, record { name = text "SET"; args = text "k" ∷ text "v" ∷ [] })
    ∷ (9, record { name = text "RPUSH"; args = text "l" ∷ text "a" ∷ [] })
    ∷ []

start-execute_at_example :
    (v : Server ℕ) × (execute_at host timed (fresh 3 empty_log) ≡ some v)
    × (w : Server ℕ) × (start host 100 (λ s. s) (λ i. false) 3 3 (flush v.aof) ≡ ended w)
    × (recent w.store ≡ recent v.store)
start-execute_at_example =
    start-execute_at host 100 (λ s. s) (λ i. false) writer 3 3 timed kept_as_is writer-IsWriter
      (λ i. refl) changes-IsRecorded
      (set_change (text "k") (text "v"), (rpush_change (text "l") (text "a") [], tt)) changes-short
      omega arith

-- A value of many letters.
letters : ℕ → Bytes
letters zero = []
letters (suc n) = b'a' ∷ letters n

length-letters : (n : ℕ) → length (letters n) ≡ n
unfolding letters
length-letters zero = refl
length-letters (suc n) = omega (arith, length-letters n)

letters-IsPlain : (n : ℕ) → IsPlain (letters n)
unfolding letters is_gap
letters-IsPlain zero = tt
letters-IsPlain (suc n) = ((omega arith, refl, refl), letters-IsPlain n)

abbrev big : ℕ → Command
big n = record { name = text "SET"; args = text "k" ∷ (b'a' ∷ letters n) ∷ [] }

big-IsRecorded : (n : ℕ) → n < 65000 → IsRecorded ascii_case (big n)
unfolding is_gap join starts_with
big-IsRecorded n h = record {
  words = (
    (
      refl,
      ((omega arith, refl, refl), ((omega arith, refl, refl), ((omega arith, refl, refl), tt))),
    ),
    (
      (refl, ((omega arith, refl, refl), tt)),
      ((refl, ((omega arith, refl, refl), letters-IsPlain n)), tt),
    ),
  );
  named = refl;
  no_comment = refl;
  short = omega (arith, length-letters n);
}

-- Three values of 60001 bytes.
abbrev bulk : List Command
bulk = big 60000 ∷ big 60000 ∷ big 60000 ∷ []

length-big : (n : ℕ) → length (line_of (text "SET") (text "k" ∷ (b'a' ∷ letters n) ∷ [])) ≡ n + 8
unfolding line_of join
length-big n = omega (arith, length-append (letters n) (text "\n"), length-letters n)

bulk-long : 131072 ≤ length (log_of host 100 (λ s. s) (λ i. true) writer bulk).file
unfolding written
bulk-long =
    let line : Bytes = line_of (text "SET") (text "k" ∷ (b'a' ∷ letters 60000) ∷ []) in
    omega (
      arith,
      ap length (flush-recorded bulk empty_log),
      length-append line (line ++ (line ++ [])),
      length-append line (line ++ []),
      length-append line [],
      length-big 60000,
    )

start-reading_example :
    start host 100 (λ s. s) (λ i. true) 1000000 3 (log_of host 100 (λ s. s) (λ i. true) writer bulk)
    ≡ reading
start-reading_example =
    start-reading host 100 (λ s. s) (λ i. true) kept_as_is 3 1000000 writer bulk writer-IsWriter
      (
        big-IsRecorded 60000 omega arith,
        (big-IsRecorded 60000 omega arith, (big-IsRecorded 60000 omega arith, tt)),
      )
      (
        set_change (text "k") (b'a' ∷ letters 60000),
        (
          set_change (text "k") (b'a' ∷ letters 60000),
          (set_change (text "k") (b'a' ∷ letters 60000), tt),
        ),
      )
      bulk-long

saved : IsSaved (text "k") (text "{\"a\":1}")
unfolding is_gap flips
saved = record {
  key_word = refl;
  key_plain = ((omega arith, refl, refl), tt);
  solid = (
    (omega arith, refl),
    (
      (omega arith, refl),
      (
        (omega arith, refl),
        (
          (omega arith, refl),
          ((omega arith, refl), ((omega arith, refl), ((omega arith, refl), tt))),
        ),
      ),
    ),
  );
  even = refl;
  left = refl;
}

handle_exec-set_command_example :
    handle_exec host codec 100 post_method (set_command (text "k") (text "{\"a\":1}")) server
    ≡ some (
      result (text "+OK"),
      record server {
        store = set_string (text "k") (text "{a:1}") server.store;
        aof = append (text "SET") (text "k" ∷ text "{a:1}" ∷ []) server.aof;
      },
    )
handle_exec-set_command_example =
    handle_exec-set_command host codec 100 (text "k") (text "{\"a\":1}") server kept_as_is saved

abbrev heard : Broker
heard = (publish (text "news") (text "hi") (subscribe (text "news") new_broker).1).1

Reach-new_broker-IsOrderly_example : IsOrderly (unsubscribe (text "news") 7 heard)
Reach-new_broker-IsOrderly_example =
    Reach-new_broker-IsOrderly (unsubscribe (text "news") 7 heard) (
      next (subscribed (text "news"))
        (next (published (text "news") (text "hi")) (next (unsubscribed (text "news") 7) here)))

-- A server that holds one key.
abbrev holding : Server ℕ
holding = record server { store = set_string (text "k") (text "v") (new_store 3) }

holding-IsMatched : IsMatched holding.store
unfolding call
holding-IsMatched =
    let one = call_holds 5 (do_set (text "k") (text "v")) (new_store 3) (new_store-Holds 3) in
    subst IsMatched
      (sym (ap (λ r. r.1) (some-injective (done, holding.store) (_, one.after) one.answered)))
      one.holds.matched

plain_json : Json
plain_json = record { decoded = λ s. s; decoded_ascii = λ s h. refl }

-- Each call a nanosecond after the one before.
abbrev reads : ℕ → ℕ × Store ℕ
reads i = (101 + i, holding.store)

holding-IsAscii : All (λ p. IsAscii p.0) (live_pairs 100 host.entry_order holding.store)
unfolding set_string set_locked evict new_store
holding-IsAscii = (omega arith, tt)

fetch_keys-handle_keys_example :
    (let after =
        fetch_keys
          (keys_answer plain_json (handle_keys host codec 100 reads get_method [] holding).0)
          [] in
      (live_pairs 100 host.entry_order holding.store ≢ []
        → map columns after
          ≡ shown_from host codec plain_json 100 reads 0
              (live_pairs 100 host.entry_order holding.store))
      × (live_pairs 100 host.entry_order holding.store ≡ [] → after ≡ []))
fetch_keys-handle_keys_example =
    fetch_keys-handle_keys host codec plain_json 100 reads holding [] self-IsRange holding-IsMatched
      holding-IsAscii (λ i. refl)
