-- ===== src/Tests/Server.antt =====
-- Runs of the server's parser and of its store.
use cachestack.Base.{
  All, filter, not, map, ℕ, ◌-◌, ◌≡◌, refl, true, List, [], ◌∷◌, Option, some, none, length, take,
  drop, arith, ltb, filter, Bool,
}
use cachestack.Text.{text, join, text_eq}
use cachestack.Text.Names.{has, All-ne_of_has}
use cachestack.Text.Decimal.{pos, negsuc}
use cachestack.Command.{Bytes, is_gap, tokenize}
use cachestack.Command.Tokens.{bare, quoted, none_left, one_more, tokenize-Spelled}
use cachestack.Store.{
  Store, lookup, new_store, evict, get_or_create, set_string, set_locked, get_string, expire, del,
  get_locked, touch, assign, evict_one, back, remove_locked, assign_expiry, del_each,
}
use cachestack.Store.Values.{is_expired, str, list, later, value_size, sum_lengths, sort_scores}
use cachestack.Store.Methods.{read, items, lrange, lpush, lpop, sweep, sweep_each}
use cachestack.Store.Matched.{IsMatched, renamed-IsMatched}
use cachestack.Store.Sweep.{self-IsRange, sweep_lem}
use cachestack.Store.Pairs.{recent, pairs}
use cachestack.Store.Recency.{Becomes, evict_lem}
use cachestack.Store.Windows.Bounds.{low, high}
use cachestack.Store.Ranges.{lrange_lem}
use cachestack.Store.Calls.{
  Turn, called, swept, Ranges, do_set, do_get, do_del, do_expire, do_lpush, do_lpop, Answer, done,
  count, value, yes, call, calls, all_meant,
}
use cachestack.Store.Sorting.{IsSorted, sort_scores-IsSorted}
use cachestack.Store.Answers.{Answers}
use cachestack.Store.Refines.{calls-new_store}

-- Three keys under a limit of two; the first was read, so the second goes. A round of the sweeper removes the
-- key that has expired.
abbrev todo : List (Turn ℕ)
todo =
    called 100 (do_set (text "a") (text "1"))
    ∷ called 101 (do_lpush (text "b") (text "x" ∷ text "y" ∷ []))
    ∷ called 102 (do_get (text "a"))
    ∷ called 103 (do_set (text "c") (text "3"))
    ∷ called 104 (do_lpop (text "b"))
    ∷ called 105 (do_expire (text "a") 5)
    ∷ swept 111 (λ ps. ps)
    ∷ called 111 (do_get (text "a"))
    ∷ called 112 (do_del (text "a" ∷ text "c" ∷ []))
    ∷ []

todo-Ranges : All Ranges todo
todo-Ranges = (tt, (tt, (tt, (tt, (tt, (tt, (self-IsRange, (tt, (tt, tt)))))))))

calls-new_store_example : Answers 2 (calls todo (new_store 2)) (all_meant 2 todo [])
calls-new_store_example = calls-new_store 2 todo todo-Ranges

abbrev answers_of : Option (List Answer × Store ℕ) → List Answer
answers_of none = []
answers_of (some (as', s)) = as'

run :
    answers_of (calls todo (new_store 2))
    ≡ done
      ∷ count 2
      ∷ value (some (text "1"))
      ∷ done
      ∷ value none
      ∷ yes true
      ∷ value none
      ∷ count 1
      ∷ []
unfolding calls sweep sweep_each call lpush get_or_create set_string set_locked new_store evict
    text_eq get_string lpop expire del get_locked touch assign evict_one back remove_locked
    assign_expiry del_each later value_size sum_lengths
run = refl

abbrev crowded : Store ℕ
crowded = record {
  entries =
      (text "b", record { value = list (text "x" ∷ text "y" ∷ text "z" ∷ []); expires_at = none })
      ∷ (text "a", record { value = str (text "1"); expires_at = none })
      ∷ [];
  lru = text "b" ∷ text "a" ∷ [];
  max_keys = 1;
  byte_used = 0;
}

crowded-IsMatched : IsMatched crowded
unfolding has text_eq
crowded-IsMatched = record {
  lru_distinct = (All-ne_of_has (text "b") (text "a" ∷ []) refl, (tt, tt));
  keys_distinct = (All-ne_of_has (text "b") (text "a" ∷ []) refl, (tt, tt));
  same = λ k. refl;
  balanced = refl;
}

evict_lem_example : Becomes (take 1 (recent crowded)) 1 (evict 2 crowded)
evict_lem_example = evict_lem 2 crowded crowded-IsMatched (omega arith)

-- The key at the end of the list has expired.
abbrev aged : Store ℕ
aged = record crowded {
  entries =
      (text "b", record { value = list (text "x" ∷ text "y" ∷ text "z" ∷ []); expires_at = none })
      ∷ (text "a", record { value = str (text "1"); expires_at = some 90 })
      ∷ [];
}

aged-IsMatched : IsMatched aged
aged-IsMatched = renamed-IsMatched aged.entries crowded refl crowded-IsMatched

sweep_lem_example :
    Becomes (filter (λ q. not (is_expired 100 q.1)) (recent aged)) 1 (sweep 100 (λ ps. ps) aged)
sweep_lem_example = sweep_lem 100 (λ ps. ps) aged self-IsRange aged-IsMatched

aged-swept : map (λ q. q.0) (recent (sweep 100 (λ ps. ps) aged)) ≡ text "b" ∷ []
unfolding recent pairs sweep sweep_each remove_locked text_eq
aged-swept = refl

lrange_lem_example :
    (let xs = read items (lookup (text "b") crowded.entries) in
      let n = length xs in
      lrange (text "b") (negsuc 1) (pos 9) crowded
      ≡ some (take (high n (pos 9) - low n (negsuc 1)) (drop (low n (negsuc 1)) xs)))
lrange_lem_example = lrange_lem (text "b") (negsuc 1) (pos 9) crowded

tokenize-Spelled_example :
    tokenize (join (text " ") (text "S" ∷ text "\"a b\"" ∷ [])) ≡ some (text "S" ∷ text "a b" ∷ [])
unfolding is_gap
tokenize-Spelled_example = tokenize-Spelled (
    one_more (bare (text "S") refl ((omega arith, refl, refl), tt)) (
      one_more
        (quoted (text "a b") (text "\"a b\"") refl
          ((omega arith, refl), ((omega arith, refl), ((omega arith, refl), tt))) refl)
        none_left))

abbrev scored : List (Bytes × ℕ)
scored = (text "b", 3) ∷ (text "a", 1) ∷ (text "c", 2) ∷ []

sort_scores-IsSorted_example :
    IsSorted ltb (sort_scores ltb scored)
    × ((p : Bytes × ℕ → Bool)
        → length (filter p (sort_scores ltb scored)) ≡ length (filter p scored))
sort_scores-IsSorted_example =
    sort_scores-IsSorted ltb (λ a b h. ground arith) (λ a. true)
      (λ a b c na nb nc e f. ground arith) scored (refl, (refl, (refl, tt)))
