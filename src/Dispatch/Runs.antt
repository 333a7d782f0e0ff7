-- ===== src/Dispatch/Runs.antt =====
-- What a run of changes leaves in the store and in the log.
use cachestack.Base.{ℕ, ◌≡◌, ◌∙◌, refl, ap, List, [], ◌∷◌, Option, none, some, map, All}
use mathlib.Core.Bool.{false≢true}
use mathlib.Core.Option.{some-injective}
use cachestack.Text.{text, text_eq}
use cachestack.Command.{Bytes, Command}
use cachestack.Store.{Store}
use cachestack.Store.Maps.{is_some}
use cachestack.Store.Pairs.{Pairs}
use cachestack.Store.Calls.{Answer, count, with_answer, call, meant}
use cachestack.Store.Answers.{Holds}
use cachestack.Store.Refines.{call_holds}
use cachestack.Log.{Aof, append}
use cachestack.Log.Replay.{recorded}
use cachestack.Dispatch.{dispatch}
use cachestack.Dispatch.Wire.{Host, Server}
use cachestack.Dispatch.Handlers.{
  set_command, del_command, lpush_command, rpush_command, sadd_command, pushed, flush_command,
}
use cachestack.Dispatch.Restart.{alone, server_of}
use cachestack.Dispatch.Changes.{
  IsChange, set_change, del_change, lpush_change, rpush_change, sadd_change, flush_change,
}
use cachestack.Dispatch.Lasting.{change_call, IsLasting, meant-at, meant-IsLasting}

abbrev pub commands_of : List (ℕ × Command) → List Command
commands_of = map (λ p. p.1)

module _ {Float : Type 0} where
  abbrev onward :
      (Server Float → Option (Server Float)) → Option (Server Float) → Option (Server Float)
  onward rest none = none
  onward rest (some w) = rest w

  -- The server with what a logged change leaves.
  abbrev pub changed : Bytes → List Bytes → Store Float → Server Float → Server Float
  changed name args t v = record v { store = t; aof = append name args v.aof }

  pushed-call :
      (name : Bytes) (args : List Bytes) (v : Server Float) (o : Option (ℕ × Store Float))
      (a : Answer) (t : Store Float)
      → with_answer count o ≡ some (a, t)
      → server_of (pushed name args (alone v) o) ≡ some (changed name args t v)
  pushed-call name args v none a t e = absurd (false≢true (ap is_some e))
  pushed-call name args v (some (n, u)) a t e =
      ap (λ u. some (changed name args u v)) (ap (λ r. r.1) (some-injective (count n, u) (a, t) e))

  -- The pairs that changes leave, each at its time, and all at one time.
  abbrev pub left_by :
      ℕ → (todo : List (ℕ × Command)) → All IsChange (commands_of todo) → Pairs Float → Pairs Float
  left_by limit [] h r = r
  left_by limit ((now, c) ∷ todo) (change, h) r =
      left_by limit todo h (meant limit now (change_call c change) r).1

  abbrev pub left_at : ℕ → ℕ → (cs : List Command) → All IsChange cs → Pairs Float → Pairs Float
  left_at limit now [] h r = r
  left_at limit now (c ∷ cs) (change, h) r =
      left_at limit now cs h (meant limit now (change_call c change) r).1

  pub left_by-left_at :
      (limit now : ℕ) (todo : List (ℕ × Command)) (h : All IsChange (commands_of todo))
      (r : Pairs Float)
      → IsLasting r
      → left_by limit todo h r ≡ left_at limit now (commands_of todo) h r
  left_by-left_at limit now [] h r lasting = refl
  left_by-left_at limit now ((before, c) ∷ todo) (change, h) r lasting =
      left_by-left_at limit now todo h (meant limit before (change_call c change) r).1
        (meant-IsLasting limit before c change r lasting)
      ∙ ap (λ m. left_at limit now (commands_of todo) h m.1)
          (meant-at limit before now c change r lasting)

  -- A run ends, in a server that holds these pairs and has this log.
  pub record Runs (limit : ℕ) (r : Pairs Float) (a : Aof) (o : Option (Server Float)) : Type 0 where
    pub last : Server Float
    pub ended : o ≡ some last
    pub holds : Holds limit r last.store
    pub log : last.aof ≡ a

  module _ (H : Host Float) where
    dispatch-call :
        (now : ℕ) (c : Command) (change : IsChange c) (v : Server Float) (a : Answer)
        (t : Store Float)
        → call now (change_call c change) v.store ≡ some (a, t)
        → server_of (dispatch H now c (alone v)) ≡ some (changed c.name c.args t v)
    unfolding dispatch set_command del_command lpush_command rpush_command sadd_command
        flush_command text_eq call
    dispatch-call now c (set_change key x) v a t e =
        ap (λ u. some (changed (text "SET") (key ∷ x ∷ []) u v))
          (ap (λ r. r.1) (some-injective _ (a, t) e))
    dispatch-call now c (del_change key keys) v a t e =
        ap (λ u. some (changed (text "DEL") (key ∷ keys) u v))
          (ap (λ r. r.1) (some-injective _ (a, t) e))
    dispatch-call now c (lpush_change key x xs) v a t e = pushed-call _ _ v _ a t e
    dispatch-call now c (rpush_change key x xs) v a t e = pushed-call _ _ v _ a t e
    dispatch-call now c (sadd_change key x xs) v a t e = pushed-call _ _ v _ a t e
    dispatch-call now c flush_change v a t e =
        ap (λ u. some (changed (text "FLUSHALL") [] u v))
          (ap (λ r. r.1) (some-injective _ (a, t) e))

    -- Commands dispatched one after the other, each at its time.
    unfoldable pub execute_at : List (ℕ × Command) → Server Float → Option (Server Float)
    execute_at [] v = some v
    execute_at ((now, c) ∷ todo) v =
        onward (execute_at todo) (server_of (dispatch H now c (alone v)))

    pub dispatch-Runs :
        {limit : ℕ} {r : Pairs Float} (now : ℕ) (c : Command) (change : IsChange c)
        (v : Server Float)
        → Holds limit r v.store
        → Runs limit
            (meant limit now (change_call c change) r).1
            (append c.name c.args v.aof)
            (server_of (dispatch H now c (alone v)))
    dispatch-Runs now c change v h =
        let one = call_holds now (change_call c change) v.store h in
        record {
          last = changed c.name c.args one.after v;
          ended = dispatch-call now c change v _ one.after one.answered;
          holds = one.holds;
          log = refl;
        }

    pub execute_at-Runs :
        {limit : ℕ} (todo : List (ℕ × Command)) (h : All IsChange (commands_of todo))
        (r : Pairs Float) (v : Server Float)
        → Holds limit r v.store
        → Runs limit
            (left_by limit todo h r)
            (recorded (commands_of todo) v.aof)
            (execute_at todo v)
    unfolding execute_at recorded
    execute_at-Runs [] h r v holds = record { last = v; ended = refl; holds = holds; log = refl }
    execute_at-Runs {limit} ((now, c) ∷ todo) (change, h) r v holds =
        let one = dispatch-Runs now c change v holds in
        let rest =
          execute_at-Runs todo h (meant limit now (change_call c change) r).1 one.last one.holds in
        record {
          last = rest.last;
          ended = ap (onward (execute_at todo)) one.ended ∙ rest.ended;
          holds = rest.holds;
          log = rest.log ∙ ap (recorded (commands_of todo)) one.log;
        }
