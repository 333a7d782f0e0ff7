-- ===== src/Dispatch/Good.antt =====
-- Stores in order, and commands that answer and leave them so.
use cachestack.Base.{
  ℕ, ◌≡◌, refl, ap, sym, subst, Bool, true, false, List, Option, none, some, if◌then◌else◌,
}
use mathlib.Core.Bool.{false≢true}
use mathlib.Core.Option.{some-injective}
use cachestack.Command.{Bytes}
use cachestack.Store.{Store}
use cachestack.Store.Maps.{is_some}
use cachestack.Store.Pairs.{Pairs}
use cachestack.Store.Calls.{Call, Answer, count, meant, call, with_answer}
use cachestack.Store.Answers.{Holds, Answers}
use cachestack.Store.Refines.{call_holds}
use cachestack.Dispatch.Wire.{Session, Reply, with_store}
use cachestack.Dispatch.Handlers.{logged, shown, pushed}

module _ {Float : Type 0} where
  -- The store is in order: it holds some pairs, under this limit.
  pub record IsGood (limit : ℕ) (t : Store Float) : Type 0 where
    pub held : Pairs Float
    pub holds : Holds limit held t

  -- A command answers, and leaves a store in order.
  pub record IsSafe (limit : ℕ) (o : Reply Float) : Type 0 where
    pub resp : Bytes
    pub after : Session Float
    pub answered : o ≡ some (resp, after)
    pub good : IsGood limit after.server.store

  module _ {limit : ℕ} where
    pub returns :
        (resp : Bytes) (s : Session Float)
        → IsGood limit s.server.store
        → IsSafe limit (some (resp, s))
    returns resp s g = record { resp = resp; after = s; answered = refl; good = g }

    pub either :
        (b : Bool) {x y : Reply Float}
        → IsSafe limit x
        → IsSafe limit y
        → IsSafe limit (if b then x else y)
    either true x y = x
    either false x y = y

    pub Answers-IsGood :
        {A : Type 0} {a : A × Pairs Float} (x : A × Store Float)
        → Answers limit (some x) a
        → IsGood limit x.1
    Answers-IsGood {a = a} x h = record {
      held = a.1;
      holds =
          subst (λ y. Holds limit a.1 y.1) (sym (some-injective x (a.0, h.after) h.answered))
            h.holds;
    }

    -- A call leaves a good store good.
    pub called :
        (now : ℕ) (c : Call Float) (t : Store Float) (x : Answer × Store Float)
        → IsGood limit t
        → call now c t ≡ some x
        → IsGood limit x.1
    called now c t x g e =
        Answers-IsGood x
          (subst (λ o. Answers limit o (meant limit now c g.held)) e (call_holds now c t g.holds))

    pub pushed-IsSafe :
        {a : Answer × Pairs Float} (cmd : Bytes) (args : List Bytes) (s : Session Float)
        (o : Option (ℕ × Store Float))
        → Answers limit (with_answer count o) a
        → IsSafe limit (pushed cmd args s o)
    pushed-IsSafe cmd args s none h = absurd (false≢true (ap is_some h.answered))
    pushed-IsSafe cmd args s (some (n, t)) h =
        returns _ (logged cmd args (with_store t s)) (Answers-IsGood (count n, t) h)

    pub shown-IsSafe :
        {xs : List Bytes} (s : Session Float) (o : Option (List Bytes))
        → IsGood limit s.server.store
        → o ≡ some xs
        → IsSafe limit (shown s o)
    shown-IsSafe s o g e = rw e (returns _ s g)
