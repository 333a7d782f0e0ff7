-- ===== src/Dispatch/Lists.antt =====
-- The handlers of the commands on lists, sets and sorted sets, and of the channels.
use cachestack.Base.{ℕ, ◌≡◌, refl, List, [], ◌∷◌, Option, none, some}
use cachestack.Text.Decimal.{ℤ}
use cachestack.Command.{Bytes}
use cachestack.Store.Methods.{lpush, rpush, lrange, sadd, zadd, zrange}
use cachestack.Store.Calls.{do_lpush, do_rpush, do_lpop, do_sadd, do_zadd, call}
use cachestack.Store.Refines.{call_holds}
use cachestack.Store.Ranges.{lrange_lem, zrange_lem}
use cachestack.Dispatch.Good.{IsGood, IsSafe, returns, called, pushed-IsSafe, shown-IsSafe}
use cachestack.Dispatch.Wire.{Host, Session}
use cachestack.Dispatch.Handlers.{
  lpush_command, rpush_command, lpop_command, lrange_command, range_of, scored, sadd_command,
  smembers_command, zadd_command, zrange_command, publish_command,
}

module _ {Float : Type 0} where
  module _ {limit : ℕ} where
    range_of-IsSafe :
        (H : Host Float) (f : ℤ → ℤ → Option (List Bytes)) (a b : Option ℤ) (s : Session Float)
        → IsGood limit s.server.store
        → ((i j : ℤ) → (xs : List Bytes) × (f i j ≡ some xs))
        → IsSafe limit (range_of H f a b s)
    range_of-IsSafe H f (some i) (some j) s g h = shown-IsSafe s (f i j) g (h i j).1
    range_of-IsSafe H f none b s g h = returns _ s g
    range_of-IsSafe H f (some i) none s g h = returns _ s g

    module _ (H : Host Float) (now : ℕ) (name : Bytes) where
      pub lpush_command-IsSafe :
          (args : List Bytes) (s : Session Float)
          → IsGood limit s.server.store
          → IsSafe limit (lpush_command H now name args s)
      unfolding lpush_command call
      lpush_command-IsSafe [] s g = returns _ s g
      lpush_command-IsSafe (key ∷ []) s g = returns _ s g
      lpush_command-IsSafe (key ∷ v ∷ vs) s g =
          pushed-IsSafe _ (key ∷ v ∷ vs) s (lpush now key (v ∷ vs) s.server.store)
            (call_holds now (do_lpush key (v ∷ vs)) s.server.store g.holds)

      pub rpush_command-IsSafe :
          (args : List Bytes) (s : Session Float)
          → IsGood limit s.server.store
          → IsSafe limit (rpush_command H now name args s)
      unfolding rpush_command call
      rpush_command-IsSafe [] s g = returns _ s g
      rpush_command-IsSafe (key ∷ []) s g = returns _ s g
      rpush_command-IsSafe (key ∷ v ∷ vs) s g =
          pushed-IsSafe _ (key ∷ v ∷ vs) s (rpush now key (v ∷ vs) s.server.store)
            (call_holds now (do_rpush key (v ∷ vs)) s.server.store g.holds)

      pub sadd_command-IsSafe :
          (args : List Bytes) (s : Session Float)
          → IsGood limit s.server.store
          → IsSafe limit (sadd_command H now name args s)
      unfolding sadd_command call
      sadd_command-IsSafe [] s g = returns _ s g
      sadd_command-IsSafe (key ∷ []) s g = returns _ s g
      sadd_command-IsSafe (key ∷ v ∷ vs) s g =
          pushed-IsSafe _ (key ∷ v ∷ vs) s (sadd now key (v ∷ vs) s.server.store)
            (call_holds now (do_sadd key (v ∷ vs)) s.server.store g.holds)

      pub lpop_command-IsSafe :
          (args : List Bytes) (s : Session Float)
          → IsGood limit s.server.store
          → IsSafe limit (lpop_command H now name args s)
      unfolding lpop_command call
      lpop_command-IsSafe [] s g = returns _ s g
      lpop_command-IsSafe (key ∷ more) s g =
          returns _ _ (called now (do_lpop key) s.server.store _ g refl)

      pub zadd_command-IsSafe :
          (args : List Bytes) (s : Session Float)
          → IsGood limit s.server.store
          → IsSafe limit (zadd_command H now name args s)
      unfolding zadd_command call
      zadd_command-IsSafe [] s g = returns _ s g
      zadd_command-IsSafe (key ∷ []) s g = returns _ s g
      zadd_command-IsSafe (key ∷ score ∷ []) s g = returns _ s g
      zadd_command-IsSafe (key ∷ score ∷ m ∷ more) s g = scored_as (H.score.parse_float score)
        where
          scored_as :
              (o : Option Float) → IsSafe limit (scored H now key m (key ∷ score ∷ m ∷ more) o s)
          scored_as none = returns _ s g
          scored_as (some x) =
              pushed-IsSafe _ (key ∷ score ∷ m ∷ more) s (zadd now key x m s.server.store)
                (call_holds now (do_zadd key x m) s.server.store g.holds)

      pub lrange_command-IsSafe :
          (args : List Bytes) (s : Session Float)
          → IsGood limit s.server.store
          → IsSafe limit (lrange_command H name args s)
      unfolding lrange_command
      lrange_command-IsSafe [] s g = returns _ s g
      lrange_command-IsSafe (key ∷ []) s g = returns _ s g
      lrange_command-IsSafe (key ∷ a ∷ []) s g = returns _ s g
      lrange_command-IsSafe (key ∷ a ∷ b ∷ more) s g =
          range_of-IsSafe H (λ i j. lrange key i j s.server.store) (H.atoi a) (H.atoi b) s g
            (λ i j. (_, lrange_lem key i j s.server.store))

      pub zrange_command-IsSafe :
          (args : List Bytes) (s : Session Float)
          → IsGood limit s.server.store
          → IsSafe limit (zrange_command H name args s)
      unfolding zrange_command
      zrange_command-IsSafe [] s g = returns _ s g
      zrange_command-IsSafe (key ∷ []) s g = returns _ s g
      zrange_command-IsSafe (key ∷ a ∷ []) s g = returns _ s g
      zrange_command-IsSafe (key ∷ a ∷ b ∷ more) s g =
          range_of-IsSafe H (λ i j. zrange H.score.less H.score_order key i j s.server.store)
            (H.atoi a) (H.atoi b) s g
            (λ i j. (_, zrange_lem H.score.less H.score_order key i j s.server.store))

      pub smembers_command-IsSafe :
          (args : List Bytes) (s : Session Float)
          → IsGood limit s.server.store
          → IsSafe limit (smembers_command H name args s)
      unfolding smembers_command
      smembers_command-IsSafe [] s g = returns _ s g
      smembers_command-IsSafe (key ∷ more) s g = returns _ s g

      pub publish_command-IsSafe :
          (args : List Bytes) (s : Session Float)
          → IsGood limit s.server.store
          → IsSafe limit (publish_command H name args s)
      unfolding publish_command
      publish_command-IsSafe [] s g = returns _ s g
      publish_command-IsSafe (ch ∷ []) s g = returns _ s g
      publish_command-IsSafe (ch ∷ payload ∷ more) s g = returns _ _ g
