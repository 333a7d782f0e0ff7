-- ===== src/Dispatch/Safe.antt =====
-- The handlers of the commands, one by one, over stores in order.
use cachestack.Base.{ℕ, ◌≡◌, ◌∙◌, refl, sym, subst, List, [], ◌∷◌, Option, none, some}
use cachestack.Text.{text, text_eq}
use cachestack.Text.Decimal.{ℤ}
use cachestack.Command.{Bytes}
use cachestack.Store.{Store, lookup, set_string}
use cachestack.Store.Values.{duration}
use cachestack.Store.Methods.{flush_all}
use cachestack.Store.Calls.{do_set, do_get, do_exists, do_del, do_expire, do_flush, call}
use cachestack.Dispatch.Good.{IsGood, IsSafe, returns, either, called}
use cachestack.Dispatch.Wire.{Host, Session, with_store}
use cachestack.Dispatch.Handlers.{
  logged, ping, echo, flush_command, set_command, option_of, expiring, expired, get_command,
  del_command, exists_each, exists_command, expire_command, ttl_command, subscribe_command,
  unsubscribe_command, enter, enter_each, leave, leave_each,
}

module _ {Float : Type 0} where
  -- The channels are not in the store.
  enter_each-store :
      (chs : List Bytes) (s : Session Float) → (enter_each chs s).server.store ≡ s.server.store
  unfolding enter_each
  enter_each-store [] s = refl
  enter_each-store (ch ∷ chs) s =
      enter_each-store chs (enter ch (lookup ch s.client_subs) s) ∙ one (lookup ch s.client_subs)
    where
      one : (o : Option ℕ) → (enter ch o s).server.store ≡ s.server.store
      one none = refl
      one (some _) = refl

  leave_each-store :
      (chs : List Bytes) (s : Session Float) → (leave_each chs s).server.store ≡ s.server.store
  unfolding leave_each
  leave_each-store [] s = refl
  leave_each-store (ch ∷ chs) s =
      leave_each-store chs (leave ch (lookup ch s.client_subs) s) ∙ one (lookup ch s.client_subs)
    where
      one : (o : Option ℕ) → (leave ch o s).server.store ≡ s.server.store
      one none = refl
      one (some _) = refl

  module _ {limit : ℕ} where
    pub ping-IsSafe :
        (args : List Bytes) (s : Session Float)
        → IsGood limit s.server.store
        → IsSafe limit (ping args s)
    unfolding ping
    ping-IsSafe [] s g = returns _ s g
    ping-IsSafe (a ∷ args) s g = returns _ s g

    pub flush_command-IsSafe :
        (s : Session Float) → IsGood limit s.server.store → IsSafe limit (flush_command s)
    unfolding flush_command call
    flush_command-IsSafe s g =
        returns _ (logged (text "FLUSHALL") [] (with_store (flush_all s.server.store) s))
          (called 0 do_flush s.server.store _ g refl)

    pub subscribe_command-IsSafe :
        (H : Host Float) (name : Bytes) (args : List Bytes) (s : Session Float)
        → IsGood limit s.server.store
        → IsSafe limit (subscribe_command H name args s)
    unfolding subscribe_command
    subscribe_command-IsSafe H name [] s g = returns _ s g
    subscribe_command-IsSafe H name (ch ∷ chs) s g =
        returns _ (enter_each (ch ∷ chs) s)
          (subst (IsGood limit) (sym (enter_each-store (ch ∷ chs) s)) g)

    pub unsubscribe_command-IsSafe :
        (chs : List Bytes) (s : Session Float)
        → IsGood limit s.server.store
        → IsSafe limit (unsubscribe_command chs s)
    unfolding unsubscribe_command
    unsubscribe_command-IsSafe chs s g =
        returns _ (leave_each chs s) (subst (IsGood limit) (sym (leave_each-store chs s)) g)

    exists_each-IsGood :
        (now : ℕ) (H : Host Float) (keys : List Bytes) (r : ℕ × Store Float)
        → IsGood limit r.1
        → IsGood limit (exists_each H now keys r).1
    unfolding exists_each call
    exists_each-IsGood now H [] r g = g
    exists_each-IsGood now H (key ∷ keys) (n, t) g =
        exists_each-IsGood now H keys _ (called now (do_exists key) t _ g refl)

    module _ (H : Host Float) (now : ℕ) (name : Bytes) where
      pub set_command-IsSafe :
          (args : List Bytes) (s : Session Float)
          → IsGood limit s.server.store
          → IsSafe limit (set_command H now name args s)
      unfolding set_command call
      set_command-IsSafe [] s g = returns _ s g
      set_command-IsSafe (key ∷ []) s g = returns _ s g
      set_command-IsSafe (key ∷ val ∷ more) s g =
          option more (with_store (set_string key val s.server.store) s)
            (called now (do_set key val) s.server.store _ g refl)
        where
          all : List Bytes
          all = key ∷ val ∷ more

          asked :
              (o : Option ℤ) (t : Session Float)
              → IsGood limit t.server.store
              → IsSafe limit (expiring H now key all o t)
          asked none t g = returns _ t g
          asked (some secs) t g =
              returns _ _ (called now (do_expire key (duration secs)) t.server.store _ g refl)

          option :
              (rest : List Bytes) (t : Session Float)
              → IsGood limit t.server.store
              → IsSafe limit (option_of H now key all rest t)
          option [] t g = returns _ (logged (text "SET") all t) g
          option (word ∷ []) t g = returns _ (logged (text "SET") all t) g
          option (word ∷ secs ∷ rest) t g =
              either (text_eq (H.letter_case.upper word) (text "EX")) (asked (H.atoi secs) t g)
                (returns _ (logged (text "SET") all t) g)

      pub get_command-IsSafe :
          (args : List Bytes) (s : Session Float)
          → IsGood limit s.server.store
          → IsSafe limit (get_command H now name args s)
      unfolding get_command call
      get_command-IsSafe [] s g = returns _ s g
      get_command-IsSafe (key ∷ more) s g =
          returns _ _ (called now (do_get key) s.server.store _ g refl)

      pub del_command-IsSafe :
          (args : List Bytes) (s : Session Float)
          → IsGood limit s.server.store
          → IsSafe limit (del_command H name args s)
      unfolding del_command call
      del_command-IsSafe [] s g = returns _ s g
      del_command-IsSafe (key ∷ more) s g =
          returns _ _ (called now (do_del (key ∷ more)) s.server.store _ g refl)

      pub exists_command-IsSafe :
          (args : List Bytes) (s : Session Float)
          → IsGood limit s.server.store
          → IsSafe limit (exists_command H now name args s)
      unfolding exists_command
      exists_command-IsSafe [] s g = returns _ s g
      exists_command-IsSafe (key ∷ more) s g =
          returns _ _ (exists_each-IsGood now H (key ∷ more) (0, s.server.store) g)

      pub expire_command-IsSafe :
          (args : List Bytes) (s : Session Float)
          → IsGood limit s.server.store
          → IsSafe limit (expire_command H now name args s)
      unfolding expire_command call
      expire_command-IsSafe [] s g = returns _ s g
      expire_command-IsSafe (key ∷ []) s g = returns _ s g
      expire_command-IsSafe (key ∷ secs ∷ more) s g = asked (H.atoi secs)
        where
          asked : (o : Option ℤ) → IsSafe limit (expired H now key (key ∷ secs ∷ more) o s)
          asked none = returns _ s g
          asked (some n) =
              returns _ _ (called now (do_expire key (duration n)) s.server.store _ g refl)

      pub ttl_command-IsSafe :
          (args : List Bytes) (s : Session Float)
          → IsGood limit s.server.store
          → IsSafe limit (ttl_command H now name args s)
      unfolding ttl_command
      ttl_command-IsSafe [] s g = returns _ s g
      ttl_command-IsSafe (key ∷ more) s g = returns _ s g

      pub echo-IsSafe :
          (args : List Bytes) (s : Session Float)
          → IsGood limit s.server.store
          → IsSafe limit (echo H name args s)
      unfolding echo
      echo-IsSafe [] s g = returns _ s g
      echo-IsSafe (a ∷ more) s g = returns _ s g
