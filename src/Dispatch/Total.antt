-- ===== src/Dispatch/Total.antt =====
-- The dispatch over a store in order.
use cachestack.Base.{ℕ, Bool}
use cachestack.Text.{text, text_eq}
use cachestack.Command.{Bytes, Command}
use cachestack.Dispatch.{dispatch}
use cachestack.Dispatch.Wire.{Host, Session}
use cachestack.Dispatch.Handlers.{db_size, keys_command, info}
use cachestack.Dispatch.Good.{IsGood, IsSafe, returns, either}
use cachestack.Dispatch.Safe.{
  del_command-IsSafe, echo-IsSafe, exists_command-IsSafe, expire_command-IsSafe,
  flush_command-IsSafe, get_command-IsSafe, ping-IsSafe, set_command-IsSafe,
  subscribe_command-IsSafe, ttl_command-IsSafe, unsubscribe_command-IsSafe,
}
use cachestack.Dispatch.Lists.{
  lpop_command-IsSafe, lpush_command-IsSafe, lrange_command-IsSafe, publish_command-IsSafe,
  rpush_command-IsSafe, sadd_command-IsSafe, smembers_command-IsSafe, zadd_command-IsSafe,
  zrange_command-IsSafe,
}

module _ {Float : Type 0} (H : Host Float) (now : ℕ) where
  -- If the map and the LRU list of the store hold the same keys, each once and no more than the limit,
  -- then no command panics, whatever its name and its arguments: it is answered, and leaves the store
  -- like that.
  pub dispatch-IsSafe :
      {limit : ℕ} (c : Command) (s : Session Float)
      → IsGood limit s.server.store
      → IsSafe limit (dispatch H now c s)
  unfolding dispatch db_size keys_command info
  dispatch-IsSafe c s g =
      let is : Bytes → Bool = text_eq c.name in
      either (is (text "PING")) (ping-IsSafe c.args s g) (
        either (is (text "ECHO")) (echo-IsSafe H now c.name c.args s g) (
          either (is (text "DBSIZE")) (returns _ s g) (
            either (is (text "KEYS")) (returns _ s g) (
              either (is (text "INFO")) (returns _ s g) (
                either (is (text "FLUSHALL")) (flush_command-IsSafe s g) (
                  either (is (text "SET")) (set_command-IsSafe H now c.name c.args s g) (
                    either (is (text "GET")) (get_command-IsSafe H now c.name c.args s g) (
                      either (is (text "DEL")) (del_command-IsSafe H now c.name c.args s g) (
                        either (is (text "EXISTS")) (exists_command-IsSafe H now c.name c.args s g)
                          (either (is (text "EXPIRE"))
                            (expire_command-IsSafe H now c.name c.args s g)
                            (either (is (text "TTL")) (ttl_command-IsSafe H now c.name c.args s g) (
                              either (is (text "LPUSH"))
                                (lpush_command-IsSafe H now c.name c.args s g)
                                (either (is (text "RPUSH"))
                                  (rpush_command-IsSafe H now c.name c.args s g)
                                  (either (is (text "LPOP"))
                                    (lpop_command-IsSafe H now c.name c.args s g)
                                    (either (is (text "LRANGE"))
                                      (lrange_command-IsSafe H now c.name c.args s g)
                                      (either (is (text "SADD"))
                                        (sadd_command-IsSafe H now c.name c.args s g)
                                        (either (is (text "SMEMBERS"))
                                          (smembers_command-IsSafe H now c.name c.args s g)
                                          (either (is (text "ZADD"))
                                            (zadd_command-IsSafe H now c.name c.args s g)
                                            (either (is (text "ZRANGE"))
                                              (zrange_command-IsSafe H now c.name c.args s g)
                                              (either (is (text "SUBSCRIBE"))
                                                (subscribe_command-IsSafe H c.name c.args s g)
                                                (either (is (text "UNSUBSCRIBE"))
                                                  (unsubscribe_command-IsSafe c.args s g)
                                                  (either (is (text "PUBLISH"))
                                                    (publish_command-IsSafe H now c.name c.args s g)
                                                    (returns _ _ g)))))))))))))))))))))))
