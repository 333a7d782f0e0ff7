-- ===== src/Mock.antt =====
-- frontend/src/api/mock.ts: the seed data and the generators of the offline mode. Each call of
-- `Math.random()` is a `Draw`; `now` is `Date.now()` and `clock` is `new Date().toTimeString()`.
-- An index outside its array is `undefined` in the source, so the generators return options.
pub mod Pools
use cachestack.Base.{ℕ, zero, suc, List, [], ◌∷◌, take, length, Option, none, some, get_elem?}
use cachestack.Text.{Text, text}
use cachestack.Number.{Number}
use cachestack.Types.{KeyEntry, string, hash, list, set, zset, LogEntry, PubSubMessage}

abbrev pub initial_keys : List KeyEntry
initial_keys =
    record {
      id = 1;
      key = text "user:101";
      type = string;
      ttl = text "20s";
      size = text "1.2M";
      value =
          text
            "{\"id\":101,\"name\":\"Arjun Mehra\",\"email\":\"arjun@example.com\",\"plan\":\"pro\"}";
    }
    ∷ record {
      id = 2;
      key = text "config:app";
      type = hash;
      ttl = text "∞";
      size = text "20 MB";
      value = text "{\"theme\":\"dark\",\"lang\":\"en\",\"debug\":false,\"version\":\"3.1.2\"}";
    }
    ∷ record {
      id = 3;
      key = text "session:9aFb";
      type = hash;
      ttl = text "21s";
      size = text "3.5K";
      value =
          text "{\"uid\":202,\"token\":\"x7kP2mNqRs\",\"ip\":\"10.0.0.42\",\"ua\":\"Mozilla/5.0\"}";
    }
    ∷ record {
      id = 4;
      key = text "queue:jobs";
      type = list;
      ttl = text "∞";
      size = text "840B";
      value = text "[\"job_1001\",\"job_1002\",\"job_1003\",\"job_1004\"]";
    }
    ∷ record {
      id = 5;
      key = text "cache:products";
      type = string;
      ttl = text "300s";
      size = text "98K";
      value =
          text
            "[{\"id\":1,\"name\":\"Laptop\",\"price\":1299},{\"id\":2,\"name\":\"Phone\",\"price\":799}]";
    }
    ∷ record {
      id = 6;
      key = text "rate:192.168.1.1";
      type = string;
      ttl = text "60s";
      size = text "8B";
      value = text "42";
    }
    ∷ record {
      id = 7;
      key = text "leaderboard";
      type = zset;
      ttl = text "∞";
      size = text "5.1K";
      value = text "{\"scores\":{\"player_a\":9800,\"player_b\":8420,\"player_c\":7100}}";
    }
    ∷ record {
      id = 8;
      key = text "tags:popular";
      type = set;
      ttl = text "∞";
      size = text "280B";
      value = text "[\"redis\",\"cache\",\"performance\",\"nosql\",\"realtime\"]";
    }
    ∷ record {
      id = 9;
      key = text "stats:daily";
      type = hash;
      ttl = text "86400s";
      size = text "1.2K";
      value = text "{\"requests\":184232,\"errors\":12,\"p99_ms\":45,\"uptime_pct\":99.98}";
    }
    ∷ record {
      id = 10;
      key = text "pubsub:events";
      type = string;
      ttl = text "∞";
      size = text "256B";
      value = text "{\"last_event\":\"user_login\",\"subscribers\":14}";
    }
    ∷ record {
      id = 11;
      key = text "auth:token:xK9m";
      type = string;
      ttl = text "3600s";
      size = text "128B";
      value = text "eyJhbGciOiJIUzI1NiIsInR5cCI6IkpXVCJ9.eyJ1c2VyX2lkIjo1OH0.demotoken";
    }
    ∷ record {
      id = 12;
      key = text "geo:stores";
      type = zset;
      ttl = text "∞";
      size = text "2.8K";
      value =
          text "{\"Delhi\":{\"lat\":28.61,\"lon\":77.20},\"Mumbai\":{\"lat\":19.07,\"lon\":72.87}}";
    }
    ∷ []

-- A row of `CMD_POOL`; `lat` is `(Math.random() * scale + base).toFixed(2)`, its two decimal
-- literals as fractions.
pub record Pool : Type 0 where
  pub cmd : Text
  pub keys : List Text
  pub scale : ℕ × ℕ
  pub base : ℕ × ℕ

abbrev pub cmd_pool : List Pool
cmd_pool =
    record {
      cmd = text "SET";
      keys = text "user:101" ∷ text "cache:products" ∷ text "rate:192.168.1.1" ∷ [];
      scale = (4, 10);
      base = (1, 10);
    }
    ∷ record {
      cmd = text "GET";
      keys = text "session:9aFb" ∷ text "config:app" ∷ text "stats:daily" ∷ [];
      scale = (2, 10);
      base = (5, 100);
    }
    ∷ record {
      cmd = text "DEL";
      keys = text "cache:old" ∷ text "session:expired" ∷ [];
      scale = (15, 100);
      base = (5, 100);
    }
    ∷ record {
      cmd = text "HSET";
      keys = text "config:app" ∷ text "stats:daily" ∷ [];
      scale = (3, 10);
      base = (1, 10);
    }
    ∷ record {
      cmd = text "LPUSH";
      keys = text "queue:jobs" ∷ text "queue:emails" ∷ [];
      scale = (25, 100);
      base = (8, 100);
    }
    ∷ record {
      cmd = text "SUBSCRIBE";
      keys = text "events_core" ∷ text "notifications" ∷ [];
      scale = (1, 10);
      base = (2, 100);
    }
    ∷ []

abbrev pub pubsub_payloads : List Text
pubsub_payloads =
    text "{\"type\":\"user_login\",\"uid\":101,\"ts\":1710850571}"
    ∷ text "{\"type\":\"cluster_health\",\"status\":\"ok\",\"nodes\":3}"
    ∷ text "{\"event\":\"payment\",\"amount\":299,\"currency\":\"INR\"}"
    ∷ text "{\"alert\":\"high_mem\",\"pct\":87,\"instance\":\"instance_01\"}"
    ∷ text "{\"type\":\"session_expire\",\"session_id\":\"9aFb\"}"
    ∷ text "{\"action\":\"cache_miss\",\"key\":\"products:v2\",\"latency_ms\":12}"
    ∷ text "{\"type\":\"rate_limit\",\"ip\":\"10.0.2.1\",\"hits\":142}"
    ∷ text "{\"event\":\"job_complete\",\"job_id\":\"job_1001\",\"duration_ms\":234}"
    ∷ []

abbrev pub all_channels : List Text
all_channels =
    text "events_core" ∷ text "notifications" ∷ text "alerts" ∷ text "global" ∷ text "system" ∷ []

unfoldable pub now_time : Text → Text
now_time clock = take 8 clock

infixl 5 ◌>>=◌
abbrev ◌>>=◌ {ℓ κ} : {A : Type ℓ} {B : Type κ} → Option A → (A → Option B) → Option B
none >>= k = none
some a >>= k = k a

-- What one call of a generator draws and reads.
pub record Chance (Draw : Type 0) : Type 0 where
  pub first : Draw
  pub second : Draw
  pub for_id : Draw
  pub for_latency : Draw
  pub now : ℕ
  pub clock : Text

module _ (N : Number) where
  open N use {Float, of_ℕ, lit, add, mul, show_fixed2, Draw, random, pick}

  -- `Date.now() + Math.random()`
  unfoldable pub fresh_id : Chance Draw → Float
  fresh_id c = add (of_ℕ c.now) (random c.for_id)

  -- `pool.lat()`
  unfoldable pub latency : Pool → Draw → Text
  latency pool d =
      show_fixed2
        (add (mul (random d) (lit pool.scale.0 pool.scale.1)) (lit pool.base.0 pool.base.1))

  abbrev pub log_line : Pool → Text → Chance Draw → LogEntry Float
  log_line pool key c = record {
    id = fresh_id c;
    cmd = pool.cmd;
    key = key;
    latency = latency pool c.for_latency;
    ts = now_time c.clock;
  }

  unfoldable pub gen_log_entry : Chance Draw → Option (LogEntry Float)
  gen_log_entry c = do
    pool ← get_elem? cmd_pool (pick c.first (length cmd_pool))
    key ← get_elem? pool.keys (pick c.second (length pool.keys))
    some (log_line pool key c)

  unfoldable pub choose_channel : List Text → Draw → Option Text
  choose_channel [] d = some (text "global")
  choose_channel (ch ∷ chs) d = get_elem? (ch ∷ chs) (pick d (length (ch ∷ chs)))

  abbrev pub message : Text → Text → Chance Draw → PubSubMessage Float
  message ch body c = record { id = fresh_id c; channel = ch; body = body; ts = now_time c.clock }

  unfoldable pub gen_pub_sub_msg : List Text → Chance Draw → Option (PubSubMessage Float)
  unfolding choose_channel
  gen_pub_sub_msg channels c = do
    ch ← choose_channel channels c.first
    body ← get_elem? pubsub_payloads (pick c.second (length pubsub_payloads))
    some (message ch body c)

  -- `Array.from({ length: n }, () => genLogEntry())`, with the chances of the `n` calls.
  unfoldable pub seed_log_entries : ℕ → (ℕ → Chance Draw) → Option (List (LogEntry Float))
  unfolding gen_log_entry
  seed_log_entries zero cs = some []
  seed_log_entries (suc n) cs = do
    entry ← gen_log_entry (cs zero)
    rest ← seed_log_entries n (λ i. cs (suc i))
    some (entry ∷ rest)
