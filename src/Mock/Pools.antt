-- ===== src/Mock/Pools.antt =====
-- What the generators of the offline mode make, whatever is drawn.
use cachestack.Base.{
  In, All-In, get_elem?_total, ℕ, zero, suc, ◌<◌, ◌≡◌, refl, List, [], ◌∷◌, length, some, get_elem?,
  All, ap, arith, ◌⊎◌, inl, inr,
}
use cachestack.Text.{Text, text}
use cachestack.Number.{Number}
use cachestack.Types.{LogEntry, PubSubMessage}
use cachestack.Mock.{
  Pool, cmd_pool, pubsub_payloads, Chance, gen_log_entry, choose_channel, log_line, message,
  gen_pub_sub_msg, seed_log_entries,
}

cmd_pool-keys : All (λ p. 0 < length p.keys) cmd_pool
cmd_pool-keys = omega arith

module _ (N : Number) where
  open N use {Float, Draw, pick, pick-lt}

  pick_total {ℓ} :
      {A : Type ℓ} (d : Draw) (xs : List A)
      → 0 < length xs
      → (x : A) × (get_elem? xs (pick d (length xs)) ≡ some x) × In x xs
  pick_total d xs h = get_elem?_total xs (pick d (length xs)) (pick-lt d (length xs) h)

  -- Whatever is drawn, a log line is made, of a command of the pool and one of that command's keys.
  pub gen_log_entry_total :
      (c : Chance Draw)
      → (e : LogEntry Float) × (pool : Pool) × (gen_log_entry N c ≡ some e)
        × In pool cmd_pool
        × (e.cmd ≡ pool.cmd)
        × In e.key pool.keys
  unfolding gen_log_entry
  gen_log_entry_total c =
      let (pool, e, m) = pick_total c.first cmd_pool (omega arith) in
      let (key, e', m') =
        pick_total c.second pool.keys
          (All-In (λ p. 0 < length p.keys) pool cmd_pool cmd_pool-keys m) in
      (log_line N pool key c, pool, rw (e, e') refl, m, refl, m')

  -- Whatever is drawn, a message is made, and its channel is one that is subscribed, or "global" if
  -- there is none.
  pub gen_pub_sub_msg_total :
      (channels : List Text) (c : Chance Draw)
      → (m : PubSubMessage Float) × (gen_pub_sub_msg N channels c ≡ some m)
        × (In m.channel channels ⊎ ((channels ≡ []) × (m.channel ≡ text "global")))
        × In m.body pubsub_payloads
  unfolding gen_pub_sub_msg choose_channel
  gen_pub_sub_msg_total [] c =
      let (body, e, m) = pick_total c.second pubsub_payloads (omega arith) in
      (message N (text "global") body c, rw e refl, inr (refl, refl), m)
  gen_pub_sub_msg_total (ch ∷ chs) c =
      let (body, e, m) = pick_total c.second pubsub_payloads (omega arith) in
      let (chosen, e', m') = pick_total c.first (ch ∷ chs) (omega arith) in
      (message N chosen body c, rw (e', e) refl, inl m', m)

  -- `n` lines are seeded, whatever is drawn.
  pub seed_log_entries_total :
      (n : ℕ) (cs : ℕ → Chance Draw)
      → (es : List (LogEntry Float)) × (seed_log_entries N n cs ≡ some es) × (length es ≡ n)
  unfolding seed_log_entries
  seed_log_entries_total zero cs = ([], refl, refl)
  seed_log_entries_total (suc n) cs =
      let (e, pool, made, _, _, _) = gen_log_entry_total (cs zero) in
      let (es, rest, len) = seed_log_entries_total n (λ i. cs (suc i)) in
      (e ∷ es, rw (made, rest) refl, ap suc len)
