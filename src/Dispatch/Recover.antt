-- ===== src/Dispatch/Recover.antt =====
-- A start against the run whose log it reads.
use cachestack.Base.{
  ℕ, ◌≤◌, ◌<◌, ◌≡◌, ◌∙◌, refl, ap, sym, subst, Bool, false, List, [], ◌∷◌, some, All, length, arith,
}
use cachestack.Command.{Bytes, Command}
use cachestack.Store.Pairs.{recent}
use cachestack.Store.Refines.{new_store-Holds}
use cachestack.Log.{Aof, IsWriter, opened, append, flush}
use cachestack.Log.Replay.{IsTrim, IsRecorded, recorded, written, flush-recorded}
use cachestack.Dispatch.Wire.{Host, Server}
use cachestack.Dispatch.Restart.{fresh, ended, start, read_on}
use cachestack.Dispatch.Changes.{IsChange}
use cachestack.Dispatch.Runs.{commands_of, execute_at, execute_at-Runs, left_at, left_by-left_at}
use cachestack.Dispatch.Reread.{ReadsTo, read_on-ReadsTo}

length-commands_of : (todo : List (ℕ × Command)) → length (commands_of todo) ≡ length todo
length-commands_of [] = refl
length-commands_of (p ∷ todo) = omega (arith, length-commands_of todo)

module _ {Float : Type 0} (H : Host Float) (now : ℕ) (trim_space : Bytes → Bytes) (ticks : ℕ → Bool)
    (writer : Bytes → Bytes → ℕ) where
  -- The log of commands, closed.
  abbrev pub log_of : List Command → Aof
  log_of cs = flush (recorded cs (opened writer))

  pub kept_writer : (cs : List Command) (a : Aof) → (recorded cs a).writer ≡ a.writer
  unfolding recorded append
  kept_writer [] a = refl
  kept_writer (c ∷ cs) a = kept_writer cs _

  -- A start from the log of changes that is no longer than the buffer ends, when no periodic flush comes.
  pub start-ReadsTo :
      (limit fuel : ℕ) (cs : List Command) (h : All IsChange cs)
      → IsTrim trim_space
      → IsWriter writer
      → ((i : ℕ) → ticks i ≡ false)
      → All (IsRecorded H.letter_case) cs
      → length (log_of cs).file ≤ 65536
      → length cs < fuel
      → ReadsTo limit
          (left_at limit now cs h [])
          (recorded cs (log_of cs))
          (start H now trim_space ticks fuel limit (log_of cs))
  unfolding start flush
  start-ReadsTo limit fuel cs h trims w quiet recs short enough =
      let a : Aof = log_of cs in
      let same : a.file ≡ written cs = flush-recorded cs (opened writer) in
      subst
        (λ f.
          ReadsTo limit (left_at limit now cs h []) (recorded cs a)
            (read_on H now trim_space ticks fuel 0 f (fresh limit a)))
        (sym same)
        (read_on-ReadsTo H now trim_space ticks trims fuel 0 cs h [] (fresh limit a) recs
          (new_store-Holds limit) enough (subst IsWriter (sym (kept_writer cs (opened writer))) w)
          (omega (arith, short, ap length same)) quiet)

  -- A new server executes SETs without EX, DELs, LPUSHes, RPUSHes, SADDs and FLUSHALLs, whose words and
  -- lines are as a replay reads them back, at whatever times; then it ends, and its buffer is flushed.
  -- A start from the file at any later or earlier time, under the same limit, ends in a store with the
  -- same keys, values and times of expiry in the same order of use, given fuel for every command; if the
  -- file is no longer than 64 KB and no periodic flush comes during the replay, if the writer's buffer has
  -- 64 KB, and if TrimSpace leaves ASCII text that neither begins nor ends with white space.
  pub start-execute_at :
      (limit fuel : ℕ) (todo : List (ℕ × Command))
      → IsTrim trim_space
      → IsWriter writer
      → ((i : ℕ) → ticks i ≡ false)
      → All (IsRecorded H.letter_case) (commands_of todo)
      → All IsChange (commands_of todo)
      → length (log_of (commands_of todo)).file ≤ 65536
      → length todo < fuel
      → (v : Server Float) × (execute_at H todo (fresh limit (opened writer)) ≡ some v)
        × (w : Server Float) × (start H now trim_space ticks fuel limit (flush v.aof) ≡ ended w)
        × (recent w.store ≡ recent v.store)
  start-execute_at limit fuel todo trims w quiet recs h short enough =
      let cs = commands_of todo in
      let run = execute_at-Runs H todo h [] (fresh limit (opened writer)) (new_store-Holds limit) in
      let again =
        start-ReadsTo limit fuel cs h trims w quiet recs short
          (omega (arith, enough, length-commands_of todo)) in
      (
        run.last,
        run.ended,
        again.last,
        ap (λ a. start H now trim_space ticks fuel limit (flush a)) run.log ∙ again.done,
        again.holds.order ∙ sym (left_by-left_at limit now todo h [] tt) ∙ sym run.holds.order,
      )
