-- ===== src/Dispatch/Relog.antt =====
-- What a start writes to the log.
use cachestack.Base.{ℕ, Bool, ◌≤◌, ◌<◌, ◌≡◌, ◌∙◌, ap, sym, false, List, ◌++◌, All, length}
use mathlib.Core.List.{append-nil}
use cachestack.Command.{Bytes, Command}
use cachestack.Log.{IsWriter, opened, flush}
use cachestack.Log.Replay.{IsTrim, IsRecorded, written, flush-recorded}
use cachestack.Dispatch.Wire.{Host, Server}
use cachestack.Dispatch.Restart.{ended, start}
use cachestack.Dispatch.Changes.{IsChange}
use cachestack.Dispatch.Recover.{log_of, start-ReadsTo}

module _ {Float : Type 0} (H : Host Float) (now : ℕ) (trim_space : Bytes → Bytes) (ticks : ℕ → Bool)
    (writer : Bytes → Bytes → ℕ) where
  -- A start whose file holds SETs without EX, DELs, LPUSHes, RPUSHes, SADDs and FLUSHALLs, whose words
  -- and lines are as a replay reads them back, ends, given fuel for every command; and when its buffer is
  -- flushed, the file holds every one of them twice; if the file is no longer than 64 KB and no periodic
  -- flush comes during the replay, if the writer's buffer has 64 KB, and if TrimSpace leaves ASCII text
  -- that neither begins nor ends with white space.
  pub start-aof :
      (limit fuel : ℕ) (cs : List Command)
      → IsTrim trim_space
      → IsWriter writer
      → ((i : ℕ) → ticks i ≡ false)
      → All (IsRecorded H.letter_case) cs
      → All IsChange cs
      → length (log_of H now trim_space ticks writer cs).file ≤ 65536
      → length cs < fuel
      → (let a = log_of H now trim_space ticks writer cs in
          (w : Server Float) × (start H now trim_space ticks fuel limit a ≡ ended w)
          × ((flush w.aof).file ≡ a.file ++ a.file))
  unfolding flush
  start-aof limit fuel cs trims w quiet recs h short enough =
      let a = log_of H now trim_space ticks writer cs in
      let again =
        start-ReadsTo H now trim_space ticks writer limit fuel cs h trims w quiet recs short
          enough in
      let once : a.file ≡ written cs = flush-recorded cs (opened writer) in
      (
        again.last,
        again.done,
        ap (λ l. (flush l).file) again.log
            ∙ flush-recorded cs a
            ∙ ap (λ f. f ++ written cs) (append-nil a.file)
            ∙ ap (λ f. a.file ++ f) (sym once),
      )
