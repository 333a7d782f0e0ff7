-- ===== src/Dispatch/Reread.antt =====
-- A replay that reads the log while it logs what it reads.
use cachestack.Base.{
  ℕ, zero, suc, ◌+◌, ◌≤◌, ◌<◌, ◌≡◌, ◌∙◌, refl, ap, sym, subst, List, [], ◌∷◌, ◌++◌, some, All, Bool,
  length-append, true, false, length, drop, arith,
}
use mathlib.Core.List.{append_assoc, append-nil}
use cachestack.Text.{text, is_empty}
use cachestack.Command.{Bytes, Command}
use cachestack.Store.Pairs.{Pairs}
use cachestack.Store.Answers.{Holds}
use cachestack.Store.Calls.{meant}
use cachestack.Log.{Aof, IsWriter, line_of, append, fits_buffer}
use cachestack.Log.Replay.{
  IsTrim, IsRecorded, body, recorded, written, next_line-line, drop_cr-NoBreak, parse-body,
  is_record-body, trim-body, body-NoBreak,
}
use cachestack.Dispatch.{dispatch}
use cachestack.Dispatch.Wire.{Host, Server}
use cachestack.Dispatch.Restart.{alone, server_of, synced, Started, ended, read_on}
use cachestack.Dispatch.Changes.{IsChange}
use cachestack.Dispatch.Lasting.{change_call}
use cachestack.Dispatch.Runs.{left_at, dispatch-Runs}

drop_all {ℓ} : {A : Type ℓ} (xs : List A) → drop (length xs) xs ≡ []
drop_all [] = refl
drop_all (x ∷ xs) = drop_all xs

-- A replay that ends, in a store that holds these pairs and with this log.
pub record ReadsTo {Float : Type 0} (limit : ℕ) (r : Pairs Float) (a : Aof) (o : Started Float)
    : Type 0 where
  pub last : Server Float
  pub done : o ≡ ended last
  pub holds : Holds limit r last.store
  pub log : last.aof ≡ a

module _ {Float : Type 0} (H : Host Float) (now : ℕ) (trim_space : Bytes → Bytes) (ticks : ℕ → Bool)
    (trims : IsTrim trim_space) where
  -- What is unread after a line was handled.
  abbrev pub next_unread : Bool → Bytes → Server Float → Server Float → Bytes
  next_unread tick rest v w = rest ++ drop (length v.aof.file) (synced tick w).aof.file

  long_enough : (l : Bytes) → length l < 65536 → fits_buffer l ≡ true
  long_enough l h = ground arith

  is_empty-line : (l rest : Bytes) → is_empty (l ++ (10 ∷ rest)) ≡ false
  is_empty-line [] rest = refl
  is_empty-line (c ∷ l) rest = refl

  -- A line that was logged is read as its command.
  pub read_on-line :
      (fuel k : ℕ) (c : Command) (rest : Bytes) (v w : Server Float)
      → IsRecorded H.letter_case c
      → server_of (dispatch H now c (alone v)) ≡ some w
      → read_on H now trim_space ticks (suc fuel) k (line_of c.name c.args ++ rest) v
        ≡ read_on H now trim_space ticks fuel
            (suc k)
            (next_unread (ticks k) rest v w)
            (synced (ticks k) w)
  unfolding line_of read_on
  read_on-line fuel k c rest v w r e =
      let clean = body-NoBreak H.letter_case c r in
      let one : read_on H now trim_space ticks (suc fuel) k (body c ++ (10 ∷ rest)) v
          ≡ read_on H now trim_space ticks fuel (suc k) (next_unread (ticks k) rest v w)
              (synced (ticks k) w) =
        rw
          (
            next_line-line (body c) rest clean,
            is_empty-line (body c) rest,
            long_enough (body c) r.short,
            drop_cr-NoBreak (body c) clean,
            trim-body H.letter_case trim_space c trims r,
            is_record-body H.letter_case c r,
            parse-body H.letter_case c r,
            e,
          )
          refl in
      ap (λ u. read_on H now trim_space ticks (suc fuel) k u v)
        (append_assoc (body c) (text "\n") rest)
      ∙ one

  -- While there is room in the buffer, a line goes there and the file stays as it is.
  append-waits :
      (c : Command) (a : Aof)
      → IsWriter a.writer
      → length a.buffer + length (line_of c.name c.args) ≤ 65536
      → append c.name c.args a ≡ record a { buffer = a.buffer ++ line_of c.name c.args }
  unfolding append
  append-waits c a w room =
      let line : Bytes = line_of c.name c.args in
      rw (w.waits a.buffer line room, append-nil a.file) refl

  pub read_on-ReadsTo :
      {limit : ℕ} (fuel k : ℕ) (cs : List Command) (h : All IsChange cs) (r : Pairs Float)
      (v : Server Float)
      → All (IsRecorded H.letter_case) cs
      → Holds limit r v.store
      → length cs < fuel
      → IsWriter v.aof.writer
      → length v.aof.buffer + length (written cs) ≤ 65536
      → ((i : ℕ) → ticks i ≡ false)
      → ReadsTo limit
          (left_at limit now cs h r)
          (recorded cs v.aof)
          (read_on H now trim_space ticks fuel k (written cs) v)
  unfolding read_on recorded written
  read_on-ReadsTo zero k cs h r v recs holds enough w room quiet = absurd (omega (arith, enough))
  read_on-ReadsTo (suc fuel) k [] h r v recs holds enough w room quiet = record {
    last = v;
    done = refl;
    holds = holds;
    log = refl;
  }
  read_on-ReadsTo {limit} (suc fuel) k (c ∷ cs) (change, h) r v (rec, recs) holds enough w room
        quiet =
      let one = dispatch-Runs H now c change v holds in
      let line : Bytes = line_of c.name c.args in
      let split : length (line ++ written cs) ≡ length line + length (written cs) =
        length-append line (written cs) in
      let kept : one.last.aof ≡ record v.aof { buffer = v.aof.buffer ++ line } =
        one.log ∙ append-waits c v.aof w (omega (arith, room, split)) in
      let still : length one.last.aof.buffer + length (written cs) ≤ 65536 =
        subst (λ a. length a.buffer + length (written cs) ≤ 65536) (sym kept)
          (omega (arith, room, split, length-append v.aof.buffer line)) in
      let rest =
        read_on-ReadsTo fuel (suc k) cs h (meant limit now (change_call c change) r).1 one.last recs
          one.holds (omega (arith, enough)) (subst (λ a. IsWriter a.writer) (sym kept) w) still
          quiet in
      let unread : next_unread (ticks k) (written cs) v one.last ≡ written cs = rw (quiet k) (
        ap (λ a. written cs ++ drop (length v.aof.file) a.file) kept
        ∙ ap (λ b. written cs ++ b) (drop_all v.aof.file)
        ∙ append-nil (written cs)) in
      record {
        last = rest.last;
        done =
            read_on-line fuel k c (written cs) v one.last rec one.ended
            ∙ ap (λ u. read_on H now trim_space ticks fuel (suc k) u (synced (ticks k) one.last))
                unread
            ∙ ap (λ b. read_on H now trim_space ticks fuel (suc k) (written cs) (synced b one.last))
                (quiet k)
            ∙ rest.done;
        holds = rest.holds;
        log = rest.log ∙ ap (recorded cs) one.log;
      }
