-- ===== src/Dispatch/Endless.antt =====
-- A start from a long log: what the replay logs is written to the file before it has read to the end.
use cachestack.Base.{
  ℕ, zero, suc, ◌+◌, ◌≤◌, ◌≡◌, ◌∙◌, refl, ap, sym, subst, Bool, true, false, List, [], ◌∷◌, ◌++◌,
  All, All-append, length, length-append, drop, take, take-append-drop, arith, Bool-cases, inl, inr,
}
use mathlib.Core.List.{append_assoc, append-nil}
use cachestack.Text.{text}
use cachestack.Command.{Bytes, Command}
use cachestack.Store.Pairs.{Pairs}
use cachestack.Store.Answers.{Holds}
use cachestack.Store.Calls.{meant}
use cachestack.Store.Refines.{new_store-Holds}
use cachestack.Log.{Aof, IsWriter, opened, line_of, append, flush}
use cachestack.Log.Replay.{IsTrim, IsRecorded, body, written, flush-recorded}
use cachestack.Dispatch.Wire.{Host, Server}
use cachestack.Dispatch.Restart.{fresh, synced, reading, read_on, start}
use cachestack.Dispatch.Changes.{IsChange}
use cachestack.Dispatch.Lasting.{change_call}
use cachestack.Dispatch.Runs.{dispatch-Runs}
use cachestack.Dispatch.Reread.{next_unread, read_on-line}
use cachestack.Dispatch.Recover.{log_of, kept_writer}

head_or {ℓ} : {A : Type ℓ} → A → List A → A
head_or a [] = a
head_or a (x ∷ xs) = x

-- If two lists with something behind them are the same, the shorter begins the longer.
front_of {ℓ} :
    {A : Type ℓ} (xs ys us vs : List A)
    → xs ++ us ≡ ys ++ vs
    → length ys ≤ length xs
    → (xs ≡ ys ++ drop (length ys) xs) × (drop (length ys) xs ++ us ≡ vs)
unfolding head_or
front_of xs [] us vs e h = (refl, e)
front_of [] (y ∷ ys) us vs e h = absurd (omega arith)
front_of (x ∷ xs) (y ∷ ys) us vs e h =
    let same : x ≡ y = ap (head_or x) e in
    let (front, behind) = front_of xs ys us vs (ap (drop 1) e) (omega arith) in
    (rw same (ap (◌∷◌ y) front), behind)

drop_front {ℓ} : {A : Type ℓ} (xs ys : List A) → drop (length xs) (xs ++ ys) ≡ ys
drop_front [] ys = refl
drop_front (x ∷ xs) ys = drop_front xs ys

written-append : (cs ds : List Command) → written (cs ++ ds) ≡ written cs ++ written ds
unfolding written
written-append [] ds = refl
written-append (c ∷ cs) ds =
    ap (λ f. line_of c.name c.args ++ f) (written-append cs ds)
    ∙ sym (append_assoc (line_of c.name c.args) (written cs) (written ds))

written_one : (c : Command) → written (c ∷ []) ≡ line_of c.name c.args
unfolding written
written_one c = append-nil (line_of c.name c.args)

module _ {Float : Type 0} (H : Host Float) (now : ℕ) (trim_space : Bytes → Bytes) (ticks : ℕ → Bool)
    (trims : IsTrim trim_space) where
  -- What is unread, with the buffer behind it: the commands, the next one first.
  record IsTurning (cs : List Command) (unread : Bytes) (a : Aof) : Type 0 where
    all : unread ++ a.buffer ≡ written cs
    few : length a.buffer ≤ 65536
    drained : IsWriter a.writer

  -- A line that is logged stands behind all the others, in the file or in the buffer.
  append-IsTurning :
      (ds : List Command) (c : Command) (rest : Bytes) (a : Aof)
      → rest ++ a.buffer ≡ written ds
      → length a.buffer ≤ 65536
      → IsWriter a.writer
      → IsTurning
          (ds ++ (c ∷ []))
          (rest ++ drop (length a.file) (append c.name c.args a).file)
          (append c.name c.args a)
  unfolding append
  append-IsTurning ds c rest a e few w =
      let line : Bytes = line_of c.name c.args in
      let held : Bytes = a.buffer ++ line in
      let n : ℕ = a.writer a.buffer line in
      record {
        all =
            ap (λ f. (rest ++ f) ++ drop n held) (drop_front a.file (take n held))
            ∙ append_assoc rest (take n held) (drop n held)
            ∙ ap (λ f. rest ++ f) (take-append-drop n held)
            ∙ sym (append_assoc rest a.buffer line)
            ∙ ap (λ f. f ++ line) e
            ∙ ap (λ f. written ds ++ f) (sym (written_one c))
            ∙ sym (written-append ds (c ∷ []));
        few = w.bounded a.buffer line few;
        drained = w;
      }

  -- A flush moves the buffer behind the file.
  flush-IsTurning :
      (cs : List Command) (rest : Bytes) (a b : Aof)
      → IsTurning cs (rest ++ drop (length a.file) b.file) b
      → (more : Bytes) × (b.file ≡ a.file ++ more)
      → IsTurning cs (rest ++ drop (length a.file) (flush b).file) (flush b)
  unfolding flush
  flush-IsTurning cs rest a b t (more, grew) = record {
    all =
        append-nil (rest ++ drop (length a.file) (b.file ++ b.buffer))
        ∙ ap (λ f. rest ++ drop (length a.file) (f ++ b.buffer)) grew
        ∙ ap (λ f. rest ++ drop (length a.file) f) (append_assoc a.file more b.buffer)
        ∙ ap (λ f. rest ++ f) (drop_front a.file (more ++ b.buffer))
        ∙ sym (append_assoc rest more b.buffer)
        ∙ ap (λ f. (rest ++ f) ++ b.buffer) (sym (drop_front a.file more))
        ∙ ap (λ f. (rest ++ drop (length a.file) f) ++ b.buffer) (sym grew)
        ∙ t.all;
    few = omega arith;
    drained = t.drained;
  }

  append_more :
      (c : Command) (a b : Aof)
      → b ≡ append c.name c.args a
      → (more : Bytes) × (b.file ≡ a.file ++ more)
  unfolding append
  append_more c a b logged = (_, ap (λ l. l.file) logged)

  synced-Holds :
      {limit : ℕ} {r : Pairs Float} (tick : Bool) (w : Server Float)
      → Holds limit r w.store
      → Holds limit r (synced tick w).store
  synced-Holds true w h = h
  synced-Holds false w h = h

  length-turned :
      (c : Command) (cs : List Command)
      → length (written (cs ++ (c ∷ []))) ≡ length (written (c ∷ cs))
  unfolding written
  length-turned c cs =
      let line : Bytes = line_of c.name c.args in
      ap length (written-append cs (c ∷ []) ∙ ap (λ f. written cs ++ f) (written_one c))
      ∙ omega (arith, length-append (written cs) line, length-append line (written cs))

  turn :
      (ds : List Command) (c : Command) (rest : Bytes) (tick : Bool) (v w : Server Float)
      → rest ++ v.aof.buffer ≡ written ds
      → length v.aof.buffer ≤ 65536
      → IsWriter v.aof.writer
      → w.aof ≡ append c.name c.args v.aof
      → IsTurning
          (ds ++ (c ∷ []))
          (rest ++ drop (length v.aof.file) (synced tick w).aof.file)
          (synced tick w).aof
  turn ds c rest tick v w e few d logged =
      let kept = append-IsTurning ds c rest v.aof e few d in
      let one : IsTurning (ds ++ (c ∷ [])) (rest ++ drop (length v.aof.file) w.aof.file) w.aof =
        subst (λ a. IsTurning (ds ++ (c ∷ [])) (rest ++ drop (length v.aof.file) a.file) a)
          (sym logged) kept in
      elim (Bool-cases tick) [
        | inl t ↦ rw t (
            flush-IsTurning (ds ++ (c ∷ [])) rest v.aof w.aof one
              (append_more c v.aof w.aof logged))
        | inr f ↦ rw f one
      ]

  length-IsTurning :
      (cs : List Command) (unread : Bytes) (a : Aof)
      → IsTurning cs unread a
      → length (written cs) ≤ length unread + 65536
  length-IsTurning cs unread a t =
      omega (arith, ap length t.all, length-append unread a.buffer, t.few)

  first_line :
      (c : Command) (cs : List Command) (unread : Bytes) (a : Aof)
      → IsTurning (c ∷ cs) unread a
      → IsRecorded H.letter_case c
      → 131072 ≤ length (written (c ∷ cs))
      → (rest : Bytes) × (unread ≡ line_of c.name c.args ++ rest) × (rest ++ a.buffer ≡ written cs)
  unfolding line_of written
  first_line c cs unread a t r long =
      let line : Bytes = line_of c.name c.args in
      let size : length line ≡ length (body c) + 1 = length-append (body c) (text "\n") in
      let (front, behind) =
        front_of unread line a.buffer (written cs) t.all
          (omega (arith, size, r.short, length-IsTurning (c ∷ cs) unread a t, long)) in
      (drop (length line) unread, front, behind)

  read_on-reading :
      {limit : ℕ} (fuel k : ℕ) (cs : List Command) (unread : Bytes) (r : Pairs Float)
      (v : Server Float)
      → All IsChange cs
      → All (IsRecorded H.letter_case) cs
      → Holds limit r v.store
      → 131072 ≤ length (written cs)
      → IsTurning cs unread v.aof
      → read_on H now trim_space ticks fuel k unread v ≡ reading
  unfolding read_on written
  read_on-reading zero k cs unread r v h recs holds long t = refl
  read_on-reading (suc fuel) k [] unread r v h recs holds long t = absurd (omega (arith, long))
  read_on-reading {limit} (suc fuel) k (c ∷ cs) unread r v (change, h) (rec, recs) holds long t =
      let (rest, front, behind) = first_line c cs unread v.aof t rec long in
      let one = dispatch-Runs H now c change v holds in
      let next = turn cs c rest (ticks k) v one.last behind t.few t.drained one.log in
      let as_long : 131072 ≤ length (written (cs ++ (c ∷ []))) =
        omega (arith, long, length-turned c cs) in
      ap (λ u. read_on H now trim_space ticks (suc fuel) k u v) front
      ∙ read_on-line H now trim_space ticks trims fuel k c rest v one.last rec one.ended
      ∙ read_on-reading {limit = limit} fuel (suc k) (cs ++ (c ∷ []))
          (next_unread H now trim_space ticks trims (ticks k) rest v one.last)
          (meant limit now (change_call c change) r).1 (synced (ticks k) one.last)
          (All-append IsChange cs (c ∷ []) h (change, tt))
          (All-append (IsRecorded H.letter_case) cs (c ∷ []) recs (rec, tt))
          (synced-Holds (ticks k) one.last one.holds) as_long next

  -- A start never ends, however long it runs and whenever periodic flushes come, if the log holds SETs without EX,
  -- DELs, LPUSHes, RPUSHes, SADDs and FLUSHALLs, whose words and lines are as a replay reads them back, and
  -- has 128 KB or more: the replay writes to the file that it reads; if the writer's buffer has 64 KB, and if
  -- TrimSpace leaves ASCII text that neither begins nor ends with white space.
  pub start-reading :
      (limit fuel : ℕ) (writer : Bytes → Bytes → ℕ) (cs : List Command)
      → IsWriter writer
      → All (IsRecorded H.letter_case) cs
      → All IsChange cs
      → 131072 ≤ length (log_of H now trim_space ticks writer cs).file
      → start H now trim_space ticks fuel limit (log_of H now trim_space ticks writer cs) ≡ reading
  unfolding start flush
  start-reading limit fuel writer cs w recs h long =
      let a = log_of H now trim_space ticks writer cs in
      let same : a.file ≡ written cs = flush-recorded cs (opened writer) in
      read_on-reading fuel 0 cs a.file [] (fresh limit a) h recs (new_store-Holds limit)
        (omega (arith, long, ap length same))
        (record {
          all = append-nil a.file ∙ same;
          few = omega arith;
          drained =
              subst IsWriter (sym (kept_writer H now trim_space ticks writer cs (opened writer))) w;
        })
