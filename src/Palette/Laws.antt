-- ===== src/Palette/Laws.antt =====
-- What running a command line does.
use cachestack.Base.{
  ℕ, ◌≡◌, ◌≢◌, ◌==◌, subst, Bool-cases, ◌⊎◌, ◌↔◌, refl, ap, sym, List, [], ◌∷◌, ◌++◌, Option, none,
  some, All, inl, inr, arith, take, true,
}
use cachestack.Text.{Text, text, trim, is_space, split, split_first, join, Unicode}
use cachestack.Text.Split.{join-split}
use cachestack.Text.Spaces.{trim-nil_iff}
use cachestack.Number.{Number}
use cachestack.Types.{LogEntry}
use cachestack.Client.{Answer, ExecResult, exec_request, api_fetch}
use cachestack.Palette.{
  Console, log_of, exec_sends, sends_trimmed, exec_trimmed, exec_cmd, result_text,
}

first_and_rest :
    (s : Text) (p : Text × List Text)
    → join (text " ") (p.0 ∷ p.1) ≡ s
    → ((s ≡ p.0) × (join (text " ") p.1 ≡ [])) ⊎ (s ≡ p.0 ++ (text " " ++ join (text " ") p.1))
unfolding join
first_and_rest s (first, []) h = inl (sym h, refl)
first_and_rest s (first, next ∷ more) h = inr (sym h)

split_first-ne : (sep : ℕ) (s : Text) → All (λ d. d ≢ sep) (split_first sep s).0
unfolding split_first
split_first-ne sep [] = tt
split_first-ne sep (c ∷ s) = elim (Bool-cases (c == sep)) [
  | inl e ↦ rw e tt
  | inr e ↦ rw e (ground arith, split_first-ne sep s)
]

-- The text that the palette shows of an answer.
abbrev pub Shows : Option ExecResult → Text → Type 0
Shows answer shown =
    ((r : ExecResult) (s : Text) → answer ≡ some r → r.result ≡ some s → shown ≡ s)
    × ((r : ExecResult) (s : Text)
        → answer ≡ some r
        → r.result ≡ none
        → r.error ≡ some s
        → shown ≡ s)
    × ((r : ExecResult)
        → answer ≡ some r
        → r.result ≡ none
        → r.error ≡ none
        → shown ≡ text "(server offline)")
    × (answer ≡ none → shown ≡ text "(server offline)")

result_text-Shows : (answer : Option ExecResult) → Shows answer (result_text answer)
result_text-Shows answer = (
  λ r s e f. rw (e, f) refl,
  λ r s e f g. rw (e, f, g) refl,
  λ r e f g. rw (e, f, g) refl,
  λ e. rw e refl,
)

sends_trimmed-none : (env : Option Text) (s : Text) → sends_trimmed env s ≡ none → s ≡ []
sends_trimmed-none env [] h = refl
sends_trimmed-none env (c ∷ s) h = absurd (ground arith)

module _ (N : Number) (U : Unicode) where
  open N use {Float}
  open U use {to_upper}

  -- A line of white space, and only such a line, sends nothing; it leaves the console as it was.
  pub exec_blank :
      (env : Option Text) (input : Text) (answer : Answer ExecResult) (now : ℕ) (clock : Text)
      (s : Console Float)
      → ((exec_sends env input ≡ none) ↔ All (λ c. is_space c ≡ true) input)
        × (All (λ c. is_space c ≡ true) input → exec_cmd N U input answer now clock s ≡ s)
  unfolding exec_sends exec_cmd
  exec_blank env input answer now clock s =
      let (blank, trimmed) = trim-nil_iff input in
      (
        (
          λ e. blank (sends_trimmed-none env (trim input) e),
          λ h. ap (sends_trimmed env) (trimmed h),
        ),
        λ h. ap (λ t. exec_trimmed N U t (api_fetch answer) now clock s) (trimmed h),
      )

  -- A command line that is not blank: the request carries it without the white space around it; the
  -- newest log line holds in upper case its first word, which has no space, and after a space the rest of
  -- it; behind it stand the 59 newest lines of the log before; and the text shown is the result of the
  -- answer, without one its error, and without both, or without an answer, that the server is offline.
  pub exec_runs :
      (env : Option Text) (input : Text) (answer : Answer ExecResult) (now : ℕ) (clock : Text)
      (s : Console Float) (c : ℕ) (cmd : Text)
      → trim input ≡ c ∷ cmd
      → (let after = exec_cmd N U input answer now clock s in
          (exec_sends env input ≡ some (exec_request env (c ∷ cmd)))
          × ((word : Text) × (entry : LogEntry Float) × (after.logs ≡ entry ∷ take 59 s.logs)
              × (entry.cmd ≡ to_upper word)
              × All (λ d. d ≢ b' ') word
              × (((c ∷ cmd ≡ word) × (entry.key ≡ []))
                  ⊎ (c ∷ cmd ≡ word ++ (text " " ++ entry.key))))
          × Shows (api_fetch answer) after.cmd_result)
  unfolding exec_sends exec_cmd log_of split
  exec_runs env input answer now clock s c cmd e =
      let done = ap (λ t. exec_trimmed N U t (api_fetch answer) now clock s) e in
      let (first, more) = split_first b' ' (c ∷ cmd) in
      (
        ap (sends_trimmed env) e,
        (
          first,
          log_of N U (c ∷ cmd) now clock,
          ap (λ t. t.logs) done,
          refl,
          split_first-ne b' ' (c ∷ cmd),
          first_and_rest (c ∷ cmd) (first, more) (join-split b' ' (c ∷ cmd)),
        ),
        subst (Shows (api_fetch answer)) (sym (ap (λ t. t.cmd_result) done))
            (result_text-Shows (api_fetch answer)),
      )
