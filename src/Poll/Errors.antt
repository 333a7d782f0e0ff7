-- ===== src/Poll/Errors.antt =====
-- When a tick warns of a high error rate.
use cachestack.Base.{
  ◌+◌, ◌*◌, ◌^◌, ◌<◌, ◌≡◌, ◌↔◌, ◌⊎◌, ◌∙◌, ap, sym, true, Bool-cases, inl, inr, arith,
}
use mathlib.Core.Bool.{false≢true}
use cachestack.Text.{Text}
use cachestack.Number.{Number}
use cachestack.Types.{ServerMetrics, error}
use cachestack.Notifications.{Queue}
use cachestack.Poll.{or_zero, push_if, failing_text, is_failing, warn_errors}
use cachestack.Poll.Connection.{one_if, push_if-counter}

module _ (N : Number) where
  open N use {lt, lit, lit-lt-div}

  is_failing_iff :
      (m : ServerMetrics)
      → 5 * m.total_ops < 2 ^ 52
      → (is_failing N m ≡ true) ↔ ((0 < m.total_ops) × (m.total_ops < 20 * or_zero m.total_errors))
  unfolding is_failing
  is_failing_iff m small = (
    λ h. ground (arith, lit-lt-div 5 100 (or_zero m.total_errors) m.total_ops),
    λ (pos, more). ground (arith, lit-lt-div 5 100 (or_zero m.total_errors) m.total_ops),
  )

  -- With fewer than 2 ^ 52 / 5 commands a toast is pushed exactly when there were commands and more
  -- than one in twenty failed; otherwise the queue stays as it was.
  pub warn_errors_iff :
      (m : ServerMetrics) (clock : Text) (q : Queue)
      → 5 * m.total_ops < 2 ^ 52
      → ((0 < m.total_ops)
          × (m.total_ops < 20 * or_zero m.total_errors)
          × ((warn_errors N m clock q).counter ≡ q.counter + 1))
        ⊎ ((¬ ((0 < m.total_ops) × (m.total_ops < 20 * or_zero m.total_errors)))
            × (warn_errors N m clock q ≡ q))
  unfolding warn_errors
  warn_errors_iff m clock q small = elim (Bool-cases (is_failing N m)) [
    | inl e ↦
        let (pos, more) = (is_failing_iff m small).0 e in
        inl (
          pos,
          more,
          push_if-counter (is_failing N m) (failing_text N m) error 8000 clock q
              ∙ ap (λ b. q.counter + one_if b) e,
        )
    | inr e ↦ inr (
      λ h. false≢true (sym e ∙ (is_failing_iff m small).1 h),
      ap (λ b. push_if b (failing_text N m) error 8000 clock q) e,
    )
  ]
