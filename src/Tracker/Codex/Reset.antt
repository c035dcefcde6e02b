-- ===== src/Tracker/Codex/Reset.antt =====
-- When a reset of a Codex quota is detected.
use one_auth_watch.Prelude.{
  ℕ, ◌+◌, ◌*◌, ◌≤◌, ◌<◌, ◌≡◌, true, false, some, arith, inl, inr, Option-cases,
}
use one_auth_watch.Prelude.Clock.{Time, minute}
use one_auth_watch.Database.Sessions.{Value}
use one_auth_watch.Database.CodexCycles.{CodexResetCycle}
use one_auth_watch.Tracker.Codex.{
  CodexQuota, CodexTracker, percent, reset_shift_threshold, or_reference, reset_detected,
}

module _ (account : ℕ) (quota : CodexQuota) (captured_at : Time) (t : CodexTracker)
    (cycle : CodexResetCycle) where
  -- Before the stored reset time has passed by two minutes, a cycle goes on as long as utilization is
  -- not lower than at the last poll by more than two percent, wherever the reset time moves.
  pub no_drop_no_reset :
      (stored : Time) (last : Value)
      → cycle.resets_at ≡ some stored
      → captured_at ≤ stored + 2 * minute
      → t.last_values account quota.name ≡ some last
      → last ≤ quota.utilization + 2 * percent
      → reset_detected account quota captured_at t cycle ≡ false
  unfolding reset_detected
  no_drop_no_reset stored last e early seen kept = elim (Option-cases quota.resets_at) [
    | inl none_polled ↦ rw (e, none_polled) (ground arith)
    | inr (r, polled) ↦ rw (e, polled, seen) (ground arith)
  ]

  -- A drop of more than two percent together with a reset time that moved by more than an hour is a
  -- reset, also while the stored reset time is ahead.
  drop_with_shift_resets :
      (stored r : Time) (last : Value)
      → cycle.resets_at ≡ some stored
      → quota.resets_at ≡ some r
      → or_reference (t.last_resets account quota.name) stored + reset_shift_threshold < r
      → t.has_last account ≡ true
      → t.last_values account quota.name ≡ some last
      → quota.utilization + 2 * percent < last
      → reset_detected account quota captured_at t cycle ≡ true
  unfolding reset_detected
  drop_with_shift_resets stored r last e polled far active seen lower =
      rw (e, polled, seen, active) (ground arith)
