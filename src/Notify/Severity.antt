-- ===== src/Notify/Severity.antt =====
-- The notification that a status calls for, against its utilization.
use native.Mathlib.Nat.{mul-le-mul_right}
use one_auth_watch.Prelude.{ℕ, ◌≤◌, ◌≡◌, true, false, Option, none, some, arith, if◌then◌else◌}
use one_auth_watch.Prelude.Text.{Text, codes, text_eq}
use one_auth_watch.Notify.{
  QuotaStatus, NotificationConfig, find_override, resolve, reaches, critical_due, warning_due, due,
}

-- 2 for critical, 1 for warning, 0 for none.
pub severity : Option Text → ℕ
severity none = 0
severity (some kind) = if text_eq kind (codes "critical") then 2 else 1

abbrev pub at_utilization : ℕ → QuotaStatus → QuotaStatus
at_utilization u status = record status { utilization = u; reset_occurred = false }

reaches_more : (u v : ℕ) (t : ℕ × ℕ) → u ≤ v → reaches u t ≡ true → reaches v t ≡ true
reaches_more u v (num, den) le h = ground (arith, mul-le-mul_right den le)

module _ (cfg : NotificationConfig) (status : QuotaStatus) (u v : ℕ) where
  critical_more :
      u ≤ v
      → critical_due cfg (at_utilization u status) ≡ true
      → critical_due cfg (at_utilization v status) ≡ true
  unfolding critical_due find_override resolve
  critical_more le h =
      let o = find_override cfg status in
      ground (arith, reaches_more u v (resolve cfg.critical (λ o. o.critical) status o) le)

  warning_more :
      u ≤ v
      → warning_due cfg (at_utilization u status) ≡ true
      → warning_due cfg (at_utilization v status) ≡ true
  unfolding warning_due find_override resolve
  warning_more le h =
      let o = find_override cfg status in
      ground (arith, reaches_more u v (resolve cfg.warning (λ o. o.warning) status o) le)

  -- Under any configuration and overrides, a greater utilization of the same quota calls for a
  -- notification that is at least as severe.
  severity_rises :
      u ≤ v
      → severity (due cfg (at_utilization u status)) ≤ severity (due cfg (at_utilization v status))
  unfolding due severity text_eq
  severity_rises le = ground (arith, critical_more le, warning_more le)
