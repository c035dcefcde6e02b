-- ===== src/Tracker/Codex.antt =====
-- `CodexTracker` of server/internal/tracker/codex_tracker.go: cycles of the Codex quotas, per account.
-- Utilization is in thousandths of a percent, at least 0 and added exactly.
pub mod Reset
pub mod Rolling
pub mod Unique
mod Tests
use one_auth_watch.Prelude.{
  ℕ, ◌+◌, ◌-◌, ◌*◌, Bool, true, false, not, ◌&&◌, ◌||◌, Option, none, some, List, [], ◌∷◌, ltb,
  ◌==◌, if◌then◌else◌,
}
use one_auth_watch.Prelude.Clock.{Time, Duration, minute, after}
use one_auth_watch.Prelude.Text.{Text, text_eq}
use one_auth_watch.Database.Fault.{Db}
use one_auth_watch.Database.Sessions.{Value}
use one_auth_watch.Database.CodexCycles.{
  CodexResetCycle, account_or_default, create_codex_cycle, close_codex_cycle, update_codex_cycle,
  update_codex_cycle_resets_at, query_active_codex_cycle,
}

abbrev pub percent : Value
percent = 1000

abbrev pub reset_shift_threshold : Duration
reset_shift_threshold = 60 * minute

pub record CodexQuota : Type 0 where
  pub name : Text
  pub utilization : Value
  pub resets_at : Option Time

-- The two-level maps `lastValues` and `lastResets` are functions of the account and the name.
pub record CodexTracker : Type 0 where
  pub store : Db CodexResetCycle
  pub last_values : ℕ → Text → Option Value
  pub last_resets : ℕ → Text → Option Time
  pub has_last : ℕ → Bool

pub data Error : Type 0 where
  query_failed create_failed peak_failed close_failed resets_at_failed update_failed : Error

-- What `processQuota` leaves: the tracker, whether `onReset` was called, and the error.
pub record Outcome : Type 0 where
  pub tracker : CodexTracker
  pub reset : Bool
  pub error : Option Error

abbrev pub done : Bool → CodexTracker → Outcome
done reset t = record { tracker = t; reset = reset; error = none }

abbrev pub fail : Error → CodexTracker → Outcome
fail e t = record { tracker = t; reset = false; error = some e }

-- `if err != nil { return ... }` after a statement on the tracker's store.
abbrev pub or_fail :
    Db CodexResetCycle × Bool → Error → CodexTracker → (CodexTracker → Outcome) → Outcome
or_fail (db, failed) e t rest =
    let t' = record t { store = db } in if failed then fail e t' else rest t'

abbrev set_at : {A : Type 0} → (ℕ → Text → Option A) → ℕ → Text → A → ℕ → Text → Option A
set_at m account name v a n = if a == account && text_eq n name then some v else m a n

abbrev pub or_reference : Option Time → Time → Time
or_reference none r = r
or_reference (some last) r = last

-- The reset time moved by more than the threshold, in either direction.
abbrev pub shifted : Time → Time → Bool
shifted r reference =
    ltb (reference + reset_shift_threshold) r || ltb (r + reset_shift_threshold) reference

module _ (account : ℕ) (quota : CodexQuota) (captured_at : Time) where
  pub keep_value : CodexTracker → CodexTracker
  keep_value t = record t {
    last_values = set_at t.last_values account quota.name quota.utilization;
  }

  abbrev keep_reset_at : Option Time → CodexTracker → CodexTracker
  keep_reset_at none t = t
  keep_reset_at (some r) t = record t { last_resets = set_at t.last_resets account quota.name r }

  pub keep_reset : CodexTracker → CodexTracker
  keep_reset t = keep_reset_at quota.resets_at t

  -- A new cycle with the current utilization as its first peak.
  pub open_cycle : Bool → CodexTracker → Outcome
  open_cycle reset t =
      or_fail (create_codex_cycle account quota.name captured_at quota.resets_at t.store)
        create_failed t
        λ t'.
          or_fail (update_codex_cycle account quota.name quota.utilization 0 t'.store) peak_failed
            t' λ t''. done reset (keep_reset (keep_value t''))

  -- The stored reset time has passed, with two minutes of grace.
  abbrev pub passed : Option Time → Bool
  passed none = false
  passed (some r) = after captured_at (r + 2 * minute)

  abbrev pub dropped_from : Option Value → Bool
  dropped_from none = false
  dropped_from (some last) = ltb (quota.utilization + 2 * percent) last

  abbrev pub dropped : CodexTracker → Bool
  dropped t = t.has_last account && dropped_from (t.last_values account quota.name)

  abbrev moved : CodexTracker → Option Time → Option Time → Bool
  moved t none stored = false
  moved t (some r) none = false
  moved t (some r) (some stored) =
      shifted r (or_reference (t.last_resets account quota.name) stored) && dropped t

  pub reset_detected : CodexTracker → CodexResetCycle → Bool
  reset_detected t cycle = passed cycle.resets_at || moved t quota.resets_at cycle.resets_at

  abbrev end_time : Option Time → Time
  end_time none = captured_at
  end_time (some r) = if after captured_at r then r else captured_at

  abbrev add_increase : Value → Value → Value
  add_increase last total =
      if ltb last quota.utilization then total + (quota.utilization - last) else total

  abbrev raise_peak : Value → Value
  raise_peak peak = if ltb peak quota.utilization then quota.utilization else peak

  -- `PeakUtilization` and `TotalDelta` of the cycle that a reset closes.
  abbrev final_stats : Bool → Option Value → CodexResetCycle → Value × Value
  final_stats true (some last) c = (raise_peak c.peak_utilization, add_increase last c.total_delta)
  final_stats _ _ c = (c.peak_utilization, c.total_delta)

  pub close_and_open : CodexResetCycle → CodexTracker → Outcome
  close_and_open cycle t =
      let (peak, delta) =
        final_stats (t.has_last account) (t.last_values account quota.name) cycle in
      or_fail (close_codex_cycle account quota.name (end_time cycle.resets_at) peak delta t.store)
        close_failed t (open_cycle true)

  abbrev store_stats : Value → Value → CodexTracker → Outcome
  store_stats peak delta t =
      or_fail (update_codex_cycle account quota.name peak delta t.store) update_failed t
        λ t'. done false (keep_value t')

  abbrev stats_from : Bool → Option Value → CodexResetCycle → CodexTracker → Outcome
  stats_from true (some last) c t =
      store_stats (raise_peak c.peak_utilization) (add_increase last c.total_delta) t
  stats_from true none c t = done false (keep_value t)
  stats_from false last c t =
      if ltb c.peak_utilization quota.utilization
      then store_stats quota.utilization c.total_delta t
      else done false (keep_value t)

  pub update_stats : CodexResetCycle → CodexTracker → Outcome
  update_stats cycle t = stats_from (t.has_last account) (t.last_values account quota.name) cycle t

  -- The stored reset time follows the one that was polled, if there is one.
  abbrev refresh : Option Time → CodexResetCycle → CodexTracker → Outcome
  refresh none cycle t = update_stats cycle t
  refresh (some r) cycle t =
      or_fail (update_codex_cycle_resets_at account quota.name (some r) t.store) resets_at_failed t
        λ t'. update_stats cycle (keep_reset t')

  pub refresh_and_update : CodexResetCycle → CodexTracker → Outcome
  refresh_and_update cycle t = refresh quota.resets_at cycle t

  pub process_found : Option (Option CodexResetCycle) → CodexTracker → Outcome
  process_found none t = fail query_failed t
  process_found (some none) t = open_cycle false t
  process_found (some (some cycle)) t =
      if reset_detected t cycle then close_and_open cycle t else refresh_and_update cycle t

  pub process_quota : CodexTracker → Outcome
  process_quota t =
      let (db, found) = query_active_codex_cycle account quota.name t.store in
      process_found found (record t { store = db })

-- The loop of `Process` over the quotas, up to the first error.
abbrev pub go_on :
    Option Error
    → CodexTracker
    → (CodexTracker → CodexTracker × Option Error)
    → CodexTracker × Option Error
go_on none t rest = rest t
go_on (some e) t rest = (t, some e)

pub process_each : ℕ → Time → List CodexQuota → CodexTracker → CodexTracker × Option Error
process_each account captured_at [] t =
    (record t { has_last = λ a. a == account || t.has_last a }, none)
process_each account captured_at (q ∷ quotas) t =
    let o = process_quota account q captured_at t in
    go_on o.error o.tracker (process_each account captured_at quotas)

pub process : ℕ → Time → List CodexQuota → CodexTracker → CodexTracker × Option Error
process account captured_at quotas t =
    process_each (account_or_default account) captured_at quotas t
