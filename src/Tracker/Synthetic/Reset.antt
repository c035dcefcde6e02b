-- ===== src/Tracker/Synthetic/Reset.antt =====
-- When a reset is detected.
use one_auth_watch.Prelude.{ℕ, ◌+◌, ◌*◌, ◌≤◌, ◌<◌, ◌≡◌, true, false, arith}
use one_auth_watch.Prelude.Clock.{Time, minute, hour}
use one_auth_watch.Database.Cycles.{ResetCycle}
use one_auth_watch.Tracker.Synthetic.{QuotaInfo, reset_detected}

-- A renewal time that the API moves within one hour of the clock is no reset, as long as the stored
-- renewal is at most two minutes past.
same_hour_no_reset :
    (captured_at : Time) (info : QuotaInfo) (cycle : ResetCycle) (k : ℕ)
    → captured_at ≤ cycle.renews_at + 2 * minute
    → k * hour ≤ cycle.renews_at
    → cycle.renews_at < k * hour + hour
    → k * hour ≤ info.renews_at
    → info.renews_at < k * hour + hour
    → reset_detected captured_at info cycle ≡ false
unfolding reset_detected
same_hour_no_reset captured_at info cycle k early a b c d = ground arith

-- A renewal time that the API moves past a full hour is a reset, however little it moves: a drift of
-- one second over the hour closes the cycle like a new quota window.
drift_over_hour_resets :
    (captured_at : Time) (info : QuotaInfo) (cycle : ResetCycle) (k : ℕ)
    → cycle.renews_at < k * hour
    → k * hour ≤ info.renews_at
    → reset_detected captured_at info cycle ≡ true
unfolding reset_detected
drift_over_hour_resets captured_at info cycle k a b = ground arith
