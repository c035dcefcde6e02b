-- ===== src/Tracker/Synthetic.antt =====
-- `Tracker` of server/internal/tracker/tracker.go: cycles of the Synthetic quotas. Requests are
-- numbers of units, at least 0 and added exactly.
pub mod Reset
pub mod Unique
pub mod Stats
mod Tests
use one_auth_watch.Prelude.{
  ℕ, ◌+◌, ◌-◌, ◌*◌, Bool, true, false, not, ◌||◌, Option, none, some, List, [], ◌∷◌, ◌++◌, ltb,
  ◌==◌, if◌then◌else◌,
}
use one_auth_watch.Prelude.Clock.{Time, minute, hour, after, truncate}
use one_auth_watch.Prelude.Text.{Text, codes}
use one_auth_watch.Database.Fault.{Db}
use one_auth_watch.Database.Sessions.{Value}
use one_auth_watch.Database.Cycles.{
  ResetCycle, create_cycle, close_cycle, update_cycle, query_active_cycle,
}

pub record QuotaInfo : Type 0 where
  pub requests : Value
  pub renews_at : Time

pub data Error : Type 0 where
  query_failed create_failed peak_failed close_failed update_failed : Error

-- What `processQuota` leaves: the database, `*lastRequests`, whether `onReset` was called, and the
-- error.
pub record Outcome : Type 0 where
  pub db : Db ResetCycle
  pub last_requests : Value
  pub reset : Bool
  pub error : Option Error

abbrev pub fail : Error → Value → Db ResetCycle → Outcome
fail e last db = record { db = db; last_requests = last; reset = false; error = some e }

-- `if err != nil { return ... }` after a statement.
abbrev pub or_fail : Db ResetCycle × Bool → Error → Value → (Db ResetCycle → Outcome) → Outcome
or_fail (db, failed) e last rest = if failed then fail e last db else rest db

-- A new cycle with the current requests as its first peak.
pub open_cycle : Text → Time → QuotaInfo → Value → Bool → Db ResetCycle → Outcome
open_cycle quota_type captured_at info last reset db =
    or_fail (create_cycle quota_type captured_at info.renews_at db) create_failed last λ db'.
      or_fail (update_cycle quota_type info.requests 0 db') peak_failed last
        λ db''. record { db = db''; last_requests = info.requests; reset = reset; error = none }

-- Both detection methods.
pub reset_detected : Time → QuotaInfo → ResetCycle → Bool
reset_detected captured_at info cycle =
    after captured_at (cycle.renews_at + 2 * minute)
    || not (truncate cycle.renews_at hour == truncate info.renews_at hour)

abbrev pub cycle_end_time : Time → ResetCycle → Time
cycle_end_time captured_at cycle =
    if after captured_at cycle.renews_at then cycle.renews_at else captured_at

-- `cycle.TotalDelta` with a positive delta added.
abbrev pub add_delta : Value → Value → Value → Value
add_delta last requests total = if ltb last requests then total + (requests - last) else total

pub close_and_open : Text → Time → QuotaInfo → Bool → Value → ResetCycle → Db ResetCycle → Outcome
close_and_open quota_type captured_at info has_last last cycle db =
    let delta =
      if has_last then add_delta last info.requests cycle.total_delta else cycle.total_delta in
    or_fail (close_cycle quota_type (cycle_end_time captured_at cycle) cycle.peak_requests delta db)
      close_failed last λ db'. open_cycle quota_type captured_at info last true db'

abbrev pub raise_peak : Value → Value → Value
raise_peak requests peak = if ltb peak requests then requests else peak

pub store_stats : Text → QuotaInfo → Value → Value → Value → Db ResetCycle → Outcome
store_stats quota_type info last peak delta db =
    or_fail (update_cycle quota_type peak delta db) update_failed last
      λ db'. record { db = db'; last_requests = info.requests; reset = false; error = none }

pub update_stats : Text → QuotaInfo → Bool → Value → ResetCycle → Db ResetCycle → Outcome
update_stats quota_type info has_last last cycle db =
    let peak = raise_peak info.requests cycle.peak_requests in
    if has_last
    then store_stats quota_type info last peak (add_delta last info.requests cycle.total_delta) db
    else if ltb cycle.peak_requests info.requests
    then store_stats quota_type info last peak cycle.total_delta db
    else record { db = db; last_requests = info.requests; reset = false; error = none }

pub process_active :
    Text → Time → QuotaInfo → Bool → Value → Option ResetCycle → Db ResetCycle → Outcome
process_active quota_type captured_at info has_last last none db =
    open_cycle quota_type captured_at info last false db
process_active quota_type captured_at info has_last last (some cycle) db =
    if reset_detected captured_at info cycle
    then close_and_open quota_type captured_at info has_last last cycle db
    else update_stats quota_type info has_last last cycle db

pub process_found :
    Text → Time → QuotaInfo → Bool → Value → Option (Option ResetCycle) → Db ResetCycle → Outcome
process_found quota_type captured_at info has_last last none db = fail query_failed last db
process_found quota_type captured_at info has_last last (some cycle) db =
    process_active quota_type captured_at info has_last last cycle db

pub process_quota : Text → Time → QuotaInfo → Bool → Value → Db ResetCycle → Outcome
process_quota quota_type captured_at info has_last last db =
    let (db', found) = query_active_cycle quota_type db in
    process_found quota_type captured_at info has_last last found db'

pub record Snapshot : Type 0 where
  pub captured_at : Time
  pub sub : QuotaInfo
  pub search : QuotaInfo
  pub tool_call : QuotaInfo

pub record Tracker : Type 0 where
  pub store : Db ResetCycle
  pub last_sub_requests : Value
  pub last_search_requests : Value
  pub last_tool_requests : Value
  pub has_last_values : Bool

abbrev pub subscription : Text
subscription = codes "subscription"

abbrev pub search_quota : Text
search_quota = codes "search"

abbrev pub toolcall : Text
toolcall = codes "toolcall"

-- `if err := ...; err != nil { return err }` between the quotas.
pub and_then : Option Error → Tracker → (Tracker → Tracker × Option Error) → Tracker × Option Error
and_then none t rest = rest t
and_then (some e) t rest = (t, some e)

-- `Process`: the three quotas in order, up to the first error.
pub process_tool : Snapshot → Tracker → Tracker × Option Error
process_tool s t =
    let o =
      process_quota toolcall s.captured_at s.tool_call t.has_last_values t.last_tool_requests
        t.store in
    and_then o.error (record t { store = o.db; last_tool_requests = o.last_requests })
      (λ t'. (record t' { has_last_values = true }, none))

pub process_search : Snapshot → Tracker → Tracker × Option Error
process_search s t =
    let o =
      process_quota search_quota s.captured_at s.search t.has_last_values t.last_search_requests
        t.store in
    and_then o.error (record t { store = o.db; last_search_requests = o.last_requests })
      (process_tool s)

pub process : Snapshot → Tracker → Tracker × Option Error
process s t =
    let o =
      process_quota subscription s.captured_at s.sub t.has_last_values t.last_sub_requests
        t.store in
    and_then o.error (record t { store = o.db; last_sub_requests = o.last_requests })
      (process_search s)
