-- ===== src/Tracker/Synthetic/Stats.antt =====
-- What a cycle records of the polls that fall into it.
use Prim.Native.Nat.{max, min}
use one_auth_watch.Prelude.{
  ◌+◌, ◌-◌, ◌≡◌, refl, true, false, none, some, List, [], ◌∷◌, ◌++◌, arith,
}
use one_auth_watch.Prelude.Clock.{Time}
use one_auth_watch.Prelude.Text.{Text, text_eq_refl}
use one_auth_watch.Database.Fault.{Db, update_where, first_where}
use one_auth_watch.Database.Sessions.{Value}
use one_auth_watch.Database.Cycles.{
  ResetCycle, is_active, new_cycle, create_cycle, close_cycle, update_cycle, query_active_cycle,
}
use one_auth_watch.Tracker.Synthetic.{
  QuotaInfo, Outcome, open_cycle, reset_detected, close_and_open, store_stats, update_stats,
  process_active, process_found, process_quota, cycle_end_time, add_delta, raise_peak,
}

-- The polls of one quota, the one after the other.
abbrev pub Poll : Type 0
Poll = Time × QuotaInfo

pub process_all : Text → List Poll → Value → Db ResetCycle → Outcome
process_all quota_type [] last db = record {
  db = db;
  last_requests = last;
  reset = false;
  error = none;
}
process_all quota_type ((t, info) ∷ polls) last db =
    let o = process_quota quota_type t info true last db in
    process_all quota_type polls o.last_requests o.db

-- No poll is at a reset of a cycle that renews at the time of `c`.
unfoldable pub AllSame : ResetCycle → List Poll → Type 0
AllSame c [] = Unit
AllSame c ((t, info) ∷ polls) = (reset_detected t info c ≡ false) × AllSame c polls

-- The greatest number of requests, and the sum of the increases from poll to poll.
unfoldable pub greatest : Value → List Poll → Value
greatest peak [] = peak
greatest peak ((t, info) ∷ polls) = greatest (max peak info.requests) polls

unfoldable pub increases : Value → List Poll → Value
increases last [] = 0
increases last ((t, info) ∷ polls) = (info.requests - last) + increases info.requests polls

pub last_of : Value → List Poll → Value
last_of last [] = last
last_of last ((t, info) ∷ polls) = last_of info.requests polls

abbrev with_stats : Value → Value → ResetCycle → ResetCycle
with_stats peak delta c = record c { peak_requests = peak; total_delta = delta }

AllSame-stats :
    (peak delta : Value) (c : ResetCycle) (polls : List Poll)
    → AllSame c polls
    → AllSame (with_stats peak delta c) polls
unfolding AllSame reset_detected
AllSame-stats peak delta c [] same = same
AllSame-stats peak delta c ((t, info) ∷ polls) (now, later) =
    (now, AllSame-stats peak delta c polls later)

module _ (quota_type : Text) where
  first_where-stats :
      (peak delta : Value) (c : ResetCycle) (rows : List ResetCycle)
      → first_where (is_active quota_type) rows ≡ some c
      → first_where
          (is_active quota_type)
          (update_where (is_active quota_type) (with_stats peak delta) rows)
        ≡ some (with_stats peak delta c)
  first_where-stats peak delta c [] h = ground arith
  first_where-stats peak delta c (r ∷ rows) h = ground (arith, first_where-stats peak delta c rows)

  process_quota-same :
      (t : Time) (info : QuotaInfo) (last : Value) (c : ResetCycle) (rows : List ResetCycle)
      → first_where (is_active quota_type) rows ≡ some c
      → reset_detected t info c ≡ false
      → process_quota quota_type t info true last (record { rows = rows; faults = [] }) ≡ record {
        db = record {
          rows =
              update_where
                (is_active quota_type)
                (with_stats
                  (max c.peak_requests info.requests)
                  (c.total_delta + (info.requests - last)))
                rows;
          faults = [];
        };
        last_requests = info.requests;
        reset = false;
        error = none;
      }
  unfolding process_quota query_active_cycle process_found process_active update_stats store_stats
      update_cycle
  process_quota-same t info last c rows h same =
      let peak : raise_peak info.requests c.peak_requests ≡ max c.peak_requests info.requests =
        ground arith in
      let delta : add_delta last info.requests c.total_delta
          ≡ c.total_delta + (info.requests - last) =
        ground arith in
      rw (h, same, peak, delta) refl

  -- As long as no poll is at a reset and no statement fails, the active cycle has the greatest number
  -- of requests that was polled as its peak, has gained the sum of the increases from poll to poll,
  -- and is otherwise as it was.
  pub cycle_accounts :
      (polls : List Poll) (last : Value) (c : ResetCycle) (rows : List ResetCycle)
      → first_where (is_active quota_type) rows ≡ some c
      → AllSame c polls
      → let o = process_all quota_type polls last (record { rows = rows; faults = [] }) in
        (first_where (is_active quota_type) o.db.rows
          ≡ some (record c {
            peak_requests = greatest c.peak_requests polls;
            total_delta = c.total_delta + increases last polls;
          }))
        × (o.last_requests ≡ last_of last polls)
        × (o.db.faults ≡ [])
  unfolding process_all greatest increases last_of AllSame
  cycle_accounts [] last c rows h same = (ground (arith, h), refl, refl)
  cycle_accounts ((t, info) ∷ polls) last c rows h (now, later) =
      let peak = max c.peak_requests info.requests in
      let delta = c.total_delta + (info.requests - last) in
      let sum : delta + increases info.requests polls
          ≡ c.total_delta + ((info.requests - last) + increases info.requests polls) =
        omega arith in
      let (row, final, reliable) =
        cycle_accounts polls info.requests (with_stats peak delta c) _
          (first_where-stats peak delta c rows h) (AllSame-stats peak delta c polls later) in
      rw (process_all, process_quota-same t info last c rows h now, ← sum) (row, final, reliable)

  abbrev closed_at : Time → Value → Value → ResetCycle → ResetCycle
  closed_at t peak delta c = record c {
    cycle_end = some t;
    peak_requests = peak;
    total_delta = delta;
  }

  -- An update right after the close and the insert of a reset changes the inserted row only.
  only_new_row :
      (t renews end : Time) (peak delta first : Value) (rows : List ResetCycle)
      → update_where (is_active quota_type) (with_stats first 0) (
          update_where (is_active quota_type) (closed_at end peak delta) rows
          ++ new_cycle quota_type t renews ∷ [])
        ≡ update_where (is_active quota_type) (closed_at end peak delta) rows
          ++ with_stats first 0 (new_cycle quota_type t renews) ∷ []
  only_new_row t renews end peak delta first [] = rw (text_eq_refl quota_type) refl
  only_new_row t renews end peak delta first (r ∷ rows) =
      ground (arith, only_new_row t renews end peak delta first rows)

  -- At a reset, without failing statements, every active row of the quota type is closed: with the
  -- peak that was stored, the increase since the last poll added to its total, and its end at the
  -- stored renewal if that has passed, else at the poll. One new cycle is added, which starts at the
  -- poll with its requests as the peak, and the callback runs.
  reset_accounts :
      (t : Time) (info : QuotaInfo) (last : Value) (c : ResetCycle) (rows : List ResetCycle)
      → first_where (is_active quota_type) rows ≡ some c
      → reset_detected t info c ≡ true
      → process_quota quota_type t info true last (record { rows = rows; faults = [] }) ≡ record {
        db = record {
          rows =
              update_where
                (is_active quota_type)
                (λ r. record r {
                  cycle_end = some (min t c.renews_at);
                  peak_requests = c.peak_requests;
                  total_delta = c.total_delta + (info.requests - last);
                })
                rows
              ++ record (new_cycle quota_type t info.renews_at) { peak_requests = info.requests }
                ∷ [];
          faults = [];
        };
        last_requests = info.requests;
        reset = true;
        error = none;
      }
  unfolding process_quota query_active_cycle process_found process_active close_and_open close_cycle
      open_cycle create_cycle update_cycle
  reset_accounts t info last c rows h found =
      let end : cycle_end_time t c ≡ min t c.renews_at = ground arith in
      let delta : add_delta last info.requests c.total_delta
          ≡ c.total_delta + (info.requests - last) =
        ground arith in
      rw
        (
          h,
          found,
          end,
          delta,
          only_new_row t info.renews_at (min t c.renews_at) c.peak_requests
              (c.total_delta + (info.requests - last)) info.requests rows,
        )
        refl
