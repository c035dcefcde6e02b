-- ===== src/Tracker/Synthetic/Tests.antt =====
-- Runs of the Synthetic tracker.
use one_auth_watch.Prelude.{ℕ, ◌+◌, ◌*◌, ◌≤◌, ◌≡◌, refl, true, false, some, List, [], ◌∷◌, arith}
use one_auth_watch.Prelude.Clock.{Time, minute, hour}
use one_auth_watch.Prelude.Text.{text_eq}
use one_auth_watch.Database.Fault.{first_where}
use one_auth_watch.Database.Cycles.{ResetCycle, is_active, new_cycle}
use one_auth_watch.Tracker.Synthetic.{
  QuotaInfo, Snapshot, Tracker, subscription, reset_detected, process,
}
use one_auth_watch.Tracker.Synthetic.Unique.{active_cycles, process_unique}
use one_auth_watch.Tracker.Synthetic.Stats.{
  Poll, process_all, AllSame, greatest, increases, last_of, cycle_accounts,
}

abbrev quota : ℕ → Time → QuotaInfo
quota requests renews_at = record { requests = requests; renews_at = renews_at }

abbrev current : ResetCycle
current = record (new_cycle subscription (5 * hour) (10 * hour + 59 * minute)) {
  peak_requests = 40;
}

-- The statement after the close fails.
abbrev tracker : Tracker
tracker = record {
  store = record { rows = current ∷ []; faults = false ∷ false ∷ true ∷ [] };
  last_sub_requests = 40;
  last_search_requests = 0;
  last_tool_requests = 0;
  has_last_values = true;
}

abbrev snapshot : Snapshot
snapshot = record {
  captured_at = 12 * hour;
  sub = quota 3 (15 * hour);
  search = quota 0 (13 * hour);
  tool_call = quota 0 (20 * hour);
}

process_unique_example : active_cycles subscription (process snapshot tracker).0.store.rows ≤ 1
unfolding text_eq
process_unique_example = process_unique subscription snapshot tracker (omega arith)

abbrev polls : List Poll
polls =
    (6 * hour, quota 50 (10 * hour))
    ∷ (7 * hour, quota 45 (10 * hour + minute))
    ∷ (8 * hour, quota 48 (10 * hour + 2 * minute))
    ∷ []

polls_same : AllSame current polls
unfolding AllSame reset_detected
polls_same = (refl, (refl, (refl, tt)))

open_found : first_where (is_active subscription) (current ∷ []) ≡ some current
unfolding text_eq
open_found = refl

cycle_accounts_example :
    let o = process_all subscription polls 40 (record { rows = current ∷ []; faults = [] }) in
    (first_where (is_active subscription) o.db.rows
      ≡ some (record current {
        peak_requests = greatest 40 polls;
        total_delta = 0 + increases 40 polls;
      }))
    × (o.last_requests ≡ last_of 40 polls)
    × (o.db.faults ≡ [])
cycle_accounts_example =
    cycle_accounts subscription polls 40 current (current ∷ []) open_found polls_same

polls_numbers : (greatest 40 polls ≡ 50) × (increases 40 polls ≡ 13)
unfolding greatest increases
polls_numbers = (refl, refl)
