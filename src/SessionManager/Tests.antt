-- ===== src/SessionManager/Tests.antt =====
-- Runs of the session manager.
use one_auth_watch.Prelude.{ℕ, ◌*◌, ◌≡◌, refl, true, false, some, List, [], ◌∷◌, arith}
use one_auth_watch.Prelude.Clock.{second, minute}
use one_auth_watch.Prelude.Text.{codes}
use one_auth_watch.Database.Fault.{Db, first_where}
use one_auth_watch.Database.Sessions.{Session, has_id, new_session, close_orphaned_sessions}
use one_auth_watch.SessionManager.{
  SessionManager, new_session_manager, has_changed, increment_and_update, ensure_session, on_change,
  on_quiet, report_poll,
}
use one_auth_watch.SessionManager.Tracking.{
  Poll, report_all, IsTracked, report_all-IsTracked, new-IsTracked,
}
use one_auth_watch.SessionManager.Orphans.{NoOrphan, FreshIds, start, only_active_open}
use one_auth_watch.SessionManager.Accounts.{session_accounts, IsRunning, AllWithin, after_polls}

abbrev poll : ℕ → ℕ → List ℕ → Poll
poll seconds uuid values = record { at = seconds * second; uuid = uuid; values = values }

-- The second statement fails.
abbrev unreliable : Db Session
unreliable = record { rows = []; faults = false ∷ true ∷ [] }

abbrev reliable : Db Session
reliable = record { rows = []; faults = [] }

abbrev morning : List Poll
morning = poll 100 1 (10 ∷ 5 ∷ []) ∷ poll 160 2 (12 ∷ 5 ∷ []) ∷ poll 220 3 (12 ∷ 5 ∷ []) ∷ []

report_all-IsTracked_example :
    IsTracked (report_all morning (new_session_manager unreliable (codes "zai") (10 * minute)))
report_all-IsTracked_example =
    report_all-IsTracked morning (new_session_manager unreliable (codes "zai") (10 * minute))
      (new-IsTracked unreliable (codes "zai") (10 * minute))

morning_ids : FreshIds morning (start 0 reliable (codes "zai") (10 * minute))
unfolding start new_session_manager close_orphaned_sessions report_poll has_changed on_change
    on_quiet ensure_session increment_and_update
morning_ids = (refl, (refl, (refl, tt)))

morning-NoOrphan : NoOrphan (report_all morning (start 0 reliable (codes "zai") (10 * minute)))
morning-NoOrphan = only_active_open 0 reliable (codes "zai") (10 * minute) morning refl morning_ids

only_active_open_example :
    NoOrphan (report_all morning (start 0 reliable (codes "zai") (10 * minute)))
only_active_open_example =
    only_active_open 0 reliable (codes "zai") (10 * minute) morning refl morning_ids

abbrev under_way : Session
under_way = new_session 7 (100 * second) 0 (codes "zai") (10 ∷ [])

abbrev running : SessionManager
running = record {
  store = record { rows = under_way ∷ []; faults = [] };
  provider = codes "zai";
  idle_timeout = 10 * minute;
  session_id = some 7;
  last_activity_time = 100 * second;
  prev_values = 11 ∷ [];
  has_prev = true;
}

running-IsRunning : IsRunning 7 under_way running
running-IsRunning = record { reliable = refl; active = refl; seen = refl; row = refl }

abbrev two_polls : List Poll
two_polls = poll 150 8 (15 ∷ []) ∷ poll 160 9 (14 ∷ []) ∷ []

two_polls_within : AllWithin two_polls running
unfolding report_poll has_changed on_change on_quiet ensure_session increment_and_update
two_polls_within = ground arith

session_accounts_example :
    first_where (has_id 7) (report_all two_polls running).store.rows
    ≡ some (after_polls two_polls under_way)
session_accounts_example =
    session_accounts two_polls 7 under_way running two_polls_within running-IsRunning
