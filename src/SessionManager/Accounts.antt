-- ===== src/SessionManager/Accounts.antt =====
-- What the row of a session says when its polls are over: how many there were, and the greatest
-- values.
use Prim.Native.Nat.{max}
use mathlib.Core.List.{foldl}
use one_auth_watch.Prelude.{
  ℕ, ◌+◌, ◌≤◌, ◌≡◌, refl, ap, ◌∙◌, true, not, ◌&&◌, none, some, List, [], ◌∷◌, arith, if◌then◌else◌,
  get_or, length,
}
use one_auth_watch.Prelude.Clock.{Time, Duration, elapsed_over}
use one_auth_watch.Database.Fault.{update_where, first_where}
use one_auth_watch.Database.Sessions.{Session, Value, has_id, raise_to}
use one_auth_watch.SessionManager.{
  SessionManager, has_changed, increment_and_update, close_active, ensure_session, on_change,
  on_quiet, report_poll,
}
use one_auth_watch.SessionManager.Tracking.{Poll, report_all, noted}

-- When an active session goes on: exactly unless the values did not change and more than the idle
-- timeout has passed since they last did. Failing statements make no difference.
report_poll-session_id :
    (now : Time) (uuid id : ℕ) (values : List Value) (sm : SessionManager)
    → sm.has_prev ≡ true
    → sm.session_id ≡ some id
    → (report_poll now uuid values sm).0.session_id ≡ (
        if not (has_changed values sm) && elapsed_over now sm.last_activity_time sm.idle_timeout
        then none
        else some id)
unfolding report_poll on_change on_quiet ensure_session increment_and_update close_active
    has_changed
report_poll-session_id now uuid id values sm seen active = ground arith

-- A session under way, with the row that the table has for it.
pub record IsRunning (id : ℕ) (r : Session) (sm : SessionManager) : Type 0 where
  pub reliable : sm.store.faults ≡ []
  pub active : sm.session_id ≡ some id
  pub seen : sm.has_prev ≡ true
  pub row : first_where (has_id id) sm.store.rows ≡ some r

abbrev pub counted : List Value → Session → Session
counted values r = record r {
  snapshot_count = r.snapshot_count + 1;
  max_sub = raise_to (get_or values 0 0) r.max_sub;
  max_search = raise_to (get_or values 1 0) r.max_search;
  max_tool = raise_to (get_or values 2 0) r.max_tool;
}

first-update :
    (id : ℕ) (change : Session → Session) (rows : List Session) (r : Session)
    → ((x : Session) → has_id id (change x) ≡ has_id id x)
    → first_where (has_id id) rows ≡ some r
    → first_where (has_id id) (update_where (has_id id) change rows) ≡ some (change r)
first-update id change [] r same h = cc
first-update id change (x ∷ rows) r same h =
    ground (arith, same x, first-update id change rows r same)

increment_and_update-row :
    (id : ℕ) (values : List Value) (sm : SessionManager) (r : Session)
    → sm.store.faults ≡ []
    → first_where (has_id id) sm.store.rows ≡ some r
    → first_where (has_id id) (increment_and_update id values sm).store.rows
      ≡ some (counted values r)
unfolding increment_and_update
increment_and_update-row id values sm r e h =
    rw e (first-update id _ _ _ (λ x. refl) (first-update id _ sm.store.rows r (λ x. refl) h))

-- The poll comes within the idle timeout of the last change.
abbrev pub Within : Time → Duration → Poll → Type 0
Within last idle p = (last ≤ p.at) × (p.at ≤ last + idle)

-- Such a poll counts into the active session, and does nothing else to it.
report_poll-active :
    (p : Poll) (id : ℕ) (sm : SessionManager)
    → Within sm.last_activity_time sm.idle_timeout p
    → sm.has_prev ≡ true
    → sm.session_id ≡ some id
    → (report_poll p.at p.uuid p.values sm).0
      ≡ increment_and_update id p.values (record (noted p.values sm) {
        last_activity_time = if has_changed p.values sm then p.at else sm.last_activity_time;
      })
unfolding report_poll on_change on_quiet ensure_session
report_poll-active p id sm w seen active = ground arith

increment_and_update-IsRunning :
    (id : ℕ) (values : List Value) (r : Session) (sm : SessionManager)
    → IsRunning id r sm
    → IsRunning id (counted values r) (increment_and_update id values sm)
increment_and_update-IsRunning id values r sm h = record {
  reliable = unfold increment_and_update in rw h.reliable;
  active = unfold increment_and_update in h.active;
  seen = unfold increment_and_update in h.seen;
  row = increment_and_update-row id values sm r h.reliable h.row;
}

report_poll-IsRunning :
    (p : Poll) (id : ℕ) (r : Session) (sm : SessionManager)
    → Within sm.last_activity_time sm.idle_timeout p
    → IsRunning id r sm
    → IsRunning id (counted p.values r) (report_poll p.at p.uuid p.values sm).0
report_poll-IsRunning p id r sm w h = rw (report_poll-active p id sm w h.seen h.active) (
    increment_and_update-IsRunning id p.values r _
      (record { reliable = h.reliable; active = h.active; seen = refl; row = h.row }))

report_poll-times :
    (p : Poll) (id : ℕ) (sm : SessionManager)
    → Within sm.last_activity_time sm.idle_timeout p
    → sm.has_prev ≡ true
    → sm.session_id ≡ some id
    → (sm.last_activity_time ≤ (report_poll p.at p.uuid p.values sm).0.last_activity_time)
      × ((report_poll p.at p.uuid p.values sm).0.idle_timeout ≡ sm.idle_timeout)
report_poll-times p id sm w seen active =
    rw (report_poll-active p id sm w seen active)
      (unfold increment_and_update in (ground arith, refl))

-- Each poll comes within the idle timeout of the last change, as the manager has it by then.
abbrev pub AllWithin : List Poll → SessionManager → Type 0
AllWithin [] sm = Unit
AllWithin (p ∷ ps) sm =
    Within sm.last_activity_time sm.idle_timeout p
    × AllWithin ps (report_poll p.at p.uuid p.values sm).0

report_all-IsRunning :
    (ps : List Poll) (id : ℕ) (r : Session) (sm : SessionManager)
    → AllWithin ps sm
    → IsRunning id r sm
    → IsRunning id (foldl (λ x p. counted p.values x) r ps) (report_all ps sm)
unfolding report_all
report_all-IsRunning [] id r sm w h = h
report_all-IsRunning (p ∷ ps) id r sm w h =
    report_all-IsRunning ps id (counted p.values r) (report_poll p.at p.uuid p.values sm).0 w.1
      (report_poll-IsRunning p id r sm w.0 h)

-- The greatest of a value and the first components of the polls' values.
abbrev pub greatest : ℕ → Value → List Poll → Value
greatest i v [] = v
greatest i v (p ∷ ps) = greatest i (max v (get_or p.values i 0)) ps

raise_to-max : (v old : Value) → raise_to v old ≡ max old v
raise_to-max v old = ground arith

-- The row `r` after polls: only the count of snapshots and the three maxima are new.
abbrev pub after_polls : List Poll → Session → Session
after_polls ps r = record r {
  snapshot_count = r.snapshot_count + length ps;
  max_sub = greatest 0 r.max_sub ps;
  max_search = greatest 1 r.max_search ps;
  max_tool = greatest 2 r.max_tool ps;
}

counted_more :
    (p : Poll) (ps : List Poll) (r : Session)
    → after_polls ps (counted p.values r) ≡ after_polls (p ∷ ps) r
counted_more p ps r = grind arith

fold_counted :
    (ps : List Poll) (r : Session) → foldl (λ x p. counted p.values x) r ps ≡ after_polls ps r
fold_counted [] r = ap (λ n. record r { snapshot_count = n }) (omega arith)
fold_counted (p ∷ ps) r = fold_counted ps (counted p.values r) ∙ counted_more p ps r

-- While no statement fails, a session under way whose polls all come within the idle timeout of the
-- last change has, after them, the row that it had, with one snapshot more for each poll, and as
-- maxima the greatest values reported. Every other column is as it was.
pub session_accounts :
    (ps : List Poll) (id : ℕ) (r : Session) (sm : SessionManager)
    → AllWithin ps sm
    → IsRunning id r sm
    → first_where (has_id id) (report_all ps sm).store.rows ≡ some (after_polls ps r)
session_accounts ps id r sm w h =
    (report_all-IsRunning ps id r sm w h).row ∙ ap (λ x. some x) (fold_counted ps r)
