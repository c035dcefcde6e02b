-- ===== src/SessionManager.antt =====
-- Usage sessions: `SessionManager` of server/internal/agent/session_manager.go. The clock and the
-- generator of session ids are arguments; `none` is the empty session id.
pub mod Tracking
pub mod Orphans
pub mod Accounts
mod Tests
use one_auth_watch.Prelude.{
  ℕ, suc, ◌+◌, Bool, true, false, not, ◌&&◌, ◌||◌, Option, none, some, List, [], ◌∷◌, ltb, ◌==◌,
  if◌then◌else◌, get_or, length,
}
use one_auth_watch.Prelude.Clock.{Time, Duration, elapsed_over}
use one_auth_watch.Prelude.Text.{Text}
use one_auth_watch.Database.Fault.{Db}
use one_auth_watch.Database.Sessions.{
  Session, Value, create_session, close_session, update_session_max_requests,
  increment_snapshot_count,
}

pub record SessionManager : Type 0 where
  pub store : Db Session
  pub provider : Text
  pub idle_timeout : Duration
  pub session_id : Option ℕ
  pub last_activity_time : Time
  pub prev_values : List Value
  pub has_prev : Bool

pub new_session_manager : Db Session → Text → Duration → SessionManager
new_session_manager store provider idle_timeout = record {
  store = store;
  provider = provider;
  idle_timeout = idle_timeout;
  session_id = none;
  last_activity_time = 0;
  prev_values = [];
  has_prev = false;
}

-- The loop of `hasChanged`, over lists of one length.
pub differs : List Value → List Value → Bool
differs (v ∷ vs) (p ∷ ps) = not (v == p) || differs vs ps
differs _ _ = false

pub has_changed : List Value → SessionManager → Bool
unfolding differs
has_changed values sm =
    sm.has_prev && (not (length values == length sm.prev_values) || differs values sm.prev_values)

-- Errors of the two updates are logged, and nothing else.
pub increment_and_update : ℕ → List Value → SessionManager → SessionManager
unfolding increment_snapshot_count update_session_max_requests
increment_and_update id values sm =
    let counted = (increment_snapshot_count id sm.store).0 in
    record sm {
      store =
          (update_session_max_requests id (get_or values 0 0) (get_or values 1 0)
            (get_or values 2 0) counted).0;
    }

-- `closeSession`: the session is given up also where the store reports an error.
pub close_active : ℕ → Time → SessionManager → SessionManager
unfolding close_session
close_active id end_time sm = record sm {
  store = (close_session id end_time sm.store).0;
  session_id = none;
}

-- The session of a change: the one that is active, or a new one with the old values as its start.
-- The flag is an error of the store.
pub ensure_session : Time → ℕ → List Value → Option ℕ → SessionManager → SessionManager × ℕ × Bool
unfolding create_session
ensure_session now uuid old_prev (some id) sm = (sm, id, false)
ensure_session now uuid old_prev none sm =
    let (store, failed) = create_session uuid now 0 sm.provider old_prev sm.store in
    (
      record sm {
        store = store;
        session_id = if failed then none else some uuid;
        last_activity_time = now;
      },
      uuid,
      failed,
    )

pub on_change : Time → ℕ → List Value → List Value → SessionManager → SessionManager
on_change now uuid old_prev values sm =
    let (sm', id, failed) = ensure_session now uuid old_prev sm.session_id sm in
    if failed then sm' else increment_and_update id values (record sm' { last_activity_time = now })

pub on_quiet : Time → List Value → Option ℕ → SessionManager → SessionManager
on_quiet now values none sm = sm
on_quiet now values (some id) sm =
    if elapsed_over now sm.last_activity_time sm.idle_timeout
    then close_active id now sm
    else increment_and_update id values sm

pub report_poll : Time → ℕ → List Value → SessionManager → SessionManager × Bool
report_poll now uuid values sm =
    let changed = has_changed values sm in
    let old_prev = sm.prev_values in
    let sm' = record sm { prev_values = values; has_prev = true } in
    if not sm.has_prev
    then (sm', false)
    else if changed
    then (on_change now uuid old_prev values sm', true)
    else (on_quiet now values sm'.session_id sm', false)

-- `Close`
abbrev pub close_some : Time → Option ℕ → SessionManager → SessionManager
close_some now none sm = sm
close_some now (some id) sm = close_active id now sm

pub close : Time → SessionManager → SessionManager
close now sm = close_some now sm.session_id sm
