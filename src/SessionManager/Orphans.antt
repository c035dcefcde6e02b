-- ===== src/SessionManager/Orphans.antt =====
-- Without failing statements, no row stays open but that of the active session.
use mathlib.Core.Path.{subst}
use one_auth_watch.Prelude.{
  inl, inr, Bool-cases, ℕ, ◌≡◌, refl, sym, true, false, Option, none, some, List, [], ◌∷◌, ◌++◌,
  arith, All,
}
use one_auth_watch.Prelude.Clock.{Time, Duration, elapsed_over}
use one_auth_watch.Prelude.Text.{Text, text_eq}
use one_auth_watch.Database.Fault.{Db, update_where, first_where}
use one_auth_watch.Database.Sessions.{
  Session, Value, has_id, is_open, default_provider, create_session, close_orphaned_sessions,
  close_session,
}
use one_auth_watch.SessionManager.{
  SessionManager, new_session_manager, increment_and_update, close_active, ensure_session,
  on_change, on_quiet, report_poll, close, close_some,
}
use one_auth_watch.SessionManager.Tracking.{Poll, report_all, noted, report_poll_rule}

-- A row of the provider that is open belongs to the session `current`.
abbrev pub IsCurrent : Text → Option ℕ → Session → Type 0
IsCurrent provider current r =
    text_eq r.provider (default_provider provider) ≡ true → is_open r ≡ true → current ≡ some r.id

pub record NoOrphan (sm : SessionManager) : Type 0 where
  pub reliable : sm.store.faults ≡ []
  pub owned : All (IsCurrent sm.provider sm.session_id) sm.store.rows

update-owned :
    (p : Text) (c : Option ℕ) (j : ℕ) (change : Session → Session) (rows : List Session)
    → ((r : Session) → IsCurrent p c r → IsCurrent p c (change r))
    → All (IsCurrent p c) rows
    → All (IsCurrent p c) (update_where (has_id j) change rows)
update-owned p c j change [] same h = tt
update-owned p c j change (r ∷ rows) same h = (
  elim (Bool-cases (has_id j r)) [ inl e ↦ rw e (same r h.0) | inr e ↦ rw e h.0 ],
  update-owned p c j change rows same h.1,
)

append-owned :
    (p : Text) (i : ℕ) (r : Session) (rows : List Session)
    → r.id ≡ i
    → All (IsCurrent p none) rows
    → All (IsCurrent p (some i)) (rows ++ r ∷ [])
append-owned p i r [] e h = (λ a b. cc, tt)
append-owned p i r (x ∷ rows) e h = (λ a b. cc (h.0 a b), append-owned p i r rows e h.1)

closed-owned :
    (p : Text) (i : ℕ) (now : Time) (rows : List Session)
    → All (IsCurrent p (some i)) rows
    → All (IsCurrent p none) (update_where (has_id i) (λ r. record r { ended_at = some now }) rows)
closed-owned p i now [] h = tt
closed-owned p i now (r ∷ rows) h = (λ a b. ground (arith, h.0), closed-owned p i now rows h.1)

increment_and_update-NoOrphan :
    (id : ℕ) (values : List Value) (sm : SessionManager)
    → NoOrphan sm
    → NoOrphan (increment_and_update id values sm)
unfolding increment_and_update
increment_and_update-NoOrphan id values sm h = record {
  reliable = rw h.reliable;
  owned = rw h.reliable (
      update-owned sm.provider sm.session_id id _ _ (λ r k. k)
        (update-owned sm.provider sm.session_id id _ sm.store.rows (λ r k. k) h.owned));
}

close_active-NoOrphan :
    (id : ℕ) (now : Time) (sm : SessionManager)
    → sm.session_id ≡ some id
    → NoOrphan sm
    → NoOrphan (close_active id now sm)
unfolding close_active close_session
close_active-NoOrphan id now sm e h = record {
  reliable = rw h.reliable;
  owned = rw h.reliable (
      closed-owned sm.provider id now sm.store.rows
        (subst (λ c. All (IsCurrent sm.provider c) sm.store.rows) e h.owned));
}

-- A poll without failing statements gets a session id that no row has.
abbrev pub IsFresh : ℕ → SessionManager → Type 0
IsFresh uuid sm = first_where (has_id uuid) sm.store.rows ≡ none

ensure_session-NoOrphan :
    (now : Time) (uuid : ℕ) (old : List Value) (current : Option ℕ) (sm : SessionManager)
    → current ≡ sm.session_id
    → IsFresh uuid sm
    → NoOrphan sm
    → NoOrphan (ensure_session now uuid old current sm).0
unfolding ensure_session
ensure_session-NoOrphan now uuid old (some id) sm e fresh h = h
ensure_session-NoOrphan now uuid old none sm e fresh h =
    let before : All (IsCurrent sm.provider none) sm.store.rows =
      subst (λ c. All (IsCurrent sm.provider c) sm.store.rows) (sym e) h.owned in
    rw (fresh, create_session)
      (rw h.reliable (record {
        reliable = refl;
        owned = append-owned sm.provider uuid _ sm.store.rows refl before;
      }))

on_change-NoOrphan :
    (now : Time) (uuid : ℕ) (old values : List Value) (sm : SessionManager)
    → IsFresh uuid sm
    → NoOrphan sm
    → NoOrphan (on_change now uuid old values sm)
unfolding on_change
on_change-NoOrphan now uuid old values sm fresh h =
    let (sm', id, failed) = ensure_session now uuid old sm.session_id sm in
    let t = ensure_session-NoOrphan now uuid old sm.session_id sm refl fresh h in
    elim (Bool-cases failed) [
      | inl e ↦ rw e t
      | inr e ↦ rw e (
          increment_and_update-NoOrphan id values (record sm' { last_activity_time = now })
            (record { reliable = t.reliable; owned = t.owned }))
    ]

on_quiet-NoOrphan :
    (now : Time) (values : List Value) (current : Option ℕ) (sm : SessionManager)
    → sm.session_id ≡ current
    → NoOrphan sm
    → NoOrphan (on_quiet now values current sm)
unfolding on_quiet
on_quiet-NoOrphan now values none sm same h = h
on_quiet-NoOrphan now values (some id) sm same h =
    elim (Bool-cases (elapsed_over now sm.last_activity_time sm.idle_timeout)) [
      | inl e ↦ rw e (close_active-NoOrphan id now sm same h)
      | inr e ↦ rw e (increment_and_update-NoOrphan id values sm h)
    ]

report_poll-NoOrphan :
    (now : Time) (uuid : ℕ) (values : List Value) (sm : SessionManager)
    → IsFresh uuid sm
    → NoOrphan sm
    → NoOrphan (report_poll now uuid values sm).0
report_poll-NoOrphan now uuid values sm fresh h =
    let t : NoOrphan (noted values sm) = record { reliable = h.reliable; owned = h.owned } in
    report_poll_rule NoOrphan now uuid values sm t
      (on_change-NoOrphan now uuid sm.prev_values values (noted values sm) fresh t)
      (on_quiet-NoOrphan now values sm.session_id (noted values sm) refl t)

-- Every id that the generator hands out is new to the table.
abbrev pub FreshIds : List Poll → SessionManager → Type 0
FreshIds [] sm = Unit
FreshIds (p ∷ ps) sm = IsFresh p.uuid sm × FreshIds ps (report_poll p.at p.uuid p.values sm).0

report_all-NoOrphan :
    (ps : List Poll) (sm : SessionManager)
    → FreshIds ps sm
    → NoOrphan sm
    → NoOrphan (report_all ps sm)
unfolding report_all
report_all-NoOrphan [] sm fresh h = h
report_all-NoOrphan (p ∷ ps) sm fresh h =
    report_all-NoOrphan ps (report_poll p.at p.uuid p.values sm).0 fresh.1
      (report_poll-NoOrphan p.at p.uuid p.values sm fresh.0 h)

-- The manager of a process that starts on a table, once the sessions left open are closed.
unfoldable pub start : Time → Db Session → Text → Duration → SessionManager
start now db provider idle = new_session_manager (close_orphaned_sessions now db).0 provider idle

closed-IsCurrent :
    (p : Text) (now : Time) (rows : List Session)
    → All (IsCurrent p none) (update_where is_open (λ r. record r { ended_at = some now }) rows)
closed-IsCurrent p now [] = tt
closed-IsCurrent p now (r ∷ rows) = (λ a b. ground arith, closed-IsCurrent p now rows)

start-NoOrphan :
    (now : Time) (db : Db Session) (provider : Text) (idle : Duration)
    → db.faults ≡ []
    → NoOrphan (start now db provider idle)
unfolding start new_session_manager close_orphaned_sessions
start-NoOrphan now db provider idle e = record {
  reliable = rw e;
  owned = rw e (closed-IsCurrent provider now db.rows);
}

-- While no statement fails, at every moment after a start the only row of the provider that can be
-- open is that of the active session, whatever the polls.
pub only_active_open :
    (now : Time) (db : Db Session) (provider : Text) (idle : Duration) (ps : List Poll)
    → db.faults ≡ []
    → FreshIds ps (start now db provider idle)
    → NoOrphan (report_all ps (start now db provider idle))
only_active_open now db provider idle ps reliable fresh =
    report_all-NoOrphan ps (start now db provider idle) fresh
      (start-NoOrphan now db provider idle reliable)

abbrev pub IsClosed : Text → Session → Type 0
IsClosed provider r = text_eq r.provider (default_provider provider) ≡ true → is_open r ≡ false

All-IsClosed :
    (p : Text) (rows : List Session) → All (IsCurrent p none) rows → All (IsClosed p) rows
All-IsClosed p [] h = tt
All-IsClosed p (r ∷ rows) h = (λ a. ground (arith, h.0), All-IsClosed p rows h.1)

close_active-session_id :
    (id : ℕ) (now : Time) (sm : SessionManager) → (close_active id now sm).session_id ≡ none
unfolding close_active
close_active-session_id id now sm = refl

close_some-IsClosed :
    (now : Time) (current : Option ℕ) (sm : SessionManager)
    → sm.session_id ≡ current
    → NoOrphan sm
    → All (IsClosed (close_some now current sm).provider) (close_some now current sm).store.rows
close_some-IsClosed now none sm e h =
    All-IsClosed sm.provider sm.store.rows
      (subst (λ c. All (IsCurrent sm.provider c) sm.store.rows) e h.owned)
close_some-IsClosed now (some id) sm e h = All-IsClosed _ _ (
    subst
      (λ c. All (IsCurrent (close_active id now sm).provider c) (close_active id now sm).store.rows)
      (close_active-session_id id now sm) (close_active-NoOrphan id now sm e h).owned)

-- A manager in such a state that is closed leaves no open row of its provider.
close-IsClosed :
    (now : Time) (sm : SessionManager)
    → NoOrphan sm
    → All (IsClosed (close now sm).provider) (close now sm).store.rows
unfolding close
close-IsClosed now sm h = close_some-IsClosed now sm.session_id sm refl h
