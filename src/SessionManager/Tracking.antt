-- ===== src/SessionManager/Tracking.antt =====
-- The session that the manager believes active, against the rows of the table.
use one_auth_watch.Prelude.{
  inl, inr, Bool-cases, ℕ, ◌+◌, ◌<◌, ◌≡◌, refl, true, ◌&&◌, Option, none, some, List, [], ◌∷◌,
  arith, get_or, count_if, count_if-append,
}
use one_auth_watch.Prelude.Clock.{Time, Duration, elapsed_over}
use one_auth_watch.Prelude.Text.{Text}
use one_auth_watch.Database.Fault.{Db, update_where}
use one_auth_watch.Database.Sessions.{Session, Value, has_id, is_open, new_session, raise_to}
use one_auth_watch.SessionManager.{
  SessionManager, new_session_manager, has_changed, increment_and_update, close_active,
  ensure_session, on_change, on_quiet, report_poll,
}

-- A poll: when, the id that a new session would get, and the values.
pub record Poll : Type 0 where
  pub at : Time
  pub uuid : ℕ
  pub values : List Value

unfoldable pub report_all : List Poll → SessionManager → SessionManager
report_all [] sm = sm
report_all (p ∷ ps) sm = report_all ps (report_poll p.at p.uuid p.values sm).0

abbrev pub open_with : ℕ → List Session → ℕ
open_with i rows = count_if (λ r. has_id i r && is_open r) rows

-- The active session has an open row.
pub record IsTracked (sm : SessionManager) : Type 0 where
  pub current_open : (i : ℕ) → sm.session_id ≡ some i → 0 < open_with i sm.store.rows

open_with-update :
    (i j : ℕ) (change : Session → Session) (rows : List Session)
    → ((r : Session) → (has_id i (change r) ≡ has_id i r) × (is_open (change r) ≡ is_open r))
    → open_with i (update_where (has_id j) change rows) ≡ open_with i rows
open_with-update i j change [] same = refl
open_with-update i j change (r ∷ rows) same =
    ground (arith, same r, open_with-update i j change rows same)

increment_and_update-open :
    (i id : ℕ) (values : List Value) (sm : SessionManager)
    → open_with i (increment_and_update id values sm).store.rows ≡ open_with i sm.store.rows
unfolding increment_and_update
increment_and_update-open i id values sm = ground (
  arith,
  open_with-update i id (λ r. record r { snapshot_count = r.snapshot_count + 1 }) sm.store.rows
      (λ r. (refl, refl)),
  open_with-update i id
      (λ r. record r {
        max_sub = raise_to (get_or values 0 0) r.max_sub;
        max_search = raise_to (get_or values 1 0) r.max_search;
        max_tool = raise_to (get_or values 2 0) r.max_tool;
      })
      sm.store.rows (λ r. (refl, refl)),
  open_with-update i id
      (λ r. record r {
        max_sub = raise_to (get_or values 0 0) r.max_sub;
        max_search = raise_to (get_or values 1 0) r.max_search;
        max_tool = raise_to (get_or values 2 0) r.max_tool;
      })
      (update_where (has_id id) (λ r. record r { snapshot_count = r.snapshot_count + 1 })
        sm.store.rows)
      (λ r. (refl, refl)),
)

increment_and_update-keeps :
    (id : ℕ) (values : List Value) (sm : SessionManager)
    → ((increment_and_update id values sm).session_id ≡ sm.session_id)
      × ((increment_and_update id values sm).last_activity_time ≡ sm.last_activity_time)
      × ((increment_and_update id values sm).idle_timeout ≡ sm.idle_timeout)
      × ((increment_and_update id values sm).provider ≡ sm.provider)
unfolding increment_and_update
increment_and_update-keeps id values sm = (refl, refl, refl, refl)

increment_and_update-IsTracked :
    (id : ℕ) (values : List Value) (sm : SessionManager)
    → IsTracked sm
    → IsTracked (increment_and_update id values sm)
increment_and_update-IsTracked id values sm h = record {
  current_open = λ i e.
      rw increment_and_update-open
        (h.current_open i (rw ((increment_and_update-keeps id values sm).0) at e));
}

ensure_session-IsTracked :
    (now : Time) (uuid : ℕ) (old : List Value) (current : Option ℕ) (sm : SessionManager)
    → current ≡ sm.session_id
    → IsTracked sm
    → IsTracked (ensure_session now uuid old current sm).0
unfolding ensure_session
ensure_session-IsTracked now uuid old (some id) sm e h = h
ensure_session-IsTracked now uuid old none sm e h = record {
  current_open = λ i p. ground (
    arith,
    count_if-append (λ r. has_id i r && is_open r) sm.store.rows
        (new_session uuid now 0 sm.provider old ∷ []),
  );
}

on_change-IsTracked :
    (now : Time) (uuid : ℕ) (old values : List Value) (sm : SessionManager)
    → IsTracked sm
    → IsTracked (on_change now uuid old values sm)
unfolding on_change
on_change-IsTracked now uuid old values sm h =
    let (sm', id, failed) = ensure_session now uuid old sm.session_id sm in
    let t = ensure_session-IsTracked now uuid old sm.session_id sm refl h in
    elim (Bool-cases failed) [
      | inl e ↦ rw e t
      | inr e ↦ rw e (
          increment_and_update-IsTracked id values (record sm' { last_activity_time = now })
            (record { current_open = t.current_open }))
    ]

close_active-IsTracked :
    (id : ℕ) (now : Time) (sm : SessionManager) → IsTracked (close_active id now sm)
unfolding close_active
close_active-IsTracked id now sm = record { current_open = λ i e. cc }

on_quiet-IsTracked :
    (now : Time) (values : List Value) (current : Option ℕ) (sm : SessionManager)
    → IsTracked sm
    → IsTracked (on_quiet now values current sm)
unfolding on_quiet
on_quiet-IsTracked now values none sm h = h
on_quiet-IsTracked now values (some id) sm h =
    elim (Bool-cases (elapsed_over now sm.last_activity_time sm.idle_timeout)) [
      | inl e ↦ rw e (close_active-IsTracked id now sm)
      | inr e ↦ rw e (increment_and_update-IsTracked id values sm h)
    ]

-- The three outcomes of a poll, from the manager that has noted the new values.
abbrev pub noted : List Value → SessionManager → SessionManager
noted values sm = record sm { prev_values = values; has_prev = true }

pub report_poll_rule :
    (P : SessionManager → Type 0) (now : Time) (uuid : ℕ) (values : List Value)
    (sm : SessionManager)
    → P (noted values sm)
    → P (on_change now uuid sm.prev_values values (noted values sm))
    → P (on_quiet now values sm.session_id (noted values sm))
    → P (report_poll now uuid values sm).0
unfolding report_poll
report_poll_rule P now uuid values sm first change quiet = elim (Bool-cases sm.has_prev) [
  | inr e ↦ rw e first
  | inl e ↦ elim (Bool-cases (has_changed values sm)) [
    | inl c ↦ rw (c, e) change
    | inr c ↦ rw (c, e) quiet
  ]
]

pub report_poll-IsTracked :
    (now : Time) (uuid : ℕ) (values : List Value) (sm : SessionManager)
    → IsTracked sm
    → IsTracked (report_poll now uuid values sm).0
report_poll-IsTracked now uuid values sm h =
    let t : IsTracked (noted values sm) = record { current_open = h.current_open } in
    report_poll_rule IsTracked now uuid values sm t
      (on_change-IsTracked now uuid sm.prev_values values (noted values sm) t)
      (on_quiet-IsTracked now values sm.session_id (noted values sm) t)

-- Whatever the polls and whatever statements fail, a session that the manager believes active has an
-- open row in the table: no update goes to a row that is missing or closed.
pub report_all-IsTracked :
    (ps : List Poll) (sm : SessionManager) → IsTracked sm → IsTracked (report_all ps sm)
unfolding report_all
report_all-IsTracked [] sm h = h
report_all-IsTracked (p ∷ ps) sm h =
    report_all-IsTracked ps (report_poll p.at p.uuid p.values sm).0
      (report_poll-IsTracked p.at p.uuid p.values sm h)

pub new-IsTracked :
    (db : Db Session) (provider : Text) (idle : Duration)
    → IsTracked (new_session_manager db provider idle)
unfolding new_session_manager
new-IsTracked db provider idle = record { current_open = λ i e. cc }
