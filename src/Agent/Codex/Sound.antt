-- ===== src/Agent/Codex/Sound.antt =====
-- What the polls of an agent keep of the tracker and of the sessions that they report to.
use one_auth_watch.Prelude.{
  ℕ, ◌≤◌, inl, inr, Bool, true, false, not, ◌&&◌, Option, none, some, List, [], ◌∷◌, leb, suc,
  Bool-cases, if◌then◌else◌, map,
}
use one_auth_watch.Prelude.Clock.{Time}
use one_auth_watch.Prelude.Text.{Text, text_eq}
use one_auth_watch.Database.Sessions.{Value}
use one_auth_watch.SessionManager.{SessionManager}
use one_auth_watch.SessionManager.Tracking.{IsTracked, report_poll-IsTracked}
use one_auth_watch.Tracker.Codex.{CodexQuota, CodexTracker}
use one_auth_watch.Tracker.Codex.Unique.{active_cycles, process_codex_unique}
use one_auth_watch.Database.CodexSnapshots.{insert_codex_snapshot}
use one_auth_watch.Agent.Codex.{
  CodexCredentials, Refreshed, reused, refused, renewed, Fetched, usage, auth_error, failed,
  AuthErrorAlert, CodexAgent, Poll, is_blank, is_expiring_soon, max_codex_auth_failures,
  send_auth_error_notification, after_refresh, refresh_if_expiring, pick_up_token, use_token,
  lift_if, pause, send, request, track, report, report_usage, accept_usage, count_auth_failure,
  after_retry, retry, after_fetch, fetch_usage, poll, polls,
}
use one_auth_watch.Agent.Codex.Steps.{poll_rule, fetch_active, fetch_paused}

-- A property of the tracker and the session manager that reported usage keeps.
module _ (P : Option CodexTracker → Option SessionManager → Type 0)
    (next : (account : ℕ) (now : Time) (uuid : ℕ) (quotas : List CodexQuota)
        (t : Option CodexTracker) (sm : Option SessionManager)
      → P t sm
      → P (track account now quotas t) (report now uuid (map (λ q. q.utilization) quotas) sm)) where
  abbrev Holds : CodexAgent → Type 0
  Holds a = P a.tracker a.sm

  if-Holds : (b : Bool) (a a' : CodexAgent) → Holds a → Holds a' → Holds (if b then a else a')
  if-Holds true a a' h h' = h
  if-Holds false a a' h h' = h'

  alert-Holds :
      (e : AuthErrorAlert) (a : CodexAgent) → Holds a → Holds (send_auth_error_notification e a)
  unfolding send_auth_error_notification
  alert-Holds e a h = elim (Bool-cases a.has_notifier) [ inl b ↦ rw b h | inr b ↦ rw b h ]

  lift-Holds : (b : Bool) (a : CodexAgent) → Holds a → Holds (lift_if b a)
  lift-Holds true a h = h
  lift-Holds false a h = h

  refresh-Holds :
      (c : CodexCredentials) (save_failed : Bool) (r : Refreshed) (a : CodexAgent)
      → Holds a
      → Holds (after_refresh c save_failed r a)
  unfolding after_refresh
  refresh-Holds c save_failed reused a h = alert-Holds _ (pause c.access_token a) h
  refresh-Holds c save_failed refused a h =
      elim (Bool-cases (leb max_codex_auth_failures (suc a.proactive_refresh_failures))) [
        | inl e ↦ rw e (alert-Holds _ _ h)
        | inr e ↦ rw e h
      ]
  refresh-Holds c true (renewed t) a h = h
  refresh-Holds c false (renewed t) a h = lift-Holds a.auth_paused _ h

  expiring-Holds :
      (p : Poll) (c : Option CodexCredentials) (a : CodexAgent)
      → Holds a
      → Holds (refresh_if_expiring p c a)
  unfolding refresh_if_expiring
  expiring-Holds p none a h = h
  expiring-Holds p (some c) a h =
      elim (Bool-cases (is_expiring_soon p.now c && not (is_blank c.refresh_token))) [
        | inl e ↦ rw e (refresh-Holds c p.save_failed (p.refresh c.refresh_token) a h)
        | inr e ↦ rw e h
      ]

  pick_up-Holds : (d : Option Text) (a : CodexAgent) → Holds a → Holds (pick_up_token d a)
  unfolding pick_up_token
  pick_up-Holds none a h = h
  pick_up-Holds (some t) a h =
      elim (Bool-cases (not (is_blank t) && not (text_eq t a.last_token))) [
        | inl e ↦ rw e (lift-Holds _ (use_token t a) h)
        | inr e ↦ rw e h
      ]

  accept-Holds :
      (p : Poll) (quotas : List CodexQuota) (a : CodexAgent)
      → Holds a
      → Holds (accept_usage p quotas a)
  unfolding accept_usage report_usage
  accept-Holds p quotas a h =
      elim (Bool-cases (insert_codex_snapshot a.account_id p.now quotas a.snapshots).1) [
        | inl e ↦ rw e h
        | inr e ↦ rw e (next a.account_id p.now p.uuid quotas a.tracker a.sm h)
      ]

  count-Holds : (t : Text) (a : CodexAgent) → Holds a → Holds (count_auth_failure t a)
  unfolding count_auth_failure
  count-Holds t a h = elim (Bool-cases (leb max_codex_auth_failures (suc a.auth_fail_count))) [
    | inl e ↦ rw e (alert-Holds _ _ h)
    | inr e ↦ rw e h
  ]

  after_retry-Holds :
      (p : Poll) (t : Text) (f : Fetched) (a : CodexAgent) → Holds a → Holds (after_retry p t f a)
  unfolding after_retry
  after_retry-Holds p t (usage quotas) a h = accept-Holds p quotas a h
  after_retry-Holds p t auth_error a h = elim (Bool-cases p.cancelled_again) [
    | inl e ↦ rw e h
    | inr e ↦ rw e (count-Holds t a h)
  ]
  after_retry-Holds p t failed a h = h

  retry-Holds : (p : Poll) (d : Option Text) (a : CodexAgent) → Holds a → Holds (retry p d a)
  unfolding retry
  retry-Holds p none a h = h
  retry-Holds p (some t) a h = elim (Bool-cases (is_blank p.disk_token_again)) [
    | inl e ↦ rw e h
    | inr e ↦ rw e (
        after_retry-Holds p p.disk_token_again (p.fetch_again p.disk_token_again)
          (send (request p.disk_token_again) (use_token p.disk_token_again a)) h)
  ]

  after_fetch-Holds :
      (p : Poll) (f : Fetched) (a : CodexAgent) → Holds a → Holds (after_fetch p f a)
  unfolding after_fetch
  after_fetch-Holds p (usage quotas) a h = accept-Holds p quotas a h
  after_fetch-Holds p auth_error a h =
      if-Holds p.cancelled a (retry p p.disk_token a) h (retry-Holds p p.disk_token a h)
  after_fetch-Holds p failed a h = h

  fetch-Holds : (p : Poll) (a : CodexAgent) → Holds a → Holds (fetch_usage p a)
  fetch-Holds p a h = elim (Bool-cases a.auth_paused) [
    | inl e ↦ rw (fetch_paused p a e) h
    | inr e ↦
        rw (fetch_active p a e) (after_fetch-Holds p (p.fetch a.token) (send (request a.token) a) h)
  ]

  pub polls_keep : (ps : List Poll) (a : CodexAgent) → Holds a → Holds (polls ps a)
  unfolding polls
  polls_keep [] a h = h
  polls_keep (p ∷ ps) a h = polls_keep ps (poll p a) (
      poll_rule Holds p a h
        (fetch-Holds p _ (pick_up-Holds p.disk_token _ (expiring-Holds p p.credentials a h))))

-- Where there is a tracker, no account has two active cycles of a quota; where there is a session
-- manager, the session it believes active has an open row.
abbrev pub Unique : Option CodexTracker → Type 0
Unique none = Unit
Unique (some t) = (a : ℕ) (q : Text) → active_cycles a q t.store.rows ≤ 1

abbrev pub Tracked : Option SessionManager → Type 0
Tracked none = Unit
Tracked (some sm) = IsTracked sm

track-Unique :
    (account : ℕ) (now : Time) (quotas : List CodexQuota) (t : Option CodexTracker)
    → Unique t
    → Unique (track account now quotas t)
track-Unique account now quotas none h = tt
track-Unique account now quotas (some t) h =
    λ a q. process_codex_unique a q account now quotas t (h a q)

report-Tracked :
    (now : Time) (uuid : ℕ) (values : List Value) (sm : Option SessionManager)
    → Tracked sm
    → Tracked (report now uuid values sm)
report-Tracked now uuid values none h = tt
report-Tracked now uuid values (some sm) h = report_poll-IsTracked now uuid values sm h

-- Whatever an agent meets in its polls, and whatever statements fail: if no account had two active
-- cycles of a quota and the active session had an open row before, then it is so after them.
pub polls-IsSound :
    (ps : List Poll) (a : CodexAgent)
    → Unique a.tracker
    → Tracked a.sm
    → Unique (polls ps a).tracker × Tracked (polls ps a).sm
polls-IsSound ps a unique tracked =
    polls_keep (λ t sm. Unique t × Tracked sm)
      (λ account now uuid quotas t sm h.
        (track-Unique account now quotas t h.0, report-Tracked now uuid _ sm h.1))
      ps a (unique, tracked)
