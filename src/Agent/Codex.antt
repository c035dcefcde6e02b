-- ===== src/Agent/Codex.antt =====
-- `CodexAgent.poll` of server/internal/agent/codex_agent.go.
pub mod Steps
pub mod Paused
pub mod Failures
pub mod Resume
pub mod Sound
mod Tests
use one_auth_watch.Prelude.{
  ℕ, suc, ◌+◌, ◌*◌, Bool, true, false, not, ◌&&◌, Option, none, some, List, [], ◌∷◌, ◌++◌, leb, ltb,
  ◌==◌, map, if◌then◌else◌,
}
use one_auth_watch.Prelude.Clock.{Time, Duration, hour}
use one_auth_watch.Prelude.Text.{Text, text_eq}
use one_auth_watch.Database.Fault.{Db}
use one_auth_watch.Database.CodexSnapshots.{CodexSnapshot, insert_codex_snapshot}
use one_auth_watch.Database.Sessions.{Value}
use one_auth_watch.SessionManager.{SessionManager, report_poll}
use one_auth_watch.Tracker.Codex.{CodexQuota, CodexTracker, process}

abbrev pub max_codex_auth_failures : ℕ
max_codex_auth_failures = 3

abbrev pub codex_token_refresh_threshold : Duration
codex_token_refresh_threshold = 6 * hour

pub record CodexCredentials : Type 0 where
  pub access_token : Text
  pub refresh_token : Text
  pub expires_at : Time

-- What `api.RefreshCodexToken` answers; the access token of the new ones.
pub data Refreshed : Type 0 where
  reused : Refreshed
  refused : Refreshed
  renewed : Text → Refreshed

-- What `FetchUsage` answers. `auth_error` is `ErrCodexUnauthorized` or `ErrCodexForbidden`.
pub data Fetched : Type 0 where
  usage : List CodexQuota → Fetched
  auth_error : Fetched
  failed : Fetched

pub data AuthErrorAlert : Type 0 where
  refresh_token_reused : AuthErrorAlert
  refresh_failed : ℕ → AuthErrorAlert
  authentication_failed : AuthErrorAlert

-- What the agent sends: a request for the usage with a token, new tokens to the disk, an alert, and
-- a quota for the notifier to check.
pub data Message : Type 0 where
  request : Text → Message
  save_tokens : Text → Message
  alert : AuthErrorAlert → Message
  check_quota : Text → Value → Message

-- `token` is that of the client; `sent` has the last message first.
pub record CodexAgent : Type 0 where
  pub account_id : ℕ
  pub token : Text
  pub last_token : Text
  pub auth_fail_count : ℕ
  pub auth_paused : Bool
  pub last_failed_token : Text
  pub proactive_refresh_failures : ℕ
  pub has_notifier : Bool
  pub snapshots : Db CodexSnapshot
  pub tracker : Option CodexTracker
  pub sm : Option SessionManager
  pub sent : List Message

-- What a poll meets: the answers of the functions that are set in the agent, of the client, and of the
-- context, the time and a session id. `polling` is true, and an option is `none`, where the function
-- is not set.
pub record Poll : Type 0 where
  pub polling : Bool
  pub credentials : Option CodexCredentials
  pub refresh : Text → Refreshed
  pub save_failed : Bool
  pub disk_token : Option Text
  pub disk_token_again : Text
  pub fetch : Text → Fetched
  pub fetch_again : Text → Fetched
  pub cancelled : Bool
  pub cancelled_again : Bool
  pub now : Time
  pub uuid : ℕ

abbrev pub is_blank : Text → Bool
is_blank [] = true
is_blank (c ∷ s) = false

-- `ExpiresIn` is the time from now to `ExpiresAt`.
unfoldable pub is_expiring_soon : Time → CodexCredentials → Bool
is_expiring_soon now c =
    not (c.expires_at == 0) && ltb c.expires_at (now + codex_token_refresh_threshold)

abbrev pub send : Message → CodexAgent → CodexAgent
send m a = record a { sent = m ∷ a.sent }

unfoldable pub send_auth_error_notification : AuthErrorAlert → CodexAgent → CodexAgent
send_auth_error_notification e a = if a.has_notifier then send (alert e) a else a

abbrev pub pause : Text → CodexAgent → CodexAgent
pause token a = record a { auth_paused = true; last_failed_token = token }

abbrev pub lift_if : Bool → CodexAgent → CodexAgent
lift_if true a = record a { auth_paused = false; auth_fail_count = 0; last_failed_token = [] }
lift_if false a = a

abbrev pub use_token : Text → CodexAgent → CodexAgent
use_token t a = record a { token = t; last_token = t }

abbrev count_refusal : CodexAgent → CodexAgent
count_refusal a = record a { proactive_refresh_failures = suc a.proactive_refresh_failures }

unfoldable pub after_refresh : CodexCredentials → Bool → Refreshed → CodexAgent → CodexAgent
after_refresh c save_failed reused a =
    send_auth_error_notification refresh_token_reused (pause c.access_token a)
after_refresh c save_failed refused a =
    if leb max_codex_auth_failures (suc a.proactive_refresh_failures)
    then send_auth_error_notification (refresh_failed (suc a.proactive_refresh_failures))
        (pause c.access_token (count_refusal a))
    else count_refusal a
after_refresh c save_failed (renewed t) a =
    let a' = send (save_tokens t) (record a { proactive_refresh_failures = 0 }) in
    if save_failed then a' else lift_if a.auth_paused (use_token t a')

unfoldable pub refresh_if_expiring : Poll → Option CodexCredentials → CodexAgent → CodexAgent
refresh_if_expiring p none a = a
refresh_if_expiring p (some c) a =
    if is_expiring_soon p.now c && not (is_blank c.refresh_token)
    then after_refresh c p.save_failed (p.refresh c.refresh_token) a
    else a

-- The credentials on disk, before each poll.
unfoldable pub pick_up_token : Option Text → CodexAgent → CodexAgent
pick_up_token none a = a
pick_up_token (some t) a =
    if not (is_blank t) && not (text_eq t a.last_token)
    then lift_if (a.auth_paused && not (text_eq t a.last_failed_token)) (use_token t a)
    else a

abbrev pub track : ℕ → Time → List CodexQuota → Option CodexTracker → Option CodexTracker
track account_id now quotas none = none
track account_id now quotas (some t) = some (process account_id now quotas t).0

abbrev pub report : Time → ℕ → List Value → Option SessionManager → Option SessionManager
report now uuid values none = none
report now uuid values (some sm) = some (report_poll now uuid values sm).0

abbrev pub check_each : List CodexQuota → List Message → List Message
check_each [] sent = sent
check_each (q ∷ quotas) sent = check_each quotas (check_quota q.name q.utilization ∷ sent)

unfoldable pub report_usage : Poll → List CodexQuota → CodexAgent → CodexAgent
report_usage p quotas a = record a {
  tracker = track a.account_id p.now quotas a.tracker;
  sm = report p.now p.uuid (map (λ q. q.utilization) quotas) a.sm;
  sent = if a.has_notifier then check_each quotas a.sent else a.sent;
}

unfoldable pub accept_usage : Poll → List CodexQuota → CodexAgent → CodexAgent
accept_usage p quotas a =
    let (db, lost) = insert_codex_snapshot a.account_id p.now quotas a.snapshots in
    let a' = record a { snapshots = db; auth_fail_count = 0 } in
    if lost then a' else report_usage p quotas a'

unfoldable pub count_auth_failure : Text → CodexAgent → CodexAgent
count_auth_failure token a =
    let a' = record a { auth_fail_count = suc a.auth_fail_count } in
    if leb max_codex_auth_failures (suc a.auth_fail_count)
    then send_auth_error_notification authentication_failed (pause token a')
    else a'

-- The second request of a poll, with the token that was read again.
unfoldable pub after_retry : Poll → Text → Fetched → CodexAgent → CodexAgent
after_retry p token (usage quotas) a = accept_usage p quotas a
after_retry p token auth_error a = if p.cancelled_again then a else count_auth_failure token a
after_retry p token failed a = a

unfoldable pub retry : Poll → Option Text → CodexAgent → CodexAgent
retry p none a = a
retry p (some t) a =
    if is_blank p.disk_token_again
    then record a { last_token = [] }
    else after_retry p p.disk_token_again (p.fetch_again p.disk_token_again)
        (send (request p.disk_token_again) (use_token p.disk_token_again a))

unfoldable pub after_fetch : Poll → Fetched → CodexAgent → CodexAgent
after_fetch p (usage quotas) a = accept_usage p quotas a
after_fetch p auth_error a = if p.cancelled then a else retry p p.disk_token a
after_fetch p failed a = a

unfoldable pub fetch_usage : Poll → CodexAgent → CodexAgent
fetch_usage p a =
    if a.auth_paused then a else after_fetch p (p.fetch a.token) (send (request a.token) a)

unfoldable pub poll : Poll → CodexAgent → CodexAgent
poll p a =
    if p.polling
    then fetch_usage p (pick_up_token p.disk_token (refresh_if_expiring p p.credentials a))
    else a

-- `Run`: the polls of its ticker.
unfoldable pub polls : List Poll → CodexAgent → CodexAgent
polls [] a = a
polls (p ∷ ps) a = polls ps (poll p a)

-- The tokens of the requests, the last first.
abbrev pub requests : List Message → List Text
requests [] = []
requests (request t ∷ sent) = t ∷ requests sent
requests (save_tokens t ∷ sent) = requests sent
requests (alert e ∷ sent) = requests sent
requests (check_quota n v ∷ sent) = requests sent
