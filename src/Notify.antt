-- ===== src/Notify.antt =====
-- `NotificationEngine` of server/internal/notify/notify.go: `Check` and `sendNotification`.
-- Percentages and limits are whole numbers here; a threshold is a fraction, since an absolute override
-- is divided by the limit.
pub mod Log
pub mod Once
pub mod Rearm
pub mod Severity
mod Tests
use one_auth_watch.Prelude.{
  ℕ, zero, suc, ◌*◌, Bool, true, false, not, ◌&&◌, ◌||◌, Option, none, some, List, [], ◌∷◌, ◌++◌,
  ltb, leb, ◌==◌, if◌then◌else◌,
}
use one_auth_watch.Prelude.Clock.{Time}
use one_auth_watch.Prelude.Text.{Text, codes, text_eq, trim_space, to_lower}
use one_auth_watch.Prelude.Maps.{Map}
use one_auth_watch.Database.Fault.{Db}
use one_auth_watch.Database.Notifications.{
  LogEntry, upsert_notification_log, get_last_notification, clear_notification_log,
  delete_push_subscription, get_push_subscriptions,
}

pub record NotificationChannels : Type 0 where
  pub email : Bool
  pub push : Bool

pub record ThresholdOverride : Type 0 where
  pub warning : ℕ
  pub critical : ℕ
  pub is_absolute : Bool
  pub disable_reset : Bool
  pub disable_warning : Bool
  pub disable_crit : Bool

pub record NotificationTypes : Type 0 where
  pub warning : Bool
  pub critical : Bool
  pub reset : Bool

pub record NotificationConfig : Type 0 where
  pub warning : ℕ
  pub critical : ℕ
  pub overrides : Map Text ThresholdOverride
  pub types : NotificationTypes
  pub channels : NotificationChannels

pub record QuotaStatus : Type 0 where
  pub provider : Text
  pub quota_key : Text
  pub account_id : Text
  pub utilization : ℕ
  pub limit : ℕ
  pub reset_occurred : Bool

-- What the two senders answer to a message; `gone` is an error that contains "410".
pub data PushResult : Type 0 where
  accepted gone failed : PushResult

pub record Delivery : Type 0 where
  pub mail_accepted : Bool
  pub push_result : Text → PushResult

pub record NotificationEngine : Type 0 where
  pub log : Db LogEntry
  pub subscriptions : Db Text
  pub has_mailer : Bool
  pub has_push_sender : Bool
  pub cfg : NotificationConfig

abbrev if_empty : Text → Text → Text
if_empty d [] = d
if_empty d (c ∷ s) = c ∷ s

pub normalize_notification_provider : Text → Text
normalize_notification_provider provider =
    if_empty (codes "legacy") (to_lower (trim_space provider))

pub notification_override_key : Text → Text → Text
notification_override_key provider quota_key =
    normalize_notification_provider provider ++ 58 ∷ trim_space quota_key

pub notification_quota_key : QuotaStatus → Text
notification_quota_key status =
    if text_eq status.account_id [] || text_eq status.account_id (codes "1")
    then status.quota_key
    else status.account_id ++ 58 ∷ status.quota_key

-- The loop over the subscriptions: those that are gone are deleted. The flag is `sent`.
pub push_each : Delivery → List Text → Db Text → Bool → Db Text × Bool
push_each d [] db sent = (db, sent)
push_each d (endpoint ∷ endpoints) db sent = elim (d.push_result endpoint) [
  | accepted ↦ push_each d endpoints db true
  | gone ↦ push_each d endpoints (delete_push_subscription endpoint db).0 sent
  | failed ↦ push_each d endpoints db sent
]

abbrev push_to : Delivery → Option (List Text) → Db Text → Bool → Db Text × Bool
push_to d none db sent = (db, sent)
push_to d (some endpoints) db sent = push_each d endpoints db sent

-- Both channels; whether one of them took the message.
pub deliver : Delivery → NotificationEngine → Db Text × Bool
deliver d e =
    let mailed = e.cfg.channels.email && e.has_mailer && d.mail_accepted in
    if e.cfg.channels.push && e.has_push_sender
    then push_to d (get_push_subscriptions e.subscriptions).1
        (get_push_subscriptions e.subscriptions).0 mailed
    else (e.subscriptions, mailed)

-- `sendNotification` after the query of the log.
pub send_unless_logged :
    Delivery
    → Time
    → QuotaStatus
    → Text
    → Option Time
    → NotificationEngine
    → NotificationEngine × Option Text
send_unless_logged d now status kind none e = (e, none)
send_unless_logged d now status kind (some (suc t)) e = (e, none)
send_unless_logged d now status kind (some zero) e =
    let (subscriptions, sent) = deliver d e in
    if sent
    then (
      record e {
        subscriptions = subscriptions;
        log =
            (upsert_notification_log now (normalize_notification_provider status.provider)
              (notification_quota_key status) kind status.utilization e.log).0;
      },
      some kind,
    )
    else (record e { subscriptions = subscriptions }, none)

-- The engine, and the type of the notification that a channel took.
pub send_notification :
    Delivery → Time → QuotaStatus → Text → NotificationEngine → NotificationEngine × Option Text
send_notification d now status kind e =
    let (log, sent_at) =
      get_last_notification (normalize_notification_provider status.provider)
        (notification_quota_key status) kind e.log in
    send_unless_logged d now status kind sent_at (record e { log = log })

-- `cfg.Overrides[overrideKey]`, else the legacy key.
abbrev or_else : {A : Type 0} → Option A → Option A → Option A
or_else none b = b
or_else (some a) b = some a

pub find_override : NotificationConfig → QuotaStatus → Option ThresholdOverride
find_override cfg status =
    or_else
      (cfg.overrides (
        notification_override_key (normalize_notification_provider status.provider)
          status.quota_key))
      (cfg.overrides status.quota_key)

abbrev disabled : (ThresholdOverride → Bool) → Option ThresholdOverride → Bool
disabled flag none = false
disabled flag (some o) = flag o

-- `override.X > 0` decides whether the override counts; an absolute one is a share of the limit.
pub resolve : ℕ → (ThresholdOverride → ℕ) → QuotaStatus → Option ThresholdOverride → ℕ × ℕ
resolve global field status none = (global, 1)
resolve global field status (some o) =
    if not (ltb 0 (field o))
    then (global, 1)
    else if o.is_absolute && ltb 0 status.limit
    then (field o * 100, status.limit)
    else (field o, 1)

-- `utilization >= threshold`
abbrev pub reaches : ℕ → ℕ × ℕ → Bool
reaches utilization (num, den) = leb num (utilization * den)

pub critical_due : NotificationConfig → QuotaStatus → Bool
critical_due cfg status =
    let o = find_override cfg status in
    reaches status.utilization (resolve cfg.critical (λ o. o.critical) status o)
    && cfg.types.critical
    && not (disabled (λ o. o.disable_crit) o)

pub warning_due : NotificationConfig → QuotaStatus → Bool
warning_due cfg status =
    let o = find_override cfg status in
    reaches status.utilization (resolve cfg.warning (λ o. o.warning) status o)
    && cfg.types.warning
    && not (disabled (λ o. o.disable_warning) o)

pub reset_due : NotificationConfig → QuotaStatus → Bool
reset_due cfg status =
    cfg.types.reset && not (disabled (λ o. o.disable_reset) (find_override cfg status))

-- The type that `Check` sends, if any.
pub due : NotificationConfig → QuotaStatus → Option Text
due cfg status =
    if status.reset_occurred
    then if reset_due cfg status then some (codes "reset") else none
    else if critical_due cfg status
    then some (codes "critical")
    else if warning_due cfg status
    then some (codes "warning")
    else none

abbrev send_due :
    Delivery
    → Time
    → QuotaStatus
    → Option Text
    → NotificationEngine
    → NotificationEngine × Option Text
send_due d now status none e = (e, none)
send_due d now status (some kind) e = send_notification d now status kind e

pub clear_on_reset : QuotaStatus → NotificationEngine → NotificationEngine
clear_on_reset status e =
    if status.reset_occurred
    then record e {
      log =
          (clear_notification_log (normalize_notification_provider status.provider)
            (notification_quota_key status) e.log).0;
    }
    else e

pub check : Delivery → Time → QuotaStatus → NotificationEngine → NotificationEngine × Option Text
check d now status e =
    if not e.has_mailer && not e.has_push_sender
    then (e, none)
    else send_due d now status (due e.cfg status) (clear_on_reset status e)
