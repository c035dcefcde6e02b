-- ===== src/Notify/Tests.antt =====
-- Runs of the notification engine.
use one_auth_watch.Prelude.{
  ℕ, ◌*◌, ◌≤◌, ◌≡◌, refl, Bool, true, false, some, List, [], ◌∷◌, arith, if◌then◌else◌,
}
use one_auth_watch.Prelude.Clock.{Time, hour}
use one_auth_watch.Prelude.Text.{codes, text_eq, trim_space, to_lower}
use one_auth_watch.Prelude.Maps.{put, empty_map, text_key}
use one_auth_watch.Database.Notifications.{
  upsert_notification_log, get_last_notification, delete_push_subscription, get_push_subscriptions,
}
use one_auth_watch.Notify.{
  NotificationConfig, ThresholdOverride, QuotaStatus, gone, failed, Delivery, NotificationEngine,
  normalize_notification_provider, notification_override_key, notification_quota_key, push_each,
  deliver, send_unless_logged, send_notification, find_override, resolve, critical_due, due,
  clear_on_reset, check,
}
use one_auth_watch.Notify.Log.{logged}
use one_auth_watch.Notify.Once.{Call, concerns, count_delivered, once_per_cycle}
use one_auth_watch.Notify.Rearm.{critical, MailWorks, reset_rearms}

-- An absolute override: critical at 190 of the limit.
abbrev of_limit : ThresholdOverride
of_limit = record {
  warning = 0;
  critical = 190;
  is_absolute = true;
  disable_reset = false;
  disable_warning = false;
  disable_crit = false;
}

abbrev config : NotificationConfig
config = record {
  warning = 80;
  critical = 95;
  overrides = put empty_map (codes "zai:tokens") of_limit;
  types = record { warning = true; critical = true; reset = true };
  channels = record { email = true; push = true };
}

abbrev engine : NotificationEngine
engine = record {
  log = record { rows = []; faults = [] };
  subscriptions = record { rows = codes "a" ∷ codes "b" ∷ []; faults = [] };
  has_mailer = true;
  has_push_sender = true;
  cfg = config;
}

abbrev status : ℕ → QuotaStatus
status utilization = record {
  provider = codes " ZAI ";
  quota_key = codes "tokens";
  account_id = [];
  utilization = utilization;
  limit = 200;
  reset_occurred = false;
}

abbrev answers : Bool → Delivery
answers mail = record {
  mail_accepted = mail;
  push_result = λ e. if text_eq e (codes "a") then gone else failed;
}

abbrev call : Bool → Time → ℕ → Call
call mail now utilization = record {
  delivery = answers mail;
  now = now;
  status = status utilization;
}

abbrev calls : List Call
calls = call false hour 96 ∷ call true (2 * hour) 97 ∷ call true (90 * hour) 99 ∷ []

once_per_cycle_example :
    count_delivered (codes "zai") (codes "tokens") critical calls engine
    ≤ (if logged (codes "zai") (codes "tokens") critical [] then 0 else 1)
once_per_cycle_example =
    once_per_cycle (codes "zai") (codes "tokens") critical calls engine refl
      ((omega arith, refl), ((omega arith, refl), ((omega arith, refl), tt)))

-- The mail of the first call is refused, that of the second is taken, the third is not sent.
sent_once : count_delivered (codes "zai") (codes "tokens") critical calls engine ≡ 1
unfolding count_delivered check due critical_due find_override resolve notification_override_key
    normalize_notification_provider notification_quota_key clear_on_reset send_notification
    send_unless_logged get_last_notification upsert_notification_log deliver push_each
    get_push_subscriptions delete_push_subscription concerns trim_space to_lower text_eq
sent_once = refl

engine_works : MailWorks (answers true) engine
engine_works = record { has_mailer = refl; email = refl; accepted = refl }

over_limit : critical_due config (status 96) ≡ true
unfolding critical_due find_override resolve notification_override_key
    normalize_notification_provider trim_space to_lower text_eq
over_limit = refl

-- A reset as the callbacks of the trackers report it.
abbrev reset_of_tokens : QuotaStatus
reset_of_tokens = record (status 0) { limit = 0; reset_occurred = true }

reset_rearms_example :
    (check
      (answers true)
      (3 * hour)
      (record (status 96) { account_id = codes "1" })
      (check (answers false) (2 * hour) reset_of_tokens engine).0).1
    ≡ some critical
unfolding notification_quota_key text_eq critical_due find_override resolve
reset_rearms_example =
    reset_rearms (answers true) (answers false) (3 * hour) (2 * hour) reset_of_tokens
      (record (status 96) { account_id = codes "1" }) engine engine_works refl (omega arith) refl
      refl refl refl over_limit
