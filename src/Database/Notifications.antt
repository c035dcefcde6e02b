-- ===== src/Database/Notifications.antt =====
-- The `notification_log` and `push_subscriptions` tables of server/internal/store/store.go. The
-- program reads of a subscription its endpoint alone here.
use one_auth_watch.Prelude.{ℕ, Bool, not, ◌&&◌, Option, none, some, List, [], ◌∷◌, ◌++◌, keep}
use one_auth_watch.Prelude.Clock.{Time}
use one_auth_watch.Prelude.Text.{Text, codes, text_eq}
use one_auth_watch.Database.Fault.{Db, exec, query, first_where}

pub record LogEntry : Type 0 where
  pub provider : Text
  pub quota_key : Text
  pub notification_type : Text
  pub sent_at : Time
  pub utilization : ℕ

-- `if provider == "" { provider = "legacy" }`
abbrev pub or_legacy : Text → Text
or_legacy [] = codes "legacy"
or_legacy (c ∷ s) = c ∷ s

abbrev pub is_quota : Text → Text → LogEntry → Bool
is_quota provider quota_key e = text_eq e.provider provider && text_eq e.quota_key quota_key

abbrev pub is_entry : Text → Text → Text → LogEntry → Bool
is_entry provider quota_key kind e =
    is_quota provider quota_key e && text_eq e.notification_type kind

-- `INSERT OR REPLACE`, under the unique key of provider, quota and type.
unfoldable pub upsert_notification_log :
    Time → Text → Text → Text → ℕ → Db LogEntry → Db LogEntry × Bool
upsert_notification_log now provider quota_key kind utilization = exec (λ rows.
    keep (λ e. not (is_entry (or_legacy provider) quota_key kind e)) rows
    ++ record {
      provider = or_legacy provider;
      quota_key = quota_key;
      notification_type = kind;
      sent_at = now;
      utilization = utilization;
    }
      ∷ [])

abbrev pub sent_time : Option LogEntry → Time
sent_time none = 0
sent_time (some e) = e.sent_at

-- The time that `GetLastNotification` returns; 0 is the zero time.
unfoldable pub get_last_notification : Text → Text → Text → Db LogEntry → Db LogEntry × Option Time
get_last_notification provider quota_key kind =
    query (λ rows. sent_time (first_where (is_entry (or_legacy provider) quota_key kind) rows))

unfoldable pub clear_notification_log : Text → Text → Db LogEntry → Db LogEntry × Bool
clear_notification_log provider quota_key =
    exec (keep (λ e. not (is_quota (or_legacy provider) quota_key e)))

unfoldable pub delete_push_subscription : Text → Db Text → Db Text × Bool
delete_push_subscription endpoint = exec (keep (λ e. not (text_eq e endpoint)))

unfoldable pub get_push_subscriptions : Db Text → Db Text × Option (List Text)
get_push_subscriptions = query (λ rows. rows)
