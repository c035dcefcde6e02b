-- ===== src/Notify/Rearm.antt =====
-- A reset lets notifications fire again.
use one_auth_watch.Prelude.{
  inl, inr, ◌⊎◌, ◌∙◌, ap, sym, zero, suc, ◌<◌, ◌≡◌, refl, true, false, not, ◌&&◌, Option, none,
  some, List, [], ◌∷◌, arith, Bool-cases,
}
use one_auth_watch.Prelude.Clock.{Time}
use one_auth_watch.Prelude.Text.{Text, codes, text_eq}
use one_auth_watch.Database.Fault.{Db, first_where}
use one_auth_watch.Database.Notifications.{
  or_legacy, is_entry, sent_time, clear_notification_log, get_last_notification,
  get_push_subscriptions, delete_push_subscription,
}
use one_auth_watch.Notify.{
  Delivery, QuotaStatus, NotificationEngine, normalize_notification_provider,
  notification_quota_key, deliver, push_each, push_to, send_unless_logged, send_notification,
  reset_due, critical_due, due, send_due, clear_on_reset, check,
}
use one_auth_watch.Notify.Log.{logged, logged-clear}
use one_auth_watch.Notify.Once.{send_due-Counts, is_kind}

abbrev pub critical : Text
critical = codes "critical"

abbrev pub log_key : QuotaStatus → Text
log_key status = or_legacy (normalize_notification_provider status.provider)

-- One subscription that takes the message, or the mail, is enough.
push_each-sent :
    (d : Delivery) (endpoints : List Text) (db : Db Text) → (push_each d endpoints db true).1 ≡ true
unfolding push_each
push_each-sent d [] db = refl
push_each-sent d (endpoint ∷ endpoints) db = ground (
  arith,
  push_each-sent d endpoints db,
  push_each-sent d endpoints (delete_push_subscription endpoint db).0,
)

push_to-sent :
    (d : Delivery) (found : Option (List Text)) (db : Db Text) → (push_to d found db true).1 ≡ true
push_to-sent d none db = refl
push_to-sent d (some endpoints) db = push_each-sent d endpoints db

module _ (d : Delivery) (e : NotificationEngine) where
  -- The engine can send mail, and the server takes it.
  pub record MailWorks : Type 0 where
    pub has_mailer : e.has_mailer ≡ true
    pub email : e.cfg.channels.email ≡ true
    pub accepted : d.mail_accepted ≡ true

  deliver-sent : MailWorks → (deliver d e).1 ≡ true
  unfolding deliver get_push_subscriptions
  deliver-sent w = elim (Bool-cases (e.cfg.channels.push && e.has_push_sender)) [
    | inl b ↦ rw (b, w.has_mailer, w.email, w.accepted) (push_to-sent _ _ _)
    | inr b ↦ rw (b, w.has_mailer, w.email, w.accepted) refl
  ]

  unlogged-sent :
      (now : Time) (status : QuotaStatus) (kind : Text)
      → MailWorks
      → (send_unless_logged d now status kind (some 0) e).1 ≡ some kind
  unfolding send_unless_logged
  unlogged-sent now status kind w = rw (deliver-sent w) refl

send_notification-sent :
    (d : Delivery) (now : Time) (status : QuotaStatus) (kind : Text) (e : NotificationEngine)
    → MailWorks d e
    → e.log.faults ≡ []
    → logged (log_key status) (notification_quota_key status) kind e.log.rows ≡ false
    → (send_notification d now status kind e).1 ≡ some kind
unfolding send_notification get_last_notification
send_notification-sent d now status kind e w f unlogged =
    let zero_time : sent_time
          (first_where (is_entry (log_key status) (notification_quota_key status) kind) e.log.rows)
        ≡ 0 =
      ground arith in
    rw (f, zero_time)
      (unlogged-sent d (record e { log = record e.log { faults = [] } }) now status kind
        (record { has_mailer = w.has_mailer; email = w.email; accepted = w.accepted }))

module _ (status : QuotaStatus) (e : NotificationEngine) where
  critical_first :
      status.reset_occurred ≡ false
      → critical_due e.cfg status ≡ true
      → due e.cfg status ≡ some critical
  unfolding due
  critical_first within over = ground arith

  no_reset-clear : status.reset_occurred ≡ false → clear_on_reset status e ≡ e
  unfolding clear_on_reset
  no_reset-clear within = ground arith

  -- A mail server that takes the mail, and a critical status that was not notified yet.
  critical-sent :
      (d : Delivery) (now : Time)
      → MailWorks d e
      → e.log.faults ≡ []
      → status.reset_occurred ≡ false
      → critical_due e.cfg status ≡ true
      → logged (log_key status) (notification_quota_key status) critical e.log.rows ≡ false
      → (check d now status e).1 ≡ some critical
  unfolding check
  critical-sent d now w f within over unlogged =
      let able : (not e.has_mailer && not e.has_push_sender) ≡ false =
        ground (arith, w.has_mailer) in
      rw (able, critical_first within over, no_reset-clear within)
        (send_notification-sent d now status critical e w f unlogged)

  -- The log entry of the quota after a reset.
  cleared :
      e.log.faults ≡ []
      → status.reset_occurred ≡ true
      → ((clear_on_reset status e).log.faults ≡ [])
        × (logged
              (log_key status)
              (notification_quota_key status)
              critical
              (clear_on_reset status e).log.rows
            ≡ false)
  unfolding clear_on_reset clear_notification_log
  cleared f r =
      let key = notification_quota_key status in
      let o : clear_on_reset status e ≡ record e {
        log =
            (clear_notification_log (normalize_notification_provider status.provider) key e.log).0;
      } =
        ground arith in
      rw (o, f) (refl, logged-clear (log_key status) key critical e.log.rows)

-- Sending changes neither the configuration nor the senders.
abbrev Same : NotificationEngine → NotificationEngine → Type 0
Same e e' = (e'.cfg ≡ e.cfg) × (e'.has_mailer ≡ e.has_mailer)

send_unless_logged-Same :
    (d : Delivery) (now : Time) (status : QuotaStatus) (kind : Text) (sent_at : Option Time)
    (e : NotificationEngine)
    → Same e (send_unless_logged d now status kind sent_at e).0
unfolding send_unless_logged
send_unless_logged-Same d now status kind none e = (refl, refl)
send_unless_logged-Same d now status kind (some (suc t)) e = (refl, refl)
send_unless_logged-Same d now status kind (some zero) e = elim (Bool-cases (deliver d e).1) [
  | inl s ↦ rw s (refl, refl)
  | inr s ↦ rw s (refl, refl)
]

send_due-Same :
    (d : Delivery) (now : Time) (status : QuotaStatus) (o : Option Text) (e : NotificationEngine)
    → Same e (send_due d now status o e).0
unfolding send_notification
send_due-Same d now status none e = (refl, refl)
send_due-Same d now status (some kind) e = send_unless_logged-Same d now status kind _ _

clear_on_reset-Same :
    (status : QuotaStatus) (e : NotificationEngine) → Same e (clear_on_reset status e)
unfolding clear_on_reset
clear_on_reset-Same status e = elim (Bool-cases status.reset_occurred) [
  | inl r ↦ rw r (refl, refl)
  | inr r ↦ rw r (refl, refl)
]

-- What `Check` sends at a reset is not a critical notification.
reset_not_critical :
    (status : QuotaStatus) (e : NotificationEngine)
    → status.reset_occurred ≡ true
    → (due e.cfg status ≡ none) ⊎ (due e.cfg status ≡ some (codes "reset"))
unfolding due
reset_not_critical status e r = elim (Bool-cases (reset_due e.cfg status)) [
  | inl b ↦ inr (ground arith)
  | inr b ↦ inl (ground arith)
]

reset_kind :
    (d : Delivery) (now : Time) (status : QuotaStatus) (sent_at : Option Time)
    (e : NotificationEngine)
    → is_kind critical (send_unless_logged d now status (codes "reset") sent_at e).1 ≡ false
unfolding send_unless_logged text_eq
reset_kind d now status none e = refl
reset_kind d now status (some (suc t)) e = refl
reset_kind d now status (some zero) e = elim (Bool-cases (deliver d e).1) [
  | inl s ↦ rw s refl
  | inr s ↦ rw s refl
]

reset_due_kind :
    (d : Delivery) (now : Time) (status : QuotaStatus) (e e' : NotificationEngine)
    → status.reset_occurred ≡ true
    → is_kind critical (send_due d now status (due e.cfg status) e').1 ≡ false
unfolding send_notification
reset_due_kind d now status e e' r = elim (reset_not_critical status e r) [
  | inl o ↦ rw o refl
  | inr o ↦ rw o (reset_kind d now status _ _)
]

-- A call that reports a reset leaves no critical entry of its quota.
reset-unlogged :
    (d : Delivery) (now : Time) (status : QuotaStatus) (e : NotificationEngine)
    → (not e.has_mailer && not e.has_push_sender) ≡ false
    → e.log.faults ≡ []
    → 0 < now
    → status.reset_occurred ≡ true
    → let e' = (check d now status e).0 in
      (e'.log.faults ≡ [])
      × (logged (log_key status) (notification_quota_key status) critical e'.log.rows ≡ false)
      × Same e e'
unfolding check
reset-unlogged d now status e able f pos r =
    let e0 = clear_on_reset status e in
    let (clear, unlogged) = cleared status e f r in
    let counts =
      send_due-Counts (log_key status) (notification_quota_key status) critical d now status
        (due e.cfg status) e0 clear pos in
    let kind = reset_due_kind d now status e e0 r in
    let (cfg, mailer) = send_due-Same d now status (due e.cfg status) e0 in
    let (cfg0, mailer0) = clear_on_reset-Same status e in
    rw able (
      counts.faultless,
      ground (arith, counts.after, unlogged, kind),
      (cfg ∙ cfg0, mailer ∙ mailer0),
    )

-- After a reset of a quota, which has any utilization and limit but the provider, account and key of
-- the later status, a status over the critical threshold is notified as critical, even if it was
-- notified before the reset, when the mail server takes the mail, no statement on the log fails, and
-- the reset is reported after the zero time.
pub reset_rearms :
    (d d' : Delivery) (now now' : Time) (reset status : QuotaStatus) (e : NotificationEngine)
    → MailWorks d e
    → e.log.faults ≡ []
    → 0 < now'
    → reset.reset_occurred ≡ true
    → log_key reset ≡ log_key status
    → notification_quota_key reset ≡ notification_quota_key status
    → status.reset_occurred ≡ false
    → critical_due e.cfg status ≡ true
    → (check d now status (check d' now' reset e).0).1 ≡ some critical
reset_rearms d d' now now' reset status e w f pos occurred same_provider same_quota within over =
    let e' = (check d' now' reset e).0 in
    let able : (not e.has_mailer && not e.has_push_sender) ≡ false = ground (arith, w.has_mailer) in
    let (clear, unlogged, (cfg, mailer)) = reset-unlogged d' now' reset e able f pos occurred in
    let works : MailWorks d e' = record {
      has_mailer = mailer ∙ w.has_mailer;
      email = ap (λ c. c.channels.email) cfg ∙ w.email;
      accepted = w.accepted;
    } in
    let free : logged (log_key status) (notification_quota_key status) critical e'.log.rows
        ≡ false =
      ap (λ k. logged k (notification_quota_key status) critical e'.log.rows) (sym same_provider)
      ∙ ap (λ q. logged (log_key reset) q critical e'.log.rows) (sym same_quota)
      ∙ unlogged in
    critical-sent status e' d now works clear within (ap (λ c. critical_due c status) cfg ∙ over)
      free
