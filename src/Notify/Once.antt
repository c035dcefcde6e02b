-- ===== src/Notify/Once.antt =====
-- Each provider, quota and type is notified at most once per cycle.
use one_auth_watch.Prelude.{
  inl, inr, ℕ, zero, suc, ◌≤◌, ◌<◌, ◌≡◌, refl, Bool, false, not, ◌&&◌, ◌||◌, Option, none, some,
  List, [], ◌∷◌, arith, All, Bool-cases, if◌then◌else◌,
}
use one_auth_watch.Prelude.Clock.{Time}
use one_auth_watch.Prelude.Text.{Text, text_eq, text_eq_iff}
use one_auth_watch.Database.Fault.{Db, first_where}
use one_auth_watch.Database.Notifications.{
  LogEntry, or_legacy, is_entry, sent_time, upsert_notification_log, get_last_notification,
  clear_notification_log,
}
use one_auth_watch.Notify.{
  Delivery, QuotaStatus, NotificationEngine, normalize_notification_provider,
  notification_quota_key, deliver, send_unless_logged, send_notification, due, send_due,
  clear_on_reset, check,
}
use one_auth_watch.Notify.Log.{logged, logged-upsert, logged-clear_other}

-- One call of `Check`: what the senders answer, when, and the status.
pub record Call : Type 0 where
  pub delivery : Delivery
  pub now : Time
  pub status : QuotaStatus

-- The status is of the quota under which the log keeps it.
unfoldable pub concerns : Text → Text → QuotaStatus → Bool
concerns p q status =
    text_eq (or_legacy (normalize_notification_provider status.provider)) p
    && text_eq (notification_quota_key status) q

-- The call delivered a notification of one quota and type.
abbrev pub is_kind : Text → Option Text → Bool
is_kind k none = false
is_kind k (some kind) = text_eq kind k

abbrev pub delivered : Text → Text → Text → QuotaStatus → Option Text → Bool
delivered p q k status o = is_kind k o && concerns p q status

unfoldable pub count_delivered : Text → Text → Text → List Call → NotificationEngine → ℕ
count_delivered p q k [] e = 0
count_delivered p q k (c ∷ calls) e =
    let r = check c.delivery c.now c.status e in
    let rest = count_delivered p q k calls r.0 in
    if delivered p q k c.status r.1 then suc rest else rest

module _ (p q k : Text) where
  -- What a call does to the log, when no statement on it fails.
  pub record Counts (rows : List LogEntry) (status : QuotaStatus)
      (r : NotificationEngine × Option Text) : Type 0 where
    pub faultless : r.0.log.faults ≡ []
    pub after : logged p q k r.0.log.rows ≡ (logged p q k rows || delivered p q k status r.1)
    pub fresh : (logged p q k rows && delivered p q k status r.1) ≡ false

  nothing-Counts :
      (e : NotificationEngine) (status : QuotaStatus)
      → e.log.faults ≡ []
      → Counts e.log.rows status (e, none)
  nothing-Counts e status f = record { faultless = f; after = ground arith; fresh = ground arith }

  upsert-faults :
      (now : Time) (provider quota_key kind : Text) (utilization : ℕ) (log : Db LogEntry)
      → log.faults ≡ []
      → (upsert_notification_log now provider quota_key kind utilization log).0.faults ≡ []
  unfolding upsert_notification_log
  upsert-faults now provider quota_key kind utilization log f = rw f refl

  upsert-logged :
      (now : Time) (provider quota_key kind : Text) (utilization : ℕ) (log : Db LogEntry)
      → log.faults ≡ []
      → 0 < now
      → logged p q k (upsert_notification_log now provider quota_key kind utilization log).0.rows
        ≡ (logged p q k log.rows
            || text_eq kind k && (text_eq (or_legacy provider) p && text_eq quota_key q))
  unfolding upsert_notification_log
  upsert-logged now provider quota_key kind utilization log f pos =
      let new : LogEntry = record {
        provider = or_legacy provider;
        quota_key = quota_key;
        notification_type = kind;
        sent_at = now;
        utilization = utilization;
      } in
      rw f (ground (arith, logged-upsert p q k new log.rows pos))

  -- If the entry under the own key is not there, a delivery is the first.
  absent :
      (provider quota_key kind : Text) (rows : List LogEntry)
      → sent_time (first_where (is_entry provider quota_key kind) rows) ≡ 0
      → (logged p q k rows && (text_eq kind k && (text_eq provider p && text_eq quota_key q)))
        ≡ false
  absent provider quota_key kind rows none_sent =
      elim (Bool-cases (text_eq kind k && (text_eq provider p && text_eq quota_key q))) [
        | inl e ↦
            let same_kind : kind ≡ k = ground (arith, text_eq_iff kind k) in
            let same_provider : provider ≡ p = ground (arith, text_eq_iff provider p) in
            let same_quota : quota_key ≡ q = ground (arith, text_eq_iff quota_key q) in
            let unlogged : logged p q k rows ≡ false =
              rw (← same_kind, ← same_provider, ← same_quota, none_sent) refl in
            ground (arith, unlogged)
        | inr e ↦ rw e (ground arith)
      ]

  send_unless_logged-Counts :
      (d : Delivery) (now : Time) (status : QuotaStatus) (kind : Text) (sent_at : Option Time)
      (e : NotificationEngine)
      → e.log.faults ≡ []
      → 0 < now
      → sent_at
        ≡ some (
            sent_time (
              first_where
                (is_entry
                  (or_legacy (normalize_notification_provider status.provider))
                  (notification_quota_key status)
                  kind)
                e.log.rows))
      → Counts e.log.rows status (send_unless_logged d now status kind sent_at e)
  unfolding send_unless_logged concerns
  send_unless_logged-Counts d now status kind none e f pos same = nothing-Counts e status f
  send_unless_logged-Counts d now status kind (some (suc t)) e f pos same =
      nothing-Counts e status f
  send_unless_logged-Counts d now status kind (some zero) e f pos same =
      elim (Bool-cases (deliver d e).1) [
        | inl s ↦ rw s (record {
          faultless = upsert-faults now _ _ kind status.utilization e.log f;
          after = upsert-logged now _ _ kind status.utilization e.log f pos;
          fresh = absent _ _ kind e.log.rows (ground arith);
        })
        | inr s ↦ rw s (record { faultless = f; after = ground arith; fresh = ground arith })
      ]

  clear_on_reset-logged :
      (status : QuotaStatus) (e : NotificationEngine)
      → e.log.faults ≡ []
      → (status.reset_occurred && concerns p q status) ≡ false
      → ((clear_on_reset status e).log.faults ≡ [])
        × (logged p q k (clear_on_reset status e).log.rows ≡ logged p q k e.log.rows)
  unfolding clear_on_reset clear_notification_log concerns notification_quota_key
  clear_on_reset-logged status e f other = elim (Bool-cases status.reset_occurred) [
    | inl r ↦
        rw (r, f)
          (
            refl,
            logged-clear_other p q k (or_legacy (normalize_notification_provider status.provider))
                (notification_quota_key status) e.log.rows (ground arith),
          )
    | inr r ↦ rw r (f, refl)
  ]

  send_notification-Counts :
      (d : Delivery) (now : Time) (status : QuotaStatus) (kind : Text) (e : NotificationEngine)
      → e.log.faults ≡ []
      → 0 < now
      → Counts e.log.rows status (send_notification d now status kind e)
  unfolding send_notification get_last_notification
  send_notification-Counts d now status kind e f pos = rw f (
      send_unless_logged-Counts d now status kind _
        (record e { log = record e.log { faults = [] } }) refl pos refl)

  Counts-carry :
      (rows rows' : List LogEntry) (status : QuotaStatus) (r : NotificationEngine × Option Text)
      → logged p q k rows' ≡ logged p q k rows
      → Counts rows' status r
      → Counts rows status r
  Counts-carry rows rows' status r same h = record {
    faultless = h.faultless;
    after = rw (← same) h.after;
    fresh = rw (← same) h.fresh;
  }

  pub send_due-Counts :
      (d : Delivery) (now : Time) (status : QuotaStatus) (o : Option Text) (e : NotificationEngine)
      → e.log.faults ≡ []
      → 0 < now
      → Counts e.log.rows status (send_due d now status o e)
  send_due-Counts d now status none e f pos = nothing-Counts e status f
  send_due-Counts d now status (some kind) e f pos =
      send_notification-Counts d now status kind e f pos

  check-Counts :
      (c : Call) (e : NotificationEngine)
      → e.log.faults ≡ []
      → 0 < c.now
      → (c.status.reset_occurred && concerns p q c.status) ≡ false
      → Counts e.log.rows c.status (check c.delivery c.now c.status e)
  unfolding check
  check-Counts c e f pos other = elim (Bool-cases (not e.has_mailer && not e.has_push_sender)) [
    | inl silent ↦ rw silent (nothing-Counts e c.status f)
    | inr able ↦
        let (clear, same) = clear_on_reset-logged c.status e f other in
        rw able (
          Counts-carry e.log.rows (clear_on_reset c.status e).log.rows c.status _ same (
            send_due-Counts c.delivery c.now c.status (due e.cfg c.status)
              (clear_on_reset c.status e) clear pos))
  ]

  -- A call at a real time that does not report a reset of the quota.
  abbrev WithinCycle : Call → Type 0
  WithinCycle c = (0 < c.now) × ((c.status.reset_occurred && concerns p q c.status) ≡ false)

  -- A quota whose notification of a type is in the log gets no further one of that type, and any other
  -- at most one, over calls for any quotas in any order that report no reset of this quota, however
  -- much time passes, if the statements on the log succeed.
  pub once_per_cycle :
      (calls : List Call) (e : NotificationEngine)
      → e.log.faults ≡ []
      → All WithinCycle calls
      → count_delivered p q k calls e ≤ (if logged p q k e.log.rows then 0 else 1)
  unfolding count_delivered
  once_per_cycle [] e f within = ground arith
  once_per_cycle (c ∷ calls) e f ((pos, other), rest) =
      let counts = check-Counts c e f pos other in
      let later =
        once_per_cycle calls (check c.delivery c.now c.status e).0 counts.faultless rest in
      ground (arith, counts.after, counts.fresh, later)
