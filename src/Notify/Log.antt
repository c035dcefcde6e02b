-- ===== src/Notify/Log.antt =====
-- What the log says of one provider, quota and type.
use one_auth_watch.Prelude.{
  ◌<◌, ◌≡◌, refl, Bool, false, not, ◌&&◌, ◌||◌, List, [], ◌∷◌, ◌++◌, arith, ltb, keep,
}
use one_auth_watch.Prelude.Text.{Text, text_eq, text_eq_iff}
use one_auth_watch.Database.Fault.{first_where}
use one_auth_watch.Database.Notifications.{LogEntry, is_quota, is_entry, sent_time}

module _ (p q k : Text) where
  abbrev pub logged : List LogEntry → Bool
  logged rows = ltb 0 (sent_time (first_where (is_entry p q k) rows))

  -- A new entry replaces the one under its key.
  pub logged-upsert :
      (new : LogEntry) (rows : List LogEntry)
      → 0 < new.sent_at
      → logged (
          keep (λ e. not (is_entry new.provider new.quota_key new.notification_type e)) rows
          ++ new ∷ [])
        ≡ (logged rows || is_entry p q k new)
  logged-upsert new [] pos = ground arith
  logged-upsert new (r ∷ rows) pos = ground (
    arith,
    logged-upsert new rows pos,
    text_eq_iff r.provider p,
    text_eq_iff r.quota_key q,
    text_eq_iff r.notification_type k,
    text_eq_iff r.provider new.provider,
    text_eq_iff r.quota_key new.quota_key,
    text_eq_iff r.notification_type new.notification_type,
    text_eq_iff new.provider p,
    text_eq_iff new.quota_key q,
    text_eq_iff new.notification_type k,
  )

  -- Clearing the log of another quota.
  pub logged-clear_other :
      (p' q' : Text) (rows : List LogEntry)
      → (text_eq p' p && text_eq q' q) ≡ false
      → logged (keep (λ e. not (is_quota p' q' e)) rows) ≡ logged rows
  logged-clear_other p' q' [] other = refl
  logged-clear_other p' q' (r ∷ rows) other = ground (
    arith,
    logged-clear_other p' q' rows other,
    text_eq_iff r.provider p,
    text_eq_iff r.quota_key q,
    text_eq_iff r.provider p',
    text_eq_iff r.quota_key q',
    text_eq_iff p' p,
    text_eq_iff q' q,
  )

  -- Clearing the log of this quota.
  pub logged-clear : (rows : List LogEntry) → logged (keep (λ e. not (is_quota p q e)) rows) ≡ false
  logged-clear [] = refl
  logged-clear (r ∷ rows) = ground (arith, logged-clear rows)
