-- ===== src/Web/LoginLimiter/Entries.antt =====
-- The table of entries: what a recorded failure does to it, and which operations keep the entry of
-- a locked address.
use one_auth_watch.Prelude.{
  ◌+◌, ◌≤◌, ◌<◌, ◌≡◌, refl, ◌⊎◌, inl, Bool, true, false, not, Option, none, some, [], ◌∷◌, arith,
  keep, All,
}
use one_auth_watch.Prelude.Clock.{Time, Duration}
use one_auth_watch.Prelude.Text.{Text, text_eq, text_eq_iff}
use one_auth_watch.Prelude.Maps.{Assoc, lookup, insert, remove, text_key, is_some, lookup-remove}
use one_auth_watch.Web.LoginLimiter.{
  LoginAttempt, LoginRateLimiter, fresh, count_failure, too_many, make_room, find_or_create,
  record_failure, block_duration, oldest_ip, remove_nonempty, is_evictable,
}

module _ (now now' : Time) (ip : Text) (l : LoginRateLimiter) where
  pub record_failure_known :
      (e : LoginAttempt)
      → lookup ip l.attempts ≡ some e
      → record_failure now now' ip l ≡ (
        record l { attempts = insert ip (count_failure now' e) l.attempts },
        too_many (count_failure now' e).failures,
      )
  unfolding record_failure
  record_failure_known e found = rw (found, record_failure, find_or_create)

  pub record_failure_new :
      lookup ip l.attempts ≡ none
      → record_failure now now' ip l ≡ (
        record (make_room now l) {
          attempts =
              insert ip (count_failure now' fresh) (insert ip fresh (make_room now l).attempts);
        },
        too_many (count_failure now' fresh).failures,
      )
  unfolding record_failure
  record_failure_new missing = rw (missing, record_failure, find_or_create)

-- The entry is not of `ip`, or it blocks `ip` until `until` at least.
abbrev pub IsLockedEntry : Text → Time → Text × LoginAttempt → Type 0
IsLockedEntry ip until (j, e) =
    text_eq j ip ≡ true → (0 < e.blocked_at) × (until ≤ e.blocked_at + block_duration)

pub record IsLocked (ip : Text) (until : Time) (m : Assoc Text LoginAttempt) : Type 0 where
  pub known : is_some (lookup ip m) ≡ true
  pub locked : All (IsLockedEntry ip until) m

module _ (ip : Text) (until : Time) where
  pub found-locked :
      (m : Assoc Text LoginAttempt) {e : LoginAttempt}
      → All (IsLockedEntry ip until) m
      → lookup ip m ≡ some e
      → (0 < e.blocked_at) × (until ≤ e.blocked_at + block_duration)
  unfolding lookup
  found-locked [] h p = ground arith
  found-locked ((j, a) ∷ m) {e} h p = ground (arith, found-locked m {e = e} h.1)

  pub insert-locked :
      (k : Text) (e : LoginAttempt) (m : Assoc Text LoginAttempt)
      → IsLockedEntry ip until (k, e)
      → All (IsLockedEntry ip until) m
      → All (IsLockedEntry ip until) (insert k e m)
  unfolding insert
  insert-locked k e [] p h = (p, tt)
  insert-locked k e ((j, a) ∷ m) p h =
      ground (arith, insert-locked k e m p h.1, text_eq_iff j k, text_eq_iff k ip, text_eq_iff j ip)

  pub keep-locked :
      (p : Text × LoginAttempt → Bool) (m : Assoc Text LoginAttempt)
      → All (IsLockedEntry ip until) m
      → All (IsLockedEntry ip until) (keep p m)
  keep-locked p [] h = tt
  keep-locked p (x ∷ m) h = ground (arith, keep-locked p m h.1)

  -- The sweep of stale entries does not remove a locked one.
  pub lookup-keep_evictable :
      (now : Time) (max_age : Duration) (m : Assoc Text LoginAttempt)
      → now < until
      → All (IsLockedEntry ip until) m
      → lookup ip (keep (λ x. not (is_evictable now max_age x.1)) m) ≡ lookup ip m
  unfolding lookup
  lookup-keep_evictable now max_age [] lt h = refl
  lookup-keep_evictable now max_age ((j, a) ∷ m) lt h =
      ground (arith, lookup-keep_evictable now max_age m lt h.1)

  -- The eviction never chooses a locked address.
  pub oldest_ip-ne :
      (now : Time) (k : Text) (o : Option Time) (m : Assoc Text LoginAttempt)
      → now < until
      → All (IsLockedEntry ip until) m
      → (oldest_ip now k o m ≡ k) ⊎ (text_eq (oldest_ip now k o m) ip ≡ false)
  unfolding oldest_ip
  oldest_ip-ne now k o [] lt h = inl refl
  oldest_ip-ne now k o ((j, a) ∷ m) lt h =
      ground (arith, oldest_ip-ne now k o m lt h.1, oldest_ip-ne now j (some a.last_fail) m lt h.1)

  pub remove_nonempty-IsLocked :
      (k : Text) (m : Assoc Text LoginAttempt)
      → (k ≡ []) ⊎ (text_eq k ip ≡ false)
      → IsLocked ip until m
      → IsLocked ip until (remove_nonempty k m)
  remove_nonempty-IsLocked [] m ne h = h
  remove_nonempty-IsLocked (c ∷ k) m ne h = record {
    known = rw lookup-remove (ground (arith, h.known));
    locked = unfold remove in keep-locked _ m h.locked;
  }
