-- ===== src/Web/LoginLimiter/Blocking.antt =====
-- Blocking: when an address becomes blocked, and that it stays blocked.
use one_auth_watch.Prelude.{
  ◌+◌, ◌<◌, ◌≡◌, inl, inr, true, false, none, List, [], ◌∷◌, arith, leb, length, All, Option-cases,
  Bool-cases,
}
use one_auth_watch.Prelude.Clock.{Time, Duration}
use one_auth_watch.Prelude.Text.{Text, text_eq, text_eq_iff}
use one_auth_watch.Prelude.Maps.{
  Assoc, lookup, insert, remove, text_key, lookup-insert, lookup-remove,
}
use one_auth_watch.Web.LoginLimiter.{
  LoginAttempt, LoginRateLimiter, block_duration, fresh, oldest_ip, count_failure, unblocked,
  evict_oldest_entry, make_room, record_failure, is_blocked, clear, evict_stale_entries,
}
use one_auth_watch.Web.LoginLimiter.Entries.{
  record_failure_new, record_failure_known, IsLocked, IsLockedEntry, found-locked, insert-locked,
  keep-locked, lookup-keep_evictable, oldest_ip-ne, remove_nonempty-IsLocked,
}

-- What may happen to the limiter between two looks at one address, each at its time.
pub data Event : Type 0 where
  failure : Time → Time → Text → Event
  check : Time → Text → Event
  success : Text → Event
  sweep : Time → Duration → Event

pub step : Event → LoginRateLimiter → LoginRateLimiter
step (failure now now' ip) l = (record_failure now now' ip l).0
step (check now ip) l = (is_blocked now ip l).0
step (success ip) l = clear ip l
step (sweep now max_age) l = evict_stale_entries now max_age l

pub steps : List Event → LoginRateLimiter → LoginRateLimiter
steps [] l = l
steps (e ∷ es) l = steps es (step e l)

-- The event happens before `until`, and is no successful login from `ip`.
abbrev pub Leaves : Text → Time → Event → Type 0
Leaves ip until (failure now now' j) = now < until
Leaves ip until (check now j) = now < until
Leaves ip until (success j) = text_eq j ip ≡ false
Leaves ip until (sweep now max_age) = now < until

module _ (ip : Text) (until : Time) where
  insert-IsLocked :
      (k : Text) (e : LoginAttempt) (m : Assoc Text LoginAttempt)
      → IsLockedEntry ip until (k, e)
      → IsLocked ip until m
      → IsLocked ip until (insert k e m)
  insert-IsLocked k e m p h = record {
    known = rw lookup-insert (ground (arith, h.known));
    locked = insert-locked ip until k e m p h.locked;
  }

  make_room-IsLocked :
      (now : Time) (l : LoginRateLimiter)
      → now < until
      → IsLocked ip until l.attempts
      → IsLocked ip until (make_room now l).attempts
  unfolding make_room evict_oldest_entry
  make_room-IsLocked now l lt h = elim (Bool-cases (leb l.max_ips (length l.attempts))) [
    | inl full ↦ rw full (
        remove_nonempty-IsLocked ip until (oldest_ip now [] none l.attempts) l.attempts
          (oldest_ip-ne ip until now [] none l.attempts lt h.locked) h)
    | inr room ↦ rw room h
  ]

  pub record_failure-IsLocked :
      (now now' : Time) (k : Text) (l : LoginRateLimiter)
      → now < until
      → IsLocked ip until l.attempts
      → IsLocked ip until (record_failure now now' k l).0.attempts
  record_failure-IsLocked now now' k l lt h = elim (Option-cases (lookup k l.attempts)) [
    | inl missing ↦
        let other : text_eq k ip ≡ false = ground (arith, h.known, text_eq_iff k ip) in
        rw (record_failure_new now now' k l missing) (
          insert-IsLocked k (count_failure now' fresh) _ (λ same. cc)
            (insert-IsLocked k fresh _ (λ same. cc) (make_room-IsLocked now l lt h)))
    | inr (e, found) ↦ rw (record_failure_known now now' k l e found) (
        insert-IsLocked k (count_failure now' e) l.attempts
          (ground (arith, found-locked ip until l.attempts {e = e} h.locked, text_eq_iff k ip)) h)
  ]

  pub is_blocked-IsLocked :
      (now : Time) (k : Text) (l : LoginRateLimiter)
      → now < until
      → IsLocked ip until l.attempts
      → IsLocked ip until (is_blocked now k l).0.attempts
  unfolding is_blocked
  is_blocked-IsLocked now k l lt h = elim (Option-cases (lookup k l.attempts)) [
    | inl missing ↦ rw (missing, is_blocked) h
    | inr (e, found) ↦ elim (Bool-cases (leb (e.blocked_at + block_duration) now)) [
      | inl expired ↦
          let kept : IsLocked ip until (insert k (unblocked e) l.attempts) =
            insert-IsLocked k (unblocked e) l.attempts
              (ground (arith, found-locked ip until l.attempts {e = e} h.locked, text_eq_iff k ip))
              h in
          ground (arith, kept, h)
      | inr blocked ↦ ground (arith, h)
    ]
  ]

  pub clear-IsLocked :
      (k : Text) (l : LoginRateLimiter)
      → text_eq k ip ≡ false
      → IsLocked ip until l.attempts
      → IsLocked ip until (clear k l).attempts
  unfolding clear
  clear-IsLocked k l ne h = record {
    known = rw lookup-remove (ground (arith, h.known));
    locked = unfold remove in keep-locked ip until _ l.attempts h.locked;
  }

  step-IsLocked :
      (ev : Event) (l : LoginRateLimiter)
      → Leaves ip until ev
      → IsLocked ip until l.attempts
      → IsLocked ip until (step ev l).attempts
  unfolding step evict_stale_entries
  step-IsLocked (failure now now' k) l lt h = record_failure-IsLocked now now' k l lt h
  step-IsLocked (check now k) l lt h = is_blocked-IsLocked now k l lt h
  step-IsLocked (success k) l ne h = clear-IsLocked k l ne h
  step-IsLocked (sweep now age) l lt h = record {
    known = rw (lookup-keep_evictable ip until now age l.attempts lt h.locked) h.known;
    locked = keep-locked ip until _ l.attempts h.locked;
  }

  steps-IsLocked :
      (evs : List Event) (l : LoginRateLimiter)
      → All (Leaves ip until) evs
      → IsLocked ip until l.attempts
      → IsLocked ip until (steps evs l).attempts
  unfolding steps
  steps-IsLocked [] l p h = h
  steps-IsLocked (ev ∷ evs) l p h = steps-IsLocked evs (step ev l) p.1 (step-IsLocked ev l p.0 h)

  pub IsLocked-is_blocked :
      (now : Time) (l : LoginRateLimiter)
      → now < until
      → IsLocked ip until l.attempts
      → (is_blocked now ip l).1 ≡ true
  unfolding is_blocked
  IsLocked-is_blocked now l lt h = elim (Option-cases (lookup ip l.attempts)) [
    | inl missing ↦ ground (arith, h.known)
    | inr (e, found) ↦ ground (arith, found-locked ip until l.attempts {e = e} h.locked found)
  ]

-- An address that is blocked stays blocked until `until`, the end of its block or earlier: whatever
-- failures of any address, looks, sweeps and successful logins of other addresses come before.
blocked_until :
    (ip : Text) (until now : Time) (evs : List Event) (l : LoginRateLimiter)
    → IsLocked ip until l.attempts
    → All (Leaves ip until) evs
    → now < until
    → (is_blocked now ip (steps evs l)).1 ≡ true
blocked_until ip until now evs l h before lt =
    IsLocked-is_blocked ip until now (steps evs l) lt (steps-IsLocked ip until evs l before h)
