-- ===== src/Web/LoginLimiter.antt =====
-- The login rate limiter of server/internal/web/middleware.go: `LoginRateLimiter`. Times are
-- `UnixNano` readings and are arguments; `failures` is the bit pattern of an int32. The operations
-- run one at a time.
pub mod Entries
pub mod Blocking
pub mod Failures
pub mod Capacity
mod Tests
use one_auth_watch.Prelude.{
  ℕ, zero, suc, ◌+◌, ◌-◌, ◌*◌, ◌%◌, ◌≡◌, refl, Bool, true, false, not, ◌&&◌, ◌||◌, Option, none,
  some, List, [], ◌∷◌, ltb, leb, ◌==◌, if◌then◌else◌, length, keep,
}
use one_auth_watch.Prelude.Int.{ℤ, pos, negsuc}
use one_auth_watch.Prelude.Clock.{Time, Duration, minute}
use one_auth_watch.Prelude.Text.{Text}
use one_auth_watch.Prelude.Maps.{Assoc, lookup, insert, remove, text_key}

abbrev pub max_failed_attempts : ℕ
max_failed_attempts = 5

abbrev pub block_duration : Duration
block_duration = 5 * minute

abbrev pub max_tracked_ips : ℕ
max_tracked_ips = 1000

pub record LoginAttempt : Type 0 where
  pub failures : ℕ
  pub last_fail : Time
  pub blocked_at : Time

pub record LoginRateLimiter : Type 0 where
  pub attempts : Assoc Text LoginAttempt
  pub max_ips : ℕ

pub new_login_rate_limiter : ℤ → LoginRateLimiter
new_login_rate_limiter (pos zero) = record { attempts = []; max_ips = max_tracked_ips }
new_login_rate_limiter (pos (suc n)) = record { attempts = []; max_ips = suc n }
new_login_rate_limiter (negsuc n) = record { attempts = []; max_ips = max_tracked_ips }

abbrev pub is_active : Time → LoginAttempt → Bool
is_active now e = ltb 0 e.blocked_at && ltb now (e.blocked_at + block_duration)

-- `oldestTime == -1 || lastFail < oldestTime`, with `none` for -1.
abbrev pub is_older : Time → Option Time → Bool
is_older t none = true
is_older t (some oldest) = ltb t oldest

-- The loop of `evictEntriesEntry`: `oldestIP` after it.
pub oldest_ip : Time → Text → Option Time → Assoc Text LoginAttempt → Text
oldest_ip now ip oldest [] = ip
oldest_ip now ip oldest ((j, e) ∷ m) =
    let skip = oldest_ip now ip oldest m in
    let take = oldest_ip now j (some e.last_fail) m in
    if is_active now e then skip else if is_older e.last_fail oldest then take else skip

abbrev pub remove_nonempty : Text → Assoc Text LoginAttempt → Assoc Text LoginAttempt
remove_nonempty [] m = m
remove_nonempty (c ∷ ip) m = remove (c ∷ ip) m

pub evict_oldest_entry : Time → LoginRateLimiter → LoginRateLimiter
evict_oldest_entry now l = record l {
  attempts = remove_nonempty (oldest_ip now [] none l.attempts) l.attempts;
}

abbrev pub fresh : LoginAttempt
fresh = record { failures = 0; last_fail = 0; blocked_at = 0 }

-- The entry of `ip`, made first if it is not there.
pub make_room : Time → LoginRateLimiter → LoginRateLimiter
make_room now l = if leb l.max_ips (length l.attempts) then evict_oldest_entry now l else l

pub find_or_create : Time → Text → LoginRateLimiter → LoginRateLimiter × LoginAttempt
find_or_create now ip l = elim (lookup ip l.attempts) [
  | some e ↦ (l, e)
  | none ↦ let l' = make_room now l in (record l' { attempts = insert ip fresh l'.attempts }, fresh)
]

-- `failures >= maxFailedAttempts` of an int32.
abbrev pub too_many : ℕ → Bool
too_many failures = leb max_failed_attempts failures && ltb failures 0x80000000

-- The atomic writes to an entry: the counter, the time, and `CompareAndSwapInt64(&blockedAt, 0, now)`.
abbrev pub count_failure : Time → LoginAttempt → LoginAttempt
count_failure now e =
    let failures = (e.failures + 1) % 0x100000000 in
    record {
      failures = failures;
      last_fail = now;
      blocked_at = if too_many failures && e.blocked_at == 0 then now else e.blocked_at;
    }

pub record_failure : Time → Time → Text → LoginRateLimiter → LoginRateLimiter × Bool
unfolding find_or_create
record_failure now now' ip l =
    let (l', e) = find_or_create now ip l in
    let e' = count_failure now' e in
    (record l' { attempts = insert ip e' l'.attempts }, too_many e'.failures)

abbrev pub unblocked : LoginAttempt → LoginAttempt
unblocked e = record e { failures = 0; blocked_at = 0 }

pub is_blocked : Time → Text → LoginRateLimiter → LoginRateLimiter × Bool
is_blocked now ip l = elim (lookup ip l.attempts) [
  | none ↦ (l, false)
  | some e ↦
      if e.blocked_at == 0
      then (l, false)
      else if leb (e.blocked_at + block_duration) now
      then (record l { attempts = insert ip (unblocked e) l.attempts }, false)
      else (l, true)
]

pub clear : Text → LoginRateLimiter → LoginRateLimiter
clear ip l = record l { attempts = remove ip l.attempts }

-- `cutoff` is 0 where `now - maxAge` would be negative: no time lies below either.
abbrev pub is_evictable : Time → Duration → LoginAttempt → Bool
is_evictable now max_age e =
    let cutoff = if ltb 0 max_age then now - max_age else 0 in
    not (is_active now e) && (max_age == 0 || ltb e.last_fail cutoff)

pub evict_stale_entries : Time → Duration → LoginRateLimiter → LoginRateLimiter
evict_stale_entries now max_age l = record l {
  attempts = keep (λ x. not (is_evictable now max_age x.1)) l.attempts;
}
