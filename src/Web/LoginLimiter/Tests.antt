-- ===== src/Web/LoginLimiter/Tests.antt =====
-- Runs of the login rate limiter.
use one_auth_watch.Prelude.{ℕ, ◌*◌, ◌≤◌, ◌≡◌, refl, false, List, [], ◌∷◌, arith, length}
use one_auth_watch.Prelude.Clock.{Time, second}
use one_auth_watch.Prelude.Text.{Text, codes, text_eq}
use one_auth_watch.Prelude.Maps.{lookup, insert, text_key}
use one_auth_watch.Web.LoginLimiter.{
  LoginAttempt, LoginRateLimiter, make_room, record_failure, is_blocked,
}
use one_auth_watch.Web.LoginLimiter.Entries.{IsLocked}
use one_auth_watch.Web.LoginLimiter.Failures.{post_all}
use one_auth_watch.Web.LoginLimiter.Capacity.{record_failure-within}

abbrev home : Text
home = codes "127.0.0.1"

abbrev other : Text
other = codes "10.0.0.9"

abbrev newcomer : Text
newcomer = codes "10.0.0.7"

abbrev attempt : ℕ → Time → Time → LoginAttempt
attempt failures last blocked = record {
  failures = failures;
  last_fail = last;
  blocked_at = blocked;
}

abbrev nobody : LoginRateLimiter
nobody = record { attempts = []; max_ips = 2 }

abbrev hours : List Time
hours = (2000 * second) ∷ (3000 * second) ∷ (4000 * second) ∷ (5000 * second) ∷ (5050 * second) ∷ []

-- The block ends five minutes after the fifth failure.
unblocked_later :
    (is_blocked (5300 * second) home (post_all ((1000 * second) ∷ hours) home nobody)).1 ≡ false
unfolding is_blocked post_all record_failure make_room lookup insert text_eq
unblocked_later = refl

abbrev locked_home : LoginRateLimiter
locked_home = record {
  attempts =
      (other, attempt 1 (900 * second) 0) ∷ (home, attempt 5 (1000 * second) (1000 * second)) ∷ [];
  max_ips = 2;
}

home-IsLocked : IsLocked home (1300 * second) locked_home.attempts
unfolding lookup text_eq
home-IsLocked = record { known = refl; locked = ground arith }

record_failure-within_example :
    length (record_failure (1100 * second) (1100 * second) newcomer locked_home).0.attempts ≤ 2
unfolding text_eq
record_failure-within_example =
    record_failure-within (1100 * second) (1100 * second) newcomer locked_home (omega arith)
      (omega arith) (ground arith)
