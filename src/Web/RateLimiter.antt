-- ===== src/Web/RateLimiter.antt =====
-- The request rate limiter of server/internal/web/security.go: `RateLimiter`, its middleware and the
-- address that it counts under. The clock readings are arguments.
pub mod Window
pub mod Header
mod Tests
use one_auth_watch.Prelude.{
  ℕ, ◌+◌, ◌-◌, ◌/◌, ◌%◌, Bool, true, false, ◌&&◌, ◌||◌, Option, none, some, List, [], ◌∷◌, ltb, leb,
  ◌==◌, if◌then◌else◌,
}
use one_auth_watch.Prelude.Int.{ℤ, pos, negsuc, sub_ℕ, ltb_ℤ, ◌-ℤ◌}
use one_auth_watch.Prelude.Clock.{Time, Duration, second, elapsed_over}
use one_auth_watch.Prelude.Text.{Text, trim_space, before}
use one_auth_watch.Prelude.Maps.{Map, empty_map, put, get_zero, text_key}

pub record RateLimiter : Type 0 where
  pub attempts : Map Text ℕ
  pub last_attempt : Map Text Time
  pub max_attempts : ℕ
  pub window : Duration

pub new_rate_limiter : ℕ → Duration → RateLimiter
new_rate_limiter max_attempts window = record {
  attempts = empty_map;
  last_attempt = empty_map;
  max_attempts = max_attempts;
  window = window;
}

-- `exists && now.Sub(lastTime) > rl.window`
pub is_stale : Time → Option Time → Duration → Bool
is_stale now none window = false
is_stale now (some last) window = elapsed_over now last window

pub reset_if_stale : Time → Text → RateLimiter → RateLimiter
unfolding is_stale
reset_if_stale now ip rl =
    if is_stale now (rl.last_attempt ip) rl.window
    then record rl { attempts = put rl.attempts ip 0 }
    else rl

pub count_attempt : Time → Text → RateLimiter → RateLimiter × Bool
count_attempt now ip rl = if leb rl.max_attempts (get_zero rl.attempts ip) then (rl, false) else (
  record rl {
    attempts = put rl.attempts ip (get_zero rl.attempts ip + 1);
    last_attempt = put rl.last_attempt ip now;
  },
  true,
)

pub allow : Time → Text → RateLimiter → RateLimiter × Bool
unfolding reset_if_stale count_attempt
allow now ip rl = count_attempt now ip (reset_if_stale now ip rl)

-- `now` and `now'` are the two readings of the clock. `remaining` is clamped at 0; the second result
-- may be negative.
pub get_remaining : Time → Time → Text → RateLimiter → ℤ × ℤ
unfolding ◌-ℤ◌
get_remaining now now' ip rl = elim (rl.last_attempt ip) [
  | none ↦ (pos rl.max_attempts, pos 0)
  | some last ↦
      if elapsed_over now last rl.window
      then (pos rl.max_attempts, pos 0)
      else let remaining = sub_ℕ rl.max_attempts (get_zero rl.attempts ip) in
        (if ltb_ℤ remaining (pos 0) then pos 0 else remaining, pos rl.window -ℤ sub_ℕ now' last)
]

-- `string(rune(i))` for the int32 with the bit pattern `i`: an invalid code point becomes U+FFFD.
pub rune_text : ℕ → Text
rune_text i = if ltb i 0xD800 || leb 0xE000 i && leb i 0x10FFFF then i ∷ [] else 0xFFFD ∷ []

-- `rune(int(d.Seconds()))`, as a bit pattern of 32 bits: the seconds are cut towards 0.
pub seconds_rune : ℤ → ℕ
seconds_rune (pos n) = n / second % 0x100000000
seconds_rune (negsuc n) = (0x100000000 - (n + 1) / second % 0x100000000) % 0x100000000

pub format_duration_seconds : ℤ → Text
unfolding rune_text seconds_rune
format_duration_seconds d = rune_text (seconds_rune d)

-- The parts of a request that the limiter reads. `split_host_port` is the host that
-- `net.SplitHostPort` finds in `remote_addr`, if it finds one.
pub record Request : Type 0 where
  pub x_forwarded_for : Text
  pub x_real_ip : Text
  pub remote_addr : Text
  pub split_host_port : Option Text

pub remote_ip : Request → Text
remote_ip r = elim r.split_host_port [ none ↦ r.remote_addr | some ip ↦ ip ]

pub real_or_remote_ip : Request → Text → Text
unfolding remote_ip
real_or_remote_ip r [] = remote_ip r
real_or_remote_ip r (c ∷ xri) = c ∷ xri

-- 44 is the comma.
pub forwarded_ip : Request → Text → Text
unfolding real_or_remote_ip trim_space before
forwarded_ip r [] = real_or_remote_ip r r.x_real_ip
forwarded_ip r (c ∷ xff) = trim_space (before 44 (c ∷ xff))

pub get_client_ip : Request → Text
unfolding forwarded_ip
get_client_ip r = forwarded_ip r r.x_forwarded_for

-- `d.Milliseconds()`, cut towards 0.
pub milliseconds : ℤ → ℤ
milliseconds (pos n) = pos (n / 1000000)
milliseconds (negsuc n) = sub_ℕ 0 ((n + 1) / 1000000)

pub data Response : Type 0 where
  served : Response
  too_many_requests : (retry_after : Text) → (retry_after_ms : ℤ) → Response

pub rate_limit_middleware : Time → Time → Time → Request → RateLimiter → RateLimiter × Response
unfolding allow get_remaining get_client_ip format_duration_seconds milliseconds
rate_limit_middleware now now' now'' r rl =
    let ip = get_client_ip r in
    let (rl', allowed) = allow now ip rl in
    let reset_in = (get_remaining now' now'' ip rl').1 in
    (
      rl',
      if allowed
          then served
          else too_many_requests (format_duration_seconds reset_in) (milliseconds reset_in),
    )
