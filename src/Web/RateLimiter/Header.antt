-- ===== src/Web/RateLimiter/Header.antt =====
-- What the `Retry-After` header of a refused request says.
use one_auth_watch.Prelude.{
  ℕ, ◌+◌, ◌-◌, ◌*◌, ◌/◌, ◌≢◌, ◌&&◌, Option, none, some, [], ◌∷◌, arith, leb, if◌then◌else◌,
}
use one_auth_watch.Prelude.Int.{pos}
use one_auth_watch.Prelude.Clock.{Duration, second}
use one_auth_watch.Prelude.Text.{Text}
use one_auth_watch.Web.RateLimiter.{format_duration_seconds}

-- A decimal numeral, read as RFC 9110 reads the `delay-seconds` of `Retry-After`.
pub read_digits : ℕ → Text → Option ℕ
read_digits n [] = some n
read_digits n (c ∷ s) =
    let rest = read_digits (n * 10 + (c - 48)) s in if leb 48 c && leb c 57 then rest else none

pub read_decimal : Text → Option ℕ
read_decimal [] = none
read_decimal (c ∷ s) = read_digits 0 (c ∷ s)

-- The text that `format_duration_seconds` makes of a wait never reads as the number of seconds of
-- the wait, however long it is.
format_duration_seconds_wrong :
    (d : Duration) → read_decimal (format_duration_seconds (pos d)) ≢ some (d / second)
unfolding read_decimal read_digits format_duration_seconds
format_duration_seconds_wrong d h = ground arith
