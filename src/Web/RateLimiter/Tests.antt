-- ===== src/Web/RateLimiter/Tests.antt =====
-- Runs of the request rate limiter.
use Prim.Native.Nat.{min}
use one_auth_watch.Prelude.{◌*◌, ◌≡◌, ◌≢◌, refl, some, List, [], ◌∷◌, arith}
use one_auth_watch.Prelude.Clock.{Time, second, minute}
use one_auth_watch.Prelude.Text.{Text, codes}
use one_auth_watch.Web.RateLimiter.{RateLimiter, Request, new_rate_limiter, get_client_ip}
use one_auth_watch.Web.RateLimiter.Window.{allow_all, allow_all-window}

abbrev home : Text
home = codes "127.0.0.1"

abbrev other : Text
other = codes "10.0.0.9"

abbrev two_a_minute : RateLimiter
two_a_minute = new_rate_limiter 2 minute

abbrev three_times : List Time
three_times = (1005 * second) ∷ (1010 * second) ∷ (1050 * second) ∷ []

abbrev forwarded : Request
forwarded = record {
  x_forwarded_for = codes " 10.0.0.9 , 172.16.0.1";
  x_real_ip = codes "";
  remote_addr = codes "127.0.0.1:80";
  split_host_port = some home;
}

get_client_ip-forwarded : get_client_ip forwarded ≡ other
unfolding get_client_ip
get_client_ip-forwarded = refl

home_ne_other : home ≢ other
home_ne_other e = cc

allow_all-window_example : (allow_all ((1000 * second) ∷ three_times) home two_a_minute).1 ≡ min 4 2
unfolding new_rate_limiter
allow_all-window_example =
    allow_all-window home (1000 * second) three_times two_a_minute refl refl (omega arith)
      (omega arith)
