-- ===== src/Web/Login/Tests.antt =====
-- Logins and a change of the password.
use one_auth_watch.Prelude.{◌+◌, ◌*◌, ◌≤◌, ◌≡◌, refl, true, some, List, [], ◌∷◌, arith, ltb, Mem}
use one_auth_watch.Prelude.Clock.{Time, hour, minute}
use one_auth_watch.Prelude.Text.{Text, codes, text_eq}
use one_auth_watch.Prelude.Maps.{lookup, insert, text_key}
use one_auth_watch.Web.LoginLimiter.{LoginRateLimiter}
use one_auth_watch.Web.SessionStore.{
  Hashes, SessionStore, is_legacy_hash, check_password, grant, credentials_match, authenticate,
  invalidate_all, update_password, validate_token, validate_cached, Event, login, steps, step,
}
use one_auth_watch.Web.SessionStore.Grants.{grants}
use one_auth_watch.Web.SessionStore.Logout.{delete_succeeds}
use one_auth_watch.Web.Login.{
  Handler, LoginRequest, rate_limited, login_post, updated, save_password, change_password,
}
use one_auth_watch.Web.Login.LockedOut.{Locks, posts, locked_out}
use one_auth_watch.Web.Login.NewPassword.{new_password_ends_sessions}

abbrev plain : Hashes
plain = record { sha256_hex = λ p. p; bcrypt_matches = text_eq; stored_before = ltb }

abbrev sessions : SessionStore
sessions = record {
  tokens = (codes "a1", 100 * hour) ∷ [];
  username = codes "admin";
  password_hash = codes "secret";
  store = some (record { rows = (codes "a1", 100 * hour) ∷ []; faults = [] });
}

abbrev home : Text
home = codes "127.0.0.1"

abbrev limiter : LoginRateLimiter
limiter = record {
  attempts = (home, record { failures = 5; last_fail = hour; blocked_at = hour }) ∷ [];
  max_ips = 2;
}

abbrev handler : Handler
handler = record { rate_limiter = some limiter; sessions = some sessions }

handler-Locks : Locks home (hour + 5 * minute) handler
unfolding lookup text_eq
handler-Locks = record {
  limiter = limiter;
  same = refl;
  locked = record { known = refl; locked = ground arith };
}

abbrev post : Time → Text → Text → LoginRequest
post at ip password = record {
  at = at;
  later = at;
  client_ip = ip;
  form = some (codes "admin", password);
  token = codes "b2";
}

abbrev tries : List LoginRequest
tries =
    post (hour + minute) home (codes "guess")
    ∷ post (hour + 2 * minute) (codes "10.0.0.9") (codes "guess")
    ∷ []

abbrev right : LoginRequest
right = post (hour + 4 * minute) home (codes "secret")

locked_out_example :
    ((login_post plain right (posts plain tries handler)).1 ≡ rate_limited)
    × ((login_post plain right (posts plain tries handler)).0.sessions
        ≡ (posts plain tries handler).sessions)
locked_out_example =
    locked_out plain home (hour + 5 * minute) tries right handler handler-Locks
      (omega arith, (omega arith, tt)) (omega arith) refl

abbrev new_session : List Event
new_session = login (2 * hour) (codes "c3") (codes "admin") (codes "better") ∷ []

changed :
    (change_password plain hour
      (codes "b2")
      (codes "secret")
      (codes "better")
      (some (codes "better"))
      true
      sessions).1
    ≡ updated
unfolding change_password save_password authenticate credentials_match check_password is_legacy_hash
    text_eq
changed = refl

later_valid :
    (validate_token (3 * hour) (codes "c3") (
      steps plain new_session
        (change_password plain hour
          (codes "b2")
          (codes "secret")
          (codes "better")
          (some (codes "better"))
          true
          sessions).0)).1
    ≡ true
unfolding change_password save_password authenticate credentials_match check_password is_legacy_hash
    text_eq update_password invalidate_all grant steps step validate_token validate_cached lookup
    insert
later_valid = refl

deletes :
    delete_succeeds
      (authenticate plain hour (codes "b2") (codes "admin") (codes "secret") sessions).0.store
    ≡ true
unfolding authenticate credentials_match check_password is_legacy_hash text_eq grant
deletes = refl

new_password_ends_sessions_example :
    (expiry : Time) × Mem
      (codes "c3", expiry)
      (grants plain new_session
        (change_password plain hour
          (codes "b2")
          (codes "secret")
          (codes "better")
          (some (codes "better"))
          true
          sessions).0)
    × (3 * hour ≤ expiry)
new_password_ends_sessions_example =
    new_password_ends_sessions plain hour (codes "b2") (codes "secret") (codes "better")
      (some (codes "better")) true sessions new_session (3 * hour) (codes "c3") changed deletes
      later_valid

abbrev nobody_yet : LoginRateLimiter
nobody_yet = record { attempts = []; max_ips = 2 }

-- A guess every hour, and one in the block.
abbrev later_guesses : List LoginRequest
later_guesses =
    post (2 * hour) home (codes "guess")
    ∷ post (3 * hour) home (codes "guess")
    ∷ post (4 * hour) home (codes "guess")
    ∷ post (5 * hour) home (codes "guess")
    ∷ post (5 * hour + minute) home (codes "guess")
    ∷ []
