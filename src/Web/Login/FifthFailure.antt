-- ===== src/Web/Login/FifthFailure.antt =====
-- The fifth post with a wrong name or password blocks the address.
use one_auth_watch.Prelude.{◌≡◌, Bool, true, false, Option, none, some, if◌then◌else◌}
use one_auth_watch.Prelude.Text.{Text}
use one_auth_watch.Prelude.Maps.{text_key}
use one_auth_watch.Web.LoginLimiter.{LoginRateLimiter}
use one_auth_watch.Web.SessionStore.{Hashes, SessionStore, grant, credentials_match}
use one_auth_watch.Web.Login.{
  Handler, LoginRequest, LoginAnswer, rate_limited, invalid, auth_required, logged_in, with_form,
}

abbrev pub is_limited : LoginAnswer → Bool
is_limited rate_limited = true
is_limited (invalid wait) = false
is_limited auth_required = false
is_limited (logged_in token) = false

abbrev pub with_both : LoginRateLimiter → SessionStore → Handler
with_both l s = record { rate_limiter = some l; sessions = some s }

-- A post from the address with a name and password that do not match, and one clock reading.
pub record IsWrong (hashes : Hashes) (ip : Text) (s : SessionStore) (r : LoginRequest)
    : Type 0 where
  pub from : r.client_ip ≡ ip
  pub once : r.later ≡ r.at
  pub username : Text
  pub password : Text
  pub form : r.form ≡ some (username, password)
  pub wrong : credentials_match hashes username password s ≡ false

module _ (hashes : Hashes) (ip : Text) (s : SessionStore) where
  abbrev authenticated : LoginRequest → Bool → SessionStore × Option Text
  authenticated r b = if b then (grant r.at r.token s, some r.token) else (s, none)

  abbrev answered : LoginRequest → LoginRateLimiter × Bool → Handler × LoginAnswer
  answered r (l, true) = (with_both l s, rate_limited)
  answered r (l, false) = with_form hashes r r.form (with_both l s)
