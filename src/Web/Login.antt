-- ===== src/Web/Login.antt =====
-- `loginPost`, `Logout` and `ChangePassword` of server/internal/web/handlers.go: how the login limiter
-- and the session store work together. The client's address is that of `getClientIP`.
pub mod LockedOut
mod FifthFailure
pub mod NewPassword
mod Tests
use one_auth_watch.Prelude.{
  ℕ, Bool, true, false, ◌||◌, Option, none, some, [], ◌∷◌, ltb, length, if◌then◌else◌,
}
use one_auth_watch.Prelude.Clock.{Time}
use one_auth_watch.Prelude.Text.{Text}
use one_auth_watch.Web.LoginLimiter.{LoginRateLimiter, record_failure, is_blocked, clear}
use one_auth_watch.Web.SessionStore.{
  Hashes, SessionStore, authenticate, invalidate, invalidate_all, update_password,
}

-- `Handler.rateLimiter` and `Handler.sessions`, which may be nil.
pub record Handler : Type 0 where
  pub rate_limiter : Option LoginRateLimiter
  pub sessions : Option SessionStore

-- A post of the login form: when it comes (an eviction reads the clock then too) and when its failure is
-- counted, the client's address, the
-- name and password (`none` for a form that does not parse), and the token that would be drawn.
pub record LoginRequest : Type 0 where
  pub at : Time
  pub later : Time
  pub client_ip : Text
  pub form : Option (Text × Text)
  pub token : Text

-- The redirects; the flag of `invalid` is the header that says to wait.
pub data LoginAnswer : Type 0 where
  rate_limited : LoginAnswer
  invalid : Bool → LoginAnswer
  auth_required : LoginAnswer
  logged_in : Text → LoginAnswer

abbrev pub look : Time → Text → Option LoginRateLimiter → Option LoginRateLimiter × Bool
look now ip none = (none, false)
look now ip (some l) = let (l', blocked) = is_blocked now ip l in (some l', blocked)

abbrev pub count : Time → Time → Text → Option LoginRateLimiter → Option LoginRateLimiter × Bool
count now later ip none = (none, false)
count now later ip (some l) =
    let (l', blocked) = record_failure now later ip l in (some l', blocked)

abbrev pub forgive : Text → Option LoginRateLimiter → Option LoginRateLimiter
forgive ip none = none
forgive ip (some l) = some (clear ip l)

-- After `Authenticate`: the failure is counted, or the address is cleared.
pub after_authenticate : LoginRequest → Option Text → Handler → Handler × LoginAnswer
after_authenticate r none h =
    let (limiter, blocked) = count r.at r.later r.client_ip h.rate_limiter in
    (record h { rate_limiter = limiter }, invalid blocked)
after_authenticate r (some token) h =
    (record h { rate_limiter = forgive r.client_ip h.rate_limiter }, logged_in token)

pub with_sessions :
    Hashes → LoginRequest → Text → Text → Option SessionStore → Handler → Handler × LoginAnswer
with_sessions hashes r username password none h = (h, auth_required)
with_sessions hashes r username password (some s) h =
    let (s', token) = authenticate hashes r.at r.token username password s in
    after_authenticate r token (record h { sessions = some s' })

pub with_form : Hashes → LoginRequest → Option (Text × Text) → Handler → Handler × LoginAnswer
with_form hashes r none h = (h, invalid false)
with_form hashes r (some (username, password)) h =
    with_sessions hashes r username password h.sessions h

pub login_post : Hashes → LoginRequest → Handler → Handler × LoginAnswer
login_post hashes r h =
    let (limiter, blocked) = look r.at r.client_ip h.rate_limiter in
    let h' = record h { rate_limiter = limiter } in
    if blocked then (h', rate_limited) else with_form hashes r r.form h'

abbrev invalidate_if : Option Text → Option SessionStore → Option SessionStore
invalidate_if (some token) (some s) = some (invalidate token s)
invalidate_if _ sessions = sessions

pub logout : Option Text → Handler → Handler
logout cookie h = record h { sessions = invalidate_if cookie h.sessions }

-- The outcomes of `ChangePassword` once the request is a `PUT` with a body that decodes.
pub data ChangeAnswer : Type 0 where
  not_configured missing too_short wrong_password hash_failed save_failed updated : ChangeAnswer

-- `HashPassword` and `UpsertUser`: `none` is an error of the first, `false` one of the second. The
-- re-encryption of other data touches no session.
pub save_password : Option Text → Bool → SessionStore → SessionStore × ChangeAnswer
save_password none saved s = (s, hash_failed)
save_password (some hash) saved s =
    if saved then (invalidate_all (update_password hash s), updated) else (s, save_failed)

abbrev verified : Option Text → Option Text → Bool → SessionStore → SessionStore × ChangeAnswer
verified none hash saved s = (s, wrong_password)
verified (some token) hash saved s = save_password hash saved s

abbrev is_blank : Text → Bool
is_blank [] = true
is_blank (c ∷ s) = false

-- The lengths are those of texts, where the code counts bytes.
pub change_password :
    Hashes
    → Time
    → Text
    → Text
    → Text
    → Option Text
    → Bool
    → SessionStore
    → SessionStore × ChangeAnswer
change_password hashes now token current new hash saved s =
    if is_blank current || is_blank new
    then (s, missing)
    else if ltb (length new) 6
    then (s, too_short)
    else let (s', found) = authenticate hashes now token s.username current s in
      verified found hash saved s'
