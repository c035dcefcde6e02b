-- ===== src/Web/Login/LockedOut.antt =====
-- A blocked address cannot log in.
use one_auth_watch.Prelude.{
  inl, inr, ◌<◌, ◌≡◌, refl, false, Option, none, some, List, [], ◌∷◌, arith, All, Bool-cases,
}
use one_auth_watch.Prelude.Clock.{Time}
use one_auth_watch.Prelude.Text.{Text, text_eq, text_eq_iff}
use one_auth_watch.Web.LoginLimiter.{LoginRateLimiter, record_failure, is_blocked, clear}
use one_auth_watch.Web.LoginLimiter.Entries.{IsLocked}
use one_auth_watch.Web.LoginLimiter.Blocking.{
  clear-IsLocked, record_failure-IsLocked, is_blocked-IsLocked, IsLocked-is_blocked,
}
use one_auth_watch.Web.SessionStore.{Hashes, SessionStore, authenticate}
use one_auth_watch.Web.Login.{
  Handler, LoginRequest, rate_limited, after_authenticate, with_sessions, with_form, login_post,
}

-- The handler's limiter blocks the address until `until`.
pub record Locks (ip : Text) (until : Time) (h : Handler) : Type 0 where
  pub limiter : LoginRateLimiter
  pub same : h.rate_limiter ≡ some limiter
  pub locked : IsLocked ip until limiter.attempts

-- The handler after posts of the login form.
unfoldable pub posts : Hashes → List LoginRequest → Handler → Handler
posts hashes [] h = h
posts hashes (r ∷ rs) h = posts hashes rs (login_post hashes r h).0

module _ (hashes : Hashes) (ip : Text) (until : Time) where
  after_authenticate-Locks :
      (r : LoginRequest) (token : Option Text) (h : Handler)
      → r.at < until
      → text_eq r.client_ip ip ≡ false
      → Locks ip until h
      → Locks ip until (after_authenticate r token h).0
  unfolding after_authenticate
  after_authenticate-Locks r none h early other k = rw k.same (record {
    limiter = (record_failure r.at r.later r.client_ip k.limiter).0;
    same = refl;
    locked = record_failure-IsLocked ip until r.at r.later r.client_ip k.limiter early k.locked;
  })
  after_authenticate-Locks r (some token) h early other k = rw k.same (record {
    limiter = clear r.client_ip k.limiter;
    same = refl;
    locked = clear-IsLocked ip until r.client_ip k.limiter other k.locked;
  })

  Locks-carry :
      (sessions : Option SessionStore) (h : Handler)
      → Locks ip until h
      → Locks ip until (record h { sessions = sessions })
  Locks-carry sessions h k = record { limiter = k.limiter; same = k.same; locked = k.locked }

  with_sessions-Locks :
      (r : LoginRequest) (username password : Text) (s : Option SessionStore) (h : Handler)
      → r.at < until
      → text_eq r.client_ip ip ≡ false
      → Locks ip until h
      → Locks ip until (with_sessions hashes r username password s h).0
  unfolding with_sessions
  with_sessions-Locks r username password none h early other k = k
  with_sessions-Locks r username password (some s) h early other k =
      after_authenticate-Locks r (authenticate hashes r.at r.token username password s).1 _ early
        other (Locks-carry (some (authenticate hashes r.at r.token username password s).0) h k)

  with_form-Locks :
      (r : LoginRequest) (form : Option (Text × Text)) (h : Handler)
      → r.at < until
      → text_eq r.client_ip ip ≡ false
      → Locks ip until h
      → Locks ip until (with_form hashes r form h).0
  unfolding with_form
  with_form-Locks r none h early other k = k
  with_form-Locks r (some (username, password)) h early other k =
      with_sessions-Locks r username password h.sessions h early other k

  -- The handler after the look at the limiter.
  looked :
      (r : LoginRequest) (h : Handler)
      → r.at < until
      → (k : Locks ip until h)
      → Locks ip until (record h { rate_limiter = some (is_blocked r.at r.client_ip k.limiter).0 })
  looked r h early k = record {
    limiter = (is_blocked r.at r.client_ip k.limiter).0;
    same = refl;
    locked = is_blocked-IsLocked ip until r.at r.client_ip k.limiter early k.locked;
  }

  login_post-Locks :
      (r : LoginRequest) (h : Handler)
      → r.at < until
      → Locks ip until h
      → Locks ip until (login_post hashes r h).0
  unfolding login_post
  login_post-Locks r h early k = elim (Bool-cases (is_blocked r.at r.client_ip k.limiter).1) [
    | inl blocked ↦ rw (k.same, blocked) (looked r h early k)
    | inr passed ↦
        let free = IsLocked-is_blocked ip until r.at k.limiter early k.locked in
        let other : text_eq r.client_ip ip ≡ false =
          ground (arith, free, passed, text_eq_iff r.client_ip ip) in
        rw (k.same, passed) (with_form-Locks r r.form _ early other (looked r h early k))
  ]

  posts-Locks :
      (rs : List LoginRequest) (h : Handler)
      → All (λ r. r.at < until) rs
      → Locks ip until h
      → Locks ip until (posts hashes rs h)
  unfolding posts
  posts-Locks [] h early k = k
  posts-Locks (r ∷ rs) h (first, rest) k =
      posts-Locks rs (login_post hashes r h).0 rest (login_post-Locks r h first k)

  -- While an address is blocked, and after any posts of the login form from any addresses, a post from
  -- the blocked address is refused, with whatever name and password, and leaves the sessions as they
  -- are.
  pub locked_out :
      (rs : List LoginRequest) (r : LoginRequest) (h : Handler)
      → Locks ip until h
      → All (λ r. r.at < until) rs
      → r.at < until
      → r.client_ip ≡ ip
      → ((login_post hashes r (posts hashes rs h)).1 ≡ rate_limited)
        × ((login_post hashes r (posts hashes rs h)).0.sessions ≡ (posts hashes rs h).sessions)
  unfolding login_post
  locked_out rs r h k early now same =
      let k' = posts-Locks rs h early k in
      let blocked = IsLocked-is_blocked ip until r.at k'.limiter now k'.locked in
      rw (k'.same, same, blocked) (refl, refl)
