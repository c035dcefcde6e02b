-- ===== src/Web/SessionAuth/Served.antt =====
-- What a request that reaches the handlers has shown.
use one_auth_watch.Prelude.{
  inl, inr, ◌⊎◌, ◌≤◌, ◌≡◌, refl, Bool, true, false, Option, none, some, List, ◌++◌, arith, Mem,
  Bool-cases,
}
use one_auth_watch.Prelude.Clock.{Time}
use one_auth_watch.Prelude.Text.{Text, codes, has_prefix}
use one_auth_watch.Web.SessionStore.{Hashes, SessionStore, credentials_match, Event, steps}
use one_auth_watch.Web.SessionStore.Grants.{grants, first_store, valid_was_granted}
use one_auth_watch.Web.SessionAuth.{
  Request, serve, is_public, extract_credentials, basic_matches, without_session, check_cookie,
  session_auth,
}

-- The request is to the API and carries the name and password of the account.
pub record HasCredentials (hashes : Hashes) (decode : Text → Option Text) (base : Text)
    (r : Request) (s : SessionStore) : Type 0 where
  pub name : Text
  pub password : Text
  pub is_api : has_prefix r.path (base ++ codes "/api/") ≡ true
  pub extracted : extract_credentials decode r.authorization ≡ some (name, password)
  pub match : credentials_match hashes name password s ≡ true

basic_matches-HasCredentials :
    (hashes : Hashes) (decode : Text → Option Text) (base : Text) (r : Request) (s : SessionStore)
    (found : Option (Text × Text))
    → has_prefix r.path (base ++ codes "/api/") ≡ true
    → extract_credentials decode r.authorization ≡ found
    → basic_matches hashes found s ≡ true
    → HasCredentials hashes decode base r s
basic_matches-HasCredentials hashes decode base r s none api e h = ground arith
basic_matches-HasCredentials hashes decode base r s (some (name, password)) api e h = record {
  name = name;
  password = password;
  is_api = api;
  extracted = e;
  match = h;
}

without_session-HasCredentials :
    (hashes : Hashes) (decode : Text → Option Text) (base : Text) (r : Request) (s : SessionStore)
    → without_session hashes decode base r s ≡ serve
    → HasCredentials hashes decode base r s
unfolding without_session
without_session-HasCredentials hashes decode base r s h =
    basic_matches-HasCredentials hashes decode base r s (extract_credentials decode r.authorization)
      (ground arith) refl (ground arith)

-- The session cookie is a token of a login, and its life has not ended.
pub record HasSession (r : Request) (now : Time) (granted : List (Text × Time)) : Type 0 where
  pub token : Text
  pub expiry : Time
  pub cookie : r.cookie ≡ some token
  pub granted_token : Mem (token, expiry) granted
  pub alive : now ≤ expiry

module _ (hashes : Hashes) (start : Time) (username hash : Text) (faults : List Bool)
    (events : List Event) (now : Time) where
  abbrev pub reached : SessionStore
  reached = steps hashes events (first_store hashes start username hash faults)

  cookie-HasSession :
      (r : Request) (cookie : Option Text)
      → r.cookie ≡ cookie
      → (check_cookie now cookie reached).1 ≡ true
      → HasSession r now (grants hashes events (first_store hashes start username hash faults))
  unfolding check_cookie
  cookie-HasSession r none e h = ground arith
  cookie-HasSession r (some token) e h =
      let (expiry, member, alive) =
        valid_was_granted hashes start username hash faults events now token h in
      record { token = token; expiry = expiry; cookie = e; granted_token = member; alive = alive }

  -- From a first start, after any calls and restarts and whatever statements fail: a request to a path
  -- that is not public reaches the handlers only if its cookie holds a token that a login with
  -- matching credentials was granted and that has not expired, or if it is to the API and carries
  -- credentials that match.
  pub served_is_authorised :
      (decode : Text → Option Text) (base : Text) (r : Request)
      → is_public base r ≡ false
      → (session_auth hashes decode base now r reached).1 ≡ serve
      → HasSession r now (grants hashes events (first_store hashes start username hash faults))
        ⊎ HasCredentials hashes decode base r (check_cookie now r.cookie reached).0
  unfolding session_auth
  served_is_authorised decode base r private served =
      elim (Bool-cases (check_cookie now r.cookie reached).1) [
        | inl e ↦ inl (cookie-HasSession r r.cookie refl e)
        | inr e ↦ inr (
            without_session-HasCredentials hashes decode base r
              (check_cookie now r.cookie reached).0 (ground arith))
      ]
