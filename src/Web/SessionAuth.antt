-- ===== src/Web/SessionAuth.antt =====
-- `SessionAuthMiddleware` of server/internal/web/middleware.go: which requests reach the handlers.
-- Whether a request comes from a loopback address (`net.ParseIP`) is a field of it.
pub mod Served
mod Tests
use one_auth_watch.Prelude.{
  ℕ, Bool, true, false, ◌&&◌, ◌||◌, Option, none, some, List, [], ◌∷◌, ◌++◌, ◌==◌, if◌then◌else◌,
}
use one_auth_watch.Prelude.Clock.{Time}
use one_auth_watch.Prelude.Text.{Text, codes, text_eq, has_prefix}
use one_auth_watch.Web.SessionStore.{Hashes, SessionStore, credentials_match, validate_token}

-- `authorization` is the header, empty if there is none; `cookie` is the session cookie.
pub record Request : Type 0 where
  pub path : Text
  pub cookie : Option Text
  pub authorization : Text
  pub loopback : Bool

pub data Answer : Type 0 where
  serve unauthorized redirect_to_login : Answer

pub is_static_asset : Text → Text → Bool
is_static_asset path base =
    has_prefix path (base ++ codes "/static/")
    || text_eq path (base ++ codes "/sw.js")
    || text_eq path (base ++ codes "/manifest.json")

pub is_public_client_path : Text → Text → Bool
is_public_client_path path base =
    text_eq path (base ++ codes "/")
    || text_eq path (base ++ codes "/api/client/state")
    || text_eq path (base ++ codes "/api/credentials")

pub is_local_menubar_public_path : Text → Bool
is_local_menubar_public_path path =
    text_eq path (codes "/menubar")
    || text_eq path (codes "/api/menubar/summary")
    || text_eq path (codes "/api/menubar/preferences")
    || text_eq path (codes "/api/menubar/refresh")

pub is_public : Text → Request → Bool
is_public base r =
    is_static_asset r.path base
    || is_public_client_path r.path base
    || text_eq r.path (base ++ codes "/login")
    || is_local_menubar_public_path r.path && r.loopback

-- The rest of a text after the first `n` code points.
abbrev drop : {A B : Type 0} → List B → List A → List A
drop [] s = s
drop (d ∷ ds) [] = []
drop (d ∷ ds) (c ∷ s) = drop ds s

abbrev pub basic : Text
basic = codes "Basic "

-- `strings.SplitN(s, ":", 2)` with two parts.
abbrev extend : ℕ → Option (Text × Text) → Option (Text × Text)
extend c none = none
extend c (some (name, password)) = some (c ∷ name, password)

pub split_colon : Text → Option (Text × Text)
split_colon [] = none
split_colon (c ∷ s) = let rest = split_colon s in if c == 58 then some ([], s) else extend c rest

abbrev decoded_credentials : Option Text → Option (Text × Text)
decoded_credentials none = none
decoded_credentials (some s) = split_colon s

abbrev encoded_credentials : (Text → Option Text) → Text → Option (Text × Text)
encoded_credentials decode [] = none
encoded_credentials decode (c ∷ s) = decoded_credentials (decode (c ∷ s))

-- `extractCredentials`; `decode` is `base64.StdEncoding.DecodeString`.
pub extract_credentials : (Text → Option Text) → Text → Option (Text × Text)
extract_credentials decode header =
    if has_prefix header basic then encoded_credentials decode (drop basic header) else none

abbrev basic_matches : Hashes → Option (Text × Text) → SessionStore → Bool
basic_matches hashes none s = false
basic_matches hashes (some (name, password)) s = credentials_match hashes name password s

-- The answer to a request without a valid session.
pub without_session : Hashes → (Text → Option Text) → Text → Request → SessionStore → Answer
without_session hashes decode base r s =
    if has_prefix r.path (base ++ codes "/api/")
    then if basic_matches hashes (extract_credentials decode r.authorization) s
      then serve
      else unauthorized
    else redirect_to_login

pub check_cookie : Time → Option Text → SessionStore → SessionStore × Bool
check_cookie now none s = (s, false)
check_cookie now (some token) s = validate_token now token s

pub session_auth :
    Hashes → (Text → Option Text) → Text → Time → Request → SessionStore → SessionStore × Answer
session_auth hashes decode base now r s =
    if is_public base r
    then (s, serve)
    else let (s', valid) = check_cookie now r.cookie s in
      (s', if valid then serve else without_session hashes decode base r s')
