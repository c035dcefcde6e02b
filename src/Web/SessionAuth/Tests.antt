-- ===== src/Web/SessionAuth/Tests.antt =====
-- Requests through the middleware.
use one_auth_watch.Prelude.{◌*◌, ◌≡◌, refl, ◌⊎◌, false, Option, some, List, [], ◌∷◌, ltb}
use one_auth_watch.Prelude.Clock.{hour}
use one_auth_watch.Prelude.Text.{Text, codes, text_eq, has_prefix}
use one_auth_watch.Prelude.Maps.{lookup, insert, text_key}
use one_auth_watch.Web.SessionStore.{
  Hashes, Event, login, steps, step, new_session_store, authenticate, credentials_match,
  check_password, is_legacy_hash, grant, validate_token, validate_cached,
}
use one_auth_watch.Web.SessionStore.Grants.{grants, first_store}
use one_auth_watch.Web.SessionAuth.{
  Request, serve, is_static_asset, is_public_client_path, is_local_menubar_public_path, is_public,
  check_cookie, session_auth,
}
use one_auth_watch.Web.SessionAuth.Served.{
  HasSession, HasCredentials, reached, served_is_authorised,
}

abbrev plain : Hashes
plain = record { sha256_hex = λ p. p; bcrypt_matches = text_eq; stored_before = ltb }

abbrev log_in : List Event
log_in = login (1 * hour) (codes "a1") (codes "admin") (codes "pw") ∷ []

-- A decoder that leaves a text as it is.
abbrev decode : Text → Option Text
decode s = some s

abbrev api_call : Request
api_call = record {
  path = codes "/api/alerts";
  cookie = some (codes "a1");
  authorization = [];
  loopback = false;
}

api_call_private : is_public [] api_call ≡ false
unfolding is_public is_static_asset is_public_client_path is_local_menubar_public_path text_eq
    has_prefix
api_call_private = refl

api_call_served :
    (session_auth plain decode []
      (2 * hour)
      api_call
      (reached plain 0 (codes "admin") (codes "pw") [] log_in (2 * hour))).1
    ≡ serve
unfolding session_auth is_public is_static_asset is_public_client_path is_local_menubar_public_path
    text_eq has_prefix check_cookie steps step new_session_store authenticate credentials_match
    check_password is_legacy_hash grant validate_token validate_cached lookup insert
api_call_served = refl

served_is_authorised_example :
    HasSession api_call
      (2 * hour)
      (grants plain log_in (first_store plain 0 (codes "admin") (codes "pw") []))
    ⊎ HasCredentials plain decode [] api_call
        (check_cookie
          (2 * hour)
          (some (codes "a1"))
          (reached plain 0 (codes "admin") (codes "pw") [] log_in (2 * hour))).0
served_is_authorised_example =
    served_is_authorised plain 0 (codes "admin") (codes "pw") [] log_in (2 * hour) decode []
      api_call api_call_private api_call_served
