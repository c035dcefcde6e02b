-- ===== src/Web/SessionStore/Tests.antt =====
-- Runs of the session store.
use one_auth_watch.Prelude.{
  ◌+◌, ◌*◌, ◌≡◌, refl, true, false, some, List, [], ◌∷◌, arith, leb, ltb, All,
}
use one_auth_watch.Prelude.Clock.{hour}
use one_auth_watch.Prelude.Text.{Text, codes, text_eq}
use one_auth_watch.Prelude.Maps.{lookup, insert, remove, text_key}
use one_auth_watch.Web.SessionStore.{
  Hashes, SessionStore, session_max_age, is_legacy_hash, check_password, new_session_store, grant,
  credentials_match, authenticate, invalidate, validate_found, validate_stored, validate_cached,
  validate_token, Event, login, check, restart, step, steps,
}
use one_auth_watch.Web.SessionStore.Grants.{first_store, grants_of, grants}
use one_auth_watch.Web.SessionStore.Logout.{logout_ends_session, failed_logout_keeps_session}
use one_auth_watch.Web.SessionStore.Refines.{spec_step, spec_steps, spec_valid}
use one_auth_watch.Web.SessionStore.Implements.{reliable}
use one_auth_watch.Web.SessionStore.Promise.{store_implements_sessions}
use one_auth_watch.Web.SessionStore.Restart.{restart_keeps_session}

-- A digest that leaves a text as it is, and hashes in plain text.
abbrev plain : Hashes
plain = record { sha256_hex = λ p. p; bcrypt_matches = text_eq; stored_before = ltb }

abbrev admin : Text
admin = codes "admin"

abbrev token_a : Text
token_a = codes "a1"

abbrev token_b : Text
token_b = codes "b2"

abbrev day : List Event
day =
    login (1 * hour) token_a admin (codes "pw")
    ∷ check (2 * hour) token_a
    ∷ restart (3 * hour) (codes "pw")
    ∷ []

abbrev begin : SessionStore
begin = first_store plain 0 admin (codes "pw") []

day_valid : (validate_token (4 * hour) token_a (steps plain day begin)).1 ≡ true
unfolding steps step new_session_store authenticate credentials_match check_password is_legacy_hash
    grant invalidate validate_token validate_cached validate_stored validate_found lookup insert
    remove text_eq
day_valid = refl

abbrev logged_in : SessionStore
logged_in = record {
  tokens = (token_a, 100 * hour) ∷ [];
  username = admin;
  password_hash = codes "pw";
  store = some (record { rows = (token_a, 100 * hour) ∷ []; faults = false ∷ true ∷ [] });
}

abbrev evening : List Event
evening = restart (5 * hour) (codes "pw") ∷ login (6 * hour) token_b admin (codes "pw") ∷ []

evening_fresh :
    All (λ g. text_eq g.0 token_a ≡ false) (grants plain evening (invalidate token_a logged_in))
unfolding grants grants_of step new_session_store credentials_match check_password is_legacy_hash
    text_eq invalidate
evening_fresh = (refl, tt)

logout_ends_session_example :
    (validate_token (7 * hour) token_a (steps plain evening (invalidate token_a logged_in))).1
    ≡ false
logout_ends_session_example =
    logout_ends_session plain token_a logged_in evening (7 * hour) refl evening_fresh

abbrev failing : SessionStore
failing = record logged_in {
  store = some (record { rows = (token_a, 100 * hour) ∷ []; faults = true ∷ [] });
}

token_found : lookup token_a ((token_a, 100 * hour) ∷ []) ≡ some (100 * hour)
unfolding lookup text_eq
token_found = refl

failed_logout_keeps_session_example :
    (validate_token (7 * hour) token_a (invalidate token_a failing)).1 ≡ true
failed_logout_keeps_session_example =
    failed_logout_keeps_session token_a (100 * hour) (7 * hour)
      (record { rows = (token_a, 100 * hour) ∷ []; faults = true ∷ [] }) failing refl refl refl
      token_found refl (omega arith)

abbrev quiet : SessionStore
quiet = record logged_in { store = some (record { rows = []; faults = [] }) }

quiet_match : credentials_match plain admin (codes "pw") quiet ≡ true
unfolding credentials_match check_password is_legacy_hash text_eq
quiet_match = refl

restart_keeps_session_example :
    (validate_token (20 * hour) token_b (
      new_session_store plain
        (10 * hour)
        admin
        (codes "pw")
        (authenticate plain (9 * hour) token_b admin (codes "pw") quiet).0.store)).1
    ≡ leb (20 * hour) (9 * hour + session_max_age)
restart_keeps_session_example =
    restart_keeps_session plain (9 * hour) (10 * hour) (20 * hour) token_b admin (codes "pw")
      (codes "pw") [] quiet refl quiet_match refl refl

-- The last hour of a session, after a restart.
store_implements_sessions_example :
    (validate_token (168 * hour) token_a (
      steps plain
        (login (1 * hour) token_a admin (codes "pw") ∷ restart (2 * hour) (codes "pw") ∷ [])
        (new_session_store plain 0 admin (codes "pw") (reliable [])))).1
    ≡ true
unfolding spec_valid spec_steps spec_step check_password is_legacy_hash text_eq
store_implements_sessions_example =
    store_implements_sessions plain 0 (168 * hour) admin (codes "pw") token_a
      (login (1 * hour) token_a admin (codes "pw") ∷ restart (2 * hour) (codes "pw") ∷ [])
      (λ v t h. h) (ground arith, (ground arith, ground arith))
