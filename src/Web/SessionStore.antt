-- ===== src/Web/SessionStore.antt =====
-- `SessionStore` of server/internal/web/middleware.go, with the `auth_tokens` table of
-- server/internal/store/store.go behind it. The time of a call, and the token that `generateToken`
-- draws, are arguments.
pub mod Grants
pub mod Logout
pub mod Restart
pub mod Refines
pub mod Implements
pub mod Checks
pub mod Promise
mod Tests
use one_auth_watch.Prelude.{
  ℕ, ◌+◌, ◌*◌, Bool, true, false, not, ◌&&◌, ◌||◌, Option, none, some, List, [], ◌∷◌, leb, ◌==◌,
  length, keep, if◌then◌else◌,
}
use one_auth_watch.Prelude.Clock.{Time, second, hour, after}
use one_auth_watch.Prelude.Text.{Text, text_eq}
use one_auth_watch.Prelude.Maps.{Assoc, lookup, insert, remove, text_key}
use one_auth_watch.Database.Fault.{Db, exec, query}

-- `crypto/sha256` and `golang.org/x/crypto/bcrypt`: the hex digest of a password, and whether a
-- password matches a hash. `stored_before` is SQLite's comparison of two formatted times.
pub record Hashes : Type 0 where
  pub sha256_hex : Text → Text
  pub bcrypt_matches : Text → Text → Bool
  pub stored_before : Time → Time → Bool

abbrev pub session_max_age : Time
session_max_age = 7 * 24 * hour

pub record SessionStore : Type 0 where
  pub tokens : Assoc Text Time
  pub username : Text
  pub password_hash : Text
  pub store : Option (Db (Text × Time))

-- `IsLegacyHash`: 64 hex digits.
abbrev is_hex : ℕ → Bool
is_hex c = leb 48 c && leb c 57 || leb 97 c && leb c 102 || leb 65 c && leb c 70

abbrev all_hex : Text → Bool
all_hex [] = true
all_hex (c ∷ s) = is_hex c && all_hex s

unfoldable pub is_legacy_hash : Text → Bool
is_legacy_hash hash = length hash == 64 && all_hex hash

unfoldable pub check_password : Hashes → Text → Text → Bool
check_password hashes password stored =
    if is_legacy_hash stored
    then text_eq (hashes.sha256_hex password) stored
    else hashes.bcrypt_matches password stored

-- The statements on `auth_tokens`; their errors are dropped by every caller but the query's.
abbrev pub exec_if :
    (Assoc Text Time → Assoc Text Time) → Option (Db (Text × Time)) → Option (Db (Text × Time))
exec_if change none = none
exec_if change (some db) = some (exec change db).0

abbrev pub save_auth_token : Text → Time → Option (Db (Text × Time)) → Option (Db (Text × Time))
save_auth_token token expiry = exec_if (insert token expiry)

abbrev pub delete_auth_token : Text → Option (Db (Text × Time)) → Option (Db (Text × Time))
delete_auth_token token = exec_if (remove token)

abbrev pub delete_all_auth_tokens : Option (Db (Text × Time)) → Option (Db (Text × Time))
delete_all_auth_tokens = exec_if (λ rows. [])

abbrev pub clean_expired_auth_tokens :
    Hashes → Time → Option (Db (Text × Time)) → Option (Db (Text × Time))
clean_expired_auth_tokens hashes now = exec_if (keep (λ row. not (hashes.stored_before row.1 now)))

abbrev pub get_auth_token_expiry : Text → Db (Text × Time) → Db (Text × Time) × Option (Option Time)
get_auth_token_expiry token = query (lookup token)

unfoldable pub new_session_store :
    Hashes → Time → Text → Text → Option (Db (Text × Time)) → SessionStore
new_session_store hashes now username password_hash db = record {
  tokens = [];
  username = username;
  password_hash = password_hash;
  store = clean_expired_auth_tokens hashes now db;
}

unfoldable pub grant : Time → Text → SessionStore → SessionStore
grant now token s = record s {
  tokens = insert token (now + session_max_age) s.tokens;
  store = save_auth_token token (now + session_max_age) s.store;
}

unfoldable pub credentials_match : Hashes → Text → Text → SessionStore → Bool
credentials_match hashes username password s =
    text_eq username s.username && check_password hashes password s.password_hash

unfoldable pub authenticate :
    Hashes → Time → Text → Text → Text → SessionStore → SessionStore × Option Text
authenticate hashes now token username password s =
    if credentials_match hashes username password s
    then (grant now token s, some token)
    else (s, none)

-- `Invalidate`: also what `ValidateToken` does with an expired token of the cache.
pub invalidate : Text → SessionStore → SessionStore
invalidate token s = record s {
  tokens = remove token s.tokens;
  store = delete_auth_token token s.store;
}

-- What `ValidateToken` does with the answer of the database.
pub validate_found : Time → Text → Option (Option Time) → SessionStore → SessionStore × Bool
validate_found now token none s = (s, false)
validate_found now token (some none) s = (s, false)
validate_found now token (some (some expiry)) s =
    if after now expiry
    then (record s { store = delete_auth_token token s.store }, false)
    else (record s { tokens = insert token expiry s.tokens }, true)

pub validate_stored : Time → Text → Option (Db (Text × Time)) → SessionStore → SessionStore × Bool
validate_stored now token none s = (s, false)
validate_stored now token (some db) s =
    let (db', found) = get_auth_token_expiry token db in
    validate_found now token found (record s { store = some db' })

unfoldable pub validate_cached : Time → Text → Option Time → SessionStore → SessionStore × Bool
validate_cached now token none s = validate_stored now token s.store s
validate_cached now token (some expiry) s =
    if after now expiry then (invalidate token s, false) else (s, true)

abbrev is_blank : Text → Bool
is_blank [] = true
is_blank (c ∷ s) = false

unfoldable pub validate_token : Time → Text → SessionStore → SessionStore × Bool
validate_token now token s =
    if is_blank token then (s, false) else validate_cached now token (lookup token s.tokens) s

unfoldable pub update_password : Text → SessionStore → SessionStore
update_password hash s = record s { password_hash = hash }

unfoldable pub invalidate_all : SessionStore → SessionStore
invalidate_all s = record s { tokens = []; store = delete_all_auth_tokens s.store }

-- The loop of `EvictExpiredTokens` over the entries of the cache.
pub evict_each : Time → Assoc Text Time → SessionStore → SessionStore
evict_each now [] s = s
evict_each now ((token, expiry) ∷ entries) s =
    evict_each now entries (if after now expiry then invalidate token s else s)

pub evict_expired_tokens : Time → SessionStore → SessionStore
evict_expired_tokens now s = evict_each now s.tokens s

-- The calls of the store, and a new process over the same database.
pub data Event : Type 0 where
  login : Time → Text → Text → Text → Event
  check : Time → Text → Event
  logout : Text → Event
  new_password : Text → Event
  logout_all : Event
  evict : Time → Event
  restart : Time → Text → Event

unfoldable pub step : Hashes → Event → SessionStore → SessionStore
step hashes (login now token username password) s =
    (authenticate hashes now token username password s).0
step hashes (check now token) s = (validate_token now token s).0
step hashes (logout token) s = invalidate token s
step hashes (new_password hash) s = update_password hash s
step hashes logout_all s = invalidate_all s
step hashes (evict now) s = evict_expired_tokens now s
step hashes (restart now hash) s = new_session_store hashes now s.username hash s.store

unfoldable pub steps : Hashes → List Event → SessionStore → SessionStore
steps hashes [] s = s
steps hashes (e ∷ events) s = steps hashes events (step hashes e s)
