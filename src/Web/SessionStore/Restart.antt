-- ===== src/Web/SessionStore/Restart.antt =====
-- Sessions across a restart of the process.
use one_auth_watch.Prelude.{
  inl, inr, ap, ◌+◌, ◌≡◌, refl, Bool, true, false, not, some, [], ◌∷◌, arith, leb, Bool-cases, keep,
}
use one_auth_watch.Prelude.Clock.{Time, after}
use one_auth_watch.Prelude.Text.{Text, text_eq_refl}
use one_auth_watch.Prelude.Maps.{Assoc, lookup, insert, text_key}
use one_auth_watch.Web.SessionStore.{
  Hashes, SessionStore, session_max_age, new_session_store, authenticate, grant, credentials_match,
  validate_found, validate_stored, validate_cached, validate_token, is_blank,
}

kept_lookup :
    (p : Text × Time → Bool) (token : Text) (expiry : Time) (rows : Assoc Text Time)
    → p (token, expiry) ≡ true
    → lookup token (keep p (insert token expiry rows)) ≡ some expiry
unfolding lookup insert
kept_lookup p token expiry [] h = rw (h, text_eq_refl token) refl
kept_lookup p token expiry ((k, v) ∷ rows) h =
    ground (arith, text_eq_refl token, kept_lookup p token expiry rows h)

-- The token that a login returns is accepted by a later process on the same database exactly until
-- it expires, if no statement fails and the text comparison of `CleanExpiredAuthTokens` at the start
-- of that process does not count its expiry as past.
pub restart_keeps_session :
    (hashes : Hashes) (login_time start now : Time) (token username password hash : Text)
    (rows : Assoc Text Time) (s : SessionStore)
    → s.store ≡ some (record { rows = rows; faults = [] })
    → credentials_match hashes username password s ≡ true
    → is_blank token ≡ false
    → hashes.stored_before (login_time + session_max_age) start ≡ false
    → (validate_token now token (
        new_session_store hashes start username hash
          (authenticate hashes login_time token username password s).0.store)).1
      ≡ leb now (login_time + session_max_age)
unfolding authenticate grant new_session_store validate_token validate_cached validate_stored
    validate_found lookup
restart_keeps_session hashes login_time start now token username password hash rows s same good
      named later =
    let expiry = login_time + session_max_age in
    let found : lookup token
          (keep (λ row. not (hashes.stored_before row.1 start)) (insert token expiry rows))
        ≡ some expiry =
      kept_lookup (λ row. not (hashes.stored_before row.1 start)) token expiry rows
        (ap not later) in
    elim (Bool-cases (after now expiry)) [
      | inl e ↦ rw (good, named, same, found, e) (ground arith)
      | inr e ↦ rw (good, named, same, found, e) (ground arith)
    ]
