-- ===== src/Web/SessionStore/Implements.antt =====
-- A reliable session store against its specification: the calls that grant and take back.
use one_auth_watch.Prelude.{◌+◌, ◌≤◌, ◌≡◌, ap, ◌∙◌, true, ◌&&◌, Option, some, []}
use one_auth_watch.Prelude.Clock.{Time, after}
use one_auth_watch.Prelude.Text.{Text, text_eq}
use one_auth_watch.Prelude.Maps.{Assoc, delete, insert, remove, text_key}
use one_auth_watch.Database.Fault.{Db}
use one_auth_watch.Web.SessionStore.{
  Hashes, SessionStore, session_max_age, save_auth_token, delete_auth_token, grant,
  credentials_match, check_password, invalidate,
}
use one_auth_watch.Web.SessionStore.Refines.{
  Sessions, spec_login, Refines, later-Refines, put-Refines, delete-Refines, expired-Refines,
}

-- A reliable database.
abbrev pub reliable : Assoc Text Time → Option (Db (Text × Time))
reliable rows = some (record { rows = rows; faults = [] })

pub record Implements (t : Time) (m : Sessions) (s : SessionStore) : Type 0 where
  pub rows : Assoc Text Time
  pub database : s.store ≡ reliable rows
  pub refines : Refines t m.until s.tokens rows
  pub name : s.username ≡ m.username
  pub hash : s.password_hash ≡ m.password_hash

module _ (t : Time) (m : Sessions) (s : SessionStore) (h : Implements t m s) where
  pub later-Implements : (now : Time) → t ≤ now → Implements now m s
  later-Implements now le = record {
    rows = h.rows;
    database = h.database;
    refines = later-Refines t m.until s.tokens h.rows h.refines now le;
    name = h.name;
    hash = h.hash;
  }

  pub grant-Implements :
      (now : Time) (token : Text) → Implements t (spec_login true now token m) (grant now token s)
  unfolding grant
  grant-Implements now token = record {
    rows = insert token (now + session_max_age) h.rows;
    database = ap (save_auth_token token (now + session_max_age)) h.database;
    refines = put-Refines t m.until s.tokens h.rows h.refines token (now + session_max_age);
    name = h.name;
    hash = h.hash;
  }

  pub invalidate-Implements :
      (token : Text) → Implements t (record m { until = delete m.until token }) (invalidate token s)
  unfolding invalidate
  invalidate-Implements token = record {
    rows = remove token h.rows;
    database = ap (delete_auth_token token) h.database;
    refines = delete-Refines t m.until s.tokens h.rows h.refines token;
    name = h.name;
    hash = h.hash;
  }

  pub expired-Implements :
      (token : Text) (v : Time)
      → m.until token ≡ some v
      → after t v ≡ true
      → Implements t m (invalidate token s)
  unfolding invalidate
  expired-Implements token v e over = record {
    rows = remove token h.rows;
    database = ap (delete_auth_token token) h.database;
    refines = expired-Refines t m.until s.tokens h.rows h.refines token v e over;
    name = h.name;
    hash = h.hash;
  }

  pub same_match :
      (hashes : Hashes) (username password : Text)
      → credentials_match hashes username password s
        ≡ (text_eq username m.username && check_password hashes password m.password_hash)
  unfolding credentials_match
  same_match hashes username password =
      ap (λ u. text_eq username u && check_password hashes password s.password_hash) h.name
      ∙ ap (λ p. text_eq username m.username && check_password hashes password p) h.hash
