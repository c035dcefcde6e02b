-- ===== src/Web/SessionStore/Logout.antt =====
-- Whether a logout ends a session.
use one_auth_watch.Prelude.{
  inl, inr, ◌≤◌, ◌≡◌, refl, Bool, true, false, not, Option, none, some, List, [], ◌∷◌, arith,
  ge→ltb, All, Mem, All-of-mem, Bool-cases,
}
use one_auth_watch.Prelude.Clock.{Time}
use one_auth_watch.Prelude.Text.{Text, text_eq, text_eq_refl}
use one_auth_watch.Prelude.Maps.{Assoc, lookup, remove, text_key, lookup-remove}
use one_auth_watch.Database.Fault.{Db, next_fault, later_faults}
use one_auth_watch.Web.SessionStore.{
  Hashes, SessionStore, delete_auth_token, delete_all_auth_tokens, invalidate, invalidate_all,
  validate_found, validate_stored, validate_cached, validate_token, is_blank, Event, steps,
}
use one_auth_watch.Web.SessionStore.Grants.{
  Held, Stored, Accepted, steps-Held, validate-Accepted, grants,
}

-- The next statement on the database, if there is one, succeeds.
abbrev pub delete_succeeds : Option (Db (Text × Time)) → Bool
delete_succeeds none = true
delete_succeeds (some db) = not (next_fault db.faults)

abbrev IsOther : Text → Text × Time → Type 0
IsOther token g = text_eq g.0 token ≡ false

removed-IsOther : (token : Text) (m : Assoc Text Time) → All (IsOther token) (remove token m)
unfolding remove
removed-IsOther token [] = tt
removed-IsOther token ((k, v) ∷ m) = elim (Bool-cases (text_eq k token)) [
  | inl e ↦ rw e (removed-IsOther token m)
  | inr e ↦ rw e (e, removed-IsOther token m)
]

deleted-Stored :
    (token : Text) (store : Option (Db (Text × Time)))
    → delete_succeeds store ≡ true
    → Stored (IsOther token) (delete_auth_token token store)
deleted-Stored token none h = tt
deleted-Stored token (some db) h =
    let e : next_fault db.faults ≡ false = ground arith in rw e (removed-IsOther token db.rows)

all_deleted :
    (P : Text × Time → Type 0) (store : Option (Db (Text × Time)))
    → delete_succeeds store ≡ true
    → Stored P (delete_all_auth_tokens store)
all_deleted P none h = tt
all_deleted P (some db) h = let e : next_fault db.faults ≡ false = ground arith in rw e tt

-- After a logout whose `DELETE` succeeds (or without a database) the token is refused, whatever calls,
-- restarts and failing statements follow, unless a later login draws the same token.
pub logout_ends_session :
    (hashes : Hashes) (token : Text) (s : SessionStore) (events : List Event) (now : Time)
    → delete_succeeds s.store ≡ true
    → All (λ g. text_eq g.0 token ≡ false) (grants hashes events (invalidate token s))
    → (validate_token now token (steps hashes events (invalidate token s))).1 ≡ false
unfolding invalidate Accepted
logout_ends_session hashes token s events now deleted fresh =
    let gone : Held (IsOther token) (invalidate token s) = record {
      cached = removed-IsOther token s.tokens;
      stored = deleted-Stored token s.store deleted;
    } in
    let held = steps-Held (IsOther token) hashes events (invalidate token s) fresh gone in
    let accepted =
      validate-Accepted (IsOther token) now token (steps hashes events (invalidate token s)) held in
    elim (Bool-cases (validate_token now token (steps hashes events (invalidate token s))).1) [
      | inl e ↦
          let (expiry, other, alive) = accepted.1 e in ground (arith, other, text_eq_refl token)
      | inr e ↦ e
    ]

-- `Invalidate` drops the error of its `DELETE`: where that statement fails, the token that was just
-- logged out is still in the database and is accepted again until it expires.
pub failed_logout_keeps_session :
    (token : Text) (expiry now : Time) (db : Db (Text × Time)) (s : SessionStore)
    → s.store ≡ some db
    → next_fault db.faults ≡ true
    → next_fault (later_faults db.faults) ≡ false
    → lookup token db.rows ≡ some expiry
    → is_blank token ≡ false
    → now ≤ expiry
    → (validate_token now token (invalidate token s)).1 ≡ true
unfolding validate_token validate_cached validate_stored validate_found invalidate
failed_logout_keeps_session token expiry now db s same failed next found named alive =
    rw
      (
        named,
        lookup-remove token token s.tokens,
        text_eq_refl token,
        same,
        failed,
        next,
        found,
        ge→ltb expiry now alive,
      )
      refl

-- After `InvalidateAll` with a `DELETE` that succeeds, only tokens of later logins are accepted.
pub logout_all_ends_sessions :
    (hashes : Hashes) (s : SessionStore) (events : List Event) (now : Time) (token : Text)
    → delete_succeeds s.store ≡ true
    → (validate_token now token (steps hashes events (invalidate_all s))).1 ≡ true
    → (expiry : Time) × Mem (token, expiry) (grants hashes events (invalidate_all s))
      × (now ≤ expiry)
unfolding invalidate_all Accepted
logout_all_ends_sessions hashes s events now token deleted valid =
    let P : Text × Time → Type 0 = λ g. Mem g (grants hashes events (invalidate_all s)) in
    let held =
      steps-Held P hashes events (invalidate_all s)
        (All-of-mem P (grants hashes events (invalidate_all s)) (λ g m. m))
        (record { cached = tt; stored = all_deleted P s.store deleted }) in
    (validate-Accepted P now token (steps hashes events (invalidate_all s)) held).1 valid
