-- ===== src/Web/Login/NewPassword.antt =====
-- A change of the password ends the sessions.
use one_auth_watch.Prelude.{
  inl, inr, ◌≤◌, ◌≡◌, refl, Bool, true, false, ◌||◌, Option, none, some, List, arith, ltb, length,
  Mem, Bool-cases,
}
use one_auth_watch.Prelude.Clock.{Time}
use one_auth_watch.Prelude.Text.{Text}
use one_auth_watch.Web.SessionStore.{
  Hashes, SessionStore, authenticate, invalidate_all, update_password, validate_token, Event, steps,
}
use one_auth_watch.Web.SessionStore.Grants.{grants}
use one_auth_watch.Web.SessionStore.Logout.{delete_succeeds, logout_all_ends_sessions}
use one_auth_watch.Web.Login.{updated, save_password, verified, is_blank, change_password}

-- The store after a change that says `updated`: `s` is the one after the check of the old password.
record IsChanged (s s' : SessionStore) : Type 0 where
  hash : Text
  changed : s' ≡ invalidate_all (update_password hash s)

save-IsChanged :
    (hash : Option Text) (saved : Bool) (s : SessionStore)
    → (save_password hash saved s).1 ≡ updated
    → IsChanged s (save_password hash saved s).0
unfolding save_password
save-IsChanged none saved s done = ground arith
save-IsChanged (some hash) true s done = record { hash = hash; changed = refl }
save-IsChanged (some hash) false s done = ground arith

verified-IsChanged :
    (found hash : Option Text) (saved : Bool) (s : SessionStore)
    → (verified found hash saved s).1 ≡ updated
    → IsChanged s (verified found hash saved s).0
verified-IsChanged none hash saved s done = ground arith
verified-IsChanged (some token) hash saved s done = save-IsChanged hash saved s done

module _ (hashes : Hashes) (now : Time) (token current new : Text) (hash : Option Text)
    (saved : Bool) (s : SessionStore) where
  abbrev pub checked : SessionStore
  checked = (authenticate hashes now token s.username current s).0

  change-IsChanged :
      (change_password hashes now token current new hash saved s).1 ≡ updated
      → IsChanged checked (change_password hashes now token current new hash saved s).0
  unfolding change_password
  change-IsChanged done = elim (Bool-cases (is_blank current || is_blank new)) [
    | inl e ↦ ground arith
    | inr e ↦ elim (Bool-cases (ltb (length new) 6)) [
      | inl f ↦ ground arith
      | inr f ↦
          rw (change_password, e, f)
            (verified-IsChanged (authenticate hashes now token s.username current s).1 hash saved
              checked (ground arith))
    ]
  ]

  -- After a change of the password that says so, and whose `DELETE` of the tokens succeeds, only
  -- tokens of later logins are accepted: the session that made the change ends too.
  pub new_password_ends_sessions :
      (events : List Event) (later : Time) (held : Text)
      → (change_password hashes now token current new hash saved s).1 ≡ updated
      → delete_succeeds checked.store ≡ true
      → (validate_token later held
          (steps hashes events (change_password hashes now token current new hash saved s).0)).1
        ≡ true
      → (expiry : Time) × Mem
          (held, expiry)
          (grants hashes events (change_password hashes now token current new hash saved s).0)
        × (later ≤ expiry)
  unfolding update_password
  new_password_ends_sessions events later held done deleted valid =
      let c = change-IsChanged done in
      let s2 = update_password c.hash checked in
      let valid2 : (validate_token later held (steps hashes events (invalidate_all s2))).1 ≡ true =
        rw (← c.changed) valid in
      rw c.changed (logout_all_ends_sessions hashes s2 events later held deleted valid2)
