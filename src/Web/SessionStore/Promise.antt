-- ===== src/Web/SessionStore/Promise.antt =====
-- A reliable session store implements its specification.
use one_auth_watch.Prelude.{
  inl, inr, ◌≤◌, ◌≡◌, refl, ap, sym, ◌∙◌, true, not, some, List, [], ◌∷◌, keep, All, Bool-cases,
}
use one_auth_watch.Prelude.Clock.{Time, after}
use one_auth_watch.Prelude.Text.{Text}
use one_auth_watch.Prelude.Maps.{Assoc, empty_map, text_key}
use one_auth_watch.Prelude.Distinct.{All-of-lookup}
use one_auth_watch.Web.SessionStore.{
  Hashes, SessionStore, delete_all_auth_tokens, clean_expired_auth_tokens, new_session_store,
  credentials_match, authenticate, invalidate, validate_token, invalidate_all, update_password,
  evict_each, evict_expired_tokens, Event, login, check, logout, new_password, logout_all, evict,
  restart, step, steps,
}
use one_auth_watch.Web.SessionStore.Refines.{
  Sessions, spec_step, spec_steps, spec_valid, time_of, InOrder, clean-Refines, empty-Refines,
}
use one_auth_watch.Web.SessionStore.Implements.{
  reliable, Implements, later-Implements, grant-Implements, invalidate-Implements,
  expired-Implements, same_match,
}
use one_auth_watch.Web.SessionStore.Checks.{validate-Answers}

evict_each-Implements :
    (now : Time) (m : Sessions) (entries : Assoc Text Time) (s : SessionStore)
    → All (λ g. m.until g.0 ≡ some g.1) entries
    → Implements now m s
    → Implements now m (evict_each now entries s)
unfolding evict_each
evict_each-Implements now m [] s known h = h
evict_each-Implements now m ((token, v) ∷ entries) s (first, rest) h =
    elim (Bool-cases (after now v)) [
      | inl over ↦ rw over (
          evict_each-Implements now m entries (invalidate token s) rest
            (expired-Implements now m s h token v first over))
      | inr on ↦ rw on (evict_each-Implements now m entries s rest h)
    ]

module _ (hashes : Hashes)
    (past : (v now : Time) → hashes.stored_before v now ≡ true → after now v ≡ true) where
  login-Implements :
      (now : Time) (token username password : Text) (m : Sessions) (s : SessionStore)
      → Implements now m s
      → Implements now
          (spec_step hashes (login now token username password) m)
          (authenticate hashes now token username password s).0
  unfolding spec_step authenticate
  login-Implements now token username password m s h =
      let same = same_match now m s h hashes username password in
      elim (Bool-cases (credentials_match hashes username password s)) [
        | inl e ↦ rw (e, sym same ∙ e) (grant-Implements now m s h now token)
        | inr e ↦ rw (e, sym same ∙ e) h
      ]

  step-Implements :
      (e : Event) (t : Time) (m : Sessions) (s : SessionStore)
      → t ≤ time_of e t
      → Implements t m s
      → Implements (time_of e t) (spec_step hashes e m) (step hashes e s)
  unfolding step spec_step update_password invalidate_all evict_expired_tokens new_session_store
  step-Implements (login now token username password) t m s le h =
      login-Implements now token username password m s (later-Implements t m s h now le)
  step-Implements (check now token) t m s le h =
      (validate-Answers now token m s (later-Implements t m s h now le)).0
  step-Implements (logout token) t m s le h = invalidate-Implements t m s h token
  step-Implements (new_password hash) t m s le h = record {
    rows = h.rows;
    database = h.database;
    refines = h.refines;
    name = h.name;
    hash = refl;
  }
  step-Implements logout_all t m s le h = record {
    rows = [];
    database = ap delete_all_auth_tokens h.database;
    refines = empty-Refines t;
    name = h.name;
    hash = h.hash;
  }
  step-Implements (evict now) t m s le h =
      let k = later-Implements t m s h now le in
      evict_each-Implements now m s.tokens s
        (All-of-lookup (λ g. m.until g.0 ≡ some g.1) s.tokens k.refines.distinct k.refines.cached) k
  step-Implements (restart now hash) t m s le h =
      let k = later-Implements t m s h now le in
      record {
        rows = keep (λ row. not (hashes.stored_before row.1 now)) k.rows;
        database = ap (clean_expired_auth_tokens hashes now) k.database;
        refines =
            clean-Refines now m.until s.tokens k.rows k.refines hashes.stored_before
              (λ v. past v now);
        name = k.name;
        hash = refl;
      }

  steps-Answers :
      (events : List Event) (t now : Time) (token : Text) (m : Sessions) (s : SessionStore)
      → InOrder t events now
      → Implements t m s
      → (validate_token now token (steps hashes events s)).1
        ≡ spec_valid now token (spec_steps hashes events m)
  unfolding steps spec_steps
  steps-Answers [] t now token m s le h =
      (validate-Answers now token m s (later-Implements t m s h now le)).1
  steps-Answers (e ∷ events) t now token m s (le, rest) h =
      steps-Answers events (time_of e t) now token (spec_step hashes e m) (step hashes e s) rest
        (step-Implements e t m s le h)

-- The specification at a first start.
abbrev pub no_sessions : Text → Text → Sessions
no_sessions username hash = record { until = empty_map; username = username; password_hash = hash }

-- While no statement fails, the clock does not go back and the start of a process deletes only tokens
-- that expired: after any calls and restarts from a first start, a token is accepted exactly if it
-- was granted by a login with matching credentials, no logout, of all tokens or of this one, came
-- since, and its life has not ended. The cache, the checks, the sweeps and the restarts play no role.
pub store_implements_sessions :
    (hashes : Hashes) (start now : Time) (username hash token : Text) (events : List Event)
    → ((v t : Time) → hashes.stored_before v t ≡ true → after t v ≡ true)
    → InOrder start events now
    → (validate_token now token
        (steps hashes events (new_session_store hashes start username hash (reliable [])))).1
      ≡ spec_valid now token (spec_steps hashes events (no_sessions username hash))
unfolding new_session_store
store_implements_sessions hashes start now username hash token events past order =
    steps-Answers hashes past events start now token (no_sessions username hash)
      (new_session_store hashes start username hash (reliable [])) order
      (record {
        rows = [];
        database = refl;
        refines = empty-Refines start;
        name = refl;
        hash = refl;
      })
