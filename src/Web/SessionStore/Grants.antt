-- ===== src/Web/SessionStore/Grants.antt =====
-- A token is valid only if a login granted it.
use one_auth_watch.Prelude.{
  inl, inr, ◌+◌, ◌≤◌, ◌≡◌, refl, Bool, true, false, Option, none, some, List, [], ◌∷◌, ◌++◌, arith,
  All, Mem, All-of-mem, All-append, Bool-cases, if◌then◌else◌, cons_if,
}
use one_auth_watch.Prelude.Clock.{Time, after}
use one_auth_watch.Prelude.Text.{Text}
use one_auth_watch.Prelude.Maps.{
  Assoc, lookup, text_key, All-keep, All-insert, All-remove, All-lookup,
}
use one_auth_watch.Database.Fault.{Db, next_fault}
use one_auth_watch.Web.SessionStore.{
  Hashes, SessionStore, session_max_age, exec_if, new_session_store, grant, credentials_match,
  authenticate, invalidate, validate_found, validate_stored, validate_cached, validate_token,
  invalidate_all, update_password, evict_each, evict_expired_tokens, is_blank, Event, login, check,
  logout, new_password, logout_all, evict, restart, step, steps,
}

-- The tokens that logins with the right name and password got, with the ends of their lives.
unfoldable pub grants_of : Hashes → Event → SessionStore → List (Text × Time)
grants_of hashes (login now token username password) s =
    cons_if (credentials_match hashes username password s) (token, now + session_max_age) []
grants_of hashes _ s = []

unfoldable pub grants : Hashes → List Event → SessionStore → List (Text × Time)
grants hashes [] s = []
grants hashes (e ∷ events) s = grants_of hashes e s ++ grants hashes events (step hashes e s)

abbrev pub Stored : (Text × Time → Type 0) → Option (Db (Text × Time)) → Type 0
Stored P none = Unit
Stored P (some db) = All P db.rows

-- Every token of the cache and the database has a property.
module _ (P : Text × Time → Type 0) where
  pub record Held (s : SessionStore) : Type 0 where
    pub cached : All P s.tokens
    pub stored : Stored P s.store

  exec_if-Stored :
      (change : Assoc Text Time → Assoc Text Time) (store : Option (Db (Text × Time)))
      → ((rows : Assoc Text Time) → All P rows → All P (change rows))
      → Stored P store
      → Stored P (exec_if change store)
  exec_if-Stored change none kept h = tt
  exec_if-Stored change (some db) kept h = elim (Bool-cases (next_fault db.faults)) [
    | inl e ↦ rw e h
    | inr e ↦ rw e (kept db.rows h)
  ]

  new-Held :
      (hashes : Hashes) (now : Time) (username hash : Text) (store : Option (Db (Text × Time)))
      → Stored P store
      → Held (new_session_store hashes now username hash store)
  unfolding new_session_store
  new-Held hashes now username hash store h = record {
    cached = tt;
    stored = exec_if-Stored _ store (All-keep P _) h;
  }

  grant-Held :
      (now : Time) (token : Text) (s : SessionStore)
      → P (token, now + session_max_age)
      → Held s
      → Held (grant now token s)
  unfolding grant
  grant-Held now token s new h = record {
    cached = All-insert P token _ s.tokens new h.cached;
    stored = exec_if-Stored _ s.store (λ rows. All-insert P token _ rows new) h.stored;
  }

  invalidate-Held : (token : Text) (s : SessionStore) → Held s → Held (invalidate token s)
  unfolding invalidate
  invalidate-Held token s h = record {
    cached = All-remove P token s.tokens h.cached;
    stored = exec_if-Stored _ s.store (All-remove P token) h.stored;
  }

  evict_each-Held :
      (now : Time) (entries : Assoc Text Time) (s : SessionStore)
      → Held s
      → Held (evict_each now entries s)
  unfolding evict_each
  evict_each-Held now [] s h = h
  evict_each-Held now ((token, expiry) ∷ entries) s h = elim (Bool-cases (after now expiry)) [
    | inl e ↦ rw e (evict_each-Held now entries (invalidate token s) (invalidate-Held token s h))
    | inr e ↦ rw e (evict_each-Held now entries s h)
  ]

  -- What an accepted token must be.
  unfoldable pub Accepted : Time → Text → SessionStore × Bool → Type 0
  Accepted now token (s, valid) =
      Held s × (valid ≡ true → (expiry : Time) × P (token, expiry) × (now ≤ expiry))

  refused : (now : Time) (token : Text) (s : SessionStore) → Held s → Accepted now token (s, false)
  unfolding Accepted
  refused now token s h = (h, λ f. ground arith)

  found-Accepted :
      (now : Time) (token : Text) (found : Option (Option Time)) (s : SessionStore)
      → ((expiry : Time) → found ≡ some (some expiry) → P (token, expiry))
      → Held s
      → Accepted now token (validate_found now token found s)
  unfolding validate_found Accepted
  found-Accepted now token none s new h = refused now token s h
  found-Accepted now token (some none) s new h = refused now token s h
  found-Accepted now token (some (some expiry)) s new h = elim (Bool-cases (after now expiry)) [
    | inl e ↦ rw e (
        refused now token _ (record {
          cached = h.cached;
          stored = exec_if-Stored _ s.store (All-remove P token) h.stored;
        }))
    | inr e ↦ rw e (
      record {
        cached = All-insert P token expiry s.tokens (new expiry refl) h.cached;
        stored = h.stored;
      },
      λ v. (expiry, new expiry refl, ground arith),
    )
  ]

  Stored-Accepted :
      (now : Time) (token : Text) (store : Option (Db (Text × Time))) (s : SessionStore)
      → s.store ≡ store
      → Stored P store
      → Held s
      → Accepted now token (validate_stored now token store s)
  unfolding validate_stored
  Stored-Accepted now token none s same rows h = refused now token s h
  Stored-Accepted now token (some db) s same rows h =
      found-Accepted now token (if next_fault db.faults then none else some (lookup token db.rows))
        _ (λ expiry found. All-lookup P token expiry db.rows (ground arith) rows)
        (record { cached = h.cached; stored = rows })

  cached-Accepted :
      (now : Time) (token : Text) (found : Option Time) (s : SessionStore)
      → ((expiry : Time) → found ≡ some expiry → P (token, expiry))
      → Held s
      → Accepted now token (validate_cached now token found s)
  unfolding validate_cached Accepted
  cached-Accepted now token none s new h = Stored-Accepted now token s.store s refl h.stored h
  cached-Accepted now token (some expiry) s new h = elim (Bool-cases (after now expiry)) [
    | inl e ↦ rw e (refused now token _ (invalidate-Held token s h))
    | inr e ↦ rw e (h, λ v. (expiry, new expiry refl, ground arith))
  ]

  pub validate-Accepted :
      (now : Time) (token : Text) (s : SessionStore)
      → Held s
      → Accepted now token (validate_token now token s)
  unfolding validate_token
  validate-Accepted now token s h = elim (Bool-cases (is_blank token)) [
    | inl e ↦ rw e (refused now token s h)
    | inr e ↦ rw e (
        cached-Accepted now token (lookup token s.tokens) s
          (λ expiry found. All-lookup P token expiry s.tokens found h.cached) h)
  ]

  own_grant : (g : Text × Time) (b : Bool) → All P (cons_if b g []) → b ≡ true → P g
  own_grant g true h e = h.0
  own_grant g false h e = ground arith

  step-Held :
      (hashes : Hashes) (e : Event) (s : SessionStore)
      → All P (grants_of hashes e s)
      → Held s
      → Held (step hashes e s)
  unfolding step grants_of authenticate update_password invalidate_all evict_expired_tokens Accepted
  step-Held hashes (login now token username password) s new h =
      elim (Bool-cases (credentials_match hashes username password s)) [
        | inl e ↦
            rw (step, authenticate, e)
              (grant-Held now token s
                (own_grant (token, now + session_max_age)
                  (credentials_match hashes username password s) new e)
                h)
        | inr e ↦ rw (step, authenticate, e) h
      ]
  step-Held hashes (check now token) s new h = (validate-Accepted now token s h).0
  step-Held hashes (logout token) s new h = invalidate-Held token s h
  step-Held hashes (new_password hash) s new h = record { cached = h.cached; stored = h.stored }
  step-Held hashes logout_all s new h = record {
    cached = tt;
    stored = exec_if-Stored _ s.store (λ rows kept. tt) h.stored;
  }
  step-Held hashes (evict now) s new h = evict_each-Held now s.tokens s h
  step-Held hashes (restart now hash) s new h = new-Held hashes now s.username hash s.store h.stored

  pub steps-Held :
      (hashes : Hashes) (events : List Event) (s : SessionStore)
      → All P (grants hashes events s)
      → Held s
      → Held (steps hashes events s)
  unfolding steps grants
  steps-Held hashes [] s new h = h
  steps-Held hashes (e ∷ events) s new h =
      let (now, later) =
        All-append P (grants_of hashes e s) (grants hashes events (step hashes e s)) new in
      steps-Held hashes events (step hashes e s) later (step-Held hashes e s now h)

-- The store that a first start makes: the database holds no token.
abbrev pub first_store : Hashes → Time → Text → Text → List Bool → SessionStore
first_store hashes start username hash faults =
    new_session_store hashes start username hash (some (record { rows = []; faults = faults }))

-- From a first start, after any calls and restarts and whatever statements fail: a token that is
-- accepted was granted by a login with matching credentials, and its life has not ended.
pub valid_was_granted :
    (hashes : Hashes) (start : Time) (username hash : Text) (faults : List Bool)
    (events : List Event) (now : Time) (token : Text)
    → (validate_token now token
        (steps hashes events (first_store hashes start username hash faults))).1
      ≡ true
    → (expiry : Time) × Mem
        (token, expiry)
        (grants hashes events (first_store hashes start username hash faults))
      × (now ≤ expiry)
unfolding Accepted
valid_was_granted hashes start username hash faults events now token valid =
    let s = first_store hashes start username hash faults in
    let P : Text × Time → Type 0 = λ g. Mem g (grants hashes events s) in
    let held =
      steps-Held P hashes events s (All-of-mem P (grants hashes events s) (λ g m. m))
        (new-Held P hashes start username hash (some (record { rows = []; faults = faults })) tt) in
    (validate-Accepted P now token (steps hashes events s) held).1 valid
