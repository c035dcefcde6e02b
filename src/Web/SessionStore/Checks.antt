-- ===== src/Web/SessionStore/Checks.antt =====
-- A check of a token, by a reliable session store and by its specification.
use one_auth_watch.Prelude.{
  inl, inr, ◌≡◌, refl, ap, sym, ◌∙◌, Bool, false, Option, none, some, arith, leb, Bool-cases,
  Option-cases,
}
use mathlib.Core.Path.{subst}
use one_auth_watch.Prelude.Clock.{Time, after}
use one_auth_watch.Prelude.Text.{Text}
use one_auth_watch.Prelude.Maps.{lookup, remove, text_key}
use one_auth_watch.Database.Fault.{Db}
use one_auth_watch.Web.SessionStore.{
  SessionStore, delete_auth_token, validate_found, validate_stored, validate_cached, validate_token,
  is_blank,
}
use one_auth_watch.Web.SessionStore.Refines.{
  Sessions, holds_at, spec_valid, expired_row-Refines, remember-Refines,
}
use one_auth_watch.Web.SessionStore.Implements.{reliable, Implements, expired-Implements}

-- A store and an answer that implement a check.
abbrev pub Answers : Time → Text → Sessions → SessionStore × Bool → Type 0
Answers now token m (s, valid) = Implements now m s × (valid ≡ spec_valid now token m)

-- Writing back the database that is there changes nothing.
same_store :
    (s : SessionStore) (store : Option (Db (Text × Time)))
    → s.store ≡ store
    → s ≡ record s { store = store }
same_store s store e = ap (λ o. record s { store = o }) e

spec_at :
    (now : Time) (token : Text) (m : Sessions) (o : Option Time)
    → is_blank token ≡ false
    → m.until token ≡ o
    → spec_valid now token m ≡ holds_at now o
unfolding spec_valid
spec_at now token m o named e = rw (named, e) refl

module _ (now : Time) (token : Text) (m : Sessions) (s : SessionStore)
    (named : is_blank token ≡ false) (h : Implements now m s) where
  found-Answers :
      (o : Option Time)
      → lookup token h.rows ≡ o
      → Answers now token m (validate_found now token (some o) s)
  unfolding validate_found
  found-Answers none e = (
    h,
    elim (Option-cases (m.until token)) [
      | inl f ↦ sym (spec_at now token m none named f)
      | inr (v, f) ↦ elim (Bool-cases (leb now v)) [
        | inl l ↦
            let there : lookup token h.rows ≡ some v = h.refines.live token v f (ground arith) in
            ground arith
        | inr l ↦ sym (spec_at now token m (some v) named f ∙ l)
      ]
    ],
  )
  found-Answers (some v) e =
      let known = h.refines.stored token v e in
      elim (Bool-cases (after now v)) [
        | inl over ↦ rw over (
          record {
            rows = remove token h.rows;
            database = ap (delete_auth_token token) h.database;
            refines = expired_row-Refines now m.until s.tokens h.rows h.refines token v known over;
            name = h.name;
            hash = h.hash;
          },
          sym (spec_at now token m (some v) named known ∙ ground arith),
        )
        | inr on ↦ rw on (
          record {
            rows = h.rows;
            database = h.database;
            refines = remember-Refines now m.until s.tokens h.rows h.refines token v e;
            name = h.name;
            hash = h.hash;
          },
          sym (spec_at now token m (some v) named known ∙ ground arith),
        )
      ]

  at_database :
      (store : Option (Db (Text × Time)))
      → s.store ≡ store
      → store ≡ reliable h.rows
      → Answers now token m (validate_stored now token store s)
  unfolding validate_stored
  at_database store same e =
      subst (λ o. Answers now token m (validate_stored now token o s)) (sym e)
        (subst (λ r. Answers now token m (validate_found now token (some (lookup token h.rows)) r))
          (same_store s (reliable h.rows) h.database) (found-Answers (lookup token h.rows) refl))

  cached-Answers :
      (o : Option Time)
      → lookup token s.tokens ≡ o
      → Answers now token m (validate_cached now token o s)
  unfolding validate_cached
  cached-Answers none e = at_database s.store refl h.database
  cached-Answers (some v) e =
      let known = h.refines.cached token v e in
      elim (Bool-cases (after now v)) [
        | inl over ↦ rw over (
          expired-Implements now m s h token v known over,
          sym (spec_at now token m (some v) named known ∙ ground arith),
        )
        | inr on ↦ rw on (h, sym (spec_at now token m (some v) named known ∙ ground arith))
      ]

pub validate-Answers :
    (now : Time) (token : Text) (m : Sessions) (s : SessionStore)
    → Implements now m s
    → Answers now token m (validate_token now token s)
unfolding validate_token spec_valid
validate-Answers now token m s h = elim (Bool-cases (is_blank token)) [
  | inl e ↦ rw e (h, refl)
  | inr e ↦
      let (kept, answer) = cached-Answers now token m s e h (lookup token s.tokens) refl in
      rw e (kept, answer ∙ spec_at now token m (m.until token) e refl)
]
