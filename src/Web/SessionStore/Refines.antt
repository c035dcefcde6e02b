-- ===== src/Web/SessionStore/Refines.antt =====
-- The sessions that a store promises, and that cache and database together keep them.
use one_auth_watch.Prelude.{
  inl, inr, ◌+◌, ◌≤◌, ◌≡◌, refl, ap, sym, ◌∙◌, Bool, true, false, not, ◌&&◌, Option, none, some,
  List, [], ◌∷◌, arith, leb, keep, Bool-cases, if◌then◌else◌,
}
use one_auth_watch.Prelude.Clock.{Time, after}
use one_auth_watch.Prelude.Text.{Text, text_eq, text_eq_iff}
use one_auth_watch.Prelude.Maps.{
  Map, Assoc, put, delete, empty_map, lookup, insert, remove, text_key, lookup-insert,
  lookup-remove,
}
use one_auth_watch.Prelude.Distinct.{
  Distinct, insert-Distinct, keep-Distinct, remove-Distinct, lookup_kept, lookup_before,
}
use one_auth_watch.Web.SessionStore.{
  Hashes, session_max_age, check_password, is_blank, Event, login, check, logout, new_password,
  logout_all, evict, restart,
}

-- The specification: which tokens were given out and not taken back, and until when they hold.
pub record Sessions : Type 0 where
  pub until : Map Text Time
  pub username : Text
  pub password_hash : Text

abbrev pub spec_login : Bool → Time → Text → Sessions → Sessions
spec_login true now token m = record m { until = put m.until token (now + session_max_age) }
spec_login false now token m = m

unfoldable pub spec_step : Hashes → Event → Sessions → Sessions
spec_step hashes (login now token username password) m =
    spec_login (text_eq username m.username && check_password hashes password m.password_hash) now
      token m
spec_step hashes (check now token) m = m
spec_step hashes (logout token) m = record m { until = delete m.until token }
spec_step hashes (new_password hash) m = record m { password_hash = hash }
spec_step hashes logout_all m = record m { until = empty_map }
spec_step hashes (evict now) m = m
spec_step hashes (restart now hash) m = record m { password_hash = hash }

unfoldable pub spec_steps : Hashes → List Event → Sessions → Sessions
spec_steps hashes [] m = m
spec_steps hashes (e ∷ events) m = spec_steps hashes events (spec_step hashes e m)

abbrev pub holds_at : Time → Option Time → Bool
holds_at now none = false
holds_at now (some expiry) = leb now expiry

unfoldable pub spec_valid : Time → Text → Sessions → Bool
spec_valid now token m = not (is_blank token) && holds_at now (m.until token)

-- The clock does not go back: no event is earlier than `t` or than the event before it.
abbrev pub time_of : Event → Time → Time
time_of (login now token username password) t = now
time_of (check now token) t = now
time_of (logout token) t = t
time_of (new_password hash) t = t
time_of logout_all t = t
time_of (evict now) t = now
time_of (restart now hash) t = now

abbrev pub InOrder : Time → List Event → Time → Type 0
InOrder t [] now = t ≤ now
InOrder t (e ∷ events) now = (t ≤ time_of e t) × InOrder (time_of e t) events now

-- A reliable store against the specification at a time: the cache and the database say nothing else,
-- and the database has every session that still holds.
pub record Refines (t : Time) (m : Map Text Time) (tokens rows : Assoc Text Time) : Type 0 where
  pub distinct : Distinct tokens
  pub distinct_rows : Distinct rows
  pub cached : (k : Text) (v : Time) → lookup k tokens ≡ some v → m k ≡ some v
  pub stored : (k : Text) (v : Time) → lookup k rows ≡ some v → m k ≡ some v
  pub live : (k : Text) (v : Time) → m k ≡ some v → t ≤ v → lookup k rows ≡ some v

-- Options at a key after a change of a map at a key.
both_changed :
    (b : Bool) (o c d : Option Time) (v : Time)
    → (c ≡ some v → d ≡ some v)
    → (if b then o else c) ≡ some v
    → (if b then o else d) ≡ some v
both_changed true o c d v h e = e
both_changed false o c d v h e = h e

not_removed :
    (b : Bool) (c : Option Time) (v : Time) → (if b then none else c) ≡ some v → c ≡ some v
not_removed true c v e = ground arith
not_removed false c v e = e

kept_row : (b : Bool) → (b ≡ true → false ≡ true) → not b ≡ true
kept_row true h = h refl
kept_row false h = refl

module _ (t : Time) (m : Map Text Time) (tokens rows : Assoc Text Time)
    (h : Refines t m tokens rows) where
  pub later-Refines : (now : Time) → t ≤ now → Refines now m tokens rows
  later-Refines now le = record {
    distinct = h.distinct;
    distinct_rows = h.distinct_rows;
    cached = h.cached;
    stored = h.stored;
    live = λ k v e holds. h.live k v e (omega arith);
  }

  pub put-Refines :
      (k : Text) (v : Time) → Refines t (put m k v) (insert k v tokens) (insert k v rows)
  put-Refines k v = record {
    distinct = insert-Distinct k v tokens h.distinct;
    distinct_rows = insert-Distinct k v rows h.distinct_rows;
    cached = λ j w e.
        both_changed (text_eq k j) (some v) (lookup j tokens) (m j) w (h.cached j w)
          (sym (lookup-insert k j v tokens) ∙ e);
    stored = λ j w e.
        both_changed (text_eq k j) (some v) (lookup j rows) (m j) w (h.stored j w)
          (sym (lookup-insert k j v rows) ∙ e);
    live = λ j w e holds.
        lookup-insert k j v rows
        ∙ both_changed (text_eq k j) (some v) (m j) (lookup j rows) w (λ f. h.live j w f holds) e;
  }

  pub delete-Refines : (k : Text) → Refines t (delete m k) (remove k tokens) (remove k rows)
  delete-Refines k = record {
    distinct = remove-Distinct k tokens h.distinct;
    distinct_rows = remove-Distinct k rows h.distinct_rows;
    cached = λ j w e.
        both_changed (text_eq k j) none (lookup j tokens) (m j) w (h.cached j w)
          (sym (lookup-remove k j tokens) ∙ e);
    stored = λ j w e.
        both_changed (text_eq k j) none (lookup j rows) (m j) w (h.stored j w)
          (sym (lookup-remove k j rows) ∙ e);
    live = λ j w e holds.
        lookup-remove k j rows
        ∙ both_changed (text_eq k j) none (m j) (lookup j rows) w (λ f. h.live j w f holds) e;
  }

  -- An entry that is out of date may go, from both or from the database.
  pub expired_row-Refines :
      (k : Text) (v : Time) → m k ≡ some v → after t v ≡ true → Refines t m tokens (remove k rows)
  expired_row-Refines k v e over = record {
    distinct = h.distinct;
    distinct_rows = remove-Distinct k rows h.distinct_rows;
    cached = h.cached;
    stored = λ j w f.
        h.stored j w
          (not_removed (text_eq k j) (lookup j rows) w (sym (lookup-remove k j rows) ∙ f));
    live = λ j w f holds. lookup-remove k j rows ∙ elim (Bool-cases (text_eq k j)) [
      | inl s ↦
          let same : k ≡ j = (text_eq_iff k j).0 s in
          let value : m j ≡ some v = ap m (sym same) ∙ e in ground arith
      | inr s ↦ rw s (h.live j w f holds)
    ];
  }

  pub expired-Refines :
      (k : Text) (v : Time)
      → m k ≡ some v
      → after t v ≡ true
      → Refines t m (remove k tokens) (remove k rows)
  expired-Refines k v e over =
      let r = expired_row-Refines k v e over in
      record {
        distinct = remove-Distinct k tokens h.distinct;
        distinct_rows = r.distinct_rows;
        cached = λ j w f.
            h.cached j w
              (not_removed (text_eq k j) (lookup j tokens) w (sym (lookup-remove k j tokens) ∙ f));
        stored = r.stored;
        live = r.live;
      }

  pub remember-Refines :
      (k : Text) (v : Time) → lookup k rows ≡ some v → Refines t m (insert k v tokens) rows
  remember-Refines k v e = record {
    distinct = insert-Distinct k v tokens h.distinct;
    distinct_rows = h.distinct_rows;
    cached = λ j w f. elim (Bool-cases (text_eq k j)) [
      | inl s ↦
          let same : k ≡ j = (text_eq_iff k j).0 s in
          let value : m j ≡ some v = ap m (sym same) ∙ h.stored k v e in
          ground (arith, lookup-insert k j v tokens)
      | inr s ↦ h.cached j w (ground (arith, lookup-insert k j v tokens))
    ];
    stored = h.stored;
    live = h.live;
  }

  -- The start of a process, with a comparison that finds only past times past.
  pub clean-Refines :
      (before : Time → Time → Bool)
      → ((v : Time) → before v t ≡ true → after t v ≡ true)
      → Refines t m [] (keep (λ row. not (before row.1 t)) rows)
  unfolding lookup
  clean-Refines before past =
      let p : Text × Time → Bool = λ row. not (before row.1 t) in
      record {
        distinct = tt;
        distinct_rows = keep-Distinct p rows h.distinct_rows;
        cached = λ j w f. ground arith;
        stored = λ j w f. h.stored j w (lookup_before p j w rows h.distinct_rows f);
        live = λ j w f holds.
            lookup_kept p j w rows (h.live j w f holds)
              (kept_row (before w t) (λ b. ground (arith, past w b)));
      }

pub empty-Refines : (t : Time) → Refines t empty_map [] []
unfolding lookup
empty-Refines t = record {
  distinct = tt;
  distinct_rows = tt;
  cached = λ k v e. e;
  stored = λ k v e. e;
  live = λ k v e holds. e;
}
