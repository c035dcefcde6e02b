-- ===== src/Agent/Codex/Paused.antt =====
-- A paused agent: what it sends, and what ends the pause.
use one_auth_watch.Prelude.{
  inl, inr, ◌≡◌, refl, Bool, true, false, not, ◌&&◌, Option, none, some, List, [], ◌∷◌, arith, All,
  Bool-cases,
}
use one_auth_watch.Prelude.Text.{Text, text_eq}
use one_auth_watch.Agent.Codex.{
  CodexCredentials, Refreshed, reused, refused, renewed, CodexAgent, Poll, is_blank,
  is_expiring_soon, send_auth_error_notification, after_refresh, refresh_if_expiring, pick_up_token,
  use_token, poll, polls, requests,
}
use one_auth_watch.Agent.Codex.Steps.{poll_rule, fetch_paused}

-- Polls while the credentials on disk stay those with the token `t`: reading them gives `t` or
-- nothing, and no refresh of them brings a new token that can be saved.
pub record IsUnchanged (t : Text) (p : Poll) : Type 0 where
  pub disk : (d : Text) → p.disk_token ≡ some d → is_blank d ≡ false → text_eq d t ≡ true
  pub same : (c : CodexCredentials) → p.credentials ≡ some c → c.access_token ≡ t
  pub kept :
      (c : CodexCredentials) (new : Text)
      → p.credentials ≡ some c
      → is_expiring_soon p.now c ≡ true
      → p.refresh c.refresh_token ≡ renewed new
      → p.save_failed ≡ true

-- Paused because of the token `t`, with the given requests so far.
pub record IsPaused (t : Text) (before : List Text) (a : CodexAgent) : Type 0 where
  pub paused : a.auth_paused ≡ true
  pub because : a.last_failed_token ≡ t
  pub quiet : requests a.sent ≡ before

pick_up_paused :
    (d : Text) (a : CodexAgent)
    → (not (is_blank d) && not (text_eq d a.last_token)) ≡ true
    → a.auth_paused ≡ true
    → text_eq d a.last_failed_token ≡ true
    → pick_up_token (some d) a ≡ use_token d a
unfolding pick_up_token
pick_up_paused d a new paused old = rw (new, paused, old) refl

module _ (t : Text) (before : List Text) where
  after_refresh-IsPaused :
      (c : CodexCredentials) (save_failed : Bool) (r : Refreshed) (a : CodexAgent)
      → c.access_token ≡ t
      → ((new : Text) → r ≡ renewed new → save_failed ≡ true)
      → IsPaused t before a
      → IsPaused t before (after_refresh c save_failed r a)
  unfolding after_refresh send_auth_error_notification
  after_refresh-IsPaused c save_failed reused a same kept h = record {
    paused = ground (arith, h.paused);
    because = ground (arith, h.because);
    quiet = ground (arith, h.quiet);
  }
  after_refresh-IsPaused c save_failed refused a same kept h = record {
    paused = ground (arith, h.paused);
    because = ground (arith, h.because);
    quiet = ground (arith, h.quiet);
  }
  after_refresh-IsPaused c save_failed (renewed new) a same kept h =
      rw (kept new refl) (record { paused = h.paused; because = h.because; quiet = h.quiet })

  refresh-IsPaused :
      (p : Poll) (credentials : Option CodexCredentials) (a : CodexAgent)
      → ((c : CodexCredentials) → credentials ≡ some c → c.access_token ≡ t)
      → ((c : CodexCredentials) (new : Text)
          → credentials ≡ some c
          → is_expiring_soon p.now c ≡ true
          → p.refresh c.refresh_token ≡ renewed new
          → p.save_failed ≡ true)
      → IsPaused t before a
      → IsPaused t before (refresh_if_expiring p credentials a)
  unfolding refresh_if_expiring
  refresh-IsPaused p none a same kept h = h
  refresh-IsPaused p (some c) a same kept h =
      elim (Bool-cases (is_expiring_soon p.now c && not (is_blank c.refresh_token))) [
        | inl e ↦ rw e (
            after_refresh-IsPaused c p.save_failed (p.refresh c.refresh_token) a (same c refl)
              (λ new. kept c new refl (ground arith)) h)
        | inr e ↦ rw e h
      ]

  pick_up-IsPaused :
      (disk : Option Text) (a : CodexAgent)
      → ((d : Text) → disk ≡ some d → is_blank d ≡ false → text_eq d t ≡ true)
      → IsPaused t before a
      → IsPaused t before (pick_up_token disk a)
  unfolding pick_up_token
  pick_up-IsPaused none a same h = h
  pick_up-IsPaused (some d) a same h =
      elim (Bool-cases (not (is_blank d) && not (text_eq d a.last_token))) [
        | inr e ↦ rw e h
        | inl e ↦
            let old : text_eq d a.last_failed_token ≡ true =
              rw h.because (same d refl (ground arith)) in
            rw (pick_up_paused d a (ground arith) h.paused old)
              (record { paused = h.paused; because = h.because; quiet = h.quiet })
      ]

  poll-IsPaused :
      (p : Poll) (a : CodexAgent)
      → IsUnchanged t p
      → IsPaused t before a
      → IsPaused t before (poll p a)
  poll-IsPaused p a same h =
      let b = pick_up_token p.disk_token (refresh_if_expiring p p.credentials a) in
      let ready : IsPaused t before b =
        pick_up-IsPaused p.disk_token (refresh_if_expiring p p.credentials a) same.disk
          (refresh-IsPaused p p.credentials a same.same same.kept h) in
      poll_rule (IsPaused t before) p a h (rw (fetch_paused p b ready.paused) ready)

  pub polls-IsPaused :
      (ps : List Poll) (a : CodexAgent)
      → All (IsUnchanged t) ps
      → IsPaused t before a
      → IsPaused t before (polls ps a)
  unfolding polls
  polls-IsPaused [] a same h = h
  polls-IsPaused (p ∷ ps) a (first, rest) h =
      polls-IsPaused ps (poll p a) rest (poll-IsPaused p a first h)

-- A paused agent does not ask the API for the usage, and stays paused, however often it polls, while
-- the credentials on disk stay those that failed: reading them gives the failed token or nothing, and
-- no refresh that it tries, where they expire soon, brings a new token that can be saved.
pub paused_until_new_token :
    (t : Text) (ps : List Poll) (a : CodexAgent)
    → a.auth_paused ≡ true
    → a.last_failed_token ≡ t
    → All (IsUnchanged t) ps
    → (requests (polls ps a).sent ≡ requests a.sent) × ((polls ps a).auth_paused ≡ true)
paused_until_new_token t ps a paused because same =
    let h =
      polls-IsPaused t (requests a.sent) ps a same
        (record { paused = paused; because = because; quiet = refl }) in
    (h.quiet, h.paused)
