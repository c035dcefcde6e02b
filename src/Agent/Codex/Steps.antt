-- ===== src/Agent/Codex/Steps.antt =====
-- What a poll does, case by case.
use one_auth_watch.Prelude.{
  inl, inr, ◌≡◌, refl, true, false, Option, none, some, arith, Bool-cases, ap, ◌∙◌,
}
use one_auth_watch.Prelude.Text.{Text}
use one_auth_watch.Agent.Codex.{
  CodexCredentials, is_expiring_soon, CodexAgent, Poll, refresh_if_expiring, pick_up_token, request,
  send, after_fetch, fetch_usage, poll,
}

pub poll_on :
    (p : Poll) (a : CodexAgent)
    → p.polling ≡ true
    → poll p a ≡ fetch_usage p (pick_up_token p.disk_token (refresh_if_expiring p p.credentials a))
unfolding poll
poll_on p a e = ground (arith, e)

pub fetch_paused : (p : Poll) (a : CodexAgent) → a.auth_paused ≡ true → fetch_usage p a ≡ a
unfolding fetch_usage
fetch_paused p a e = ground (arith, e)

pub fetch_active :
    (p : Poll) (a : CodexAgent)
    → a.auth_paused ≡ false
    → fetch_usage p a ≡ after_fetch p (p.fetch a.token) (send (request a.token) a)
unfolding fetch_usage
fetch_active p a e = ground (arith, e)

-- A property that the parts of a poll keep.
pub poll_rule :
    (P : CodexAgent → Type 0) (p : Poll) (a : CodexAgent)
    → P a
    → P (fetch_usage p (pick_up_token p.disk_token (refresh_if_expiring p p.credentials a)))
    → P (poll p a)
unfolding poll
poll_rule P p a off on = elim (Bool-cases p.polling) [
  | inl e ↦ rw (poll_on p a e) on
  | inr e ↦ rw e off
]

pub poll_with :
    (p : Poll) (d : Option Text) (c : Option CodexCredentials) (a : CodexAgent)
    → p.polling ≡ true
    → p.credentials ≡ c
    → p.disk_token ≡ d
    → poll p a ≡ fetch_usage p (pick_up_token d (refresh_if_expiring p c a))
poll_with p d c a on has disk =
    poll_on p a on
    ∙ ap (λ c'. fetch_usage p (pick_up_token p.disk_token (refresh_if_expiring p c' a))) has
    ∙ ap (λ d'. fetch_usage p (pick_up_token d' (refresh_if_expiring p c a))) disk

-- Without credentials that may expire.
pub poll_quiet :
    (p : Poll) (d : Option Text) (a : CodexAgent)
    → p.polling ≡ true
    → p.credentials ≡ none
    → p.disk_token ≡ d
    → poll p a ≡ fetch_usage p (pick_up_token d a)
unfolding refresh_if_expiring
poll_quiet p d a on stays disk = poll_with p d none a on stays disk

pub fresh_refresh :
    (p : Poll) (credentials : Option CodexCredentials) (a : CodexAgent)
    → ((c : CodexCredentials) → credentials ≡ some c → is_expiring_soon p.now c ≡ false)
    → refresh_if_expiring p credentials a ≡ a
unfolding refresh_if_expiring
fresh_refresh p none a fresh = refl
fresh_refresh p (some c) a fresh = rw (fresh c refl) refl

-- A poll whose credentials do not expire soon.
pub poll_fresh :
    (p : Poll) (d : Option Text) (a : CodexAgent)
    → p.polling ≡ true
    → ((c : CodexCredentials) → p.credentials ≡ some c → is_expiring_soon p.now c ≡ false)
    → p.disk_token ≡ d
    → poll p a ≡ fetch_usage p (pick_up_token d a)
poll_fresh p d a on fresh disk =
    poll_with p d p.credentials a on refl disk
    ∙ ap (λ b. fetch_usage p (pick_up_token d b)) (fresh_refresh p p.credentials a fresh)
