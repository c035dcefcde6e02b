-- ===== src/Agent/Codex/Resume.antt =====
-- What ends a pause, and what does not end with it.
use one_auth_watch.Prelude.{
  ℕ, suc, inl, inr, ◌≡◌, refl, ap, ◌∙◌, true, false, not, ◌&&◌, Option, none, some, List, [], ◌∷◌,
  arith, leb, All, Bool-cases,
}
use one_auth_watch.Prelude.Text.{Text, text_eq, text_eq_refl}
use one_auth_watch.Tracker.Codex.{CodexQuota}
use one_auth_watch.Database.CodexSnapshots.{insert_codex_snapshot}
use one_auth_watch.Agent.Codex.{
  CodexCredentials, Fetched, usage, auth_error, failed, refused, CodexAgent, Poll, Message,
  is_blank, is_expiring_soon, max_codex_auth_failures, send_auth_error_notification, after_refresh,
  refresh_if_expiring, pick_up_token, use_token, lift_if, send, request, check_each, report_usage,
  accept_usage, count_auth_failure, after_retry, retry, after_fetch, fetch_usage, poll, polls,
  requests,
}
use one_auth_watch.Agent.Codex.Steps.{
  poll_with, poll_fresh, fresh_refresh, poll_rule, fetch_active, fetch_paused,
}

requests-check_each :
    (quotas : List CodexQuota) (sent : List Message)
    → requests (check_each quotas sent) ≡ requests sent
requests-check_each [] sent = refl
requests-check_each (q ∷ quotas) sent = requests-check_each quotas _

-- Usage that is accepted ends the failures in a row and sends no request.
accepted :
    (p : Poll) (quotas : List CodexQuota) (a : CodexAgent)
    → ((accept_usage p quotas a).auth_fail_count ≡ 0)
      × ((accept_usage p quotas a).auth_paused ≡ a.auth_paused)
      × (requests (accept_usage p quotas a).sent ≡ requests a.sent)
      × ((accept_usage p quotas a).proactive_refresh_failures ≡ a.proactive_refresh_failures)
unfolding accept_usage report_usage
accepted p quotas a =
    elim (Bool-cases (insert_codex_snapshot a.account_id p.now quotas a.snapshots).1) [
      | inl e ↦ rw e (refl, refl, refl, refl)
      | inr e ↦ rw e (refl, refl, ground (arith, requests-check_each quotas a.sent), refl)
    ]

pick_up_new :
    (t : Text) (a : CodexAgent)
    → a.auth_paused ≡ true
    → is_blank t ≡ false
    → text_eq t a.last_token ≡ false
    → text_eq t a.last_failed_token ≡ false
    → pick_up_token (some t) a ≡ lift_if true (use_token t a)
unfolding pick_up_token
pick_up_new t a paused named new other = rw (named, new, other, paused) refl

-- Polls while no credentials expire soon.
abbrev pub IsFresh : Poll → Type 0
IsFresh p = (c : CodexCredentials) → p.credentials ≡ some c → is_expiring_soon p.now c ≡ false

-- In a poll while polling is on, with credentials that do not expire soon, a paused agent that reads a
-- token from the disk that is not empty, and neither the one that failed nor the last one it read,
-- asks for the usage with it; where the API answers, the pause is over and the failures in a row are
-- forgotten.
pub new_token_resumes :
    (p : Poll) (t : Text) (quotas : List CodexQuota) (a : CodexAgent)
    → a.auth_paused ≡ true
    → p.polling ≡ true
    → IsFresh p
    → p.disk_token ≡ some t
    → is_blank t ≡ false
    → text_eq t a.last_token ≡ false
    → text_eq t a.last_failed_token ≡ false
    → p.fetch t ≡ usage quotas
    → ((poll p a).auth_paused ≡ false)
      × ((poll p a).auth_fail_count ≡ 0)
      × (requests (poll p a).sent ≡ t ∷ requests a.sent)
unfolding after_fetch
new_token_resumes p t quotas a paused on fresh disk named new other answer =
    let b = lift_if true (use_token t a) in
    let done = accepted p quotas (send (request t) b) in
    rw
      (
        poll_fresh p (some t) a on fresh disk,
        pick_up_new t a paused named new other,
        fetch_active p b refl,
        answer,
      )
      (done.1, done.0, done.2)

abbrev failures : CodexAgent → ℕ
failures a = a.proactive_refresh_failures

failures-pick_up : (d : Option Text) (a : CodexAgent) → failures (pick_up_token d a) ≡ failures a
unfolding pick_up_token
failures-pick_up none a = refl
failures-pick_up (some t) a = elim (Bool-cases (not (is_blank t) && not (text_eq t a.last_token))) [
  | inr e ↦ rw e refl
  | inl e ↦ elim (Bool-cases (a.auth_paused && not (text_eq t a.last_failed_token))) [
    | inl l ↦ rw (e, l) refl
    | inr l ↦ rw (e, l) refl
  ]
]

failures-count : (t : Text) (a : CodexAgent) → failures (count_auth_failure t a) ≡ failures a
unfolding count_auth_failure send_auth_error_notification
failures-count t a = ground arith

failures-after_retry :
    (p : Poll) (t : Text) (f : Fetched) (a : CodexAgent)
    → failures (after_retry p t f a) ≡ failures a
unfolding after_retry
failures-after_retry p t (usage quotas) a = (accepted p quotas a).3
failures-after_retry p t auth_error a = ground (arith, failures-count t a)
failures-after_retry p t failed a = refl

failures-retry : (p : Poll) (d : Option Text) (a : CodexAgent) → failures (retry p d a) ≡ failures a
unfolding retry
failures-retry p none a = refl
failures-retry p (some t) a = elim (Bool-cases (is_blank p.disk_token_again)) [
  | inl e ↦ rw e refl
  | inr e ↦ rw e (
      failures-after_retry p p.disk_token_again (p.fetch_again p.disk_token_again)
        (send (request p.disk_token_again) (use_token p.disk_token_again a)))
]

failures-after_fetch :
    (p : Poll) (f : Fetched) (a : CodexAgent) → failures (after_fetch p f a) ≡ failures a
unfolding after_fetch
failures-after_fetch p (usage quotas) a = (accepted p quotas a).3
failures-after_fetch p auth_error a = ground (arith, failures-retry p p.disk_token a)
failures-after_fetch p failed a = refl

failures-fetch : (p : Poll) (a : CodexAgent) → failures (fetch_usage p a) ≡ failures a
unfolding fetch_usage
failures-fetch p a = elim (Bool-cases a.auth_paused) [
  | inl e ↦ rw (fetch_paused p a e) refl
  | inr e ↦
      rw (fetch_active p a e) (failures-after_fetch p (p.fetch a.token) (send (request a.token) a))
]

failures-polls :
    (ps : List Poll) (a : CodexAgent) → All IsFresh ps → failures (polls ps a) ≡ failures a
unfolding polls
failures-polls [] a fresh = refl
failures-polls (p ∷ ps) a (first, rest) =
    failures-polls ps (poll p a) rest
    ∙ poll_rule (λ b. failures b ≡ failures a) p a refl
        (failures-fetch p _
          ∙ failures-pick_up p.disk_token _
          ∙ ap failures (fresh_refresh p p.credentials a first))

-- A refused refresh that is not the first ones in a row.
refused_refresh :
    (p : Poll) (c : CodexCredentials) (a : CodexAgent)
    → leb max_codex_auth_failures (suc a.proactive_refresh_failures) ≡ true
    → is_expiring_soon p.now c ≡ true
    → is_blank c.refresh_token ≡ false
    → p.refresh c.refresh_token ≡ refused
    → ((refresh_if_expiring p (some c) a).auth_paused ≡ true)
      × ((refresh_if_expiring p (some c) a).last_failed_token ≡ c.access_token)
unfolding refresh_if_expiring after_refresh send_auth_error_notification
refused_refresh p c a many soon named answer =
    rw (soon, named, answer, many) (ground arith, ground arith)

same_token_stays :
    (t : Text) (a : CodexAgent)
    → a.auth_paused ≡ true
    → a.last_failed_token ≡ t
    → (pick_up_token (some t) a).auth_paused ≡ true
unfolding pick_up_token
same_token_stays t a paused same =
    let known : text_eq t a.last_failed_token ≡ true = rw same (text_eq_refl t) in
    ground (arith, paused, known)

-- Once two refreshes were refused in a row, a single refusal pauses the agent, however many polls with
-- credentials that do not expire soon came in between, also where new credentials ended a pause in
-- one of them.
pub refused_refresh_pauses_again :
    (ps : List Poll) (p : Poll) (c : CodexCredentials) (a : CodexAgent)
    → leb max_codex_auth_failures (suc a.proactive_refresh_failures) ≡ true
    → All IsFresh ps
    → p.polling ≡ true
    → p.credentials ≡ some c
    → p.disk_token ≡ some c.access_token
    → is_expiring_soon p.now c ≡ true
    → is_blank c.refresh_token ≡ false
    → p.refresh c.refresh_token ≡ refused
    → (poll p (polls ps a)).auth_paused ≡ true
refused_refresh_pauses_again ps p c a many fresh on has disk soon named answer =
    let b = polls ps a in
    let still : leb max_codex_auth_failures (suc b.proactive_refresh_failures) ≡ true =
      rw (failures-polls ps a fresh) many in
    let (paused, same) = refused_refresh p c b still soon named answer in
    let d = refresh_if_expiring p (some c) b in
    let stays = same_token_stays c.access_token d paused same in
    ap (λ x. x.auth_paused)
      (poll_with p (some c.access_token) (some c) b on has disk
        ∙ fetch_paused p (pick_up_token (some c.access_token) d) stays)
    ∙ stays
