-- ===== src/Agent/Codex/Failures.antt =====
-- The count of authentication failures, and the end of a pause.
use one_auth_watch.Prelude.{
  ℕ, suc, ◌+◌, ◌*◌, inl, inr, ◌≡◌, refl, true, false, not, ◌&&◌, some, List, [], ◌∷◌, arith, leb,
  All, Bool-cases, length, if◌then◌else◌,
}
use one_auth_watch.Prelude.Text.{Text, text_eq, text_eq_refl}
use one_auth_watch.Agent.Codex.{
  auth_error, CodexCredentials, CodexAgent, Poll, is_blank, is_expiring_soon,
  max_codex_auth_failures, send_auth_error_notification, pick_up_token, count_auth_failure,
  after_retry, retry, after_fetch, fetch_usage, poll, polls, requests,
}
use one_auth_watch.Agent.Codex.Steps.{poll_fresh, fetch_active}
use one_auth_watch.Agent.Codex.Paused.{IsUnchanged, polls-IsPaused}

-- A poll in which the disk gives the token `t`, with credentials (where the function that reads them
-- is set) that do not expire soon, the API rejects every token, and the context goes on.
pub record IsRejected (t : Text) (p : Poll) : Type 0 where
  pub on : p.polling ≡ true
  pub same : (c : CodexCredentials) → p.credentials ≡ some c → c.access_token ≡ t
  pub fresh : (c : CodexCredentials) → p.credentials ≡ some c → is_expiring_soon p.now c ≡ false
  pub disk : p.disk_token ≡ some t
  pub again : p.disk_token_again ≡ t
  pub first : (u : Text) → p.fetch u ≡ auth_error
  pub second : (u : Text) → p.fetch_again u ≡ auth_error
  pub going : p.cancelled ≡ false
  pub going_on : p.cancelled_again ≡ false

module _ (t : Text) where
  -- After `k` failures in a row and `n` requests.
  record Failed (k n : ℕ) (a : CodexAgent) : Type 0 where
    counted : a.auth_fail_count ≡ k
    paused : a.auth_paused ≡ leb max_codex_auth_failures k
    because : leb max_codex_auth_failures k ≡ true → a.last_failed_token ≡ t
    asked : length (requests a.sent) ≡ n

  active : (k n : ℕ) (a : CodexAgent) → Failed k n a → leb 3 k ≡ false → a.auth_paused ≡ false
  active k n a h few = ground (arith, h.paused)

  pick_up-Failed :
      (k n : ℕ) (a : CodexAgent)
      → leb 3 k ≡ false
      → Failed k n a
      → Failed k n (pick_up_token (some t) a)
  unfolding pick_up_token
  pick_up-Failed k n a few h =
      elim (Bool-cases (not (is_blank t) && not (text_eq t a.last_token))) [
        | inr e ↦ rw e h
        | inl e ↦
            rw (e, active k n a h few)
              (record {
                counted = h.counted;
                paused = ground (arith, few);
                because = λ many. ground arith;
                asked = h.asked;
              })
      ]

  count-Failed :
      (k n : ℕ) (a : CodexAgent)
      → leb 3 k ≡ false
      → Failed k n a
      → Failed (suc k) n (count_auth_failure t a)
  unfolding count_auth_failure send_auth_error_notification
  count-Failed k n a few h = record {
    counted = ground (arith, h.counted);
    paused = ground (arith, h.counted, active k n a h few);
    because = λ many. ground (arith, h.counted);
    asked = ground (arith, h.asked);
  }

  -- The two requests of a poll that is rejected.
  fetch-Failed :
      (k n : ℕ) (p : Poll) (a : CodexAgent)
      → IsRejected t p
      → is_blank t ≡ false
      → leb 3 k ≡ false
      → Failed k n a
      → Failed (suc k) (2 + n) (fetch_usage p a)
  unfolding after_fetch retry after_retry
  fetch-Failed k n p a r named few h =
      rw
        (
          fetch_active p a (active k n a h few),
          r.first a.token,
          r.going,
          r.disk,
          r.again,
          named,
          r.second t,
          r.going_on,
        )
        (count-Failed k (2 + n) _ few (record {
          counted = h.counted;
          paused = h.paused;
          because = h.because;
          asked = ground (arith, h.asked);
        }))

  poll-Failed :
      (k n : ℕ) (p : Poll) (a : CodexAgent)
      → IsRejected t p
      → is_blank t ≡ false
      → leb 3 k ≡ false
      → Failed k n a
      → Failed (suc k) (2 + n) (poll p a)
  poll-Failed k n p a r named few h =
      rw (poll_fresh p (some t) a r.on r.fresh r.disk)
        (fetch-Failed k n p (pick_up_token (some t) a) r named few (pick_up-Failed k n a few h))

  rejected-IsUnchanged : (p : Poll) → IsRejected t p → IsUnchanged t p
  rejected-IsUnchanged p r = record {
    disk = λ d e named. ground (arith, r.disk, text_eq_refl t);
    same = r.same;
    kept = λ c new e soon. ground (arith, r.fresh c e);
  }

  each-IsUnchanged : (ps : List Poll) → All (IsRejected t) ps → All (IsUnchanged t) ps
  each-IsUnchanged [] r = tt
  each-IsUnchanged (p ∷ ps) (first, rest) = (rejected-IsUnchanged p first, each-IsUnchanged ps rest)

  -- How many of the failures still lead to requests.
  abbrev asking : ℕ → ℕ
  asking k = if leb max_codex_auth_failures k then max_codex_auth_failures else k

  polls-Failed :
      (ps : List Poll) (k n : ℕ) (a : CodexAgent)
      → All (IsRejected t) ps
      → is_blank t ≡ false
      → leb k 3 ≡ true
      → Failed k n a
      → ((polls ps a).auth_paused ≡ leb max_codex_auth_failures (k + length ps))
        × (length (requests (polls ps a).sent) + 2 * k ≡ n + 2 * asking (k + length ps))
  unfolding polls
  polls-Failed [] k n a r named few h = (ground (arith, h.paused), ground (arith, h.asked))
  polls-Failed (p ∷ ps) k n a (first, rest) named few h =
      elim (Bool-cases (leb max_codex_auth_failures k)) [
        | inr e ↦
            let (paused, asked) =
              polls-Failed ps (suc k) (2 + n) (poll p a) rest named (ground arith)
                (poll-Failed k n p a first named e h) in
            (ground (arith, paused), ground (arith, asked))
        | inl e ↦
            let stuck =
              polls-IsPaused t (requests a.sent) (p ∷ ps) a
                (rejected-IsUnchanged p first, each-IsUnchanged ps rest)
                (record {
                  paused = ground (arith, h.paused);
                  because = h.because e;
                  quiet = refl;
                }) in
            (ground (arith, stuck.paused), ground (arith, stuck.quiet, h.asked))
      ]

-- While polling is on and the agent is not stopped, the disk gives one and the same token (not the
-- empty one), whose credentials do not expire soon, and the API rejects every token: an agent that
-- starts neither paused nor with failures is paused exactly after three polls or more, having asked
-- for the usage twice in each of the first three and not later.
pub rejected_polls_pause :
    (t : Text) (ps : List Poll) (a : CodexAgent)
    → is_blank t ≡ false
    → All (IsRejected t) ps
    → a.auth_paused ≡ false
    → a.auth_fail_count ≡ 0
    → ((polls ps a).auth_paused ≡ leb max_codex_auth_failures (length ps))
      × (length (requests (polls ps a).sent)
          ≡ length (requests a.sent)
            + 2
              * (if leb max_codex_auth_failures (length ps)
                  then max_codex_auth_failures
                  else length ps))
rejected_polls_pause t ps a named r active none_yet =
    let (paused, asked) = polls-Failed t ps 0 (length (requests a.sent)) a r named refl (record {
      counted = none_yet;
      paused = active;
      because = λ many. ground arith;
      asked = refl;
    }) in
    (ground (arith, paused), ground (arith, asked))
