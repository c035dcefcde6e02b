-- ===== src/Web/LoginLimiter/Failures.antt =====
-- The fifth failure: what a run of failed posts of the login form of one address does.
use one_auth_watch.Prelude.{
  ℕ, zero, suc, ◌+◌, ◌<◌, ◌≤◌, ◌≡◌, refl, ap, ◌∙◌, Bool, true, false, ◌&&◌, Option, none, some,
  List, [], ◌∷◌, arith, ltb, leb, length, All, get_or, ◌==◌, if◌then◌else◌,
}
use one_auth_watch.Prelude.Clock.{Time}
use one_auth_watch.Prelude.Text.{Text, text_eq_refl}
use one_auth_watch.Prelude.Maps.{lookup, insert, text_key, lookup-insert}
use one_auth_watch.Web.LoginLimiter.{
  LoginAttempt, LoginRateLimiter, block_duration, fresh, unblocked, count_failure, record_failure,
  is_blocked,
}
use one_auth_watch.Web.LoginLimiter.Entries.{record_failure_known, record_failure_new}

-- What a post with a wrong name or password does to the limiter: the check of the block, which forgets
-- one that is over, and, unless the address is blocked, the count of the failure. The clock readings of a
-- post are one here.
abbrev pub after_look : Time → Text → LoginRateLimiter × Bool → LoginRateLimiter
after_look now ip (l, true) = l
after_look now ip (l, false) = (record_failure now now ip l).0

abbrev pub failed_post : Time → Text → LoginRateLimiter → LoginRateLimiter
failed_post now ip l = after_look now ip (is_blocked now ip l)

unfoldable pub post_all : List Time → Text → LoginRateLimiter → LoginRateLimiter
post_all [] ip l = l
post_all (t ∷ ts) ip l = post_all ts ip (failed_post t ip l)

-- The same for an entry.
abbrev is_over : Time → LoginAttempt → Bool
is_over now e = leb (e.blocked_at + block_duration) now

abbrev post : Time → LoginAttempt → LoginAttempt
post now e =
    if e.blocked_at == 0
    then count_failure now e
    else if is_over now e
    then count_failure now (unblocked e)
    else e

abbrev fail_all : List Time → LoginAttempt → LoginAttempt
fail_all [] e = e
fail_all (t ∷ ts) e = fail_all ts (post t e)

recorded :
    (t : Time) (ip : Text) (l : LoginRateLimiter) (e : LoginAttempt)
    → lookup ip l.attempts ≡ some e
    → lookup ip (record_failure t t ip l).0.attempts ≡ some (count_failure t e)
recorded t ip l e found =
    rw (record_failure_known t t ip l e found) (rw (lookup-insert, text_eq_refl))

look_known :
    (t : Time) (ip : Text) (l : LoginRateLimiter) (e : LoginAttempt)
    → lookup ip l.attempts ≡ some e
    → is_blocked t ip l ≡ (
        if e.blocked_at == 0
        then (l, false)
        else if is_over t e
        then (record l { attempts = insert ip (unblocked e) l.attempts }, false)
        else (l, true))
unfolding is_blocked
look_known t ip l e found = rw (found, is_blocked) refl

abbrev entry_of : Time → Text → LoginRateLimiter × Bool → Option LoginAttempt
entry_of t ip r = lookup ip (after_look t ip r).attempts

post_cases :
    (t : Time) (ip : Text) (l : LoginRateLimiter) (e : LoginAttempt) (unset over : Bool)
    → lookup ip l.attempts ≡ some e
    → entry_of t ip (
        if unset
        then (l, false)
        else if over
        then (record l { attempts = insert ip (unblocked e) l.attempts }, false)
        else (l, true))
      ≡ some
          (if unset then count_failure t e else if over then count_failure t (unblocked e) else e)
post_cases t ip l e true over found = recorded t ip l e found
post_cases t ip l e false true found =
    recorded t ip (record l { attempts = insert ip (unblocked e) l.attempts }) (unblocked e)
      (rw (lookup-insert, text_eq_refl) refl)
post_cases t ip l e false false found = found

lookup-failed_post :
    (t : Time) (ip : Text) (l : LoginRateLimiter) (e : LoginAttempt)
    → lookup ip l.attempts ≡ some e
    → lookup ip (failed_post t ip l).attempts ≡ some (post t e)
lookup-failed_post t ip l e found =
    ap (entry_of t ip) (look_known t ip l e found)
    ∙ post_cases t ip l e (e.blocked_at == 0) (is_over t e) found

recorded_new :
    (t : Time) (ip : Text) (l : LoginRateLimiter)
    → lookup ip l.attempts ≡ none
    → lookup ip (record_failure t t ip l).0.attempts ≡ some (count_failure t fresh)
recorded_new t ip l missing =
    rw (record_failure_new t t ip l missing) (rw (lookup-insert, text_eq_refl))

-- A post from an address that is not tracked is counted.
failed_post_new :
    (t : Time) (ip : Text) (l : LoginRateLimiter)
    → lookup ip l.attempts ≡ none
    → lookup ip (failed_post t ip l).attempts ≡ some (count_failure t fresh)
unfolding is_blocked
failed_post_new t ip l missing =
    let look : is_blocked t ip l ≡ (l, false) = rw (missing, is_blocked) refl in
    ap (entry_of t ip) look ∙ recorded_new t ip l missing

lookup-post_all :
    (ts : List Time) (ip : Text) (l : LoginRateLimiter) (e : LoginAttempt)
    → lookup ip l.attempts ≡ some e
    → lookup ip (post_all ts ip l).attempts ≡ some (fail_all ts e)
unfolding post_all
lookup-post_all [] ip l e found = found
lookup-post_all (t ∷ ts) ip l e found =
    lookup-post_all ts ip (failed_post t ip l) (post t e) (lookup-failed_post t ip l e found)

lookup-post_all_new :
    (t : Time) (ts : List Time) (ip : Text) (l : LoginRateLimiter)
    → lookup ip l.attempts ≡ none
    → lookup ip (post_all (t ∷ ts) ip l).attempts ≡ some (fail_all (t ∷ ts) fresh)
unfolding post_all
lookup-post_all_new t ts ip l missing =
    lookup-post_all ts ip (failed_post t ip l) (count_failure t fresh)
      (failed_post_new t ip l missing)

-- The posts after the first `k`.
abbrev pub after_first : ℕ → List Time → List Time
after_first zero ts = ts
after_first (suc k) [] = []
after_first (suc k) (t ∷ ts) = after_first k ts

-- Posts before the end of a block change nothing.
blocked-stays :
    (ts : List Time) (e : LoginAttempt)
    → 0 < e.blocked_at
    → All (λ t. t < e.blocked_at + block_duration) ts
    → fail_all ts e ≡ e
blocked-stays [] e set soon = refl
blocked-stays (t ∷ ts) e set (first, rest) =
    let same : post t e ≡ e = ground arith in ap (fail_all ts) same ∙ blocked-stays ts e set rest

-- `k` failures are missing to the fifth.
blocked_at-fifth :
    (k : ℕ) (ts : List Time) (e : LoginAttempt)
    → e.failures + k ≡ 4
    → e.blocked_at ≡ 0
    → All (λ t. 0 < t) ts
    → All (λ t. t < get_or ts k 0 + block_duration) (after_first (suc k) ts)
    → (fail_all ts e).blocked_at ≡ get_or ts k 0
blocked_at-fifth k [] e missing unset later soon = ground arith
blocked_at-fifth zero (t ∷ ts) e missing unset later soon =
    let counted : post t e ≡ record { failures = 5; last_fail = t; blocked_at = t } =
      ground arith in
    ap (λ x. (fail_all ts x).blocked_at) counted
    ∙ ap (λ x. x.blocked_at)
        (blocked-stays ts (record { failures = 5; last_fail = t; blocked_at = t }) later.0 soon)
blocked_at-fifth (suc k) (t ∷ ts) e missing unset later soon =
    blocked_at-fifth k ts (post t e) (ground arith) (ground arith) later.1 soon

get_or-pos :
    (k : ℕ) (ts : List Time) → All (λ t. 0 < t) ts → ltb 0 (get_or ts k 0) ≡ ltb k (length ts)
get_or-pos k [] h = ground arith
get_or-pos zero (t ∷ ts) h = ground arith
get_or-pos (suc k) (t ∷ ts) h = ground (arith, get_or-pos k ts h.1)

-- After posts with a wrong name or password from an address that was not tracked, the first five at
-- any times however far apart, and later ones before five minutes have passed since the fifth: the
-- address is blocked exactly if there were five or more and those five minutes are not over. Posts
-- during the block do not prolong it, and no failure before it is forgotten for its age.
pub fifth_failure_blocks :
    (t : Time) (ts : List Time) (now : Time) (ip : Text) (l : LoginRateLimiter)
    → lookup ip l.attempts ≡ none
    → All (λ x. 0 < x) (t ∷ ts)
    → All (λ x. x < get_or (t ∷ ts) 4 0 + block_duration) (after_first 5 (t ∷ ts))
    → (is_blocked now ip (post_all (t ∷ ts) ip l)).1
      ≡ (leb 5 (length (t ∷ ts)) && ltb now (get_or (t ∷ ts) 4 0 + block_duration))
unfolding is_blocked
fifth_failure_blocks t ts now ip l missing later soon =
    let set : (fail_all (t ∷ ts) fresh).blocked_at ≡ get_or ts 3 0 =
      blocked_at-fifth 4 (t ∷ ts) fresh refl refl later soon in
    rw (lookup-post_all_new t ts ip l missing, is_blocked)
      (rw set (ground (arith, get_or-pos 3 ts later.1)))

-- A failed post after the end of a block counts from one again.
block_forgotten :
    (now : Time) (ip : Text) (l : LoginRateLimiter) (e : LoginAttempt)
    → lookup ip l.attempts ≡ some e
    → 0 < e.blocked_at
    → e.blocked_at + block_duration ≤ now
    → lookup ip (failed_post now ip l).attempts
      ≡ some (record { failures = 1; last_fail = now; blocked_at = 0 })
block_forgotten now ip l e found set over =
    let counted : post now e ≡ record { failures = 1; last_fail = now; blocked_at = 0 } =
      ground arith in
    lookup-failed_post now ip l e found ∙ ap (λ x. some x) counted
