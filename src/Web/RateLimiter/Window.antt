-- ===== src/Web/RateLimiter/Window.antt =====
-- How many requests of one address pass within a window, and what the others see.
use Prim.Native.Nat.{min}
use mathlib.Core.Path.{subst}
use one_auth_watch.Prelude.{
  sym, ℕ, suc, ◌+◌, ◌-◌, ◌≤◌, ◌<◌, ◌≡◌, refl, Bool, true, false, none, some, List, [], ◌∷◌, arith,
  leb, if◌then◌else◌, length, All,
}
use one_auth_watch.Prelude.Int.{pos, ltb_ℤ}
use one_auth_watch.Prelude.Clock.{Time}
use one_auth_watch.Prelude.Text.{Text, text_eq_iff, text_eq_refl}
use one_auth_watch.Prelude.Maps.{get_zero}
use one_auth_watch.Web.RateLimiter.{RateLimiter, new_rate_limiter, allow, get_remaining}

-- What holds of a limiter between two calls.
pub record IsValid (rl : RateLimiter) : Type 0 where
  pub counted_once_seen : (ip : Text) → rl.last_attempt ip ≡ none → rl.attempts ip ≡ none
  pub within_limit : (ip : Text) → get_zero rl.attempts ip ≤ rl.max_attempts

pub new-IsValid : (n : ℕ) (w : ℕ) → IsValid (new_rate_limiter n w)
unfolding new_rate_limiter
new-IsValid n w = record { counted_once_seen = λ ip h. refl; within_limit = λ ip. omega arith }

-- Every request, let through or not, keeps the limiter valid: an address that was never let through
-- has no count, and no count passes the limit, so the counter cannot overflow.
allow-IsValid :
    (now : Time) (ip : Text) (rl : RateLimiter) → IsValid rl → IsValid (allow now ip rl).0
unfolding allow
allow-IsValid now ip rl v = record {
  counted_once_seen =
      λ j h. ground (arith, text_eq_iff ip j, v.counted_once_seen j, v.counted_once_seen ip);
  within_limit =
      λ j. ground (arith, text_eq_iff ip j, text_eq_refl ip, v.within_limit j, v.within_limit ip);
}

-- In a valid limiter, `get_remaining` says that some attempts remain exactly when a request at that
-- moment is let through.
allow-get_remaining :
    (now now' : Time) (ip : Text) (rl : RateLimiter)
    → IsValid rl
    → (allow now ip rl).1 ≡ ltb_ℤ (pos 0) (get_remaining now now' ip rl).0
unfolding allow get_remaining
allow-get_remaining now now' ip rl v =
    ground (arith, text_eq_refl ip, v.counted_once_seen ip, v.within_limit ip)

-- The requests of one address at the given times, with the number of those let through.
abbrev pub add_if : Bool → ℕ → ℕ
add_if true n = suc n
add_if false n = n

pub allow_all : List Time → Text → RateLimiter → RateLimiter × ℕ
allow_all [] ip rl = (rl, 0)
allow_all (t ∷ ts) ip rl =
    let (rl', passed) = allow t ip rl in
    let (rl'', n) = allow_all ts ip rl' in (rl'', add_if passed n)

module _ (ip : Text) (start : Time) where
  -- Between two requests of one window: the last one let through lies in the window.
  record InWindow (rl : RateLimiter) (last : Time) : Type 0 where
    seen : rl.last_attempt ip ≡ some last
    recent : start ≤ last
    counted : get_zero rl.attempts ip ≤ rl.max_attempts

  allow-InWindow :
      (t : Time) (rl : RateLimiter) (last : Time)
      → InWindow rl last
      → start ≤ t
      → t ≤ start + rl.window
      → (last' : Time) × InWindow (allow t ip rl).0 last'
        × ((allow t ip rl).0.max_attempts ≡ rl.max_attempts)
        × ((allow t ip rl).0.window ≡ rl.window)
        × (add_if (allow t ip rl).1 0 + get_zero rl.attempts ip
            ≡ get_zero (allow t ip rl).0.attempts ip)
        × (add_if (allow t ip rl).1 0 ≡ min 1 (rl.max_attempts - get_zero rl.attempts ip))
  unfolding allow
  allow-InWindow t rl last w lo hi = (
    if leb rl.max_attempts (get_zero rl.attempts ip) then last else t,
    ground (arith, text_eq_refl ip),
    ground (arith, text_eq_refl ip),
    ground (arith, text_eq_refl ip),
    ground (arith, text_eq_refl ip),
    ground (arith, text_eq_refl ip),
  )

  allow_all-InWindow :
      (ts : List Time) (rl : RateLimiter) (last : Time)
      → InWindow rl last
      → All (λ t. (start ≤ t) × (t ≤ start + rl.window)) ts
      → (allow_all ts ip rl).1 ≡ min (length ts) (rl.max_attempts - get_zero rl.attempts ip)
  unfolding allow_all
  allow_all-InWindow [] rl last w h = omega arith
  allow_all-InWindow (t ∷ ts) rl last w h =
      let (last', w', same_max, same_window, count, passed) =
        allow-InWindow t rl last w h.0.0 h.0.1 in
      let rest : (allow_all ts ip (allow t ip rl).0).1
          ≡ min (length ts)
              ((allow t ip rl).0.max_attempts - get_zero (allow t ip rl).0.attempts ip) =
        allow_all-InWindow ts (allow t ip rl).0 last' w'
          (subst (λ k. All (λ x. (start ≤ x) × (x ≤ start + k)) ts) (sym same_window) h.1) in
      ground (arith, rest)

  first-InWindow :
      (rl : RateLimiter)
      → rl.last_attempt ip ≡ none
      → rl.attempts ip ≡ none
      → 0 < rl.max_attempts
      → InWindow (allow start ip rl).0 start
        × ((allow start ip rl).0.max_attempts ≡ rl.max_attempts)
        × ((allow start ip rl).0.window ≡ rl.window)
        × (get_zero (allow start ip rl).0.attempts ip ≡ 1)
        × ((allow start ip rl).1 ≡ true)
  unfolding allow
  first-InWindow rl unseen fresh some_allowed = (
    ground (arith, text_eq_refl ip),
    ground (arith, text_eq_refl ip),
    ground (arith, text_eq_refl ip),
    ground (arith, text_eq_refl ip),
    ground (arith, text_eq_refl ip),
  )

-- Of any requests that an address not seen before makes within one window of its first, exactly
-- the first `max_attempts` are let through (all, if there are fewer).
pub allow_all-window :
    (ip : Text) (start : Time) (ts : List Time) (rl : RateLimiter)
    → rl.last_attempt ip ≡ none
    → rl.attempts ip ≡ none
    → 0 < rl.max_attempts
    → All (λ t. (start ≤ t) × (t ≤ start + rl.window)) ts
    → (allow_all (start ∷ ts) ip rl).1 ≡ min (suc (length ts)) rl.max_attempts
unfolding allow_all
allow_all-window ip start ts rl unseen fresh some_allowed within =
    let (w, same_max, same_window, count, passed) =
      first-InWindow ip start rl unseen fresh some_allowed in
    let rest : (allow_all ts ip (allow start ip rl).0).1
        ≡ min (length ts)
            ((allow start ip rl).0.max_attempts - get_zero (allow start ip rl).0.attempts ip) =
      allow_all-InWindow ip start ts (allow start ip rl).0 start w
        (subst (λ k. All (λ x. (start ≤ x) × (x ≤ start + k)) ts) (sym same_window) within) in
    ground (arith, rest)

-- Once more than a window has passed since the last request let through, the next one is let
-- through again, whatever was counted before.
allow_after_window :
    (now last : Time) (ip : Text) (rl : RateLimiter)
    → rl.last_attempt ip ≡ some last
    → last + rl.window < now
    → 0 < rl.max_attempts
    → (allow now ip rl).1 ≡ true
unfolding allow
allow_after_window now last ip rl seen late some_allowed = ground (arith, text_eq_refl ip)
