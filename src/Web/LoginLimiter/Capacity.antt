-- ===== src/Web/LoginLimiter/Capacity.antt =====
-- The bound on the number of tracked addresses.
use one_auth_watch.Prelude.{
  ℕ, suc, ◌≤◌, ◌<◌, ◌≡◌, refl, ◌⊎◌, inl, inr, true, false, not, ◌&&◌, Option, none, some, [], ◌∷◌,
  arith, length, All, count_if, Option-cases,
}
use one_auth_watch.Prelude.Clock.{Time}
use one_auth_watch.Prelude.Text.{Text, text_eq, text_eq_iff, text_eq_refl}
use one_auth_watch.Prelude.Maps.{
  Assoc, lookup, insert, text_key, is_some, lookup-insert, length-insert, length-remove-lt,
}
use one_auth_watch.Web.LoginLimiter.{
  LoginAttempt, LoginRateLimiter, is_active, fresh, oldest_ip, remove_nonempty, evict_oldest_entry,
  make_room, record_failure,
}
use one_auth_watch.Web.LoginLimiter.Entries.{record_failure_known, record_failure_new}

abbrev pub Attempts : Type 0
Attempts = Assoc Text LoginAttempt

-- The addresses that are not blocked at `now`.
abbrev pub inactive : Time → Attempts → ℕ
inactive now m = count_if (λ x. not (is_active now x.1)) m

abbrev IsKnown : Text → Attempts → Type 0
IsKnown k m = is_some (lookup k m) ≡ true

IsKnown-cons : (k j : Text) (e : LoginAttempt) (m : Attempts) → IsKnown k m → IsKnown k ((j, e) ∷ m)
unfolding lookup
IsKnown-cons k j e m h = ground arith

IsKnown-head : (j : Text) (e : LoginAttempt) (m : Attempts) → IsKnown j ((j, e) ∷ m)
unfolding lookup
IsKnown-head j e m = rw text_eq_refl

oldest_ip-IsKnown_or_same :
    (now : Time) (k : Text) (o : Option Time) (m : Attempts)
    → (oldest_ip now k o m ≡ k) ⊎ IsKnown (oldest_ip now k o m) m
unfolding oldest_ip
oldest_ip-IsKnown_or_same now k o [] = inl refl
oldest_ip-IsKnown_or_same now k o ((j, e) ∷ m) = ground (
  arith,
  oldest_ip-IsKnown_or_same now k o m,
  oldest_ip-IsKnown_or_same now j (some e.last_fail) m,
  IsKnown-cons (oldest_ip now k o m) j e m,
  IsKnown-cons (oldest_ip now j (some e.last_fail) m) j e m,
  IsKnown-head j e m,
)

oldest_ip-IsKnown :
    (now : Time) (k : Text) (m : Attempts) → 0 < inactive now m → IsKnown (oldest_ip now k none m) m
unfolding oldest_ip
oldest_ip-IsKnown now k [] h = absurd (omega arith)
oldest_ip-IsKnown now k ((j, e) ∷ m) h = ground (
  arith,
  oldest_ip-IsKnown now k m,
  oldest_ip-IsKnown_or_same now j (some e.last_fail) m,
  IsKnown-cons (oldest_ip now k none m) j e m,
  IsKnown-cons (oldest_ip now j (some e.last_fail) m) j e m,
  IsKnown-head j e m,
)

not_known_nil : (m : Attempts) → All (λ x. text_eq x.0 [] ≡ false) m → lookup [] m ≡ none
unfolding lookup
not_known_nil [] h = refl
not_known_nil ((j, e) ∷ m) h = ground (arith, not_known_nil m h.1)

evict_oldest_entry-lt :
    (now : Time) (l : LoginRateLimiter)
    → 0 < inactive now l.attempts
    → All (λ x. text_eq x.0 [] ≡ false) l.attempts
    → length (evict_oldest_entry now l).attempts < length l.attempts
unfolding evict_oldest_entry
evict_oldest_entry-lt now l some_inactive named =
    go (oldest_ip now [] none l.attempts) (oldest_ip-IsKnown now [] l.attempts some_inactive)
  where
    go :
        (k : Text)
        → IsKnown k l.attempts
        → length (remove_nonempty k l.attempts) < length l.attempts
    go [] h = absurd (ground (arith, not_known_nil l.attempts named))
    go (c ∷ k) h = length-remove-lt (c ∷ k) l.attempts h

-- The new entry is written twice, and counted once.
length-insert_twice :
    (k : Text) (a b : LoginAttempt) (m : Attempts)
    → length (insert k a (insert k b m)) ≡ length (insert k b m)
length-insert_twice k a b m = rw length-insert (rw lookup-insert (rw text_eq_refl))

length-insert-le :
    (k : Text) (a : LoginAttempt) (m : Attempts) → length (insert k a m) ≤ suc (length m)
length-insert-le k a m = rw length-insert (ground arith)

make_room-lt :
    (now : Time) (l : LoginRateLimiter)
    → length l.attempts ≤ l.max_ips
    → 0 < inactive now l.attempts
    → All (λ x. text_eq x.0 [] ≡ false) l.attempts
    → length (make_room now l).attempts < l.max_ips
unfolding make_room
make_room-lt now l fits some_inactive named =
    ground (arith, evict_oldest_entry-lt now l some_inactive named)

-- While some tracked address is not blocked and no tracked address is the empty text, a failure
-- keeps the number of tracked addresses within `max_ips`.
pub record_failure-within :
    (now now' : Time) (ip : Text) (l : LoginRateLimiter)
    → length l.attempts ≤ l.max_ips
    → 0 < inactive now l.attempts
    → All (λ x. text_eq x.0 [] ≡ false) l.attempts
    → length (record_failure now now' ip l).0.attempts ≤ l.max_ips
record_failure-within now now' ip l fits some_inactive named =
    elim (Option-cases (lookup ip l.attempts)) [
      | inl missing ↦ rw (record_failure_new now now' ip l missing) (
          rw length-insert_twice (
            omega (
              arith,
              length-insert-le ip fresh (make_room now l).attempts,
              make_room-lt now l fits some_inactive named,
            )))
      | inr (e, found) ↦
          rw (record_failure_known now now' ip l e found) (rw length-insert (rw found fits))
    ]

grows_of_nothing_evicted :
    (now now' : Time) (ip : Text) (l : LoginRateLimiter)
    → lookup ip l.attempts ≡ none
    → oldest_ip now [] none l.attempts ≡ []
    → length (record_failure now now' ip l).0.attempts ≡ suc (length l.attempts)
grows_of_nothing_evicted now now' ip l missing stuck =
    let same : (make_room now l).attempts ≡ l.attempts =
      unfold make_room evict_oldest_entry in ground (arith, stuck) in
    rw (record_failure_new now now' ip l missing)
      (rw length-insert_twice (rw same (rw length-insert (rw missing))))

all_active-oldest :
    (now : Time) (k : Text) (o : Option Time) (m : Attempts)
    → inactive now m ≡ 0
    → oldest_ip now k o m ≡ k
unfolding oldest_ip
all_active-oldest now k o [] h = refl
all_active-oldest now k o ((j, e) ∷ m) h = ground (arith, all_active-oldest now k o m)

-- While every tracked address is blocked, a failure of a new address makes the table larger,
-- whatever `max_ips` is.
record_failure_all_blocked :
    (now now' : Time) (ip : Text) (l : LoginRateLimiter)
    → lookup ip l.attempts ≡ none
    → inactive now l.attempts ≡ 0
    → length (record_failure now now' ip l).0.attempts ≡ suc (length l.attempts)
record_failure_all_blocked now now' ip l missing blocked =
    grows_of_nothing_evicted now now' ip l missing
      (all_active-oldest now [] none l.attempts blocked)

-- The empty text failed last at `t`, and every other address that is not blocked after `t`.
abbrev pub BlankIsOldest : Time → Time → Text × LoginAttempt → Type 0
BlankIsOldest now t (j, e) =
    is_active now e ≡ false
    → ((text_eq j [] ≡ true) × (e.last_fail ≡ t)) ⊎ ((text_eq j [] ≡ false) × (t < e.last_fail))

abbrev pub blanks : Time → Attempts → ℕ
blanks now m = count_if (λ x. text_eq x.0 [] && not (is_active now x.1)) m

abbrev LaterThan : Time → Option Time → Type 0
LaterThan t none = Unit
LaterThan t (some u) = t < u

blank_stays :
    (now t : Time) (m : Attempts) → All (BlankIsOldest now t) m → oldest_ip now [] (some t) m ≡ []
unfolding oldest_ip
blank_stays now t [] h = refl
blank_stays now t ((j, e) ∷ m) h = ground (arith, blank_stays now t m h.1, text_eq_iff j [])

blank_chosen :
    (now t : Time) (k : Text) (o : Option Time) (m : Attempts)
    → LaterThan t o
    → All (BlankIsOldest now t) m
    → 0 < blanks now m
    → oldest_ip now k o m ≡ []
unfolding oldest_ip
blank_chosen now t k o [] later h some_blank = absurd (omega arith)
blank_chosen now t k none ((j, e) ∷ m) later h some_blank = ground (
  arith,
  blank_chosen now t k none m later h.1,
  blank_chosen now t j (some e.last_fail) m,
  blank_stays now t m h.1,
  text_eq_iff j [],
)
blank_chosen now t k (some u) ((j, e) ∷ m) later h some_blank = ground (
  arith,
  blank_chosen now t k (some u) m later h.1,
  blank_chosen now t j (some e.last_fail) m,
  blank_stays now t m h.1,
  text_eq_iff j [],
)

-- Once the empty text is tracked, not blocked, and the one that failed longest ago, the eviction
-- removes nothing: a failure of a new address makes the table larger, whatever `max_ips` is.
record_failure_blank_oldest :
    (now now' t : Time) (ip : Text) (l : LoginRateLimiter)
    → lookup ip l.attempts ≡ none
    → All (BlankIsOldest now t) l.attempts
    → 0 < blanks now l.attempts
    → length (record_failure now now' ip l).0.attempts ≡ suc (length l.attempts)
record_failure_blank_oldest now now' t ip l missing oldest some_blank =
    grows_of_nothing_evicted now now' ip l missing
      (blank_chosen now t [] none l.attempts tt oldest some_blank)
