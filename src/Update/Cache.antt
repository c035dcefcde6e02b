-- ===== src/Update/Cache.antt =====
-- The cache of `Check`.
use one_auth_watch.Prelude.{◌+◌, ◌<◌, ◌≡◌, refl, true, false, Option, some, arith}
use one_auth_watch.Prelude.Clock.{Time}
use one_auth_watch.Prelude.Text.{Text}
use one_auth_watch.Update.{Updater, is_dev, is_cached, is_blank, trim_v, fetched, info_for, check}

module _ (now : Time) (tag : Option Text) (u : Updater) where
  check-fetches : is_dev u ≡ false → is_cached now u ≡ false → check now tag u ≡ fetched now tag u
  unfolding check
  check-fetches dev stale = rw (dev, stale) refl

  check-cached :
      is_dev u ≡ false
      → is_cached now u ≡ true
      → check now tag u ≡ (u, some (info_for u.cached_version u.current_version))
  unfolding check
  check-cached dev fresh = rw (dev, fresh) refl

-- The updater with a release in its cache.
abbrev keep_release : Time → Text → Updater → Updater
keep_release now tag u = record u { cached_version = trim_v tag; cached_at = now }

keep-dev :
    (now : Time) (tag : Text) (u : Updater)
    → is_dev u ≡ false
    → is_dev (keep_release now tag u) ≡ false
unfolding is_dev
keep-dev now tag u dev = dev

keep-cached :
    (now later : Time) (tag : Text) (u : Updater)
    → is_blank (trim_v tag) ≡ false
    → later < now + u.cache_ttl
    → is_cached later (keep_release now tag u) ≡ true
unfolding is_cached
keep-cached now later tag u named soon = ground arith

-- After a check that fetched a release, every check within the life of the cache gives the same
-- answer and changes nothing, whatever GitHub would answer then.
cached_answer :
    (now later : Time) (tag : Text) (tag' : Option Text) (u : Updater)
    → is_dev u ≡ false
    → is_cached now u ≡ false
    → is_blank (trim_v tag) ≡ false
    → later < now + u.cache_ttl
    → check later tag' (check now (some tag) u).0 ≡ check now (some tag) u
unfolding fetched
cached_answer now later tag tag' u dev stale named soon =
    rw (check-fetches now (some tag) u dev stale) (
      check-cached later tag' (keep_release now tag u) (keep-dev now tag u dev)
        (keep-cached now later tag u named soon))
