-- ===== src/Update/Tests.antt =====
-- Runs of the updater.
use one_auth_watch.Prelude.{
  ℕ, zero, suc, ◌≡◌, refl, true, false, none, some, [], ◌∷◌, ◌==◌, if◌then◌else◌,
}
use one_auth_watch.Prelude.Int.{pos}
use one_auth_watch.Prelude.Clock.{Time, hour}
use one_auth_watch.Prelude.Text.{codes, text_eq, before}
use one_auth_watch.Update.{
  split_dots, digits_value, extract_leading_int, part_number, compare_parts, compare_versions,
  Updater, is_dev, is_cached, File, Attempt, attempt_loop, download_with_retry,
}
use one_auth_watch.Update.Order.{is_negative}
use one_auth_watch.Update.Download.{IsWhole, download-IsWhole}

numeric : compare_versions (codes "v1.10.2") (codes "1.9") ≡ pos 1
unfolding compare_versions compare_parts part_number extract_leading_int split_dots digits_value
    before
numeric = refl

newer : is_negative (compare_versions (codes "v1.10.2") (codes "1.9")) ≡ false
unfolding compare_versions compare_parts part_number extract_leading_int split_dots digits_value
    before
newer = refl

newer_too : is_negative (compare_versions (codes "1.9") (codes "1.2.5-test")) ≡ false
unfolding compare_versions compare_parts part_number extract_leading_int split_dots digits_value
    before
newer_too = refl

abbrev updater : Updater
updater = record {
  current_version = codes "1.2.0";
  cached_version = [];
  cached_at = 0;
  cache_ttl = hour;
}

released : is_dev updater ≡ false
unfolding is_dev text_eq
released = refl

uncached : (now : Time) → is_cached now updater ≡ false
unfolding is_cached
uncached now = refl

-- The first attempt times out after two bytes.
-- An attempt that breaks off after three bytes, and then one with two.
abbrev attempts : ℕ → Attempt
attempts zero = record { seek_failed = true; truncate_failed = false; arrived = []; error = none }
attempts (suc zero) = record {
  seek_failed = false;
  truncate_failed = false;
  arrived = 1 ∷ 2 ∷ 3 ∷ [];
  error = some true;
}
attempts (suc (suc i)) = record {
  seek_failed = false;
  truncate_failed = false;
  arrived = 7 ∷ 8 ∷ [];
  error = none;
}

-- A file that was written before.
abbrev old_file : File
old_file = record { bytes = 9 ∷ []; offset = 1 }

second_succeeds : (download_with_retry 2 attempts old_file).1 ≡ true
unfolding download_with_retry attempt_loop
second_succeeds = refl

download-IsWhole_example :
    IsWhole attempts 1 (if 2 == 0 then 1 else 2) (download_with_retry 2 attempts old_file).0
download-IsWhole_example = download-IsWhole attempts 2 old_file second_succeeds
