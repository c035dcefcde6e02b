-- ===== src/Update/Order.antt =====
-- `compareVersions` is an order.
use one_auth_watch.Prelude.{ℕ, zero, suc, ◌≡◌, refl, Bool, true, false, arith}
use one_auth_watch.Prelude.Int.{ℤ, pos, negsuc}
use one_auth_watch.Prelude.Text.{Text}
use one_auth_watch.Update.{compare_parts, compare_versions}

abbrev pub is_negative : ℤ → Bool
is_negative (pos n) = false
is_negative (negsuc n) = true

module _ (a b : Text) where
  parts_trans :
      (c : Text) (i n : ℕ)
      → is_negative (compare_parts i n a b) ≡ false
      → is_negative (compare_parts i n b c) ≡ false
      → is_negative (compare_parts i n a c) ≡ false
  unfolding compare_parts
  parts_trans c i zero h k = refl
  parts_trans c i (suc n) h k = ground (arith, parts_trans c (suc i) n)

  -- If `a` is not older than `b`, and `b` is not older than `c`, then `a` is not older than `c`.
  compare_versions_trans :
      (c : Text)
      → is_negative (compare_versions a b) ≡ false
      → is_negative (compare_versions b c) ≡ false
      → is_negative (compare_versions a c) ≡ false
  unfolding compare_versions
  compare_versions_trans c h k = parts_trans c 0 3 h k
