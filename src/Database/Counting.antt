-- ===== src/Database/Counting.antt =====
-- How many rows pass a test, after the statements that change the rows of another test.
use one_auth_watch.Prelude.{
  ◌≤◌, ◌≡◌, refl, Bool, true, false, List, [], ◌∷◌, ◌++◌, none, arith, count_if, count_if-append,
}
use one_auth_watch.Database.Fault.{update_where, first_where}

module _ {Row : Type 0} (p r : Row → Bool) where
  -- A change that leaves the test as it is.
  pub count-update_same :
      (change : Row → Row) (rows : List Row)
      → ((c : Row) → r (change c) ≡ r c)
      → count_if r (update_where p change rows) ≡ count_if r rows
  count-update_same change [] same = refl
  count-update_same change (c ∷ rows) same =
      ground (arith, same c, count-update_same change rows same)

  -- A change after which the test fails.
  pub count-update_le :
      (change : Row → Row) (rows : List Row)
      → ((c : Row) → r (change c) ≡ false)
      → count_if r (update_where p change rows) ≤ count_if r rows
  count-update_le change [] gone = omega arith
  count-update_le change (c ∷ rows) gone = ground (arith, gone c, count-update_le change rows gone)

  -- The same, where the two tests agree.
  pub count-update_none :
      (change : Row → Row) (rows : List Row)
      → ((c : Row) → r (change c) ≡ false)
      → ((c : Row) → p c ≡ r c)
      → count_if r (update_where p change rows) ≡ 0
  count-update_none change [] gone agree = refl
  count-update_none change (c ∷ rows) gone agree =
      ground (arith, gone c, agree c, count-update_none change rows gone agree)

  pub count-first_none :
      (rows : List Row) → ((c : Row) → p c ≡ r c) → first_where p rows ≡ none → count_if r rows ≡ 0
  count-first_none [] agree h = refl
  count-first_none (c ∷ rows) agree h = ground (arith, agree c, count-first_none rows agree)

-- A row more.
pub count-append_one :
    {Row : Type 0} (r : Row → Bool) (rows : List Row) (new : Row)
    → count_if r rows ≤ 1
    → (r new ≡ true → count_if r rows ≡ 0)
    → count_if r (rows ++ new ∷ []) ≤ 1
count-append_one r rows new one room = ground (arith, count_if-append r rows (new ∷ []))
