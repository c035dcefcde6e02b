-- ===== src/Database/Fault.antt =====
-- A table with what its environment decides: the outcomes of the next statements, in order. A
-- statement that fails changes nothing; once the list is used up, statements succeed.
use one_auth_watch.Prelude.{Bool, false, Option, none, some, List, [], ◌∷◌, if◌then◌else◌, map}

pub record Db (Row : Type 0) : Type 0 where
  pub rows : List Row
  pub faults : List Bool

abbrev pub next_fault : List Bool → Bool
next_fault [] = false
next_fault (b ∷ bs) = b

abbrev pub later_faults : List Bool → List Bool
later_faults [] = []
later_faults (b ∷ bs) = bs

module _ {Row : Type 0} where
  -- `db.Exec`: the new database, and whether the statement reported an error.
  abbrev pub exec : (List Row → List Row) → Db Row → Db Row × Bool
  exec change db = (
    record {
      rows = if next_fault db.faults then db.rows else change db.rows;
      faults = later_faults db.faults;
    },
    next_fault db.faults,
  )

  -- `db.Query`: `none` is an error.
  abbrev pub query {ℓ} : {A : Type ℓ} → (List Row → A) → Db Row → Db Row × Option A
  query read db = (
    record { rows = db.rows; faults = later_faults db.faults },
    if next_fault db.faults then none else some (read db.rows),
  )

  -- `UPDATE ... WHERE`
  abbrev pub update_where : (Row → Bool) → (Row → Row) → List Row → List Row
  update_where p change rows = map (λ r. if p r then change r else r) rows

  -- The first row that a `SELECT ... WHERE` returns.
  abbrev pub first_where : (Row → Bool) → List Row → Option Row
  first_where p [] = none
  first_where p (r ∷ rows) = if p r then some r else first_where p rows
