-- ===== src/Database/Transaction.antt =====
-- Transactions of server/internal/store: `db.Begin`, statements with `tx.Exec`, `tx.Commit`, and the
-- deferred `tx.Rollback` that undoes the statements where one of them, or the commit, fails.
use one_auth_watch.Prelude.{
  inl, inr, ◌≡◌, refl, ◌⊎◌, Bool, true, false, Option, none, some, List, [], ◌∷◌, ◌++◌, Bool-cases,
  if◌then◌else◌,
}
use one_auth_watch.Database.Fault.{Db, next_fault, later_faults}

module _ {S : Type 0} where
  -- The statements one after another, up to the first that fails.
  unfoldable pub run : List (S → S) → S → List Bool → Option S × List Bool
  run [] s faults = (some s, faults)
  run (change ∷ changes) s faults =
      let rest = run changes (change s) (later_faults faults) in
      if next_fault faults then (none, later_faults faults) else rest

  abbrev all_of : List (S → S) → List (S → S)
  all_of changes = (λ s. s) ∷ changes ++ (λ s. s) ∷ []

  abbrev or_rolled_back : S → Option S × List Bool → S × List Bool × Bool
  or_rolled_back s (none, faults) = (s, faults, true)
  or_rolled_back s (some s', faults) = (s', faults, false)

  -- The state, the outcomes that are left, and whether there was an error.
  unfoldable pub transact : List (S → S) → S → List Bool → S × List Bool × Bool
  transact changes s faults = or_rolled_back s (run (all_of changes) s faults)

  abbrev pub apply_all : List (S → S) → S → S
  apply_all [] s = s
  apply_all (change ∷ changes) s = apply_all changes (change s)

  abbrev Ran : List (S → S) → S → Option S → Type 0
  Ran changes s none = Unit
  Ran changes s (some s') = s' ≡ apply_all changes s

  run-Ran :
      (changes : List (S → S)) (s : S) (faults : List Bool) → Ran changes s (run changes s faults).0
  unfolding run
  run-Ran [] s faults = refl
  run-Ran (change ∷ changes) s faults = elim (Bool-cases (next_fault faults)) [
    | inl e ↦ rw e tt
    | inr e ↦ rw e (run-Ran changes (change s) (later_faults faults))
  ]

  apply_all-append_id :
      (changes : List (S → S)) (s : S)
      → apply_all (changes ++ (λ s. s) ∷ []) s ≡ apply_all changes s
  apply_all-append_id [] s = refl
  apply_all-append_id (change ∷ changes) s = apply_all-append_id changes (change s)

  -- What a transaction leaves: all of its changes or none.
  unfoldable pub Whole : List (S → S) → S → S × List Bool × Bool → Type 0
  Whole changes s (s', faults, failed) =
      ((failed ≡ true) × (s' ≡ s)) ⊎ ((failed ≡ false) × (s' ≡ apply_all changes s))

  rolled_back-Whole :
      (changes : List (S → S)) (s : S) (o : Option S) (faults : List Bool)
      → Ran (all_of changes) s o
      → Whole changes s (or_rolled_back s (o, faults))
  unfolding Whole
  rolled_back-Whole changes s none faults h = inl (refl, refl)
  rolled_back-Whole changes s (some s') faults h =
      inr (refl, rw (h, apply_all-append_id changes s) refl)

  pub transact-Whole :
      (changes : List (S → S)) (s : S) (faults : List Bool)
      → Whole changes s (transact changes s faults)
  unfolding transact
  transact-Whole changes s faults =
      rolled_back-Whole changes s (run (all_of changes) s faults).0
        (run (all_of changes) s faults).1 (run-Ran (all_of changes) s faults)

module _ {S : Type 0} where
  run-reliable :
      (changes : List (S → S)) (s : S) → run changes s [] ≡ (some (apply_all changes s), [])
  unfolding run
  run-reliable [] s = refl
  run-reliable (change ∷ changes) s = run-reliable changes (change s)

  -- While no statement fails, a transaction succeeds.
  pub transact-reliable :
      (changes : List (S → S)) (s : S) → transact changes s [] ≡ (apply_all changes s, [], false)
  unfolding transact
  transact-reliable changes s =
      rw (run-reliable (all_of changes) s, apply_all-append_id changes s) refl

module _ {Row : Type 0} where
  abbrev as_db : List Row × List Bool × Bool → Db Row × Bool
  as_db (rows, faults, failed) = (record { rows = rows; faults = faults }, failed)

  -- A transaction on one table.
  unfoldable pub exec_all : List (List Row → List Row) → Db Row → Db Row × Bool
  exec_all changes db = as_db (transact changes db.rows db.faults)
