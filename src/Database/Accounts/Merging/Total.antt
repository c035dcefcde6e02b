-- ===== src/Database/Accounts/Merging/Total.antt =====
-- A deduplication on a reliable database reports no error.
use one_auth_watch.Prelude.{
  ℕ, suc, ◌≡◌, refl, sym, Bool, true, false, some, List, [], ◌∷◌, arith, ◌==◌, keep, if◌then◌else◌,
}
use mathlib.Core.Path.{subst}
use one_auth_watch.Prelude.Clock.{Time}
use one_auth_watch.Prelude.Text.{Text}
use one_auth_watch.Database.Transaction.{transact-reliable, apply_all}
use one_auth_watch.Database.Accounts.{ProviderAccount, Tables, Store, query, has_external}
use one_auth_watch.Database.Accounts.Merging.{
  merge_changes, merge_codex_account_data, choose_target, duplicate_ids, Merged, go_on, next_group,
  merge_into, merge_group, query_provider_accounts_by_external_id, merge_groups, merge_found,
  deduplicate_provider_accounts,
}

-- No error, and none to come.
abbrev Succeeds : Merged → Type 0
Succeeds m = (m.failed ≡ false) × (m.store.faults ≡ [])

module _ (now : Time) where
  merge-reliable :
      (target source : ℕ) (tables : Tables)
      → (target == source) ≡ false
      → merge_codex_account_data now target source (record { tables = tables; faults = [] }) ≡ (
        record { tables = apply_all (merge_changes now target source) tables; faults = [] },
        false,
      )
  unfolding merge_codex_account_data
  merge-reliable target source tables other =
      rw (other, transact-reliable (merge_changes now target source) tables) refl

  either :
      (b : Bool) (x y : Merged)
      → Succeeds x
      → (b ≡ false → Succeeds y)
      → Succeeds (if b then x else y)
  either true x y on_true on_false = on_true
  either false x y on_true on_false = on_false refl

  into-Succeeds :
      (target : ℕ) (accounts : List ProviderAccount) (n : ℕ) (tables : Tables)
      → Succeeds (merge_into now target accounts n (record { tables = tables; faults = [] }))
  unfolding merge_into
  into-Succeeds target [] n tables = (refl, refl)
  into-Succeeds target (a ∷ accounts) n tables =
      let s : Store = record { tables = tables; faults = [] } in
      either (a.id == target) (merge_into now target accounts n s)
        (go_on (merge_codex_account_data now target a.id s) n
          (λ s' n'. merge_into now target accounts (suc n') s'))
        (into-Succeeds target accounts n tables)
        λ other.
          subst (λ r. Succeeds (go_on r n (λ s' n'. merge_into now target accounts (suc n') s')))
            (sym (merge-reliable target a.id tables (ground arith)))
            (into-Succeeds target accounts (suc n) _)

  group-Succeeds :
      (accounts : List ProviderAccount) (n : ℕ) (tables : Tables)
      → Succeeds (merge_group now (some accounts) n (record { tables = tables; faults = [] }))
  unfolding merge_group
  group-Succeeds [] n tables = (refl, refl)
  group-Succeeds (a ∷ []) n tables = (refl, refl)
  group-Succeeds (a ∷ b ∷ rest) n tables =
      into-Succeeds (choose_target a (b ∷ rest)).id (a ∷ b ∷ rest) n tables

  next-Succeeds :
      (m : Merged) (rest : ℕ → Store → Merged)
      → Succeeds m
      → ((n : ℕ) (tables : Tables) → Succeeds (rest n (record { tables = tables; faults = [] })))
      → Succeeds (next_group m rest)
  next-Succeeds m rest (ok, quiet) h = rw ok (
      subst (λ f. Succeeds (rest m.merged (record { tables = m.store.tables; faults = f })))
        (sym quiet) (h m.merged m.store.tables))

  groups-Succeeds :
      (provider : Text) (ids : List Text) (n : ℕ) (tables : Tables)
      → Succeeds (merge_groups now provider ids n (record { tables = tables; faults = [] }))
  unfolding merge_groups query_provider_accounts_by_external_id query
  groups-Succeeds provider [] n tables = (refl, refl)
  groups-Succeeds provider (e ∷ ids) n tables =
      next-Succeeds
        (merge_group now (some (keep (has_external provider e) tables.accounts)) n
          (record { tables = tables; faults = [] }))
        (merge_groups now provider ids)
        (group-Succeeds (keep (has_external provider e) tables.accounts) n tables)
        (groups-Succeeds provider ids)

  -- While no statement fails, a deduplication reports no error.
  pub deduplicate_succeeds :
      (provider : Text) (tables : Tables)
      → (deduplicate_provider_accounts now provider
          (record { tables = tables; faults = [] })).failed
        ≡ false
  unfolding deduplicate_provider_accounts merge_found query
  deduplicate_succeeds provider tables =
      (groups-Succeeds provider (duplicate_ids provider tables.accounts tables.accounts) 0 tables).0
