-- ===== src/Database/Accounts/Merging.antt =====
-- `MergeCodexAccountData` and `DeduplicateProviderAccounts` of server/internal/store/codex_store.go.
-- SQLite promises no order of the duplicates: here they come in the order of their last rows.
pub mod Whole
pub mod Target
pub mod Sources
pub mod Single
pub mod Total
use one_auth_watch.Prelude.{
  ℕ, suc, Bool, true, false, not, ◌&&◌, ◌||◌, Option, none, some, List, [], ◌∷◌, ltb, leb, ◌==◌,
  keep, count_if, map, length, if◌then◌else◌,
}
use one_auth_watch.Prelude.Clock.{Time}
use one_auth_watch.Prelude.Text.{Text, text_eq}
use one_auth_watch.Database.Fault.{update_where}
use one_auth_watch.Database.Transaction.{transact}
use one_auth_watch.Database.Accounts.{
  ProviderAccount, Tables, Store, query, of_provider, has_external, has_id, is_deleted,
  with_accounts,
}

-- The three statements of a merge.
abbrev pub move_snapshots : ℕ → ℕ → Tables → Tables
move_snapshots target source t = record t {
  snapshots =
      update_where (λ r. r.account_id == source) (λ r. record r { account_id = target })
        t.snapshots;
}

abbrev pub move_cycles : ℕ → ℕ → Tables → Tables
move_cycles target source t = record t {
  cycles =
      update_where (λ r. r.account_id == source) (λ r. record r { account_id = target }) t.cycles;
}

abbrev pub delete_source : Time → ℕ → Tables → Tables
delete_source now source =
    with_accounts (update_where (has_id source) λ a. record a { deleted_at = some now })

abbrev pub merge_changes : Time → ℕ → ℕ → List (Tables → Tables)
merge_changes now target source =
    move_snapshots target source ∷ move_cycles target source ∷ delete_source now source ∷ []

abbrev pub as_store : Tables × List Bool × Bool → Store × Bool
as_store (tables, faults, failed) = (record { tables = tables; faults = faults }, failed)

unfoldable pub merge_codex_account_data : Time → ℕ → ℕ → Store → Store × Bool
merge_codex_account_data now target source s =
    if target == source
    then (s, false)
    else as_store (transact (merge_changes now target source) s.tables s.faults)

-- `GROUP BY external_id HAVING cnt > 1`
abbrev pub is_blank : Text → Bool
is_blank s = text_eq s []

unfoldable pub duplicate_ids : Text → List ProviderAccount → List ProviderAccount → List Text
duplicate_ids provider all [] = []
duplicate_ids provider all (a ∷ rows) =
    let rest = duplicate_ids provider all rows in
    if of_provider provider a
      && not (is_blank a.external_id)
      && ltb 1 (count_if (has_external provider a.external_id) all)
      && leb (count_if (has_external provider a.external_id) rows) 0
    then a.external_id ∷ rest
    else rest

-- An active account before a deleted one, then the lower id.
abbrev pub prefers : ProviderAccount → ProviderAccount → Bool
prefers target a =
    is_deleted target && not (is_deleted a)
    || not (is_deleted target) && not (is_deleted a) && ltb a.id target.id

unfoldable pub choose_target : ProviderAccount → List ProviderAccount → ProviderAccount
choose_target target [] = target
choose_target target (a ∷ accounts) =
    choose_target (if prefers target a then a else target) accounts

-- The loops stop at the first error; the number is of the accounts merged.
pub record Merged : Type 0 where
  pub store : Store
  pub merged : ℕ
  pub failed : Bool

abbrev pub at_error : Store → ℕ → Merged
at_error s n = record { store = s; merged = n; failed = true }

abbrev pub go_on : Store × Bool → ℕ → (Store → ℕ → Merged) → Merged
go_on (s, true) n rest = at_error s n
go_on (s, false) n rest = rest s n

unfoldable pub merge_into : Time → ℕ → List ProviderAccount → ℕ → Store → Merged
merge_into now target [] n s = record { store = s; merged = n; failed = false }
merge_into now target (a ∷ accounts) n s =
    if a.id == target
    then merge_into now target accounts n s
    else go_on (merge_codex_account_data now target a.id s) n
        (λ s' n'. merge_into now target accounts (suc n') s')

unfoldable pub merge_group : Time → Option (List ProviderAccount) → ℕ → Store → Merged
merge_group now none n s = at_error s n
merge_group now (some []) n s = record { store = s; merged = n; failed = false }
merge_group now (some (a ∷ [])) n s = record { store = s; merged = n; failed = false }
merge_group now (some (a ∷ b ∷ rest)) n s =
    merge_into now (choose_target a (b ∷ rest)).id (a ∷ b ∷ rest) n s

unfoldable pub query_provider_accounts_by_external_id :
    Text → Text → Store → Store × Option (List ProviderAccount)
query_provider_accounts_by_external_id provider external_id =
    query λ t. keep (has_external provider external_id) t.accounts

abbrev pub next_group : Merged → (ℕ → Store → Merged) → Merged
next_group m rest = if m.failed then m else rest m.merged m.store

unfoldable pub merge_groups : Time → Text → List Text → ℕ → Store → Merged
merge_groups now provider [] n s = record { store = s; merged = n; failed = false }
merge_groups now provider (e ∷ ids) n s =
    let (s', accounts) = query_provider_accounts_by_external_id provider e s in
    next_group (merge_group now accounts n s') (merge_groups now provider ids)

unfoldable pub merge_found : Time → Text → Option (List Text) → Store → Merged
merge_found now provider none s = at_error s 0
merge_found now provider (some ids) s = merge_groups now provider ids 0 s

unfoldable pub deduplicate_provider_accounts : Time → Text → Store → Merged
deduplicate_provider_accounts now provider s =
    let (s', ids) = query (λ t. duplicate_ids provider t.accounts t.accounts) s in
    merge_found now provider ids s'
