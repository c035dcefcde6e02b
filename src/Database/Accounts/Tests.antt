-- ===== src/Database/Accounts/Tests.antt =====
-- Runs of the operations on the accounts.
use one_auth_watch.Prelude.{◌≤◌, ◌≡◌, refl, ◌⊎◌, true, false, none, some, [], ◌∷◌, arith}
use one_auth_watch.Prelude.Text.{Text, codes, text_eq}
use one_auth_watch.Database.CodexSnapshots.{CodexSnapshot}
use one_auth_watch.Database.Accounts.{ProviderAccount, Tables, get_or_create_provider_account}
use one_auth_watch.Database.Accounts.Merging.{
  merge_codex_account_data, deduplicate_provider_accounts,
}
use one_auth_watch.Database.Accounts.Merging.Whole.{IsMerged, merge-IsMerged}
use one_auth_watch.Database.Accounts.Merging.Single.{active_accounts, deduplicate-single}
use one_auth_watch.Database.Accounts.Merging.Total.{deduplicate_succeeds}
use one_auth_watch.Database.Accounts.Valid.{IsValid}
use one_auth_watch.Database.Accounts.Creation.{
  reliable, IsOfTable, get_or_create_provider_account-IsOfTable,
}

abbrev codex : Text
codex = codes "codex"

abbrev default : ProviderAccount
default = record {
  id = 1;
  provider = codex;
  name = codes "default";
  created_at = 100;
  metadata = [];
  deleted_at = some 200;
  external_id = codes "x";
}

abbrev work : ProviderAccount
work = record default { id = 2; name = codes "work"; deleted_at = none }

abbrev home : ProviderAccount
home = record default { id = 3; name = codes "home"; deleted_at = none }

abbrev snapshot : CodexSnapshot
snapshot = record { captured_at = 150; account_id = 3; quotas = [] }

abbrev tables : Tables
tables = record {
  accounts = default ∷ work ∷ home ∷ [];
  next_id = 4;
  snapshots = snapshot ∷ [];
  cycles = [];
}

merge-IsMerged_example :
    (((merge_codex_account_data 300 2 3 (reliable tables)).1 ≡ true)
      × ((merge_codex_account_data 300 2 3 (reliable tables)).0.tables ≡ tables))
    ⊎ (((merge_codex_account_data 300 2 3 (reliable tables)).1 ≡ false)
        × IsMerged 300 2 3 tables (merge_codex_account_data 300 2 3 (reliable tables)).0.tables)
merge-IsMerged_example = merge-IsMerged 300 2 3 (reliable tables) refl

deduplicate-single_example :
    active_accounts codex
      (codes "x")
      (deduplicate_provider_accounts 300 codex (reliable tables)).store.tables.accounts
    ≤ 1
unfolding text_eq
deduplicate-single_example =
    deduplicate-single 300 codex (codes "x") (reliable tables) (λ i. ground arith) refl
      (deduplicate_succeeds 300 codex tables)

no_accounts : Tables
no_accounts = record { accounts = []; next_id = 1; snapshots = []; cycles = [] }

no_accounts-IsValid : IsValid no_accounts
unfolding no_accounts
no_accounts-IsValid = record {
  ids = λ i. omega arith;
  names = λ p n. omega arith;
  fresh = λ i next. refl;
}

-- An account that was deleted, and a statement that fails before it is undeleted.
get_or_create_provider_account-IsOfTable_example : IsOfTable codex (codes "default") (
    get_or_create_provider_account 300 codex
      (codes "default")
      (record { tables = tables; faults = false ∷ true ∷ [] }))
get_or_create_provider_account-IsOfTable_example =
    get_or_create_provider_account-IsOfTable 300 codex (codes "default")
      (record { tables = tables; faults = false ∷ true ∷ [] })
