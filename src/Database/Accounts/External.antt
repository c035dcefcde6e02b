-- ===== src/Database/Accounts/External.antt =====
-- Accounts by the identifier of their provider, and the operations by id, of
-- server/internal/store/codex_store.go.
use one_auth_watch.Prelude.{ℕ, Bool, not, ◌&&◌, Option, none, some, [], if◌then◌else◌}
use one_auth_watch.Prelude.Clock.{Time}
use one_auth_watch.Prelude.Text.{Text, text_eq}
use one_auth_watch.Database.Fault.{update_where, first_where}
use one_auth_watch.Database.Accounts.{
  ProviderAccount, Store, query, exec, with_accounts, has_external, has_id, is_deleted,
  rename_provider_account, undelete_found, get_or_create_provider_account,
}

abbrev pub is_blank : Text → Bool
is_blank s = text_eq s []

-- The row takes the name of the profile; an error of the statement is dropped.
abbrev pub named : Store × Bool → Text → ProviderAccount → Store × ProviderAccount
named (s, failed) name a = (s, if failed then a else record a { name = name })

unfoldable pub rename_found : Text → ProviderAccount → Store → Store × ProviderAccount
rename_found name a s =
    if text_eq a.name name then (s, a) else named (rename_provider_account a.id name s) name a

unfoldable pub reuse : Text → ProviderAccount → Store → Store × Option ProviderAccount
reuse name a s = let (s', a') = rename_found name a s in undelete_found a' s'

unfoldable pub set_external_id : ℕ → Text → Store → Store × Bool
set_external_id id external_id =
    exec (with_accounts (update_where (has_id id) λ a. record a { external_id = external_id }))

abbrev pub tagged : Store × Bool → Text → ProviderAccount → Store × Option ProviderAccount
tagged (s, failed) external_id a =
    (s, some (if failed then a else record a { external_id = external_id }))

unfoldable pub tag : Text → Store × Option ProviderAccount → Store × Option ProviderAccount
tag external_id (s, none) = (s, none)
tag external_id (s, some a) = tagged (set_external_id a.id external_id s) external_id a

unfoldable pub found_by_external :
    Time
    → Text
    → Text
    → Text
    → Option (Option ProviderAccount)
    → Store
    → Store × Option ProviderAccount
found_by_external now provider name external_id none s = (s, none)
found_by_external now provider name external_id (some none) s =
    tag external_id (get_or_create_provider_account now provider name s)
found_by_external now provider name external_id (some (some a)) s = reuse name a s

unfoldable pub get_or_create_by_external_id :
    Time → Text → Text → Text → Store → Store × Option ProviderAccount
get_or_create_by_external_id now provider name external_id s =
    let (s', found) = query (λ t. first_where (has_external provider external_id) t.accounts) s in
    if is_blank external_id
    then get_or_create_provider_account now provider name s
    else found_by_external now provider name external_id found s'

unfoldable pub update_provider_account_metadata : ℕ → Text → Store → Store × Bool
update_provider_account_metadata id metadata =
    exec (with_accounts (update_where (has_id id) λ a. record a { metadata = metadata }))

unfoldable pub mark_provider_account_deleted_by_id : Time → ℕ → Store → Store × Bool
mark_provider_account_deleted_by_id now id = exec (
    with_accounts (
      update_where (λ a. has_id id a && not (is_deleted a))
        λ a. record a { deleted_at = some now }))

unfoldable pub get_provider_account_by_id : ℕ → Store → Store × Option (Option ProviderAccount)
get_provider_account_by_id id = query λ t. first_where (has_id id) t.accounts
