-- ===== src/Database/Accounts.antt =====
-- The `provider_accounts` table of server/internal/store/codex_store.go, with the two tables whose rows
-- belong to an account. Rows are in the order of their ids. A NULL text is the empty one, as the
-- queries read it. `none` as the result of an operation is an error.
pub mod External
pub mod Merging
pub mod Valid
pub mod Keys
pub mod Operations
pub mod Creation
mod Tests
use one_auth_watch.Prelude.{
  ℕ, suc, ◌+◌, Bool, true, false, not, ◌&&◌, ◌||◌, Option, none, some, List, [], ◌∷◌, ◌++◌, ltb,
  leb, ◌==◌, keep, count_if, map, if◌then◌else◌,
}
use one_auth_watch.Prelude.Clock.{Time}
use one_auth_watch.Prelude.Text.{Text, codes, text_eq}
use one_auth_watch.Prelude.Maps.{is_some}
use one_auth_watch.Database.Fault.{next_fault, later_faults, update_where, first_where}
use one_auth_watch.Database.Transaction.{transact}
use one_auth_watch.Database.CodexCycles.{CodexResetCycle}
use one_auth_watch.Database.CodexSnapshots.{CodexSnapshot}

pub record ProviderAccount : Type 0 where
  pub id : ℕ
  pub provider : Text
  pub name : Text
  pub created_at : Time
  pub metadata : Text
  pub deleted_at : Option Time
  pub external_id : Text

-- `next_id` is the one that AUTOINCREMENT gives next.
pub record Tables : Type 0 where
  pub accounts : List ProviderAccount
  pub next_id : ℕ
  pub snapshots : List CodexSnapshot
  pub cycles : List CodexResetCycle

pub record Store : Type 0 where
  pub tables : Tables
  pub faults : List Bool

unfoldable pub query {ℓ} : {A : Type ℓ} → (Tables → A) → Store → Store × Option A
query read s = (
  record s { faults = later_faults s.faults },
  if next_fault s.faults then none else some (read s.tables),
)

-- A statement; the flag is an error.
unfoldable pub exec : (Tables → Tables) → Store → Store × Bool
exec change s = (
  record {
    tables = if next_fault s.faults then s.tables else change s.tables;
    faults = later_faults s.faults;
  },
  next_fault s.faults,
)

abbrev pub with_accounts : (List ProviderAccount → List ProviderAccount) → Tables → Tables
with_accounts change t = record t { accounts = change t.accounts }

abbrev pub of_provider : Text → ProviderAccount → Bool
of_provider provider a = text_eq a.provider provider

abbrev pub has_name : Text → Text → ProviderAccount → Bool
has_name provider name a = text_eq a.provider provider && text_eq a.name name

abbrev pub has_external : Text → Text → ProviderAccount → Bool
has_external provider external_id a =
    text_eq a.provider provider && text_eq a.external_id external_id

abbrev pub has_id : ℕ → ProviderAccount → Bool
has_id id a = a.id == id

abbrev pub is_deleted : ProviderAccount → Bool
is_deleted a = is_some a.deleted_at

unfoldable pub query_provider_accounts : Text → Store → Store × Option (List ProviderAccount)
query_provider_accounts provider = query λ t. keep (of_provider provider) t.accounts

unfoldable pub query_active_provider_accounts : Text → Store → Store × Option (List ProviderAccount)
query_active_provider_accounts provider =
    query λ t. keep (λ a. of_provider provider a && not (is_deleted a)) t.accounts

unfoldable pub mark_provider_account_deleted : Time → Text → Text → Store → Store × Bool
mark_provider_account_deleted now provider name = exec (
    with_accounts (
      update_where (λ a. has_name provider name a && not (is_deleted a))
        λ a. record a { deleted_at = some now }))

unfoldable pub undelete_provider_account : Text → Text → Store → Store × Bool
undelete_provider_account provider name =
    exec (with_accounts (update_where (has_name provider name) λ a. record a { deleted_at = none }))

-- `UPDATE ... SET name`: refused where another account of the provider has the name.
abbrev pub taken : Text → ℕ → Text → ProviderAccount → Bool
taken provider id name a = has_name provider name a && not (a.id == id)

abbrev pub is_taken : ℕ → Text → List ProviderAccount → Option ProviderAccount → Bool
is_taken id name rows none = false
is_taken id name rows (some a) = is_some (first_where (taken a.provider id name) rows)

abbrev pub rename_row : ℕ → Text → List ProviderAccount → List ProviderAccount
rename_row id name = update_where (has_id id) λ a. record a { name = name }

unfoldable pub rename_provider_account : ℕ → Text → Store → Store × Bool
rename_provider_account id name s =
    if is_taken id name s.tables.accounts (first_where (has_id id) s.tables.accounts)
    then (record s { faults = later_faults s.faults }, true)
    else exec (with_accounts (rename_row id name)) s

-- `INSERT`, refused where the name is there, and `LastInsertId`, which SQLite always knows.
abbrev pub new_account : ℕ → Time → Text → Text → ProviderAccount
new_account id now provider name = record {
  id = id;
  provider = provider;
  name = name;
  created_at = now;
  metadata = [];
  deleted_at = none;
  external_id = [];
}

abbrev pub insert_row : Time → Text → Text → Tables → Tables
insert_row now provider name t = record t {
  accounts = t.accounts ++ new_account t.next_id now provider name ∷ [];
  next_id = suc t.next_id;
}

unfoldable pub insert_account : Time → Text → Text → Store → Store × Option ProviderAccount
insert_account now provider name s =
    if is_some (first_where (has_name provider name) s.tables.accounts)
    then (record s { faults = later_faults s.faults }, none)
    else (
      (exec (insert_row now provider name) s).0,
      if next_fault s.faults then none else some (new_account s.tables.next_id now provider name),
    )

-- An account that was deleted is there again; an error of the statement is dropped.
abbrev pub undeleted : Store × Bool → ProviderAccount → Store × Option ProviderAccount
undeleted (s, failed) a = (s, some (if failed then a else record a { deleted_at = none }))

unfoldable pub undelete_found : ProviderAccount → Store → Store × Option ProviderAccount
undelete_found a s =
    if is_deleted a
    then undeleted (undelete_provider_account a.provider a.name s) a
    else (s, some a)

-- The default account takes the name; the caller gets it without its `deleted_at`.
abbrev pub renamed : Store × Bool → Text → ProviderAccount → Store × Option ProviderAccount
renamed (s, failed) name a = (
  s,
  if failed then none else some (record a { name = name; deleted_at = none; external_id = [] }),
)

abbrev pub zero_if_none : Option ℕ → ℕ
zero_if_none none = 0
zero_if_none (some n) = n

unfoldable pub rename_only :
    Time → Text → Text → ProviderAccount → Option ℕ → Store → Store × Option ProviderAccount
rename_only now provider name default count s =
    if zero_if_none count == 1
    then renamed (rename_provider_account default.id name s) name default
    else insert_account now provider name s

unfoldable pub rename_or_insert :
    Time → Text → Text → Option (Option ProviderAccount) → Store → Store × Option ProviderAccount
rename_or_insert now provider name (some (some default)) s =
    let (s', count) = query (λ t. count_if (of_provider provider) t.accounts) s in
    rename_only now provider name default count s'
rename_or_insert now provider name _ s = insert_account now provider name s

unfoldable pub create_account : Time → Text → Text → Store → Store × Option ProviderAccount
create_account now provider name s =
    let (s', default) =
      query (λ t. first_where (has_name provider (codes "default")) t.accounts) s in
    if text_eq name (codes "default")
    then insert_account now provider name s
    else rename_or_insert now provider name default s'

unfoldable pub found_by_name :
    Time → Text → Text → Option (Option ProviderAccount) → Store → Store × Option ProviderAccount
found_by_name now provider name none s = (s, none)
found_by_name now provider name (some none) s = create_account now provider name s
found_by_name now provider name (some (some a)) s = undelete_found (record a { external_id = [] }) s

unfoldable pub get_or_create_provider_account :
    Time → Text → Text → Store → Store × Option ProviderAccount
get_or_create_provider_account now provider name s =
    let (s', found) = query (λ t. first_where (has_name provider name) t.accounts) s in
    found_by_name now provider name found s'
