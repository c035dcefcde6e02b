-- ===== src/Database/Accounts/Operations.antt =====
-- Every operation on the accounts keeps the keys of the table.
use one_auth_watch.Prelude.{
  ℕ, suc, inl, inr, refl, sym, Bool, true, false, Option, none, some, List, [], ◌∷◌, ◌==◌,
  if◌then◌else◌,
}
use mathlib.Core.Path.{subst}
use one_auth_watch.Prelude.Clock.{Time}
use one_auth_watch.Prelude.Text.{Text}
use one_auth_watch.Database.Transaction.{transact, Whole, transact-Whole}
use one_auth_watch.Database.Accounts.{
  ProviderAccount, Tables, Store, query, mark_provider_account_deleted, undelete_provider_account,
  rename_provider_account, get_or_create_provider_account,
}
use one_auth_watch.Database.Accounts.External.{
  get_or_create_by_external_id, update_provider_account_metadata,
  mark_provider_account_deleted_by_id,
}
use one_auth_watch.Database.Accounts.Merging.{
  merge_changes, as_store, merge_codex_account_data, choose_target, Merged, go_on, merge_into,
  merge_group, query_provider_accounts_by_external_id, merge_groups, merge_found,
  deduplicate_provider_accounts,
}
use one_auth_watch.Database.Accounts.Valid.{IsValid, update-IsValid, rename_account-IsValid}
use one_auth_watch.Database.Accounts.Keys.{
  Valid, mark-Valid, undelete-Valid, by_name-Valid, by_external-Valid, metadata-Valid,
  mark_by_id-Valid,
}

-- The operations that change the table.
pub data Operation : Type 0 where
  mark_deleted : Time → Text → Text → Operation
  undelete : Text → Text → Operation
  get_or_create : Time → Text → Text → Operation
  by_external_id : Time → Text → Text → Text → Operation
  merge : Time → ℕ → ℕ → Operation
  deduplicate : Time → Text → Operation
  set_metadata : ℕ → Text → Operation
  set_name : ℕ → Text → Operation
  mark_deleted_by_id : Time → ℕ → Operation

unfoldable pub apply : Operation → Store → Store
apply (mark_deleted now p n) s = (mark_provider_account_deleted now p n s).0
apply (undelete p n) s = (undelete_provider_account p n s).0
apply (get_or_create now p n) s = (get_or_create_provider_account now p n s).0
apply (by_external_id now p n e) s = (get_or_create_by_external_id now p n e s).0
apply (merge now target source) s = (merge_codex_account_data now target source s).0
apply (deduplicate now p) s = (deduplicate_provider_accounts now p s).store
apply (set_metadata id m) s = (update_provider_account_metadata id m s).0
apply (set_name id n) s = (rename_provider_account id n s).0
apply (mark_deleted_by_id now id) s = (mark_provider_account_deleted_by_id now id s).0

unfoldable pub apply_each : List Operation → Store → Store
apply_each [] s = s
apply_each (o ∷ operations) s = apply_each operations (apply o s)

module _ (now : Time) where
  as_store-Valid :
      (target source : ℕ) (t : Tables) (r : Tables × List Bool × Bool)
      → Whole (merge_changes now target source) t r
      → IsValid t
      → Valid (as_store r).0
  unfolding Whole
  as_store-Valid target source t (t', faults, failed) (inl (error, same)) h =
      subst IsValid (sym same) h
  as_store-Valid target source t (t', faults, failed) (inr (done, all)) h =
      subst IsValid (sym all) (
        update-IsValid _ _
          (record { accounts = t.accounts; next_id = t.next_id; snapshots = _; cycles = _ })
          (λ a. (refl, refl, refl)) (record { ids = h.ids; names = h.names; fresh = h.fresh }))

  either-Valid :
      (b : Bool) (r r' : Store × Bool) → Valid r.0 → Valid r'.0 → Valid (if b then r else r').0
  either-Valid true r r' h h' = h
  either-Valid false r r' h h' = h'

  merge-Valid :
      (target source : ℕ) (s : Store)
      → Valid s
      → Valid (merge_codex_account_data now target source s).0
  unfolding merge_codex_account_data
  merge-Valid target source s h =
      either-Valid (target == source) (s, false) _ h
        (as_store-Valid target source s.tables
          (transact (merge_changes now target source) s.tables s.faults)
          (transact-Whole (merge_changes now target source) s.tables s.faults) h)

  -- The loops.
  either-Merged :
      (b : Bool) (x y : Merged) → Valid x.store → Valid y.store → Valid (if b then x else y).store
  either-Merged true x y h h' = h
  either-Merged false x y h h' = h'

  go_on-Valid :
      (r : Store × Bool) (n : ℕ) (rest : Store → ℕ → Merged)
      → Valid r.0
      → ((s : Store) (m : ℕ) → Valid s → Valid (rest s m).store)
      → Valid (go_on r n rest).store
  go_on-Valid (s, true) n rest h next = h
  go_on-Valid (s, false) n rest h next = next s n h

  into-Valid :
      (target : ℕ) (accounts : List ProviderAccount) (n : ℕ) (s : Store)
      → Valid s
      → Valid (merge_into now target accounts n s).store
  unfolding merge_into
  into-Valid target [] n s h = h
  into-Valid target (a ∷ accounts) n s h =
      either-Merged (a.id == target) (merge_into now target accounts n s) _
        (into-Valid target accounts n s h)
        (go_on-Valid (merge_codex_account_data now target a.id s) n _ (merge-Valid target a.id s h)
          (λ s' m v. into-Valid target accounts (suc m) s' v))

  group-Valid :
      (o : Option (List ProviderAccount)) (n : ℕ) (s : Store)
      → Valid s
      → Valid (merge_group now o n s).store
  unfolding merge_group
  group-Valid none n s h = h
  group-Valid (some []) n s h = h
  group-Valid (some (a ∷ [])) n s h = h
  group-Valid (some (a ∷ b ∷ rest)) n s h =
      into-Valid (choose_target a (b ∷ rest)).id (a ∷ b ∷ rest) n s h

  groups-Valid :
      (provider : Text) (ids : List Text) (n : ℕ) (s : Store)
      → Valid s
      → Valid (merge_groups now provider ids n s).store
  unfolding merge_groups query_provider_accounts_by_external_id query
  groups-Valid provider [] n s h = h
  groups-Valid provider (e ∷ ids) n s h =
      let m = merge_group now _ n _ in
      either-Merged m.failed m (merge_groups now provider ids m.merged m.store)
        (group-Valid _ n _ h) (groups-Valid provider ids m.merged m.store (group-Valid _ n _ h))

  found-Valid :
      (provider : Text) (o : Option (List Text)) (s : Store)
      → Valid s
      → Valid (merge_found now provider o s).store
  unfolding merge_found
  found-Valid provider none s h = h
  found-Valid provider (some ids) s h = groups-Valid provider ids 0 s h

  deduplicate-Valid :
      (provider : Text) (s : Store)
      → Valid s
      → Valid (deduplicate_provider_accounts now provider s).store
  unfolding deduplicate_provider_accounts query
  deduplicate-Valid provider s h = found-Valid provider _ _ h

apply-Valid : (o : Operation) (s : Store) → Valid s → Valid (apply o s)
unfolding apply
apply-Valid (mark_deleted now p n) s h = mark-Valid now p n s h
apply-Valid (undelete p n) s h = undelete-Valid p n s h
apply-Valid (get_or_create now p n) s h = by_name-Valid now p n s h
apply-Valid (by_external_id now p n e) s h = by_external-Valid now p n e s h
apply-Valid (merge now target source) s h = merge-Valid now target source s h
apply-Valid (deduplicate now p) s h = deduplicate-Valid now p s h
apply-Valid (set_metadata id m) s h = metadata-Valid id m s h
apply-Valid (set_name id n) s h = rename_account-IsValid id n s h
apply-Valid (mark_deleted_by_id now id) s h = mark_by_id-Valid now id s h

-- Whatever operations run and whatever statements fail: an id, and a name within a provider, is that of
-- at most one account, and the ids that come next are free.
apply_each-IsValid :
    (operations : List Operation) (s : Store)
    → IsValid s.tables
    → IsValid (apply_each operations s).tables
unfolding apply_each
apply_each-IsValid [] s h = h
apply_each-IsValid (o ∷ operations) s h =
    apply_each-IsValid operations (apply o s) (apply-Valid o s h)
