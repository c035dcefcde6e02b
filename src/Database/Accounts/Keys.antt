-- ===== src/Database/Accounts/Keys.antt =====
-- The operations on single accounts keep the keys of the table.
use one_auth_watch.Prelude.{
  ℕ, inl, inr, refl, Bool, true, false, Option, none, some, [], ◌==◌, Bool-cases, if◌then◌else◌,
}
use one_auth_watch.Prelude.Clock.{Time}
use one_auth_watch.Prelude.Text.{Text, codes, text_eq}
use one_auth_watch.Database.Accounts.{
  ProviderAccount, Store, query, is_deleted, mark_provider_account_deleted,
  undelete_provider_account, rename_provider_account, undelete_found, rename_only, rename_or_insert,
  create_account, found_by_name, get_or_create_provider_account, zero_if_none,
}
use one_auth_watch.Database.Accounts.External.{
  is_blank, named, rename_found, reuse, set_external_id, tag, found_by_external,
  get_or_create_by_external_id, update_provider_account_metadata,
  mark_provider_account_deleted_by_id,
}
use one_auth_watch.Database.Accounts.Valid.{
  IsValid, update-IsValid, exec-IsValid, rename_account-IsValid, insert_account-IsValid,
}

abbrev pub Valid : Store → Type 0
Valid s = IsValid s.tables

pub mark-Valid :
    (now : Time) (p n : Text) (s : Store)
    → Valid s
    → Valid (mark_provider_account_deleted now p n s).0
unfolding mark_provider_account_deleted
mark-Valid now p n s h = exec-IsValid _ s (update-IsValid _ _ s.tables (λ a. (refl, refl, refl))) h

pub undelete-Valid : (p n : Text) (s : Store) → Valid s → Valid (undelete_provider_account p n s).0
unfolding undelete_provider_account
undelete-Valid p n s h = exec-IsValid _ s (update-IsValid _ _ s.tables (λ a. (refl, refl, refl))) h

undelete_found-Valid : (a : ProviderAccount) (s : Store) → Valid s → Valid (undelete_found a s).0
unfolding undelete_found
undelete_found-Valid a s h = elim (Bool-cases (is_deleted a)) [
  | inl e ↦ rw e (undelete-Valid a.provider a.name s h)
  | inr e ↦ rw e h
]

rename_only-Valid :
    (now : Time) (p n : Text) (d : ProviderAccount) (count : Option ℕ) (s : Store)
    → Valid s
    → Valid (rename_only now p n d count s).0
unfolding rename_only
rename_only-Valid now p n d count s h = elim (Bool-cases (zero_if_none count == 1)) [
  | inl e ↦ rw e (rename_account-IsValid d.id n s h)
  | inr e ↦ rw e (insert_account-IsValid now p n s h)
]

rename_or_insert-Valid :
    (now : Time) (p n : Text) (o : Option (Option ProviderAccount)) (s : Store)
    → Valid s
    → Valid (rename_or_insert now p n o s).0
unfolding rename_or_insert query
rename_or_insert-Valid now p n none s h = insert_account-IsValid now p n s h
rename_or_insert-Valid now p n (some none) s h = insert_account-IsValid now p n s h
rename_or_insert-Valid now p n (some (some d)) s h = rename_only-Valid now p n d _ _ h

create-Valid : (now : Time) (p n : Text) (s : Store) → Valid s → Valid (create_account now p n s).0
unfolding create_account query
create-Valid now p n s h = elim (Bool-cases (text_eq n (codes "default"))) [
  | inl e ↦ rw e (insert_account-IsValid now p n s h)
  | inr e ↦ rw e (rename_or_insert-Valid now p n _ _ h)
]

found_by_name-Valid :
    (now : Time) (p n : Text) (o : Option (Option ProviderAccount)) (s : Store)
    → Valid s
    → Valid (found_by_name now p n o s).0
unfolding found_by_name
found_by_name-Valid now p n none s h = h
found_by_name-Valid now p n (some none) s h = create-Valid now p n s h
found_by_name-Valid now p n (some (some a)) s h =
    undelete_found-Valid (record a { external_id = [] }) s h

pub by_name-Valid :
    (now : Time) (p n : Text) (s : Store)
    → Valid s
    → Valid (get_or_create_provider_account now p n s).0
unfolding get_or_create_provider_account query
by_name-Valid now p n s h = found_by_name-Valid now p n _ _ h

reuse-Valid : (n : Text) (a : ProviderAccount) (s : Store) → Valid s → Valid (reuse n a s).0
unfolding reuse rename_found
reuse-Valid n a s h = undelete_found-Valid (rename_found n a s).1 _ (renamed (text_eq a.name n))
  where
    renamed :
        (b : Bool) → Valid (if b then (s, a) else named (rename_provider_account a.id n s) n a).0
    renamed true = h
    renamed false = rename_account-IsValid a.id n s h

tag-Valid : (e : Text) (r : Store × Option ProviderAccount) → Valid r.0 → Valid (tag e r).0
unfolding tag set_external_id
tag-Valid e (s, none) h = h
tag-Valid e (s, some a) h =
    exec-IsValid _ s (update-IsValid _ _ s.tables (λ b. (refl, refl, refl))) h

found_by_external-Valid :
    (now : Time) (p n e : Text) (o : Option (Option ProviderAccount)) (s : Store)
    → Valid s
    → Valid (found_by_external now p n e o s).0
unfolding found_by_external
found_by_external-Valid now p n e none s h = h
found_by_external-Valid now p n e (some none) s h =
    tag-Valid e (get_or_create_provider_account now p n s) (by_name-Valid now p n s h)
found_by_external-Valid now p n e (some (some a)) s h = reuse-Valid n a s h

pub by_external-Valid :
    (now : Time) (p n e : Text) (s : Store)
    → Valid s
    → Valid (get_or_create_by_external_id now p n e s).0
unfolding get_or_create_by_external_id query
by_external-Valid now p n e s h = elim (Bool-cases (is_blank e)) [
  | inl b ↦ rw b (by_name-Valid now p n s h)
  | inr b ↦ rw b (found_by_external-Valid now p n e _ _ h)
]

pub metadata-Valid :
    (id : ℕ) (m : Text) (s : Store) → Valid s → Valid (update_provider_account_metadata id m s).0
unfolding update_provider_account_metadata
metadata-Valid id m s h = exec-IsValid _ s (update-IsValid _ _ s.tables (λ a. (refl, refl, refl))) h

pub mark_by_id-Valid :
    (now : Time) (id : ℕ) (s : Store)
    → Valid s
    → Valid (mark_provider_account_deleted_by_id now id s).0
unfolding mark_provider_account_deleted_by_id
mark_by_id-Valid now id s h =
    exec-IsValid _ s (update-IsValid _ _ s.tables (λ a. (refl, refl, refl))) h
