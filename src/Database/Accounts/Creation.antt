-- ===== src/Database/Accounts/Creation.antt =====
-- The account that `GetOrCreateProviderAccount` returns is one of the table.
use one_auth_watch.Prelude.{
  ℕ, inl, inr, ◌≡◌, refl, ap, sym, ◌∙◌, Bool, true, false, ◌&&◌, ◌||◌, Option, none, some, List, [],
  ◌∷◌, ◌++◌, arith, Bool-cases, ◌==◌, if◌then◌else◌,
}
use one_auth_watch.Prelude.Clock.{Time}
use one_auth_watch.Prelude.Text.{Text, codes, text_eq, text_eq_iff, text_eq_refl}
use one_auth_watch.Prelude.Maps.{is_some}
use one_auth_watch.Database.Fault.{next_fault, later_faults, update_where, first_where}
use one_auth_watch.Database.Accounts.{
  ProviderAccount, Tables, Store, query, exec, has_name, has_id, is_deleted, is_taken, new_account,
  insert_row, rename_row, rename_provider_account, undelete_provider_account, insert_account,
  undelete_found, rename_only, rename_or_insert, create_account, found_by_name,
  get_or_create_provider_account, zero_if_none, renamed, undeleted,
}

abbrev pub reliable : Tables → Store
reliable t = record { tables = t; faults = [] }

-- A row with an id, a provider and a name.
abbrev is_row : ℕ → Text → Text → ProviderAccount → Bool
is_row id p n b = b.id == id && text_eq b.provider p && text_eq b.name n

abbrev pub has_row : ℕ → Text → Text → List ProviderAccount → Bool
has_row id p n [] = false
has_row id p n (b ∷ rows) = is_row id p n b || has_row id p n rows

-- The account that an operation returns, if any, has the provider and the name, and so has the row with
-- its id.
abbrev pub IsOfTable : Text → Text → Store × Option ProviderAccount → Type 0
IsOfTable p n (s, none) = Unit
IsOfTable p n (s, some a) =
    (a.provider ≡ p) × (a.name ≡ n) × (has_row a.id p n s.tables.accounts ≡ true)

record IsFound (p n : Text) (rows : List ProviderAccount) (a : ProviderAccount) : Type 0 where
  provider : a.provider ≡ p
  name : a.name ≡ n
  row : has_row a.id p n rows ≡ true

first_where-IsFound :
    (p n : Text) (rows : List ProviderAccount) (a : ProviderAccount)
    → first_where (has_name p n) rows ≡ some a
    → IsFound p n rows a
first_where-IsFound p n [] a h = ground arith
first_where-IsFound p n (b ∷ rows) a h = elim (Bool-cases (has_name p n b)) [
  | inl e ↦
      let same : b ≡ a = ground arith in
      let named : has_name p n a ≡ true = ap (has_name p n) (sym same) ∙ e in
      record {
        provider = (text_eq_iff a.provider p).0 (ground (arith, named));
        name = (text_eq_iff a.name n).0 (ground (arith, named));
        row = ap (λ x. is_row a.id p n x || has_row a.id p n rows) same ∙ ground (arith, named);
      }
  | inr e ↦
      let there = first_where-IsFound p n rows a (ground (arith, e)) in
      record { provider = there.provider; name = there.name; row = ground (arith, there.row) }
]

update-has_row :
    (id : ℕ) (p n : Text) (test : ProviderAccount → Bool)
    (change : ProviderAccount → ProviderAccount) (rows : List ProviderAccount)
    → ((b : ProviderAccount) → is_row id p n (change b) ≡ is_row id p n b)
    → has_row id p n rows ≡ true
    → has_row id p n (update_where test change rows) ≡ true
update-has_row id p n test change [] same h = h
update-has_row id p n test change (b ∷ rows) same h =
    ground (arith, same b, update-has_row id p n test change rows same)

added-has_row :
    (id : ℕ) (now : Time) (p n : Text) (rows : List ProviderAccount)
    → has_row id p n (rows ++ new_account id now p n ∷ []) ≡ true
added-has_row id now p n [] = ground (arith, text_eq_refl p, text_eq_refl n)
added-has_row id now p n (b ∷ rows) = ground (arith, added-has_row id now p n rows)

rename-has_row :
    (id : ℕ) (p n old : Text) (rows : List ProviderAccount)
    → has_row id p old rows ≡ true
    → has_row id p n (rename_row id n rows) ≡ true
rename-has_row id p n old [] h = ground arith
rename-has_row id p n old (b ∷ rows) h =
    ground (arith, text_eq_refl n, rename-has_row id p n old rows)

-- A statement that may fail.
either-has_row :
    (failed : Bool) (id : ℕ) (p n : Text) (t t' : Tables)
    → has_row id p n t.accounts ≡ true
    → has_row id p n t'.accounts ≡ true
    → has_row id p n (if failed then t else t').accounts ≡ true
either-has_row true id p n t t' h h' = h
either-has_row false id p n t t' h h' = h'

undeleted-IsOfTable :
    (p n : Text) (a : ProviderAccount) (s : Store) (failed : Bool)
    → a.provider ≡ p
    → a.name ≡ n
    → has_row a.id p n s.tables.accounts ≡ true
    → IsOfTable p n (undeleted (s, failed) a)
undeleted-IsOfTable p n a s true provider name row = (provider, name, row)
undeleted-IsOfTable p n a s false provider name row = (provider, name, row)

undelete_found-IsOfTable :
    (p n : Text) (a : ProviderAccount) (s : Store)
    → a.provider ≡ p
    → a.name ≡ n
    → has_row a.id p n s.tables.accounts ≡ true
    → IsOfTable p n (undelete_found a s)
unfolding undelete_found undelete_provider_account exec
undelete_found-IsOfTable p n a s provider name row = elim (Bool-cases (is_deleted a)) [
  | inr e ↦ rw e (provider, name, row)
  | inl e ↦ rw e (
      undeleted-IsOfTable p n a (undelete_provider_account a.provider a.name s).0
        (next_fault s.faults) provider name
        (either-has_row (next_fault s.faults) a.id p n s.tables _ row
          (update-has_row a.id p n _ _ s.tables.accounts (λ b. refl) row)))
]

insert_account-IsOfTable :
    (now : Time) (p n : Text) (s : Store) → IsOfTable p n (insert_account now p n s)
unfolding insert_account exec
insert_account-IsOfTable now p n s =
    split (is_some (first_where (has_name p n) s.tables.accounts)) (next_fault s.faults)
  where
    split :
        (there failed : Bool)
        → IsOfTable p n (
            if there then (record s { faults = later_faults s.faults }, none) else (
              record {
                tables = if failed then s.tables else insert_row now p n s.tables;
                faults = later_faults s.faults;
              },
              if failed then none else some (new_account s.tables.next_id now p n),
            ))
    split true failed = tt
    split false true = tt
    split false false = (refl, refl, added-has_row s.tables.next_id now p n s.tables.accounts)

renamed-IsOfTable :
    (p n : Text) (d : ProviderAccount) (r : Store × Bool)
    → d.provider ≡ p
    → (r.1 ≡ false → has_row d.id p n r.0.tables.accounts ≡ true)
    → IsOfTable p n (renamed r n d)
renamed-IsOfTable p n d (s, true) provider row = tt
renamed-IsOfTable p n d (s, false) provider row = (provider, refl, row refl)

rename_provider_account-has_row :
    (p n old : Text) (id : ℕ) (s : Store)
    → has_row id p old s.tables.accounts ≡ true
    → (rename_provider_account id n s).1 ≡ false
    → has_row id p n (rename_provider_account id n s).0.tables.accounts ≡ true
unfolding rename_provider_account exec
rename_provider_account-has_row p n old id s row =
    split (is_taken id n s.tables.accounts (first_where (has_id id) s.tables.accounts))
      (next_fault s.faults)
  where
    split :
        (there failed : Bool)
        → let r : Store × Bool =
            if there then (record s { faults = later_faults s.faults }, true) else (
              record {
                tables =
                    if failed
                    then s.tables
                    else record s.tables { accounts = rename_row id n s.tables.accounts };
                faults = later_faults s.faults;
              },
              failed,
            ) in
          r.1 ≡ false → has_row id p n r.0.tables.accounts ≡ true
    split true failed h = ground arith
    split false true h = ground arith
    split false false h = rename-has_row id p n old s.tables.accounts row

rename_only-IsOfTable :
    (now : Time) (p n old : Text) (d : ProviderAccount) (count : Option ℕ) (s : Store)
    → d.provider ≡ p
    → has_row d.id p old s.tables.accounts ≡ true
    → IsOfTable p n (rename_only now p n d count s)
unfolding rename_only
rename_only-IsOfTable now p n old d count s provider row =
    elim (Bool-cases (zero_if_none count == 1)) [
      | inl e ↦ rw e (
          renamed-IsOfTable p n d (rename_provider_account d.id n s) provider
            (rename_provider_account-has_row p n old d.id s row))
      | inr e ↦ rw e (insert_account-IsOfTable now p n s)
    ]

-- What a query of the rows found.
abbrev Reads : {A : Type 0} → Option A → A → Type 0
Reads none x = Unit
Reads (some y) x = x ≡ y

reads : {A : Type 0} (failed : Bool) (x : A) → Reads (if failed then none else some x) x
reads true x = tt
reads false x = refl

rename_or_insert-IsOfTable :
    (now : Time) (p n : Text) (o : Option (Option ProviderAccount)) (s : Store)
    → Reads o (first_where (has_name p (codes "default")) s.tables.accounts)
    → IsOfTable p n (rename_or_insert now p n o s)
unfolding rename_or_insert query
rename_or_insert-IsOfTable now p n none s h = insert_account-IsOfTable now p n s
rename_or_insert-IsOfTable now p n (some none) s h = insert_account-IsOfTable now p n s
rename_or_insert-IsOfTable now p n (some (some d)) s h =
    let there = first_where-IsFound p (codes "default") s.tables.accounts d h in
    rename_only-IsOfTable now p n (codes "default") d _ _ there.provider there.row

create_account-IsOfTable :
    (now : Time) (p n : Text) (s : Store) → IsOfTable p n (create_account now p n s)
unfolding create_account query
create_account-IsOfTable now p n s = elim (Bool-cases (text_eq n (codes "default"))) [
  | inl e ↦ rw e (insert_account-IsOfTable now p n s)
  | inr e ↦ rw e (
      rename_or_insert-IsOfTable now p n _ (record s { faults = later_faults s.faults })
        (reads (next_fault s.faults) _))
]

found_by_name-IsOfTable :
    (now : Time) (p n : Text) (o : Option (Option ProviderAccount)) (s : Store)
    → Reads o (first_where (has_name p n) s.tables.accounts)
    → IsOfTable p n (found_by_name now p n o s)
unfolding found_by_name
found_by_name-IsOfTable now p n none s h = tt
found_by_name-IsOfTable now p n (some none) s h = create_account-IsOfTable now p n s
found_by_name-IsOfTable now p n (some (some a)) s h =
    let there = first_where-IsFound p n s.tables.accounts a h in
    undelete_found-IsOfTable p n (record a { external_id = [] }) s there.provider there.name
      there.row

-- Whatever statements fail: if `GetOrCreateProviderAccount` returns an account, found, undeleted,
-- renamed from the default one or new, it has the provider and the name asked for, and the table has
-- a row with its id, that provider and that name.
pub get_or_create_provider_account-IsOfTable :
    (now : Time) (p n : Text) (s : Store) → IsOfTable p n (get_or_create_provider_account now p n s)
unfolding get_or_create_provider_account query
get_or_create_provider_account-IsOfTable now p n s =
    found_by_name-IsOfTable now p n _ (record s { faults = later_faults s.faults })
      (reads (next_fault s.faults) _)
