-- ===== src/Database/Accounts/Valid.antt =====
-- The keys of the accounts stay keys.
use one_auth_watch.Prelude.{
  ℕ, ◌+◌, ◌≤◌, inl, inr, ◌≡◌, refl, ap, sym, ◌∙◌, Bool, false, ◌&&◌, Option, none, some, List, [],
  ◌∷◌, arith, ◌==◌, count_if, count_if-append, Bool-cases,
}
use one_auth_watch.Prelude.Clock.{Time}
use one_auth_watch.Prelude.Text.{Text, text_eq, text_eq_iff}
use one_auth_watch.Prelude.Maps.{is_some}
use one_auth_watch.Database.Fault.{next_fault, update_where, first_where}
use one_auth_watch.Database.Counting.{count-update_same, count-first_none}
use one_auth_watch.Database.Accounts.{
  ProviderAccount, Tables, Store, exec, with_accounts, has_name, has_id, taken, is_taken,
  rename_row, rename_provider_account, new_account, insert_row, insert_account,
}

-- No id twice, no name twice within a provider, and the ids that come next are free.
pub record IsValid (t : Tables) : Type 0 where
  pub ids : (i : ℕ) → count_if (has_id i) t.accounts ≤ 1
  pub names : (p n : Text) → count_if (has_name p n) t.accounts ≤ 1
  pub fresh : (i : ℕ) → t.next_id ≤ i → count_if (has_id i) t.accounts ≡ 0

-- A change of the other columns.
pub update-IsValid :
    (p : ProviderAccount → Bool) (change : ProviderAccount → ProviderAccount) (t : Tables)
    → ((a : ProviderAccount)
        → ((change a).id ≡ a.id) × ((change a).provider ≡ a.provider) × ((change a).name ≡ a.name))
    → IsValid t
    → IsValid (with_accounts (update_where p change) t)
update-IsValid p change t same h = record {
  ids = λ i. ground (
    arith,
    h.ids i,
    count-update_same p (has_id i) change t.accounts (λ a. ap (λ x. x == i) (same a).0),
  );
  names = λ q n. ground (
    arith,
    h.names q n,
    count-update_same p (has_name q n) change t.accounts (λ a. same_name a q n),
  );
  fresh = λ i next. ground (
    arith,
    h.fresh i next,
    count-update_same p (has_id i) change t.accounts (λ a. ap (λ x. x == i) (same a).0),
  );
}
  where
    same_name : (a : ProviderAccount) (q n : Text) → has_name q n (change a) ≡ has_name q n a
    same_name a q n =
        ap (λ x. text_eq x q && text_eq (change a).name n) (same a).1
        ∙ ap (λ x. text_eq a.provider q && text_eq x n) (same a).2

-- A new row.
insert-IsValid :
    (now : Time) (p n : Text) (t : Tables)
    → count_if (has_name p n) t.accounts ≡ 0
    → IsValid t
    → IsValid (insert_row now p n t)
insert-IsValid now p n t new h =
    let row = new_account t.next_id now p n in
    record {
      ids =
          λ i. ground (arith, h.ids i, h.fresh i, count_if-append (has_id i) t.accounts (row ∷ []));
      names = λ q m. elim (Bool-cases (text_eq p q && text_eq n m)) [
        | inl e ↦
            let none_yet : count_if (has_name q m) t.accounts ≡ 0 =
              ap (λ x. count_if (has_name x m) t.accounts)
                (sym ((text_eq_iff p q).0 (ground arith)))
              ∙ ap (λ x. count_if (has_name p x) t.accounts)
                  (sym ((text_eq_iff n m).0 (ground arith)))
              ∙ new in
            ground (arith, count_if-append (has_name q m) t.accounts (row ∷ []))
        | inr e ↦ ground (arith, h.names q m, count_if-append (has_name q m) t.accounts (row ∷ []))
      ];
      fresh = λ i next.
          ground
            (arith, h.fresh i (ground arith), count_if-append (has_id i) t.accounts (row ∷ []));
    }

-- A new name of a row, with the rows that had it and the row itself.
renamed-le :
    (id : ℕ) (name p n : Text) (rows : List ProviderAccount)
    → count_if (has_name p n) (rename_row id name rows)
      ≤ count_if (taken p id n) rows
        + count_if (λ a. has_id id a && (text_eq a.provider p && text_eq name n)) rows
renamed-le id name p n [] = omega arith
renamed-le id name p n (a ∷ rows) = ground (arith, renamed-le id name p n rows)

count-taken-le :
    (p n : Text) (id : ℕ) (rows : List ProviderAccount)
    → count_if (taken p id n) rows ≤ count_if (has_name p n) rows
count-taken-le p n id [] = omega arith
count-taken-le p n id (a ∷ rows) = ground (arith, count-taken-le p n id rows)

other_name :
    (id : ℕ) (name p n : Text) (rows : List ProviderAccount)
    → text_eq name n ≡ false
    → count_if (λ a. has_id id a && (text_eq a.provider p && text_eq name n)) rows ≡ 0
other_name id name p n [] other = refl
other_name id name p n (a ∷ rows) other = ground (arith, other, other_name id name p n rows other)

within_id :
    (id : ℕ) (name p n : Text) (rows : List ProviderAccount)
    → count_if (λ a. has_id id a && (text_eq a.provider p && text_eq name n)) rows
      ≤ count_if (has_id id) rows
within_id id name p n [] = omega arith
within_id id name p n (a ∷ rows) = ground (arith, within_id id name p n rows)

-- The row of an id is the only one, so that another provider has none.
other_provider :
    (id : ℕ) (name p n : Text) (a : ProviderAccount) (rows : List ProviderAccount)
    → first_where (has_id id) rows ≡ some a
    → count_if (has_id id) rows ≤ 1
    → text_eq a.provider p ≡ false
    → count_if (λ b. has_id id b && (text_eq b.provider p && text_eq name n)) rows ≡ 0
other_provider id name p n a [] first one other = ground arith
other_provider id name p n a (b ∷ rows) first one other = elim (Bool-cases (has_id id b)) [
  | inl e ↦
      let same : b ≡ a = ground arith in
      let elsewhere : text_eq b.provider p ≡ false = ap (λ x. text_eq x.provider p) same ∙ other in
      ground (arith, within_id id name p n rows)
  | inr e ↦ ground (arith, other_provider id name p n a rows)
]

none_of : {A : Type 0} (o : Option A) → is_some o ≡ false → o ≡ none
none_of none e = refl
none_of (some a) e = ground arith

module _ (id : ℕ) (name : Text) (t : Tables) (h : IsValid t) where
  names_after :
      (o : Option ProviderAccount)
      → first_where (has_id id) t.accounts ≡ o
      → is_taken id name t.accounts o ≡ false
      → (p n : Text) → count_if (has_name p n) (rename_row id name t.accounts) ≤ 1
  names_after none first free p n =
      let nowhere : count_if (has_id id) t.accounts ≡ 0 =
        count-first_none (has_id id) (has_id id) t.accounts (λ a. refl) first in
      ground (
        arith,
        h.names p n,
        renamed-le id name p n t.accounts,
        within_id id name p n t.accounts,
        count-taken-le p n id t.accounts,
      )
  names_after (some a) first free p n = elim (Bool-cases (text_eq name n)) [
    | inr other ↦ ground (
      arith,
      h.names p n,
      renamed-le id name p n t.accounts,
      other_name id name p n t.accounts other,
      count-taken-le p n id t.accounts,
    )
    | inl e ↦ elim (Bool-cases (text_eq a.provider p)) [
      | inr other ↦ ground (
        arith,
        h.names p n,
        renamed-le id name p n t.accounts,
        other_provider id name p n a t.accounts first (h.ids id) other,
        count-taken-le p n id t.accounts,
      )
      | inl s ↦
          let untaken : count_if (taken a.provider id name) t.accounts ≡ 0 =
            count-first_none (taken a.provider id name) (taken a.provider id name) t.accounts
              (λ b. refl) (none_of _ free) in
          let free_name : count_if (taken p id n) t.accounts ≡ 0 =
            ap (λ x. count_if (taken x id n) t.accounts) (sym ((text_eq_iff a.provider p).0 s))
            ∙ ap (λ x. count_if (taken a.provider id x) t.accounts) (sym ((text_eq_iff name n).0 e))
            ∙ untaken in
          ground
            (arith, h.ids id, renamed-le id name p n t.accounts, within_id id name p n t.accounts)
    ]
  ]

  rename-IsValid :
      is_taken id name t.accounts (first_where (has_id id) t.accounts) ≡ false
      → IsValid (with_accounts (rename_row id name) t)
  rename-IsValid free = record {
    ids = λ i. ground (
      arith,
      h.ids i,
      count-update_same (has_id id) (has_id i) (λ a. record a { name = name }) t.accounts
          (λ a. refl),
    );
    names = names_after (first_where (has_id id) t.accounts) refl free;
    fresh = λ i next. ground (
      arith,
      h.fresh i next,
      count-update_same (has_id id) (has_id i) (λ a. record a { name = name }) t.accounts
          (λ a. refl),
    );
  }

-- The statements.
pub exec-IsValid :
    (change : Tables → Tables) (s : Store)
    → (IsValid s.tables → IsValid (change s.tables))
    → IsValid s.tables
    → IsValid (exec change s).0.tables
unfolding exec
exec-IsValid change s kept h = elim (Bool-cases (next_fault s.faults)) [
  | inl e ↦ rw e h
  | inr e ↦ rw e (kept h)
]

pub rename_account-IsValid :
    (id : ℕ) (name : Text) (s : Store)
    → IsValid s.tables
    → IsValid (rename_provider_account id name s).0.tables
unfolding rename_provider_account
rename_account-IsValid id name s h =
    elim (Bool-cases
      (is_taken id name s.tables.accounts (first_where (has_id id) s.tables.accounts))) [
        | inl e ↦ rw e h
        | inr e ↦ rw e (
            exec-IsValid (with_accounts (rename_row id name)) s
              (λ v. rename-IsValid id name s.tables v e) h)
      ]

pub insert_account-IsValid :
    (now : Time) (p n : Text) (s : Store)
    → IsValid s.tables
    → IsValid (insert_account now p n s).0.tables
unfolding insert_account
insert_account-IsValid now p n s h =
    elim (Bool-cases (is_some (first_where (has_name p n) s.tables.accounts))) [
      | inl e ↦ rw e h
      | inr e ↦ rw e (
          exec-IsValid (insert_row now p n) s
            (insert-IsValid now p n s.tables (
              count-first_none (has_name p n) (has_name p n) s.tables.accounts (λ b. refl)
                (none_of _ e)))
            h)
    ]
