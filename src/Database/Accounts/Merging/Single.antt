-- ===== src/Database/Accounts/Merging/Single.antt =====
-- A deduplication leaves at most one active account of an identifier.
use one_auth_watch.Prelude.{
  ℕ, ◌≤◌, ◌<◌, inl, inr, ◌≡◌, refl, ap, sym, ◌∙◌, Bool, true, false, not, ◌&&◌, none, some, List,
  [], ◌∷◌, arith, ltb, leb, ◌==◌, keep, count_if, All, Bool-cases, cons_if, length, if◌then◌else◌,
}
use native.Mathlib.Nat.{le_trans}
use mathlib.Core.Path.{subst}
use one_auth_watch.Prelude.Clock.{Time}
use one_auth_watch.Prelude.Text.{Text, text_eq_iff}
use one_auth_watch.Database.Fault.{update_where, next_fault, later_faults}
use one_auth_watch.Database.Counting.{count-update_same, count-update_le}
use one_auth_watch.Database.Accounts.{
  ProviderAccount, Store, query, of_provider, has_external, has_id, is_deleted,
}
use one_auth_watch.Database.Accounts.Merging.{
  choose_target, duplicate_ids, Merged, next_group, is_blank, merge_group,
  query_provider_accounts_by_external_id, merge_groups, merge_found, deduplicate_provider_accounts,
}
use one_auth_watch.Database.Accounts.Merging.Sources.{
  is_source, delete_sources, merge_into-accounts,
}

-- No id twice.
abbrev pub DistinctIds : List ProviderAccount → Type 0
DistinctIds rows = (i : ℕ) → count_if (has_id i) rows ≤ 1

abbrev pub active : Text → Text → ProviderAccount → Bool
active provider e a = has_external provider e a && not (is_deleted a)

abbrev pub active_accounts : Text → Text → List ProviderAccount → ℕ
active_accounts provider e rows = count_if (active provider e) rows

-- Rows that pass a test after a change, against rows that pass another one before it.
count-le :
    (p q r : ProviderAccount → Bool) (change : ProviderAccount → ProviderAccount)
    (rows : List ProviderAccount)
    → All (λ a. r (if p a then change a else a) ≡ true → q a ≡ true) rows
    → count_if r (update_where p change rows) ≤ count_if q rows
count-le p q r change [] h = omega arith
count-le p q r change (a ∷ rows) (first, rest) =
    ground (arith, first, count-le p q r change rows rest)

module _ (now : Time) (target : ℕ) (provider e : Text) where
  -- A row of the group that is active after the merges is the target.
  only_target :
      (listed : ℕ → Bool) (rows : List ProviderAccount)
      → ((i : ℕ)
          → is_source now target i (keep (has_external provider e) rows) ≡ true
          → listed i ≡ true)
      → All
          (λ a.
            active provider e (if listed a.id then record a { deleted_at = some now } else a) ≡ true
            → has_id target a ≡ true)
          rows
  only_target listed [] h = tt
  only_target listed (a ∷ rows) h = (
    λ stays. elim (Bool-cases (has_external provider e a)) [
      | inl t ↦ elim (Bool-cases (a.id == target)) [
        | inl s ↦ s
        | inr s ↦
            let source : listed a.id ≡ true = h a.id (rw t (ground (arith, s))) in
            ground (arith, source)
      ]
      | inr f ↦ ground (arith, f)
    ],
    only_target listed rows (λ i m. h i (kept_source (has_external provider e a) i a _ m)),
  )
    where
      kept_source :
          (b : Bool) (i : ℕ) (a : ProviderAccount) (accounts : List ProviderAccount)
          → is_source now target i accounts ≡ true
          → is_source now target i (cons_if b a accounts) ≡ true
      kept_source true i a accounts m = ground (arith, m)
      kept_source false i a accounts m = m

  group_single :
      (rows : List ProviderAccount)
      → DistinctIds rows
      → active_accounts provider e
          (delete_sources now target (keep (has_external provider e) rows) rows)
        ≤ 1
  group_single rows distinct =
      let listed : ℕ → Bool = λ i. is_source now target i (keep (has_external provider e) rows) in
      le_trans
        (count-le (λ a. listed a.id) (has_id target) (active provider e)
          (λ a. record a { deleted_at = some now }) rows (only_target listed rows (λ i m. m)))
        (distinct target)

-- Deleting rows keeps the ids and makes no row active.
deleted-DistinctIds :
    (now : Time) (target : ℕ) (accounts rows : List ProviderAccount)
    → DistinctIds rows
    → DistinctIds (delete_sources now target accounts rows)
deleted-DistinctIds now target accounts rows distinct i = ground (
  arith,
  distinct i,
  count-update_same (λ a. is_source now target a.id accounts) (has_id i)
      (λ a. record a { deleted_at = some now }) rows (λ a. refl),
)

deleted-active :
    (now : Time) (target : ℕ) (accounts rows : List ProviderAccount) (provider e : Text)
    → active_accounts provider e (delete_sources now target accounts rows)
      ≤ active_accounts provider e rows
deleted-active now target accounts rows provider e =
    count-update_le (λ a. is_source now target a.id accounts) (active provider e)
      (λ a. record a { deleted_at = some now }) rows (λ a. ground arith)

active-keep :
    (provider e : Text) (rows : List ProviderAccount)
    → active_accounts provider e rows ≤ length (keep (has_external provider e) rows)
active-keep provider e [] = omega arith
active-keep provider e (a ∷ rows) = ground (arith, active-keep provider e rows)

-- From `rows` to `rows'` the ids stay distinct and nothing becomes active.
record Reduces (rows rows' : List ProviderAccount) : Type 0 where
  ids : DistinctIds rows'
  fewer : (provider e : Text) → active_accounts provider e rows' ≤ active_accounts provider e rows

same-Reduces : (rows : List ProviderAccount) → DistinctIds rows → Reduces rows rows
same-Reduces rows distinct = record { ids = distinct; fewer = λ provider e. omega arith }

then-Reduces : (a b c : List ProviderAccount) → Reduces a b → Reduces b c → Reduces a c
then-Reduces a b c first second = record {
  ids = second.ids;
  fewer = λ provider e. le_trans (second.fewer provider e) (first.fewer provider e);
}

module _ (now : Time) (provider : Text) where
  abbrev accounts_of : Merged → List ProviderAccount
  accounts_of m = m.store.tables.accounts

  group-Reduces :
      (e : Text) (accounts : List ProviderAccount) (n : ℕ) (s : Store)
      → keep (has_external provider e) s.tables.accounts ≡ accounts
      → DistinctIds s.tables.accounts
      → (merge_group now (some accounts) n s).failed ≡ false
      → Reduces s.tables.accounts (accounts_of (merge_group now (some accounts) n s))
        × (active_accounts provider e (accounts_of (merge_group now (some accounts) n s)) ≤ 1)
  unfolding merge_group
  group-Reduces e [] n s group distinct ok = (
    same-Reduces s.tables.accounts distinct,
    ground (arith, active-keep provider e s.tables.accounts, group),
  )
  group-Reduces e (a ∷ []) n s group distinct ok = (
    same-Reduces s.tables.accounts distinct,
    ground (arith, active-keep provider e s.tables.accounts, group),
  )
  group-Reduces e (a ∷ b ∷ rest) n s group distinct ok =
      let target = (choose_target a (b ∷ rest)).id in
      let all = a ∷ b ∷ rest in
      let result = merge_into-accounts now target all n s ok in
      (
        record {
          ids =
              subst DistinctIds (sym result)
                (deleted-DistinctIds now target all s.tables.accounts distinct);
          fewer = λ p i.
              subst (λ rows. active_accounts p i rows ≤ active_accounts p i s.tables.accounts)
                (sym result) (deleted-active now target all s.tables.accounts p i);
        },
        subst (λ rows. active_accounts provider e rows ≤ 1)
            (ap (λ g. delete_sources now target g s.tables.accounts) group ∙ sym result)
            (group_single now target provider e s.tables.accounts distinct),
      )

  -- After a group comes the next, unless there was an error.
  next-failed :
      (m : Merged) (rest : ℕ → Store → Merged)
      → (next_group m rest).failed ≡ false
      → (m.failed ≡ false) × ((next_group m rest) ≡ rest m.merged m.store)
  next-failed m rest ok = elim (Bool-cases m.failed) [
    | inl e ↦ ground arith
    | inr e ↦ (e, ground (arith, e))
  ]

  queried :
      (b : Bool) (read : List ProviderAccount) (n : ℕ) (s : Store)
      → (merge_group now (if b then none else some read) n s).failed ≡ false
      → (if b then none else some read) ≡ some read
  unfolding merge_group
  queried true read n s ok = ground arith
  queried false read n s ok = refl

  groups-Reduces :
      (ids : List Text) (n : ℕ) (s : Store)
      → DistinctIds s.tables.accounts
      → (merge_groups now provider ids n s).failed ≡ false
      → Reduces s.tables.accounts (accounts_of (merge_groups now provider ids n s))
        × All
            (λ e. active_accounts provider e (accounts_of (merge_groups now provider ids n s)) ≤ 1)
            ids
  unfolding merge_groups query_provider_accounts_by_external_id query
  groups-Reduces [] n s distinct ok = (same-Reduces s.tables.accounts distinct, tt)
  groups-Reduces (e ∷ ids) n s distinct ok =
      let s' : Store = record s { faults = later_faults s.faults } in
      let group = keep (has_external provider e) s.tables.accounts in
      let answer = if next_fault s.faults then none else some group in
      let m = merge_group now answer n s' in
      let (done, next) = next-failed m (merge_groups now provider ids) ok in
      let there : answer ≡ some group = queried (next_fault s.faults) group n s' done in
      let good = ap (λ o. merge_group now o n s') there in
      let (first, one) =
        group-Reduces e group n s' refl distinct (ap (λ x. x.failed) (sym good) ∙ done) in
      let reduced : Reduces s.tables.accounts (accounts_of m) =
        subst (λ x. Reduces s.tables.accounts (accounts_of x)) (sym good) first in
      let single : active_accounts provider e (accounts_of m) ≤ 1 =
        subst (λ x. active_accounts provider e (accounts_of x) ≤ 1) (sym good) one in
      let (later, rest) =
        groups-Reduces ids m.merged m.store reduced.ids (ap (λ x. x.failed) (sym next) ∙ ok) in
      subst
        (λ x.
          Reduces s.tables.accounts (accounts_of x)
          × All (λ i. active_accounts provider i (accounts_of x) ≤ 1) (e ∷ ids))
        (sym next)
        (
          then-Reduces s.tables.accounts (accounts_of m)
              (accounts_of (merge_groups now provider ids m.merged m.store)) reduced later,
          (le_trans (later.fewer provider e) single, rest),
        )

All-if :
    (P : Text → Type 0) (b : Bool) (x : Text) (xs : List Text)
    → All P (if b then x ∷ xs else xs)
    → All P xs
All-if P true x xs (first, rest) = rest
All-if P false x xs h = h

first-if :
    (P : Text → Type 0) (b : Bool) (x : Text) (xs : List Text)
    → b ≡ true
    → All P (if b then x ∷ xs else xs)
    → P x
first-if P true x xs e (first, rest) = first
first-if P false x xs e h = ground arith

-- An identifier that two rows have is among the duplicates.
listed :
    (provider e : Text) (all rows : List ProviderAccount) (P : Text → Type 0)
    → is_blank e ≡ false
    → 1 < count_if (has_external provider e) all
    → 0 < count_if (has_external provider e) rows
    → All P (duplicate_ids provider all rows)
    → P e
unfolding duplicate_ids
listed provider e all [] P named many some_row h = ground arith
listed provider e all (a ∷ rows) P named many some_row h =
    elim (Bool-cases (leb (count_if (has_external provider e) rows) 0)) [
      | inr later ↦
          listed provider e all rows P named many (ground arith)
            (All-if P _ a.external_id (duplicate_ids provider all rows) h)
      | inl last ↦
          let here : has_external provider e a ≡ true = ground arith in
          let same : a.external_id ≡ e = (text_eq_iff a.external_id e).0 (ground arith) in
          let taken : (of_provider provider a
                && not (is_blank a.external_id)
                && ltb 1 (count_if (has_external provider a.external_id) all)
                && leb (count_if (has_external provider a.external_id) rows) 0)
              ≡ true =
            subst
              (λ x.
                (of_provider provider a
                  && not (is_blank x)
                  && ltb 1 (count_if (has_external provider x) all)
                  && leb (count_if (has_external provider x) rows) 0)
                ≡ true)
              (sym same) (ground arith) in
          subst P same (first-if P _ a.external_id (duplicate_ids provider all rows) taken h)
    ]

active-external :
    (provider e : Text) (rows : List ProviderAccount)
    → active_accounts provider e rows ≤ count_if (has_external provider e) rows
active-external provider e [] = omega arith
active-external provider e (a ∷ rows) = ground (arith, active-external provider e rows)

found-Single :
    (now : Time) (provider e : Text) (b : Bool) (s : Store)
    → DistinctIds s.tables.accounts
    → is_blank e ≡ false
    → (merge_found now provider
        (if b then none else some (duplicate_ids provider s.tables.accounts s.tables.accounts))
        s).failed
      ≡ false
    → active_accounts provider e (
        accounts_of now provider (
          merge_found now provider
            (if b then none else some (duplicate_ids provider s.tables.accounts s.tables.accounts))
            s))
      ≤ 1
unfolding merge_found
found-Single now provider e true s distinct named ok = ground arith
found-Single now provider e false s distinct named ok =
    let rows = s.tables.accounts in
    let ids = duplicate_ids provider rows rows in
    let (reduced, single) = groups-Reduces now provider ids 0 s distinct ok in
    elim (Bool-cases (ltb 1 (count_if (has_external provider e) rows))) [
      | inl many ↦
          listed provider e rows rows
            (λ i.
              active_accounts provider i
                (accounts_of now provider (merge_groups now provider ids 0 s))
              ≤ 1)
            named (ground arith) (ground arith) single
      | inr few ↦ ground (arith, reduced.fewer provider e, active-external provider e rows)
    ]

-- Where no id is there twice, a deduplication that reports no error leaves at most one active account
-- of a provider with an identifier that is not empty, whatever the accounts were before.
pub deduplicate-single :
    (now : Time) (provider e : Text) (s : Store)
    → DistinctIds s.tables.accounts
    → is_blank e ≡ false
    → (deduplicate_provider_accounts now provider s).failed ≡ false
    → active_accounts provider e
        (deduplicate_provider_accounts now provider s).store.tables.accounts
      ≤ 1
unfolding deduplicate_provider_accounts query
deduplicate-single now provider e s distinct named ok =
    found-Single now provider e (next_fault s.faults) (record s { faults = later_faults s.faults })
      distinct named ok
