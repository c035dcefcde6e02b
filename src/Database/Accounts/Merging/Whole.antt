-- ===== src/Database/Accounts/Merging/Whole.antt =====
-- A merge moves all of the data of an account, or none.
use one_auth_watch.Prelude.{
  ℕ, ◌+◌, inl, inr, ◌≡◌, refl, ap, ◌∙◌, ◌⊎◌, Bool, true, false, not, ◌&&◌, some, List, [], ◌∷◌,
  arith, ◌==◌, count_if, map, Bool-cases, if◌then◌else◌,
}
use one_auth_watch.Prelude.Clock.{Time}
use one_auth_watch.Database.Fault.{update_where}
use one_auth_watch.Database.Transaction.{transact, apply_all, Whole, transact-Whole}
use one_auth_watch.Database.CodexCycles.{CodexResetCycle}
use one_auth_watch.Database.CodexSnapshots.{CodexSnapshot}
use one_auth_watch.Database.Counting.{count-update_none}
use one_auth_watch.Database.Accounts.{ProviderAccount, Tables, Store, has_id, is_deleted}
use one_auth_watch.Database.Accounts.Merging.{merge_changes, as_store, merge_codex_account_data}

-- How many rows an account has.
module _ {Row : Type 0} (account_of : Row → ℕ) (moved : Row → Row) (target source : ℕ)
    (to_target : (r : Row) → account_of (moved r) ≡ target) where
  abbrev rows_of : ℕ → List Row → ℕ
  rows_of i rows = count_if (λ r. account_of r == i) rows

  abbrev move : List Row → List Row
  move rows = update_where (λ r. account_of r == source) moved rows

  none_left : (rows : List Row) → (target == source) ≡ false → rows_of source (move rows) ≡ 0
  none_left rows other =
      count-update_none (λ r. account_of r == source) (λ r. account_of r == source) moved rows
        (λ r. ap (λ i. i == source) (to_target r) ∙ other) (λ r. refl)

  all_there :
      (rows : List Row)
      → (target == source) ≡ false
      → rows_of target (move rows) ≡ rows_of target rows + rows_of source rows
  all_there [] other = refl
  all_there (r ∷ rows) other = ground (arith, to_target r, all_there rows other)

  others_stay :
      (i : ℕ) (rows : List Row)
      → (i == target) ≡ false
      → (i == source) ≡ false
      → rows_of i (move rows) ≡ rows_of i rows
  others_stay i [] not_target not_source = refl
  others_stay i (r ∷ rows) not_target not_source =
      ground (arith, to_target r, others_stay i rows not_target not_source)

abbrev pub snapshots_of : ℕ → Tables → ℕ
snapshots_of i t = count_if (λ r. r.account_id == i) t.snapshots

abbrev pub cycles_of : ℕ → Tables → ℕ
cycles_of i t = count_if (λ r. r.account_id == i) t.cycles

-- The account of a row after a merge.
abbrev pub new_account : ℕ → ℕ → ℕ → ℕ
new_account target source i = if i == source then target else i

abbrev pub snapshot_after : ℕ → ℕ → CodexSnapshot → CodexSnapshot
snapshot_after target source r = record r { account_id = new_account target source r.account_id }

abbrev pub cycle_after : ℕ → ℕ → CodexResetCycle → CodexResetCycle
cycle_after target source r = record r { account_id = new_account target source r.account_id }

abbrev pub account_after : Time → ℕ → ProviderAccount → ProviderAccount
account_after now source a = record a {
  deleted_at = if a.id == source then some now else a.deleted_at;
}

-- The tables `t'` are those of `t` after a merge: row by row, and in numbers.
pub record IsMerged (now : Time) (target source : ℕ) (t t' : Tables) : Type 0 where
  pub snapshot_rows : t'.snapshots ≡ map (snapshot_after target source) t.snapshots
  pub cycle_rows : t'.cycles ≡ map (cycle_after target source) t.cycles
  pub account_rows : t'.accounts ≡ map (account_after now source) t.accounts
  pub same_id : t'.next_id ≡ t.next_id
  pub no_snapshots : snapshots_of source t' ≡ 0
  pub all_snapshots : snapshots_of target t' ≡ snapshots_of target t + snapshots_of source t
  pub no_cycles : cycles_of source t' ≡ 0
  pub all_cycles : cycles_of target t' ≡ cycles_of target t + cycles_of source t
  pub others :
      (i : ℕ)
      → (i == target) ≡ false
      → (i == source) ≡ false
      → (snapshots_of i t' ≡ snapshots_of i t) × (cycles_of i t' ≡ cycles_of i t)
  pub deleted : count_if (λ a. has_id source a && not (is_deleted a)) t'.accounts ≡ 0

moved_snapshots :
    (target source : ℕ) (rows : List CodexSnapshot)
    → update_where (λ r. r.account_id == source) (λ r. record r { account_id = target }) rows
      ≡ map (snapshot_after target source) rows
moved_snapshots target source [] = refl
moved_snapshots target source (r ∷ rows) = elim (Bool-cases (r.account_id == source)) [
  | inl e ↦ rw (e, moved_snapshots target source rows) refl
  | inr e ↦ rw (e, moved_snapshots target source rows) refl
]

moved_cycles :
    (target source : ℕ) (rows : List CodexResetCycle)
    → update_where (λ r. r.account_id == source) (λ r. record r { account_id = target }) rows
      ≡ map (cycle_after target source) rows
moved_cycles target source [] = refl
moved_cycles target source (r ∷ rows) = elim (Bool-cases (r.account_id == source)) [
  | inl e ↦ rw (e, moved_cycles target source rows) refl
  | inr e ↦ rw (e, moved_cycles target source rows) refl
]

marked_accounts :
    (now : Time) (source : ℕ) (rows : List ProviderAccount)
    → update_where (has_id source) (λ a. record a { deleted_at = some now }) rows
      ≡ map (account_after now source) rows
marked_accounts now source [] = refl
marked_accounts now source (a ∷ rows) = elim (Bool-cases (a.id == source)) [
  | inl e ↦ rw (e, marked_accounts now source rows) refl
  | inr e ↦ rw (e, marked_accounts now source rows) refl
]

count_deleted :
    (now : Time) (source : ℕ) (rows : List ProviderAccount)
    → count_if
        (λ a. has_id source a && not (is_deleted a))
        (update_where (has_id source) (λ a. record a { deleted_at = some now }) rows)
      ≡ 0
count_deleted now source [] = refl
count_deleted now source (a ∷ rows) = ground (arith, count_deleted now source rows)

apply_all-IsMerged :
    (now : Time) (target source : ℕ) (t : Tables)
    → (target == source) ≡ false
    → IsMerged now target source t (apply_all (merge_changes now target source) t)
apply_all-IsMerged now target source t other = record {
  snapshot_rows = moved_snapshots target source t.snapshots;
  cycle_rows = moved_cycles target source t.cycles;
  account_rows = marked_accounts now source t.accounts;
  same_id = refl;
  no_snapshots = none_left (λ r. r.account_id) _ target source (λ r. refl) t.snapshots other;
  all_snapshots = all_there (λ r. r.account_id) _ target source (λ r. refl) t.snapshots other;
  no_cycles = none_left (λ r. r.account_id) _ target source (λ r. refl) t.cycles other;
  all_cycles = all_there (λ r. r.account_id) _ target source (λ r. refl) t.cycles other;
  others = λ i not_target not_source. (
    others_stay (λ r. r.account_id) _ target source (λ r. refl) i t.snapshots not_target not_source,
    others_stay (λ r. r.account_id) _ target source (λ r. refl) i t.cycles not_target not_source,
  );
  deleted = count_deleted now source t.accounts;
}

as_store-Whole :
    (now : Time) (target source : ℕ) (t : Tables) (r : Tables × List Bool × Bool)
    → (target == source) ≡ false
    → Whole (merge_changes now target source) t r
    → (((as_store r).1 ≡ true) × ((as_store r).0.tables ≡ t))
      ⊎ (((as_store r).1 ≡ false) × IsMerged now target source t (as_store r).0.tables)
unfolding Whole
as_store-Whole now target source t (t', faults, failed) other (inl (error, same)) =
    inl (error, same)
as_store-Whole now target source t (t', faults, failed) other (inr (ok, all)) =
    inr (ok, rw all (apply_all-IsMerged now target source t other))

-- A merge of one account into another either reports an error and leaves the tables as they were, or
-- gives every snapshot and every cycle of the source to the target, marks the source as deleted, and
-- changes nothing else in any row: the source has no rows left, the target those of both, and other
-- accounts the same; whatever statements fail.
pub merge-IsMerged :
    (now : Time) (target source : ℕ) (s : Store)
    → (target == source) ≡ false
    → (((merge_codex_account_data now target source s).1 ≡ true)
        × ((merge_codex_account_data now target source s).0.tables ≡ s.tables))
      ⊎ (((merge_codex_account_data now target source s).1 ≡ false)
          × IsMerged now target source s.tables
              (merge_codex_account_data now target source s).0.tables)
unfolding merge_codex_account_data
merge-IsMerged now target source s other = rw other (
    as_store-Whole now target source s.tables
      (transact (merge_changes now target source) s.tables s.faults) other
      (transact-Whole (merge_changes now target source) s.tables s.faults))
