-- ===== src/Database/Accounts/Merging/Sources.antt =====
-- What the merges of a group do to the accounts.
use one_auth_watch.Prelude.{
  ℕ, suc, inl, inr, ◌≡◌, refl, ap, sym, ◌∙◌, Bool, true, false, not, ◌&&◌, ◌||◌, some, List, [],
  ◌∷◌, arith, ◌==◌, if◌then◌else◌,
}
use one_auth_watch.Prelude.Clock.{Time}
use one_auth_watch.Database.Fault.{update_where}
use one_auth_watch.Database.Transaction.{transact, Whole, transact-Whole}
use one_auth_watch.Database.Accounts.{ProviderAccount, Tables, Store, has_id}
use one_auth_watch.Database.Accounts.Merging.{
  merge_changes, as_store, merge_codex_account_data, Merged, go_on, merge_into,
}

module _ (now : Time) where
  abbrev delete_row : ProviderAccount → ProviderAccount
  delete_row a = record a { deleted_at = some now }

  -- Whether an id is one of those to merge into the target.
  abbrev pub is_source : ℕ → ℕ → List ProviderAccount → Bool
  is_source target i [] = false
  is_source target i (a ∷ accounts) =
      a.id == i && not (a.id == target) || is_source target i accounts

  abbrev pub delete_sources : ℕ → List ProviderAccount → List ProviderAccount → List ProviderAccount
  delete_sources target accounts = update_where (λ a. is_source target a.id accounts) delete_row

  -- One source after the others.
  delete_next :
      (target : ℕ) (b : ProviderAccount) (accounts rows : List ProviderAccount)
      → (b.id == target) ≡ false
      → delete_sources target accounts (update_where (has_id b.id) delete_row rows)
        ≡ delete_sources target (b ∷ accounts) rows
  delete_next target b accounts [] other = refl
  delete_next target b accounts (a ∷ rows) other =
      ground (arith, delete_next target b accounts rows other)

  skip_target :
      (target : ℕ) (b : ProviderAccount) (accounts rows : List ProviderAccount)
      → (b.id == target) ≡ true
      → delete_sources target accounts rows ≡ delete_sources target (b ∷ accounts) rows
  skip_target target b accounts [] same = refl
  skip_target target b accounts (a ∷ rows) same =
      ground (arith, skip_target target b accounts rows same)

  -- What a merge that succeeds does to the accounts.
  as_store-accounts :
      (target source : ℕ) (t : Tables) (r : Tables × List Bool × Bool)
      → Whole (merge_changes now target source) t r
      → (as_store r).1 ≡ false
      → (as_store r).0.tables.accounts ≡ update_where (has_id source) delete_row t.accounts
  unfolding Whole
  as_store-accounts target source t (t', faults, failed) (inl (error, same)) ok = ground arith
  as_store-accounts target source t (t', faults, failed) (inr (done, all)) ok =
      ap (λ x. x.accounts) all

  merge-accounts :
      (target source : ℕ) (s : Store)
      → (target == source) ≡ false
      → (merge_codex_account_data now target source s).1 ≡ false
      → (merge_codex_account_data now target source s).0.tables.accounts
        ≡ update_where (has_id source) delete_row s.tables.accounts
  unfolding merge_codex_account_data
  merge-accounts target source s other = rw other (
      as_store-accounts target source s.tables
        (transact (merge_changes now target source) s.tables s.faults)
        (transact-Whole (merge_changes now target source) s.tables s.faults))

  go_on-accounts :
      (target : ℕ) (accounts : List ProviderAccount) (r : Store × Bool) (n : ℕ)
      → ((m : ℕ) (s : Store)
          → (merge_into now target accounts m s).failed ≡ false
          → (merge_into now target accounts m s).store.tables.accounts
            ≡ delete_sources target accounts s.tables.accounts)
      → (go_on r n (λ s' n'. merge_into now target accounts (suc n') s')).failed ≡ false
      → (r.1 ≡ false)
        × ((go_on r n (λ s' n'. merge_into now target accounts (suc n') s')).store.tables.accounts
            ≡ delete_sources target accounts r.0.tables.accounts)
  go_on-accounts target accounts (s, true) n rest ok = ground arith
  go_on-accounts target accounts (s, false) n rest ok = (refl, rest (suc n) s ok)

  either :
      (p : Bool) (x y : Merged) (rows : List ProviderAccount)
      → (p ≡ true → x.failed ≡ false → x.store.tables.accounts ≡ rows)
      → (p ≡ false → y.failed ≡ false → y.store.tables.accounts ≡ rows)
      → (if p then x else y).failed ≡ false
      → (if p then x else y).store.tables.accounts ≡ rows
  either true x y rows on_true on_false ok = on_true refl ok
  either false x y rows on_true on_false ok = on_false refl ok

  none_deleted : (target : ℕ) (rows : List ProviderAccount) → delete_sources target [] rows ≡ rows
  none_deleted target [] = refl
  none_deleted target (a ∷ rows) = ap (λ r. a ∷ r) (none_deleted target rows)

  -- The loop deletes the sources.
  pub merge_into-accounts :
      (target : ℕ) (accounts : List ProviderAccount) (n : ℕ) (s : Store)
      → (merge_into now target accounts n s).failed ≡ false
      → (merge_into now target accounts n s).store.tables.accounts
        ≡ delete_sources target accounts s.tables.accounts
  unfolding merge_into
  merge_into-accounts target [] n s ok = sym (none_deleted target s.tables.accounts)
  merge_into-accounts target (b ∷ accounts) n s ok =
      either (b.id == target) (merge_into now target accounts n s)
        (go_on (merge_codex_account_data now target b.id s) n
          (λ s' n'. merge_into now target accounts (suc n') s'))
        (delete_sources target (b ∷ accounts) s.tables.accounts)
        (λ e done.
          merge_into-accounts target accounts n s done
          ∙ skip_target target b accounts s.tables.accounts e)
        (λ e done.
          let (merged, rest) =
            go_on-accounts target accounts (merge_codex_account_data now target b.id s) n
              (merge_into-accounts target accounts) done in
          rest
          ∙ ap (delete_sources target accounts) (merge-accounts target b.id s (ground arith) merged)
          ∙ delete_next target b accounts s.tables.accounts e)
        ok
