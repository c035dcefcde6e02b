-- ===== src/Database/CodexSnapshots.antt =====
-- The `codex_snapshots` and `codex_quota_values` tables of server/internal/store/codex_store.go: a
-- snapshot with its quotas, the newest first.
use one_auth_watch.Prelude.{ℕ, Bool, List, [], ◌∷◌, ◌++◌, map}
use one_auth_watch.Prelude.Clock.{Time}
use one_auth_watch.Database.Fault.{Db}
use one_auth_watch.Database.Transaction.{exec_all}
use one_auth_watch.Database.CodexCycles.{account_or_default}
use one_auth_watch.Tracker.Codex.{CodexQuota}

pub record CodexSnapshot : Type 0 where
  pub captured_at : Time
  pub account_id : ℕ
  pub quotas : List CodexQuota

abbrev add_quota : CodexQuota → List CodexSnapshot → List CodexSnapshot
add_quota q [] = []
add_quota q (s ∷ rows) = record s { quotas = s.quotas ++ q ∷ [] } ∷ rows

abbrev new_snapshot : ℕ → Time → CodexSnapshot
new_snapshot account_id captured_at = record {
  captured_at = captured_at;
  account_id = account_or_default account_id;
  quotas = [];
}

-- The inserts of the snapshot and of each quota, in a transaction.
unfoldable pub insert_codex_snapshot :
    ℕ → Time → List CodexQuota → Db CodexSnapshot → Db CodexSnapshot × Bool
insert_codex_snapshot account_id captured_at quotas =
    exec_all ((λ rows. new_snapshot account_id captured_at ∷ rows) ∷ map add_quota quotas)
