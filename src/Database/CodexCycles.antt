-- ===== src/Database/CodexCycles.antt =====
-- The `codex_reset_cycles` table of server/internal/store/codex_store.go.
use one_auth_watch.Prelude.{ℕ, Bool, ◌&&◌, Option, none, some, [], ◌∷◌, ◌++◌, ◌==◌, if◌then◌else◌}
use one_auth_watch.Prelude.Clock.{Time}
use one_auth_watch.Prelude.Text.{Text, text_eq}
use one_auth_watch.Database.Fault.{Db, exec, query, update_where, first_where}
use one_auth_watch.Database.Sessions.{Value}
use one_auth_watch.Database.Cycles.{is_none}

pub record CodexResetCycle : Type 0 where
  pub account_id : ℕ
  pub quota_name : Text
  pub cycle_start : Time
  pub cycle_end : Option Time
  pub resets_at : Option Time
  pub peak_utilization : Value
  pub total_delta : Value

-- `if accountID == 0 { accountID = DefaultCodexAccountID }`
abbrev pub account_or_default : ℕ → ℕ
account_or_default account_id = if account_id == 0 then 1 else account_id

-- `WHERE account_id = ? AND quota_name = ? AND cycle_end IS NULL`
abbrev pub is_active : ℕ → Text → CodexResetCycle → Bool
is_active account_id quota_name c =
    c.account_id == account_or_default account_id
    && text_eq c.quota_name quota_name
    && is_none c.cycle_end

abbrev pub new_cycle : ℕ → Text → Time → Option Time → CodexResetCycle
new_cycle account_id quota_name cycle_start resets_at = record {
  account_id = account_or_default account_id;
  quota_name = quota_name;
  cycle_start = cycle_start;
  cycle_end = none;
  resets_at = resets_at;
  peak_utilization = 0;
  total_delta = 0;
}

module _ (account_id : ℕ) (quota_name : Text) where
  unfoldable pub create_codex_cycle :
      Time → Option Time → Db CodexResetCycle → Db CodexResetCycle × Bool
  create_codex_cycle cycle_start resets_at =
      exec (λ rows. rows ++ new_cycle account_id quota_name cycle_start resets_at ∷ [])

  unfoldable pub close_codex_cycle :
      Time → Value → Value → Db CodexResetCycle → Db CodexResetCycle × Bool
  close_codex_cycle cycle_end peak delta = exec (
      update_where (is_active account_id quota_name)
        λ c. record c { cycle_end = some cycle_end; peak_utilization = peak; total_delta = delta })

  unfoldable pub update_codex_cycle : Value → Value → Db CodexResetCycle → Db CodexResetCycle × Bool
  update_codex_cycle peak delta = exec (
      update_where (is_active account_id quota_name)
        λ c. record c { peak_utilization = peak; total_delta = delta })

  unfoldable pub update_codex_cycle_resets_at :
      Option Time → Db CodexResetCycle → Db CodexResetCycle × Bool
  update_codex_cycle_resets_at resets_at =
      exec (update_where (is_active account_id quota_name) λ c. record c { resets_at = resets_at })

  -- `none` is an error; `some none` says that no cycle is active.
  unfoldable pub query_active_codex_cycle :
      Db CodexResetCycle → Db CodexResetCycle × Option (Option CodexResetCycle)
  query_active_codex_cycle = query (first_where (is_active account_id quota_name))
