-- ===== src/Database/Cycles.antt =====
-- The `reset_cycles` table of server/internal/store/store.go.
use one_auth_watch.Prelude.{Bool, true, false, ◌&&◌, Option, none, some, [], ◌∷◌, ◌++◌}
use one_auth_watch.Prelude.Clock.{Time}
use one_auth_watch.Prelude.Text.{Text, text_eq}
use one_auth_watch.Database.Fault.{Db, exec, query, update_where, first_where}
use one_auth_watch.Database.Sessions.{Value}

pub record ResetCycle : Type 0 where
  pub quota_type : Text
  pub cycle_start : Time
  pub cycle_end : Option Time
  pub renews_at : Time
  pub peak_requests : Value
  pub total_delta : Value

abbrev pub is_none : {A : Type 0} → Option A → Bool
is_none none = true
is_none (some a) = false

-- `WHERE quota_type = ? AND cycle_end IS NULL`
abbrev pub is_active : Text → ResetCycle → Bool
is_active quota_type c = text_eq c.quota_type quota_type && is_none c.cycle_end

abbrev pub new_cycle : Text → Time → Time → ResetCycle
new_cycle quota_type cycle_start renews_at = record {
  quota_type = quota_type;
  cycle_start = cycle_start;
  cycle_end = none;
  renews_at = renews_at;
  peak_requests = 0;
  total_delta = 0;
}

unfoldable pub create_cycle : Text → Time → Time → Db ResetCycle → Db ResetCycle × Bool
create_cycle quota_type cycle_start renews_at =
    exec (λ rows. rows ++ new_cycle quota_type cycle_start renews_at ∷ [])

unfoldable pub close_cycle : Text → Time → Value → Value → Db ResetCycle → Db ResetCycle × Bool
close_cycle quota_type cycle_end peak delta = exec (
    update_where (is_active quota_type)
      λ c. record c { cycle_end = some cycle_end; peak_requests = peak; total_delta = delta })

unfoldable pub update_cycle : Text → Value → Value → Db ResetCycle → Db ResetCycle × Bool
update_cycle quota_type peak delta = exec (
    update_where (is_active quota_type) λ c. record c { peak_requests = peak; total_delta = delta })

-- `none` is an error; `some none` says that no cycle is active.
unfoldable pub query_active_cycle :
    Text → Db ResetCycle → Db ResetCycle × Option (Option ResetCycle)
query_active_cycle quota_type = query (first_where (is_active quota_type))
