-- ===== src/Database/Sessions.antt =====
-- The `sessions` table of server/internal/store/store.go. A quota value is a number of units fine
-- enough for the values that the providers report; the code only compares them here.
use one_auth_watch.Prelude.{
  ℕ, ◌+◌, Bool, true, false, Option, none, some, List, [], ◌∷◌, ◌++◌, ltb, ◌==◌, if◌then◌else◌,
  get_or,
}
use one_auth_watch.Prelude.Clock.{Time}
use one_auth_watch.Prelude.Text.{Text, codes}
use one_auth_watch.Prelude.Maps.{is_some}
use one_auth_watch.Database.Fault.{Db, later_faults, exec, update_where, first_where}

abbrev pub Value : Type 0
Value = ℕ

pub record Session : Type 0 where
  pub id : ℕ
  pub provider : Text
  pub started_at : Time
  pub ended_at : Option Time
  pub poll_interval : ℕ
  pub start_sub : Value
  pub start_search : Value
  pub start_tool : Value
  pub max_sub : Value
  pub max_search : Value
  pub max_tool : Value
  pub snapshot_count : ℕ

abbrev pub has_id : ℕ → Session → Bool
has_id i r = r.id == i

abbrev pub is_open : Session → Bool
is_open r = elim r.ended_at [ none ↦ true | some t ↦ false ]

abbrev pub default_provider : Text → Text
default_provider [] = codes "synthetic"
default_provider (c ∷ p) = c ∷ p

-- The row that the `INSERT` writes, with the columns that it leaves at their defaults.
abbrev pub new_session : ℕ → Time → ℕ → Text → List Value → Session
new_session id started_at poll_interval provider start_values = record {
  id = id;
  provider = default_provider provider;
  started_at = started_at;
  ended_at = none;
  poll_interval = poll_interval;
  start_sub = get_or start_values 0 0;
  start_search = get_or start_values 1 0;
  start_tool = get_or start_values 2 0;
  max_sub = 0;
  max_search = 0;
  max_tool = 0;
  snapshot_count = 0;
}

-- `id` is the primary key: a second row with it is refused.
unfoldable pub create_session : ℕ → Time → ℕ → Text → List Value → Db Session → Db Session × Bool
create_session id started_at poll_interval provider start_values db =
    if is_some (first_where (has_id id) db.rows)
    then (record { rows = db.rows; faults = later_faults db.faults }, true)
    else exec (λ rows. rows ++ new_session id started_at poll_interval provider start_values ∷ [])
        db

unfoldable pub close_orphaned_sessions : Time → Db Session → Db Session × Bool
close_orphaned_sessions now = exec (update_where is_open (λ r. record r { ended_at = some now }))

unfoldable pub close_session : ℕ → Time → Db Session → Db Session × Bool
close_session id ended_at =
    exec (update_where (has_id id) (λ r. record r { ended_at = some ended_at }))

abbrev pub raise_to : Value → Value → Value
raise_to v old = if ltb old v then v else old

unfoldable pub update_session_max_requests :
    ℕ → Value → Value → Value → Db Session → Db Session × Bool
update_session_max_requests id sub search tool = exec (
    update_where (has_id id) λ r. record r {
      max_sub = raise_to sub r.max_sub;
      max_search = raise_to search r.max_search;
      max_tool = raise_to tool r.max_tool;
    })

unfoldable pub increment_snapshot_count : ℕ → Db Session → Db Session × Bool
increment_snapshot_count id =
    exec (update_where (has_id id) (λ r. record r { snapshot_count = r.snapshot_count + 1 }))
