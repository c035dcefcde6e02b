-- ===== src/Tracker/Synthetic/Unique.antt =====
-- A quota type never has two active cycles, whatever statements fail.
use one_auth_watch.Prelude.{
  inl, inr, ℕ, suc, ◌≤◌, ◌≡◌, refl, Bool, true, false, Option, none, some, List, [], ◌∷◌, ◌++◌,
  arith, if◌then◌else◌, count_if, count_if-append, Bool-cases,
}
use one_auth_watch.Prelude.Clock.{Time}
use one_auth_watch.Prelude.Text.{Text, text_eq, text_eq_iff}
use one_auth_watch.Database.Fault.{Db, next_fault, update_where, first_where}
use one_auth_watch.Database.Sessions.{Value}
use one_auth_watch.Database.Cycles.{
  ResetCycle, is_active, new_cycle, create_cycle, close_cycle, update_cycle, query_active_cycle,
}
use one_auth_watch.Tracker.Synthetic.{
  QuotaInfo, Error, open_cycle, reset_detected, close_and_open, store_stats, update_stats,
  process_active, process_found, process_quota, cycle_end_time, add_delta, raise_peak, Snapshot,
  Tracker, subscription, search_quota, toolcall, process_tool, process_search, process, and_then,
}

abbrev pub active_cycles : Text → List ResetCycle → ℕ
active_cycles q rows = count_if (is_active q) rows

module _ (q quota_type : Text) where
  stats-active :
      (peak delta : Value) (rows : List ResetCycle)
      → active_cycles q (
          update_where
            (is_active quota_type)
            (λ c. record c { peak_requests = peak; total_delta = delta })
            rows)
        ≡ active_cycles q rows
  stats-active peak delta [] = refl
  stats-active peak delta (c ∷ rows) = ground (arith, stats-active peak delta rows)

  close-active :
      (t : Time) (peak delta : Value) (rows : List ResetCycle)
      → active_cycles q (
          update_where
            (is_active quota_type)
            (λ c. record c { cycle_end = some t; peak_requests = peak; total_delta = delta })
            rows)
        ≡ (if text_eq quota_type q then 0 else active_cycles q rows)
  close-active t peak delta [] = ground arith
  close-active t peak delta (c ∷ rows) = ground (
    arith,
    close-active t peak delta rows,
    text_eq_iff c.quota_type quota_type,
    text_eq_iff c.quota_type q,
    text_eq_iff quota_type q,
  )

  create-active :
      (start renews : Time) (rows : List ResetCycle)
      → active_cycles q (rows ++ new_cycle quota_type start renews ∷ [])
        ≡ (if text_eq quota_type q then suc (active_cycles q rows) else active_cycles q rows)
  create-active start renews rows =
      ground (arith, count_if-append (is_active q) rows (new_cycle quota_type start renews ∷ []))

  none-active :
      (rows : List ResetCycle) → first_where (is_active q) rows ≡ none → active_cycles q rows ≡ 0
  none-active [] h = refl
  none-active (c ∷ rows) h = ground (arith, none-active rows)

  -- At most one cycle of `q` is active, and none if `quota_type` is `q` and `clean` holds.
  abbrev Fits : Bool → List ResetCycle → Type 0
  Fits clean rows =
      (active_cycles q rows ≤ 1)
      × (clean ≡ true → text_eq quota_type q ≡ true → active_cycles q rows ≡ 0)

  open_cycle_unique :
      (t : Time) (info : QuotaInfo) (last : Value) (reset : Bool) (db : Db ResetCycle)
      → Fits true db.rows
      → active_cycles q (open_cycle quota_type t info last reset db).db.rows ≤ 1
  unfolding open_cycle create_cycle update_cycle
  open_cycle_unique t info last reset db h = ground (
    arith,
    h,
    create-active t info.renews_at db.rows,
    stats-active info.requests 0 (db.rows ++ new_cycle quota_type t info.renews_at ∷ []),
  )

  closed-Fits :
      (t : Time) (peak delta : Value) (rows : List ResetCycle)
      → active_cycles q rows ≤ 1
      → Fits true (
          update_where
            (is_active quota_type)
            (λ c. record c { cycle_end = some t; peak_requests = peak; total_delta = delta })
            rows)
  closed-Fits t peak delta rows h = (
    ground (arith, close-active t peak delta rows),
    λ a b. ground (arith, close-active t peak delta rows),
  )

  close_and_open_unique :
      (t : Time) (info : QuotaInfo) (has_last : Bool) (last : Value) (cycle : ResetCycle)
      (db : Db ResetCycle)
      → active_cycles q db.rows ≤ 1
      → active_cycles q (close_and_open quota_type t info has_last last cycle db).db.rows ≤ 1
  unfolding close_and_open close_cycle
  close_and_open_unique t info has_last last cycle db h = elim (Bool-cases (next_fault db.faults)) [
    | inl e ↦ rw e h
    | inr e ↦ rw e (
        open_cycle_unique t info last true _ (
          closed-Fits (cycle_end_time t cycle) cycle.peak_requests
            (if has_last then add_delta last info.requests cycle.total_delta else cycle.total_delta)
            db.rows h))
  ]

  update_stats_unique :
      (info : QuotaInfo) (has_last : Bool) (last : Value) (cycle : ResetCycle) (db : Db ResetCycle)
      → active_cycles q db.rows ≤ 1
      → active_cycles q (update_stats quota_type info has_last last cycle db).db.rows ≤ 1
  unfolding update_stats store_stats update_cycle
  update_stats_unique info has_last last cycle db h = ground (
    arith,
    h,
    stats-active (raise_peak info.requests cycle.peak_requests)
        (add_delta last info.requests cycle.total_delta) db.rows,
    stats-active (raise_peak info.requests cycle.peak_requests) cycle.total_delta db.rows,
  )

  process_found_unique :
      (t : Time) (info : QuotaInfo) (has_last : Bool) (last : Value)
      (found : Option (Option ResetCycle)) (db : Db ResetCycle)
      → (found ≡ some none → first_where (is_active quota_type) db.rows ≡ none)
      → active_cycles q db.rows ≤ 1
      → active_cycles q (process_found quota_type t info has_last last found db).db.rows ≤ 1
  unfolding process_found process_active
  process_found_unique t info has_last last none db missing h = h
  process_found_unique t info has_last last (some none) db missing h =
      open_cycle_unique t info last false db (
        h,
        λ a same.
            let e : quota_type ≡ q = (text_eq_iff quota_type q).0 same in
            none-active db.rows (rw (← e) (missing refl)),
      )
  process_found_unique t info has_last last (some (some cycle)) db missing h =
      elim (Bool-cases (reset_detected t info cycle)) [
        | inl e ↦ rw e (close_and_open_unique t info has_last last cycle db h)
        | inr e ↦ rw e (update_stats_unique info has_last last cycle db h)
      ]

  process_quota_unique :
      (t : Time) (info : QuotaInfo) (has_last : Bool) (last : Value) (db : Db ResetCycle)
      → active_cycles q db.rows ≤ 1
      → active_cycles q (process_quota quota_type t info has_last last db).db.rows ≤ 1
  unfolding process_quota query_active_cycle
  process_quota_unique t info has_last last db h =
      process_found_unique t info has_last last
        (if next_fault db.faults then none else some (first_where (is_active quota_type) db.rows)) _
        (λ e. ground arith) h

module _ (q : Text) (s : Snapshot) where
  and_then_unique :
      (e : Option Error) (t : Tracker) (rest : Tracker → Tracker × Option Error)
      → active_cycles q t.store.rows ≤ 1
      → (active_cycles q t.store.rows ≤ 1 → active_cycles q (rest t).0.store.rows ≤ 1)
      → active_cycles q (and_then e t rest).0.store.rows ≤ 1
  unfolding and_then
  and_then_unique none t rest h next = next h
  and_then_unique (some e) t rest h next = h

  process_tool_unique :
      (t : Tracker)
      → active_cycles q t.store.rows ≤ 1
      → active_cycles q (process_tool s t).0.store.rows ≤ 1
  unfolding process_tool
  process_tool_unique t h =
      and_then_unique _ _ _
        (process_quota_unique q toolcall s.captured_at s.tool_call t.has_last_values
          t.last_tool_requests t.store h)
        (λ kept. kept)

  process_search_unique :
      (t : Tracker)
      → active_cycles q t.store.rows ≤ 1
      → active_cycles q (process_search s t).0.store.rows ≤ 1
  unfolding process_search
  process_search_unique t h =
      and_then_unique _ _ _
        (process_quota_unique q search_quota s.captured_at s.search t.has_last_values
          t.last_search_requests t.store h)
        (process_tool_unique _)

-- Where a quota type has at most one active cycle, processing a snapshot leaves at most one, whatever
-- statements of the database fail.
pub process_unique :
    (q : Text) (s : Snapshot) (t : Tracker)
    → active_cycles q t.store.rows ≤ 1
    → active_cycles q (process s t).0.store.rows ≤ 1
unfolding process
process_unique q s t h =
    and_then_unique q s _ _ _
      (process_quota_unique q subscription s.captured_at s.sub t.has_last_values t.last_sub_requests
        t.store h)
      (process_search_unique q s _)
