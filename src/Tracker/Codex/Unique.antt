-- ===== src/Tracker/Codex/Unique.antt =====
-- An account never has two active cycles of one Codex quota, whatever statements fail.
use one_auth_watch.Prelude.{
  inl, inr, ℕ, ◌≤◌, ◌≡◌, refl, Bool, true, false, ◌&&◌, Option, none, some, List, [], ◌∷◌, ◌++◌,
  arith, ltb, ◌==◌, if◌then◌else◌, count_if, Bool-cases,
}
use one_auth_watch.Prelude.Clock.{Time}
use one_auth_watch.Prelude.Text.{Text, text_eq, text_eq_iff}
use one_auth_watch.Database.Fault.{Db, next_fault, later_faults, first_where}
use one_auth_watch.Database.Counting.{
  count-update_same, count-update_le, count-update_none, count-first_none, count-append_one,
}
use one_auth_watch.Database.Sessions.{Value}
use one_auth_watch.Database.Cycles.{is_none}
use one_auth_watch.Database.CodexCycles.{
  CodexResetCycle, account_or_default, is_active, new_cycle, create_codex_cycle, close_codex_cycle,
  update_codex_cycle, update_codex_cycle_resets_at, query_active_codex_cycle,
}
use one_auth_watch.Tracker.Codex.{
  CodexQuota, CodexTracker, Error, keep_value, keep_reset, keep_reset_at, open_cycle,
  reset_detected, close_and_open, store_stats, stats_from, update_stats, refresh,
  refresh_and_update, process_found, process_quota, go_on, process_each, process, end_time,
  final_stats,
}

abbrev pub active_cycles : ℕ → Text → List CodexResetCycle → ℕ
active_cycles a q rows = count_if (is_active a q) rows

abbrev same_cycle : ℕ → Text → ℕ → Text → Bool
same_cycle x name y q = x == y && text_eq name q

agree :
    (x y n : ℕ) (name q s : Text) (free : Bool)
    → same_cycle x name y q ≡ true
    → (n == x && text_eq s name && free) ≡ (n == y && text_eq s q && free)
agree x y n name q s free h = ground (arith, text_eq_iff name q)

without_true :
    (x y : ℕ) (name q : Text)
    → (x == y && text_eq name q && true) ≡ true
    → same_cycle x name y q ≡ true
without_true x y name q h = ground arith

module _ (a : ℕ) (q : Text) (account : ℕ) (quota : CodexQuota) (at : Time) where
  -- At most one cycle is active, and none that a new cycle of the quota would be a second to.
  record Fits (rows : List CodexResetCycle) : Type 0 where
    one : active_cycles a q rows ≤ 1
    room :
        same_cycle (account_or_default account) quota.name (account_or_default a) q ≡ true
        → active_cycles a q rows ≡ 0

  keep_reset_at_store :
      (r : Option Time) (t : CodexTracker) → (keep_reset_at account quota at r t).store ≡ t.store
  keep_reset_at_store none t = refl
  keep_reset_at_store (some r) t = refl

  keep_reset_store : (t : CodexTracker) → (keep_reset account quota at t).store ≡ t.store
  unfolding keep_reset
  keep_reset_store t = keep_reset_at_store quota.resets_at t

  created_one :
      (resets : Option Time) (rows : List CodexResetCycle)
      → Fits rows
      → active_cycles a q (rows ++ new_cycle account quota.name at resets ∷ []) ≤ 1
  created_one resets rows h =
      count-append_one (is_active a q) rows (new_cycle account quota.name at resets) h.one (λ e.
        h.room (without_true (account_or_default account) (account_or_default a) quota.name q e))

  update_one :
      (peak delta : Value) (db : Db CodexResetCycle)
      → active_cycles a q db.rows ≤ 1
      → active_cycles a q (update_codex_cycle account quota.name peak delta db).0.rows ≤ 1
  unfolding update_codex_cycle
  update_one peak delta db h = ground (
    arith,
    count-update_same (is_active account quota.name) (is_active a q)
        (λ c. record c { peak_utilization = peak; total_delta = delta }) db.rows (λ c. refl),
  )

  open_cycle_unique :
      (reset : Bool) (t : CodexTracker)
      → Fits t.store.rows
      → active_cycles a q (open_cycle account quota at reset t).tracker.store.rows ≤ 1
  unfolding open_cycle create_codex_cycle keep_value
  open_cycle_unique reset t h = elim (Bool-cases (next_fault t.store.faults)) [
    | inl e ↦ rw e h.one
    | inr e ↦
        let db : Db CodexResetCycle = record {
          rows = t.store.rows ++ new_cycle account quota.name at quota.resets_at ∷ [];
          faults = later_faults t.store.faults;
        } in
        let kept = update_one quota.utilization 0 db (created_one quota.resets_at t.store.rows h) in
        elim (Bool-cases (update_codex_cycle account quota.name quota.utilization 0 db).1) [
          | inl f ↦ rw (e, f) kept
          | inr f ↦ rw (e, f, keep_reset_store) kept
        ]
  ]

  closed_Fits :
      (t : Time) (peak delta : Value) (db : Db CodexResetCycle)
      → active_cycles a q db.rows ≤ 1
      → (close_codex_cycle account quota.name t peak delta db).1 ≡ false
      → Fits (close_codex_cycle account quota.name t peak delta db).0.rows
  unfolding close_codex_cycle
  closed_Fits t peak delta db h e =
      let change : CodexResetCycle → CodexResetCycle =
        λ c. record c { cycle_end = some t; peak_utilization = peak; total_delta = delta } in
      let gone : (c : CodexResetCycle) → is_active a q (change c) ≡ false = λ c. ground arith in
      let succeeds : next_fault db.faults ≡ false = e in
      rw succeeds (record {
        one = ground (
          arith,
          h,
          count-update_le (is_active account quota.name) (is_active a q) change db.rows gone,
        );
        room = λ same.
            count-update_none (is_active account quota.name) (is_active a q) change db.rows gone
              (λ c.
                agree (account_or_default account) (account_or_default a) c.account_id quota.name q
                  c.quota_name (is_none c.cycle_end) same);
      })

  not_closed_unique :
      (t : Time) (peak delta : Value) (db : Db CodexResetCycle)
      → active_cycles a q db.rows ≤ 1
      → (close_codex_cycle account quota.name t peak delta db).1 ≡ true
      → active_cycles a q (close_codex_cycle account quota.name t peak delta db).0.rows ≤ 1
  unfolding close_codex_cycle
  not_closed_unique t peak delta db h e = let fails : next_fault db.faults ≡ true = e in rw fails h

  close_and_open_unique :
      (cycle : CodexResetCycle) (t : CodexTracker)
      → active_cycles a q t.store.rows ≤ 1
      → active_cycles a q (close_and_open account quota at cycle t).tracker.store.rows ≤ 1
  unfolding close_and_open
  close_and_open_unique cycle t h =
      let (peak, delta) =
        final_stats account quota at (t.has_last account) (t.last_values account quota.name)
          cycle in
      let end = end_time account quota at cycle.resets_at in
      elim (Bool-cases (close_codex_cycle account quota.name end peak delta t.store).1) [
        | inl f ↦ rw f (not_closed_unique end peak delta t.store h f)
        | inr f ↦ rw f (open_cycle_unique true _ (closed_Fits end peak delta t.store h f))
      ]

  store_stats_unique :
      (peak delta : Value) (t : CodexTracker)
      → active_cycles a q t.store.rows ≤ 1
      → active_cycles a q (store_stats account quota at peak delta t).tracker.store.rows ≤ 1
  unfolding keep_value
  store_stats_unique peak delta t h =
      elim (Bool-cases (update_codex_cycle account quota.name peak delta t.store).1) [
        | inl f ↦ rw f (update_one peak delta t.store h)
        | inr f ↦ rw f (update_one peak delta t.store h)
      ]

  stats_from_unique :
      (has_last : Bool) (last : Option Value) (cycle : CodexResetCycle) (t : CodexTracker)
      → active_cycles a q t.store.rows ≤ 1
      → active_cycles a q (stats_from account quota at has_last last cycle t).tracker.store.rows ≤ 1
  unfolding keep_value
  stats_from_unique true (some last) cycle t h = store_stats_unique _ _ t h
  stats_from_unique true none cycle t h = h
  stats_from_unique false last cycle t h =
      elim (Bool-cases (ltb cycle.peak_utilization quota.utilization)) [
        | inl e ↦ rw e (store_stats_unique quota.utilization cycle.total_delta t h)
        | inr e ↦ rw e h
      ]

  resets_one :
      (r : Option Time) (db : Db CodexResetCycle)
      → active_cycles a q db.rows ≤ 1
      → active_cycles a q (update_codex_cycle_resets_at account quota.name r db).0.rows ≤ 1
  unfolding update_codex_cycle_resets_at
  resets_one r db h = ground (
    arith,
    count-update_same (is_active account quota.name) (is_active a q)
        (λ c. record c { resets_at = r }) db.rows (λ c. refl),
  )

  refresh_unique :
      (r : Option Time) (cycle : CodexResetCycle) (t : CodexTracker)
      → active_cycles a q t.store.rows ≤ 1
      → active_cycles a q (refresh account quota at r cycle t).tracker.store.rows ≤ 1
  unfolding update_stats
  refresh_unique none cycle t h =
      stats_from_unique (t.has_last account) (t.last_values account quota.name) cycle t h
  refresh_unique (some r) cycle t h =
      let kept = resets_one (some r) t.store h in
      elim (Bool-cases (update_codex_cycle_resets_at account quota.name (some r) t.store).1) [
        | inl f ↦ rw f kept
        | inr f ↦ rw f (stats_from_unique _ _ cycle _ (rw keep_reset_store kept))
      ]

  process_found_unique :
      (found : Option (Option CodexResetCycle)) (t : CodexTracker)
      → (found ≡ some none → first_where (is_active account quota.name) t.store.rows ≡ none)
      → active_cycles a q t.store.rows ≤ 1
      → active_cycles a q (process_found account quota at found t).tracker.store.rows ≤ 1
  unfolding process_found refresh_and_update
  process_found_unique none t missing h = h
  process_found_unique (some none) t missing h = open_cycle_unique false t (record {
    one = h;
    room = λ same.
        count-first_none (is_active account quota.name) (is_active a q) t.store.rows
          (λ c.
            agree (account_or_default account) (account_or_default a) c.account_id quota.name q
              c.quota_name (is_none c.cycle_end) same)
          (missing refl);
  })
  process_found_unique (some (some cycle)) t missing h =
      elim (Bool-cases (reset_detected account quota at t cycle)) [
        | inl e ↦ rw e (close_and_open_unique cycle t h)
        | inr e ↦ rw e (refresh_unique quota.resets_at cycle t h)
      ]

  process_quota_unique :
      (t : CodexTracker)
      → active_cycles a q t.store.rows ≤ 1
      → active_cycles a q (process_quota account quota at t).tracker.store.rows ≤ 1
  unfolding process_quota query_active_codex_cycle
  process_quota_unique t h =
      process_found_unique
        (if next_fault t.store.faults
          then none
          else some (first_where (is_active account quota.name) t.store.rows))
        _ (λ e. ground arith) h

go_on_unique :
    (a : ℕ) (q : Text) (e : Option Error) (t : CodexTracker)
    (rest : CodexTracker → CodexTracker × Option Error)
    → active_cycles a q t.store.rows ≤ 1
    → (active_cycles a q t.store.rows ≤ 1 → active_cycles a q (rest t).0.store.rows ≤ 1)
    → active_cycles a q (go_on e t rest).0.store.rows ≤ 1
go_on_unique a q none t rest h next = next h
go_on_unique a q (some e) t rest h next = h

process_each_unique :
    (a : ℕ) (q : Text) (account : ℕ) (at : Time) (quotas : List CodexQuota) (t : CodexTracker)
    → active_cycles a q t.store.rows ≤ 1
    → active_cycles a q (process_each account at quotas t).0.store.rows ≤ 1
unfolding process_each
process_each_unique a q account at [] t h = h
process_each_unique a q account at (quota ∷ quotas) t h =
    let o = process_quota account quota at t in
    go_on_unique a q o.error o.tracker (process_each account at quotas)
      (process_quota_unique a q account quota at t h)
      (process_each_unique a q account at quotas o.tracker)

-- Where an account has at most one active cycle of a quota name, processing a snapshot of any account
-- leaves at most one, whatever statements of the database fail.
pub process_codex_unique :
    (a : ℕ) (q : Text) (account : ℕ) (at : Time) (quotas : List CodexQuota) (t : CodexTracker)
    → active_cycles a q t.store.rows ≤ 1
    → active_cycles a q (process account at quotas t).0.store.rows ≤ 1
unfolding process
process_codex_unique a q account at quotas t h =
    process_each_unique a q (account_or_default account) at quotas t h
