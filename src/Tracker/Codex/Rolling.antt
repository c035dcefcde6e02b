-- ===== src/Tracker/Codex/Rolling.antt =====
-- What a cycle records over polls whose reset time rolls on.
use Prim.Native.Nat.{max}
use one_auth_watch.Prelude.{
  ℕ, ◌+◌, ◌-◌, ◌*◌, ◌≤◌, ◌≡◌, refl, true, Option, some, List, [], ◌∷◌, arith, ltb, if◌then◌else◌,
}
use one_auth_watch.Prelude.Clock.{Time, minute}
use one_auth_watch.Prelude.Text.{Text, text_eq_refl}
use one_auth_watch.Database.Fault.{update_where, first_where}
use one_auth_watch.Database.Sessions.{Value}
use one_auth_watch.Database.CodexCycles.{
  CodexResetCycle, is_active, update_codex_cycle, update_codex_cycle_resets_at,
  query_active_codex_cycle,
}
use one_auth_watch.Tracker.Codex.{
  CodexQuota, CodexTracker, percent, keep_value, keep_reset, update_stats, refresh_and_update,
  process_found, process_quota,
}
use one_auth_watch.Tracker.Codex.Reset.{no_drop_no_reset}

-- A poll of the quota: when, the utilization, and the reset time.
pub record Poll : Type 0 where
  pub at : Time
  pub utilization : Value
  pub resets_at : Time

-- Every poll comes before the reset time of the poll before it has passed by two minutes, and is at
-- most two percent lower than that poll.
unfoldable pub IsRolling : Value → Time → List Poll → Type 0
IsRolling last stored [] = Unit
IsRolling last stored (p ∷ polls) =
    (p.at ≤ stored + 2 * minute)
    × (last ≤ p.utilization + 2 * percent)
    × IsRolling p.utilization p.resets_at polls

unfoldable pub greatest : Value → List Poll → Value
greatest peak [] = peak
greatest peak (p ∷ polls) = greatest (max peak p.utilization) polls

unfoldable pub increases : Value → List Poll → Value
increases last [] = 0
increases last (p ∷ polls) = (p.utilization - last) + increases p.utilization polls

pub last_reset : Time → List Poll → Time
last_reset stored [] = stored
last_reset stored (p ∷ polls) = last_reset p.resets_at polls

module _ (account : ℕ) (name : Text) where
  abbrev pub polled : Poll → CodexQuota
  polled p = record { name = name; utilization = p.utilization; resets_at = some p.resets_at }

  -- The tracker follows an active cycle, and its next statements succeed.
  pub record Follows (c : CodexResetCycle) (last : Value) (stored : Time) (t : CodexTracker)
      : Type 0 where
    pub faultless : t.store.faults ≡ []
    pub found : first_where (is_active account name) t.store.rows ≡ some c
    pub resets : c.resets_at ≡ some stored
    pub active : t.has_last account ≡ true
    pub seen : t.last_values account name ≡ some last

  abbrev pub after_poll : Value → Poll → CodexResetCycle → CodexResetCycle
  after_poll last p c = record c {
    resets_at = some p.resets_at;
    peak_utilization = max c.peak_utilization p.utilization;
    total_delta = c.total_delta + (p.utilization - last);
  }

  first_where-resets :
      (r : Option Time) (c : CodexResetCycle) (rows : List CodexResetCycle)
      → first_where (is_active account name) rows ≡ some c
      → first_where
          (is_active account name)
          (update_where (is_active account name) (λ x. record x { resets_at = r }) rows)
        ≡ some (record c { resets_at = r })
  first_where-resets r c [] h = ground arith
  first_where-resets r c (x ∷ rows) h = ground (arith, first_where-resets r c rows)

  first_where-stats :
      (peak delta : Value) (c : CodexResetCycle) (rows : List CodexResetCycle)
      → first_where (is_active account name) rows ≡ some c
      → first_where (is_active account name) (
          update_where
            (is_active account name)
            (λ x. record x { peak_utilization = peak; total_delta = delta })
            rows)
        ≡ some (record c { peak_utilization = peak; total_delta = delta })
  first_where-stats peak delta c [] h = ground arith
  first_where-stats peak delta c (x ∷ rows) h = ground (arith, first_where-stats peak delta c rows)

  refresh-Follows :
      (p : Poll) (last : Value) (c : CodexResetCycle) (rows : List CodexResetCycle)
      (t : CodexTracker)
      → t.store ≡ record { rows = rows; faults = [] }
      → first_where (is_active account name) rows ≡ some c
      → t.has_last account ≡ true
      → t.last_values account name ≡ some last
      → Follows
          (after_poll last p c)
          p.utilization
          p.resets_at
          (refresh_and_update account (polled p) p.at c t).tracker
  unfolding refresh_and_update update_stats keep_reset keep_value update_codex_cycle
      update_codex_cycle_resets_at
  refresh-Follows p last c rows t e found active seen =
      let peak : (if ltb c.peak_utilization p.utilization
            then p.utilization
            else c.peak_utilization)
          ≡ max c.peak_utilization p.utilization =
        ground arith in
      let delta : (if ltb last p.utilization
            then c.total_delta + (p.utilization - last)
            else c.total_delta)
          ≡ c.total_delta + (p.utilization - last) =
        ground arith in
      let reset_row = record c { resets_at = some p.resets_at } in
      rw (e, active, seen)
        (record {
          faultless = refl;
          found =
              rw (peak, delta)
                (first_where-stats (max c.peak_utilization p.utilization)
                  (c.total_delta + (p.utilization - last)) reset_row _
                  (first_where-resets (some p.resets_at) c rows found));
          resets = refl;
          active = active;
          seen = ground (arith, text_eq_refl name);
        })

  poll-Follows :
      (p : Poll) (last : Value) (stored : Time) (c : CodexResetCycle) (t : CodexTracker)
      → p.at ≤ stored + 2 * minute
      → last ≤ p.utilization + 2 * percent
      → Follows c last stored t
      → Follows
          (after_poll last p c)
          p.utilization
          p.resets_at
          (process_quota account (polled p) p.at t).tracker
  unfolding process_quota query_active_codex_cycle process_found
  poll-Follows p last stored c t early kept h =
      let calm =
        no_drop_no_reset account (polled p) p.at
          (record t { store = record t.store { faults = [] } }) c stored last h.resets early h.seen
          kept in
      rw (h.faultless, h.found, calm)
        (refresh-Follows p last c t.store.rows (record t { store = record t.store { faults = [] } })
          refl h.found h.active h.seen)

  pub process_polls : List Poll → CodexTracker → CodexTracker
  process_polls [] t = t
  process_polls (p ∷ polls) t =
      process_polls polls (process_quota account (polled p) p.at t).tracker

  -- However far the reset time rolls on, the polls stay in one cycle: its start is kept, its reset
  -- time is the last one polled, its peak is the greatest utilization, and its total has gained the
  -- sum of the increases from poll to poll, when no statement fails.
  pub rolling_accounts :
      (polls : List Poll) (last : Value) (stored : Time) (c : CodexResetCycle) (t : CodexTracker)
      → IsRolling last stored polls
      → Follows c last stored t
      → first_where (is_active account name) (process_polls polls t).store.rows
        ≡ some (record c {
          resets_at = some (last_reset stored polls);
          peak_utilization = greatest c.peak_utilization polls;
          total_delta = c.total_delta + increases last polls;
        })
  unfolding IsRolling process_polls greatest increases last_reset
  rolling_accounts [] last stored c t rolling h = ground (arith, h.found, h.resets)
  rolling_accounts (p ∷ polls) last stored c t (early, kept, rolling) h =
      let sum : (c.total_delta + (p.utilization - last)) + increases p.utilization polls
          ≡ c.total_delta + ((p.utilization - last) + increases p.utilization polls) =
        omega arith in
      rw (← sum) (
        rolling_accounts polls p.utilization p.resets_at (after_poll last p c)
          (process_quota account (polled p) p.at t).tracker rolling
          (poll-Follows p last stored c t early kept h))
