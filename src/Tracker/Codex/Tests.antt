-- ===== src/Tracker/Codex/Tests.antt =====
-- Runs of the Codex tracker.
use one_auth_watch.Prelude.{ℕ, ◌+◌, ◌*◌, ◌≡◌, refl, true, some, List, [], ◌∷◌, arith}
use one_auth_watch.Prelude.Clock.{Time, hour}
use one_auth_watch.Prelude.Text.{Text, codes, text_eq}
use one_auth_watch.Database.Fault.{first_where}
use one_auth_watch.Database.CodexCycles.{CodexResetCycle, is_active, new_cycle}
use one_auth_watch.Tracker.Codex.{CodexTracker, percent}
use one_auth_watch.Tracker.Codex.Rolling.{
  Poll, IsRolling, greatest, increases, last_reset, Follows, process_polls, rolling_accounts,
}

abbrev five_hour : Text
five_hour = codes "five_hour"

abbrev current : CodexResetCycle
current = record (new_cycle 1 five_hour (1 * hour) (some (6 * hour))) {
  peak_utilization = 40 * percent;
}

abbrev tracker : CodexTracker
tracker = record {
  store = record { rows = current ∷ []; faults = [] };
  last_values = λ account name. some (40 * percent);
  last_resets = λ account name. some (6 * hour);
  has_last = λ account. true;
}

abbrev poll : Time → ℕ → Time → Poll
poll at percents resets_at = record {
  at = at;
  utilization = percents * percent;
  resets_at = resets_at;
}

abbrev polls : List Poll
polls =
    poll (2 * hour) 41 (7 * hour)
    ∷ poll (5 * hour) 40 (10 * hour)
    ∷ poll (9 * hour) 45 (14 * hour)
    ∷ []

polls_roll : IsRolling (40 * percent) (6 * hour) polls
unfolding IsRolling
polls_roll = ground arith

tracker-Follows : Follows 1 five_hour current (40 * percent) (6 * hour) tracker
unfolding text_eq
tracker-Follows = record {
  faultless = refl;
  found = refl;
  resets = refl;
  active = refl;
  seen = refl;
}

rolling_accounts_example :
    first_where (is_active 1 five_hour) (process_polls 1 five_hour polls tracker).store.rows
    ≡ some (record current {
      resets_at = some (last_reset (6 * hour) polls);
      peak_utilization = greatest (40 * percent) polls;
      total_delta = 0 + increases (40 * percent) polls;
    })
rolling_accounts_example =
    rolling_accounts 1 five_hour polls (40 * percent) (6 * hour) current tracker polls_roll
      tracker-Follows

polls_numbers :
    (greatest (40 * percent) polls ≡ 45 * percent) × (increases (40 * percent) polls ≡ 6 * percent)
unfolding greatest increases
polls_numbers = (refl, refl)
