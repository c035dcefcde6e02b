-- ===== src/Agent/Codex/Tests.antt =====
-- Runs of the Codex agent.
use one_auth_watch.Prelude.{◌*◌, ◌≡◌, refl, true, false, none, some, List, [], ◌∷◌, arith, length}
use one_auth_watch.Prelude.Clock.{hour}
use one_auth_watch.Prelude.Text.{Text, codes, text_eq, text_eq_refl}
use one_auth_watch.SessionManager.{new_session_manager}
use one_auth_watch.SessionManager.Tracking.{new-IsTracked}
use one_auth_watch.Tracker.Codex.{CodexTracker}
use one_auth_watch.Agent.Codex.{
  CodexCredentials, refused, usage, auth_error, CodexAgent, Poll, is_expiring_soon, poll, polls,
  requests,
}
use one_auth_watch.Agent.Codex.Paused.{IsUnchanged, paused_until_new_token}
use one_auth_watch.Agent.Codex.Failures.{IsRejected, rejected_polls_pause}
use one_auth_watch.Agent.Codex.Resume.{IsFresh, new_token_resumes, refused_refresh_pauses_again}
use one_auth_watch.Agent.Codex.Sound.{Unique, Tracked, polls-IsSound}

abbrev token_a : Text
token_a = codes "a1"

abbrev token_b : Text
token_b = codes "b2"

abbrev no_cycles : CodexTracker
no_cycles = record {
  store = record { rows = []; faults = true ∷ [] };
  last_values = λ account name. none;
  last_resets = λ account name. none;
  has_last = λ account. false;
}

abbrev fresh_agent : CodexAgent
fresh_agent = record {
  account_id = 1;
  token = [];
  last_token = [];
  auth_fail_count = 0;
  auth_paused = false;
  last_failed_token = [];
  proactive_refresh_failures = 0;
  has_notifier = true;
  snapshots = record { rows = []; faults = [] };
  tracker = some no_cycles;
  sm = some (new_session_manager (record { rows = []; faults = [] }) (codes "codex") (1 * hour));
  sent = [];
}

abbrev lasting : CodexCredentials
lasting = record { access_token = token_a; refresh_token = codes "r1"; expires_at = 200 * hour }

abbrev rejected : Poll
rejected = record {
  polling = true;
  credentials = some lasting;
  refresh = λ r. refused;
  save_failed = false;
  disk_token = some token_a;
  disk_token_again = token_a;
  fetch = λ t. auth_error;
  fetch_again = λ t. auth_error;
  cancelled = false;
  cancelled_again = false;
  now = 100 * hour;
  uuid = 7;
}

rejected-IsRejected : IsRejected token_a rejected
unfolding is_expiring_soon
rejected-IsRejected = record {
  on = refl;
  same = λ c e. ground arith;
  fresh = λ c e. ground arith;
  disk = refl;
  again = refl;
  first = λ u. refl;
  second = λ u. refl;
  going = refl;
  going_on = refl;
}

abbrev night : List Poll
night = rejected ∷ rejected ∷ rejected ∷ rejected ∷ rejected ∷ []

rejected_polls_pause_example :
    ((polls night fresh_agent).auth_paused ≡ true)
    × (length (requests (polls night fresh_agent).sent) ≡ 6)
rejected_polls_pause_example =
    rejected_polls_pause token_a night fresh_agent refl
      (
        rejected-IsRejected,
        (
          rejected-IsRejected,
          (rejected-IsRejected, (rejected-IsRejected, (rejected-IsRejected, tt))),
        ),
      )
      refl refl

abbrev paused_agent : CodexAgent
paused_agent = record fresh_agent {
  last_token = token_a;
  token = token_a;
  auth_paused = true;
  last_failed_token = token_a;
  proactive_refresh_failures = 3;
}

abbrev expiring : CodexCredentials
expiring = record { access_token = token_a; refresh_token = codes "r1"; expires_at = 101 * hour }

abbrev refusing : Poll
refusing = record rejected { credentials = some expiring }

refusing-IsUnchanged : IsUnchanged token_a refusing
unfolding text_eq
refusing-IsUnchanged = record {
  disk = λ d e named. ground (arith, text_eq_refl token_a);
  same = λ c e. ground arith;
  kept = λ c new e soon renewing. ground arith;
}

paused_until_new_token_example :
    (requests (polls (refusing ∷ refusing ∷ []) paused_agent).sent ≡ [])
    × ((polls (refusing ∷ refusing ∷ []) paused_agent).auth_paused ≡ true)
paused_until_new_token_example =
    paused_until_new_token token_a (refusing ∷ refusing ∷ []) paused_agent refl refl
      (refusing-IsUnchanged, (refusing-IsUnchanged, tt))

-- The disk has a new token, and the API answers.
abbrev lasting_b : CodexCredentials
lasting_b = record { access_token = token_b; refresh_token = codes "r2"; expires_at = 200 * hour }

abbrev renewed_poll : Poll
renewed_poll = record rejected {
  credentials = some lasting_b;
  disk_token = some token_b;
  fetch = λ t. usage [];
}

renewed_poll-IsFresh : IsFresh renewed_poll
unfolding is_expiring_soon
renewed_poll-IsFresh c e = ground arith

new_token_resumes_example :
    ((poll renewed_poll paused_agent).auth_paused ≡ false)
    × ((poll renewed_poll paused_agent).auth_fail_count ≡ 0)
    × (requests (poll renewed_poll paused_agent).sent ≡ token_b ∷ [])
unfolding text_eq
new_token_resumes_example =
    new_token_resumes renewed_poll token_b [] paused_agent refl refl renewed_poll-IsFresh refl refl
      refl refl refl

abbrev expiring_b : CodexCredentials
expiring_b = record { access_token = token_b; refresh_token = codes "r2"; expires_at = 101 * hour }

abbrev refusing_b : Poll
refusing_b = record renewed_poll { credentials = some expiring_b }

refused_refresh_pauses_again_example :
    (poll refusing_b (polls (renewed_poll ∷ []) paused_agent)).auth_paused ≡ true
unfolding is_expiring_soon
refused_refresh_pauses_again_example =
    refused_refresh_pauses_again (renewed_poll ∷ []) refusing_b expiring_b paused_agent refl
      (renewed_poll-IsFresh, tt) refl refl refl refl refl refl

polls-IsSound_example :
    Unique (polls (renewed_poll ∷ night) fresh_agent).tracker
    × Tracked (polls (renewed_poll ∷ night) fresh_agent).sm
polls-IsSound_example =
    polls-IsSound (renewed_poll ∷ night) fresh_agent (λ a q. omega arith)
      (new-IsTracked (record { rows = []; faults = [] }) (codes "codex") (1 * hour))
