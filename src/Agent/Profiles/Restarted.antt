-- ===== src/Agent/Profiles/Restarted.antt =====
-- A profile that is modified gets a new agent, and the end of the old one takes it out of the map.
use one_auth_watch.Prelude.{◌≡◌, true, false, Option, some}
use one_auth_watch.Prelude.Clock.{Time, after}
use one_auth_watch.Prelude.Text.{Text}
use one_auth_watch.Prelude.Maps.{lookup, text_key}
use one_auth_watch.Database.Accounts.{ProviderAccount, Store}
use one_auth_watch.Database.Accounts.External.{get_or_create_by_external_id}
use one_auth_watch.Agent.Profiles.{
  CodexProfile, ProfileFile, CodexAgentInstance, CodexAgentManager, codex, named, stop_found,
}

-- A file that was not modified since the last scan.
abbrev IsQuiet : CodexAgentManager → ProfileFile → Type 0
IsQuiet m g =
    (t : Time) × ((lookup g.base m.last_scan_profiles ≡ some t) × (after g.modified t ≡ false))

module _ (now : Time) (f : ProfileFile) (p : CodexProfile) (last : Time) (old : CodexAgentInstance)
    (a : ProviderAccount) (m : CodexAgentManager) (modified : after f.modified last ≡ true)
    (read : f.profile ≡ some p) (same : named f.base p ≡ p) (name : p.name ≡ f.base)
    (running : lookup f.base m.instances ≡ some old)
    (stored : (get_or_create_by_external_id now codex p.name p.external_id m.store).1
      ≡ some a) where
  abbrev stopped : CodexAgentManager
  stopped = stop_found f.base (some old) m

  abbrev answer : Store × Option ProviderAccount
  answer = get_or_create_by_external_id now codex p.name p.external_id m.store
