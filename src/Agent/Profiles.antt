-- ===== src/Agent/Profiles.antt =====
-- `CodexAgentManager` of server/internal/agent/codex_agent_manager.go: an agent for each Codex profile
-- on disk, and the accounts of the profiles. A run is the goroutine of an agent; it has a number.
pub mod OnDisk
pub mod Restarted
mod Tests
use one_auth_watch.Prelude.{
  ℕ, suc, Bool, true, false, not, ◌&&◌, ◌||◌, Option, none, some, List, [], ◌∷◌, ltb, ◌==◌, keep,
  map, if◌then◌else◌,
}
use one_auth_watch.Prelude.Clock.{Time, after}
use one_auth_watch.Prelude.Text.{Text, codes, text_eq}
use one_auth_watch.Prelude.Maps.{Assoc, lookup, insert, remove, is_some, text_key}
use one_auth_watch.Database.Accounts.{
  ProviderAccount, Store, mark_provider_account_deleted, query_active_provider_accounts,
}
use one_auth_watch.Database.Accounts.External.{get_or_create_by_external_id}
use one_auth_watch.Database.Accounts.Merging.{deduplicate_provider_accounts}

-- A profile as it was read, with the external id that its tokens give.
pub record CodexProfile : Type 0 where
  pub name : Text
  pub external_id : Text

-- A file `base.json` of the directory; `none` is a file that cannot be read.
pub record ProfileFile : Type 0 where
  pub base : Text
  pub modified : Time
  pub profile : Option CodexProfile

-- What `os.Stat` says of the file of a profile.
pub data Stat : Type 0 where
  exists gone stat_failed : Stat

-- The directory: whether its name is not empty, its files that can be listed (`none` where `os.ReadDir`
-- fails), and the files by the names of their profiles.
pub record ProfilesDir : Type 0 where
  pub is_set : Bool
  pub entries : Option (List ProfileFile)
  pub stat : Text → Stat

abbrev pub is_gone : Stat → Bool
is_gone exists = false
is_gone gone = true
is_gone stat_failed = false

abbrev pub is_found : Stat → Bool
is_found exists = true
is_found gone = false
is_found stat_failed = false

pub record CodexAgentInstance : Type 0 where
  pub run : ℕ
  pub db_account_id : ℕ

-- `live` has the runs that go on, `cancelled` those whose context was cancelled.
pub record CodexAgentManager : Type 0 where
  pub store : Store
  pub instances : Assoc Text CodexAgentInstance
  pub last_scan_profiles : Assoc Text Time
  pub live : List (Text × ℕ)
  pub cancelled : List ℕ
  pub next_run : ℕ

abbrev pub codex : Text
codex = codes "codex"

abbrev pub default_name : Text
default_name = codes "default"

-- The flag of a start is an error.
abbrev pub started :
    CodexProfile → Store × Option ProviderAccount → CodexAgentManager → CodexAgentManager × Bool
started p (s, none) m = (record m { store = s }, true)
started p (s, some a) m = (
  record m {
    store = s;
    instances = insert p.name (record { run = m.next_run; db_account_id = a.id }) m.instances;
    live = (p.name, m.next_run) ∷ m.live;
    next_run = suc m.next_run;
  },
  false,
)

unfoldable pub start_agent_for_profile :
    Time → CodexProfile → CodexAgentManager → CodexAgentManager × Bool
start_agent_for_profile now p m =
    started p (get_or_create_by_external_id now codex p.name p.external_id m.store) m

-- The name of a profile that has none is that of its file.
abbrev pub named : Text → CodexProfile → CodexProfile
named base p = if text_eq p.name [] then record p { name = base } else p

abbrev pub start_unless_running : Time → CodexProfile → CodexAgentManager → CodexAgentManager × Bool
start_unless_running now p m =
    if is_some (lookup p.name m.instances) then (m, false) else start_agent_for_profile now p m

abbrev pub load_read :
    Time → Text → Option CodexProfile → CodexAgentManager → CodexAgentManager × Bool
load_read now base none m = (m, true)
load_read now base (some p) m = start_unless_running now (named base p) m

unfoldable pub load_and_start_profile :
    Time → ProfileFile → CodexAgentManager → CodexAgentManager × Bool
load_and_start_profile now f m = load_read now f.base f.profile m

abbrev pub stop_found : Text → Option CodexAgentInstance → CodexAgentManager → CodexAgentManager
stop_found name none m = m
stop_found name (some i) m = record m {
  instances = remove name m.instances;
  cancelled = i.run ∷ m.cancelled;
}

unfoldable pub stop_agent : Text → CodexAgentManager → CodexAgentManager
stop_agent name m = stop_found name (lookup name m.instances) m

abbrev pub note_scan : ProfileFile → CodexAgentManager → CodexAgentManager
note_scan f m = record m { last_scan_profiles = insert f.base f.modified m.last_scan_profiles }

-- A file that is new or was modified since the last scan.
unfoldable pub scan_known : Time → ProfileFile → Option Time → CodexAgentManager → CodexAgentManager
scan_known now f none m = note_scan f (load_and_start_profile now f m).0
scan_known now f (some last) m =
    if after f.modified last
    then note_scan f (load_and_start_profile now f (stop_agent f.base m)).0
    else m

unfoldable pub scan_files : Time → List ProfileFile → CodexAgentManager → CodexAgentManager
scan_files now [] m = m
scan_files now (f ∷ files) m =
    scan_files now files (scan_known now f (lookup f.base m.last_scan_profiles) m)

abbrev pub forget : Time → Text → CodexAgentManager → CodexAgentManager
forget now name m = record m {
  last_scan_profiles = remove name m.last_scan_profiles;
  store = (mark_provider_account_deleted now codex name m.store).0;
}

-- The loop over the names of the instances that are not the default one.
unfoldable pub stop_deleted : Time → ProfilesDir → List Text → CodexAgentManager → CodexAgentManager
stop_deleted now dir [] m = m
stop_deleted now dir (name ∷ names) m =
    stop_deleted now dir names
      (if is_gone (dir.stat name) then forget now name (stop_agent name m) else m)

abbrev pub profile_names : Assoc Text CodexAgentInstance → List Text
profile_names instances = keep (λ name. not (text_eq name default_name)) (map (λ i. i.0) instances)

abbrev pub scan_listed :
    Time → ProfilesDir → Option (List ProfileFile) → CodexAgentManager → CodexAgentManager
scan_listed now dir none m = m
scan_listed now dir (some files) m =
    let m' = scan_files now files m in stop_deleted now dir (profile_names m'.instances) m'

unfoldable pub scan_for_profile_changes : Time → ProfilesDir → CodexAgentManager → CodexAgentManager
scan_for_profile_changes now dir m = if dir.is_set then scan_listed now dir dir.entries m else m

-- The end of the goroutine of a run removes the entry of its profile.
unfoldable pub on_exit : Text → ℕ → CodexAgentManager → CodexAgentManager
on_exit name run m = record m {
  instances = remove name m.instances;
  live = keep (λ l. not (l.1 == run)) m.live;
}

-- The start: the profiles, the default agent if there are none, the accounts without an agent and the
-- duplicates. `default_profile` is what `api.DetectCodexCredentials` finds.
unfoldable pub load_each : Time → List ProfileFile → CodexAgentManager → CodexAgentManager
load_each now [] m = m
load_each now (f ∷ files) m =
    let (m', failed) = load_and_start_profile now f m in
    load_each now files (if failed then m' else note_scan f m')

abbrev load_listed : Time → Option (List ProfileFile) → CodexAgentManager → CodexAgentManager
load_listed now none m = m
load_listed now (some files) m = load_each now files m

unfoldable pub load_and_start_profiles : Time → ProfilesDir → CodexAgentManager → CodexAgentManager
load_and_start_profiles now dir m = if dir.is_set then load_listed now dir.entries m else m

abbrev start_default : Time → Option CodexProfile → CodexAgentManager → CodexAgentManager
start_default now none m = m
start_default now (some p) m = (start_agent_for_profile now (record p { name = default_name }) m).0

abbrev has_profiles : Assoc Text CodexAgentInstance → Bool
has_profiles [] = false
has_profiles (i ∷ instances) = true

unfoldable pub mark_each :
    Time → ProfilesDir → List ProviderAccount → CodexAgentManager → CodexAgentManager
mark_each now dir [] m = m
mark_each now dir (a ∷ accounts) m = mark_each now dir accounts (
    if is_some (lookup a.name m.instances) || dir.is_set && is_found (dir.stat a.name)
    then m
    else record m { store = (mark_provider_account_deleted now codex a.name m.store).0 })

abbrev mark_found :
    Time → ProfilesDir → Option (List ProviderAccount) → CodexAgentManager → CodexAgentManager
mark_found now dir none m = m
mark_found now dir (some accounts) m = mark_each now dir accounts m

unfoldable pub mark_orphaned_accounts_deleted :
    Time → ProfilesDir → CodexAgentManager → CodexAgentManager
mark_orphaned_accounts_deleted now dir m =
    let (s, accounts) = query_active_provider_accounts codex m.store in
    mark_found now dir accounts (record m { store = s })

unfoldable pub start :
    Time → ProfilesDir → Option CodexProfile → CodexAgentManager → CodexAgentManager
start now dir default_profile m =
    let loaded = load_and_start_profiles now dir m in
    let running =
      if has_profiles loaded.instances then loaded else start_default now default_profile loaded in
    let marked = mark_orphaned_accounts_deleted now dir running in
    record marked { store = (deduplicate_provider_accounts now codex marked.store).store }
