-- ===== src/Agent/Profiles/Tests.antt =====
-- Scans of the directory of profiles.
use one_auth_watch.Prelude.{◌≡◌, refl, true, none, some, [], ◌∷◌, All, if◌then◌else◌}
use one_auth_watch.Prelude.Text.{codes, text_eq}
use one_auth_watch.Prelude.Maps.{text_key}
use one_auth_watch.Database.Accounts.{ProviderAccount}
use one_auth_watch.Agent.Profiles.{
  CodexProfile, ProfileFile, CodexAgentInstance, CodexAgentManager, ProfilesDir, exists, gone,
  codex, scan_for_profile_changes,
}
use one_auth_watch.Agent.Profiles.OnDisk.{may_run, scan-may_run}

abbrev work_account : ProviderAccount
work_account = record {
  id = 2;
  provider = codex;
  name = codes "work";
  created_at = 100;
  metadata = [];
  deleted_at = none;
  external_id = codes "x";
}

abbrev work : CodexProfile
work = record { name = codes "work"; external_id = codes "x" }

abbrev work_file : ProfileFile
work_file = record { base = codes "work"; modified = 20; profile = some work }

-- A file whose profile has another name.
abbrev other_file : ProfileFile
other_file = record {
  base = codes "old";
  modified = 20;
  profile = some (record work { name = codes "new" });
}

abbrev instance_of_work : CodexAgentInstance
instance_of_work = record { run = 4; db_account_id = 2 }

abbrev manager : CodexAgentManager
manager = record {
  store = record {
    tables = record { accounts = work_account ∷ []; next_id = 3; snapshots = []; cycles = [] };
    faults = [];
  };
  instances = (codes "work", instance_of_work) ∷ [];
  last_scan_profiles = (codes "work", 10) ∷ [];
  live = (codes "work", 4) ∷ [];
  cancelled = [];
  next_run = 5;
}

-- The file `old.json` holds a profile with another name, of which there is no file.
abbrev two_files : ProfilesDir
two_files = record {
  is_set = true;
  entries = some (work_file ∷ other_file ∷ []);
  stat = λ n. if text_eq n (codes "new") then gone else exists;
}

scan-may_run_example :
    All
      (λ i. may_run two_files i.0 ≡ true)
      (scan_for_profile_changes 300 two_files manager).instances
scan-may_run_example = scan-may_run 300 two_files (work_file ∷ other_file ∷ []) manager refl refl

-- Another file, of which the last scan knows.
abbrev home_file : ProfileFile
home_file = record { base = codes "home"; modified = 20; profile = none }

abbrev two_known : CodexAgentManager
two_known = record manager {
  last_scan_profiles = (codes "work", 10) ∷ (codes "home", 20) ∷ [];
  cancelled = 3 ∷ [];
}

abbrev one_modified : ProfilesDir
one_modified = record {
  is_set = true;
  entries = some (work_file ∷ home_file ∷ []);
  stat = λ n. exists;
}
