-- ===== src/Agent/Profiles/OnDisk.antt =====
-- After a scan, only profiles whose file is not gone have an agent in the map.
use one_auth_watch.Prelude.{
  inl, inr, ◌≡◌, refl, Bool, true, false, not, ◌||◌, Option, none, some, List, [], ◌∷◌, arith, All,
  Bool-cases, if◌then◌else◌,
}
use mathlib.Core.Path.{subst}
use one_auth_watch.Prelude.Clock.{Time}
use one_auth_watch.Prelude.Text.{Text, text_eq, text_eq_iff, text_eq_refl}
use one_auth_watch.Prelude.Maps.{Assoc, lookup, remove, text_key}
use one_auth_watch.Agent.Profiles.{
  ProfileFile, CodexAgentInstance, CodexAgentManager, default_name, stop_found, stop_agent,
  ProfilesDir, is_gone, forget, stop_deleted, profile_names, scan_files, scan_for_profile_changes,
}

abbrev member : Text → List Text → Bool
member name [] = false
member name (n ∷ names) = text_eq n name || member name names

-- The default profile, or one whose file is not reported as gone.
abbrev pub may_run : ProfilesDir → Text → Bool
may_run dir name = text_eq name default_name || not (is_gone (dir.stat name))

All-weaken :
    {A : Type 0} (P Q : A → Type 0) (xs : List A) → ((x : A) → P x → Q x) → All P xs → All Q xs
All-weaken P Q [] h all = tt
All-weaken P Q (x ∷ xs) h (first, rest) = (h x first, All-weaken P Q xs h rest)

module _ (dir : ProfilesDir) where
  -- Each entry may run, or is still to be looked at.
  abbrev Listed : List Text → Assoc Text CodexAgentInstance → Type 0
  Listed names = All λ i. (may_run dir i.0 || member i.0 names) ≡ true

  all-Listed :
      (instances : Assoc Text CodexAgentInstance) → Listed (profile_names instances) instances
  all-Listed [] = tt
  all-Listed (i ∷ instances) = (here, All-weaken _ _ instances later (all-Listed instances))
    where
      here : (may_run dir i.0 || member i.0 (profile_names (i ∷ instances))) ≡ true
      here = ground (arith, text_eq_refl i.0)

      later :
          (j : Text × CodexAgentInstance)
          → (may_run dir j.0 || member j.0 (profile_names instances)) ≡ true
          → (may_run dir j.0 || member j.0 (profile_names (i ∷ instances))) ≡ true
      later j h = ground (arith, h)

  -- An entry that is not the one that was looked at.
  removed-Listed :
      (name : Text) (names : List Text) (instances : Assoc Text CodexAgentInstance)
      → Listed (name ∷ names) instances
      → Listed names (remove name instances)
  unfolding remove
  removed-Listed name names [] h = tt
  removed-Listed name names (i ∷ instances) (first, rest) = elim (Bool-cases (text_eq i.0 name)) [
    | inl e ↦ rw e (removed-Listed name names instances rest)
    | inr e ↦
        let apart : text_eq name i.0 ≡ false =
          ground (arith, text_eq_iff name i.0, text_eq_iff i.0 name) in
        rw e (ground (arith, first, apart), removed-Listed name names instances rest)
  ]

  -- Where no entry has the name, there is nothing to remove.
  absent-Listed :
      (name : Text) (names : List Text) (instances : Assoc Text CodexAgentInstance)
      → lookup name instances ≡ none
      → Listed (name ∷ names) instances
      → Listed names instances
  unfolding lookup
  absent-Listed name names [] gone h = tt
  absent-Listed name names (i ∷ instances) gone (first, rest) =
      let apart : text_eq i.0 name ≡ false = ground arith in
      let other : text_eq name i.0 ≡ false =
        ground (arith, text_eq_iff name i.0, text_eq_iff i.0 name) in
      (ground (arith, first, other), absent-Listed name names instances (ground arith) rest)

  stopped-Listed :
      (name : Text) (names : List Text) (o : Option CodexAgentInstance) (m : CodexAgentManager)
      → lookup name m.instances ≡ o
      → Listed (name ∷ names) m.instances
      → Listed names (stop_found name o m).instances
  stopped-Listed name names none m e h = absent-Listed name names m.instances e h
  stopped-Listed name names (some i) m e h = removed-Listed name names m.instances h

  running-Listed :
      (name : Text) (names : List Text) (instances : Assoc Text CodexAgentInstance)
      → is_gone (dir.stat name) ≡ false
      → Listed (name ∷ names) instances
      → Listed names instances
  running-Listed name names instances there h =
      All-weaken _ _ instances
        (λ i l. elim (Bool-cases (text_eq name i.0)) [
          | inl e ↦
              let same : name ≡ i.0 = (text_eq_iff name i.0).0 e in
              let found : is_gone (dir.stat i.0) ≡ false =
                subst (λ n. is_gone (dir.stat n) ≡ false) same there in
              ground (arith, found)
          | inr e ↦ ground (arith, l, e)
        ])
        h

  either-Listed :
      (names : List Text) (b : Bool) (m m' : CodexAgentManager)
      → Listed names m.instances
      → (b ≡ false → Listed names m'.instances)
      → Listed names (if b then m else m').instances
  either-Listed names true m m' h h' = h
  either-Listed names false m m' h h' = h' refl

  stop_deleted-Listed :
      (now : Time) (names : List Text) (m : CodexAgentManager)
      → Listed names m.instances
      → All (λ i. may_run dir i.0 ≡ true) (stop_deleted now dir names m).instances
  unfolding stop_deleted stop_agent
  stop_deleted-Listed now [] m h = All-weaken _ _ m.instances (λ i l. ground (arith, l)) h
  stop_deleted-Listed now (name ∷ names) m h =
      let stopped = forget now name (stop_agent name m) in
      stop_deleted-Listed now names (if is_gone (dir.stat name) then stopped else m) (
        either-Listed names (is_gone (dir.stat name)) stopped m
          (stopped-Listed name names (lookup name m.instances) m refl h)
          (λ e. running-Listed name names m.instances e h))

-- After a scan of a directory that is named and can be listed, whatever the profiles and whatever
-- statements fail: every agent in the map is that of the default profile, or of a profile whose file
-- is not reported as gone.
pub scan-may_run :
    (now : Time) (dir : ProfilesDir) (files : List ProfileFile) (m : CodexAgentManager)
    → dir.is_set ≡ true
    → dir.entries ≡ some files
    → All (λ i. may_run dir i.0 ≡ true) (scan_for_profile_changes now dir m).instances
unfolding scan_for_profile_changes stop_deleted
scan-may_run now dir files m named listed =
    let m' = scan_files now files m in
    rw (named, listed)
      (stop_deleted-Listed dir now (profile_names m'.instances) m' (all-Listed dir m'.instances))
