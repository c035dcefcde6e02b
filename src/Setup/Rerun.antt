-- ===== src/Setup/Rerun.antt =====
-- `runSetup` and `addMissingProviders` in server/setup.go. A new file can be written. `opens` says
-- whether an old one can be opened, `found` whether the credentials of the Gemini CLI are there. The
-- result is the file, and whether there was no error.
pub mod Keeps
use one_auth_watch.Prelude.{
  Bool, true, false, ◌&&◌, ◌||◌, Option, none, some, List, [], ◌∷◌, ◌++◌, if◌then◌else◌,
}
use one_auth_watch.Prelude.Text.{Text, codes}
use one_auth_watch.Config.{is_set}
use one_auth_watch.Setup.Prompts.{Prompt, pure, ◌>>=◌, prompt_yes_no}
use one_auth_watch.Setup.{
  SetupConfig, Detected, collect_synthetic_key, collect_zai_config, collect_token, if_yes, offer,
  fresh_setup,
}
use one_auth_watch.Setup.EnvFile.{ExistingEnv, unlines, env_text, load_existing_env}

abbrev pub all_providers_configured : ExistingEnv → Bool
all_providers_configured env =
    is_set env.synthetic_key
    && is_set env.zai_key
    && is_set env.anthropic_token
    && is_set env.codex_token
    && env.antigravity_enabled
    && env.gemini_enabled

abbrev pub any_provider_configured : ExistingEnv → Bool
any_provider_configured env =
    is_set env.synthetic_key
    || is_set env.zai_key
    || is_set env.anthropic_token
    || is_set env.codex_token
    || env.antigravity_enabled
    || env.gemini_enabled

abbrev added_synthetic : Text → List Text
added_synthetic key =
    []
    ∷ codes "# Synthetic API key (https://synthetic.new/settings/api)"
    ∷ (codes "SYNTHETIC_API_KEY=" ++ key)
    ∷ []

abbrev added_zai : Text × Text → List Text
added_zai (key, url) =
    []
    ∷ codes "# Z.ai API key (https://www.z.ai/api-keys)"
    ∷ (codes "ZAI_API_KEY=" ++ key)
    ∷ []
    ∷ codes "# Z.ai base URL"
    ∷ (codes "ZAI_BASE_URL=" ++ url)
    ∷ []

abbrev added_anthropic : Text → Text → List Text
added_anthropic comment token = [] ∷ comment ∷ (codes "ANTHROPIC_TOKEN=" ++ token) ∷ []

abbrev added_codex : Text → List Text
added_codex token = [] ∷ codes "# Codex OAuth token" ∷ (codes "CODEX_TOKEN=" ++ token) ∷ []

abbrev added_antigravity : List Text
added_antigravity =
    []
    ∷ codes "# Antigravity (Windsurf) - auto-detected from local process"
    ∷ codes "ANTIGRAVITY_ENABLED=true"
    ∷ []

abbrev added_gemini : List Text
added_gemini =
    []
    ∷ codes "# Gemini CLI - auto-detected from ~/.gemini/oauth_creds.json"
    ∷ codes "GEMINI_ENABLED=true"
    ∷ []

-- A question whose default is yes.
unfoldable pub suggest : List Text → Prompt (List Text)
suggest lines = prompt_yes_no true >>= if_yes [] (pure lines)

unfoldable pub add_synthetic : Prompt (List Text)
add_synthetic = offer [] (collect_synthetic_key >>= λ key. pure (added_synthetic key))

unfoldable pub add_zai : Prompt (List Text)
add_zai = offer [] (collect_zai_config >>= λ zai. pure (added_zai zai))

unfoldable pub add_anthropic : Text → Prompt (List Text)
add_anthropic detected =
    if is_set detected
    then suggest
        (added_anthropic (codes "# Anthropic token (Claude Code -- auto-detected)") detected)
    else offer [] (
        collect_token detected >>= λ token.
        pure (added_anthropic (codes "# Anthropic token (Claude Code)") token))

unfoldable pub add_codex : Text → Prompt (List Text)
add_codex detected =
    if is_set detected
    then suggest (added_codex detected)
    else offer [] (collect_token detected >>= λ token. pure (added_codex token))

unfoldable pub add_gemini : Bool → Prompt (List Text)
add_gemini found = if found then suggest added_gemini else offer [] (pure added_gemini)

abbrev pub unless_set : Bool → Prompt (List Text) → Prompt (List Text)
unless_set configured p = if configured then pure [] else p

-- The lines that are appended to the file.
unfoldable pub add_missing_providers : Detected → Bool → ExistingEnv → Prompt (List Text)
add_missing_providers d found env = do
  synthetic ← unless_set (is_set env.synthetic_key) add_synthetic
  zai ← unless_set (is_set env.zai_key) add_zai
  anthropic ← unless_set (is_set env.anthropic_token) (add_anthropic d.anthropic)
  codex ← unless_set (is_set env.codex_token) (add_codex d.codex)
  antigravity ← unless_set env.antigravity_enabled (offer [] (pure added_antigravity))
  gemini ← unless_set env.gemini_enabled (add_gemini found)
  pure (synthetic ++ zai ++ anthropic ++ codex ++ antigravity ++ gemini)

abbrev pub SetupEnd : Type 0
SetupEnd = Option Text × Bool

abbrev pub written : Text → Option SetupConfig → SetupEnd
written stamp none = (none, false)
written stamp (some c) = (some (env_text stamp c), true)

unfoldable pub setup_new : Detected → Text → Prompt SetupEnd
setup_new d stamp = fresh_setup d >>= λ c. pure (written stamp c)

unfoldable pub append_missing : Detected → Text → ExistingEnv → Bool → Prompt SetupEnd
append_missing d text env found =
    add_missing_providers d found env >>= λ lines. pure (some (text ++ unlines lines), true)

-- The old file: there is none, it cannot be read, or its text.
pub data OldFile : Type 0 where
  absent unreadable : OldFile
  readable : Text → OldFile

-- What `os.ReadFile` gives.
abbrev pub contents : OldFile → Option Text
contents absent = none
contents unreadable = none
contents (readable text) = some text

-- The file as it was: that of an unreadable one is not known, and no result names it.
abbrev pub text_of : OldFile → Text
text_of absent = []
text_of unreadable = []
text_of (readable text) = text

-- A file without a provider, as one that cannot be read appears to be, is removed.
unfoldable pub setup_again : Detected → Text → Bool → Bool → OldFile → Prompt SetupEnd
setup_again d stamp found opens file =
    let env = load_existing_env found (contents file) in
    if all_providers_configured env
    then pure (some (text_of file), true)
    else if any_provider_configured env
    then (if opens
        then append_missing d (text_of file) env found
        else pure (some (text_of file), false))
    else setup_new d stamp

abbrev pub is_there : OldFile → Bool
is_there absent = false
is_there unreadable = true
is_there (readable text) = true

unfoldable pub run_setup : Detected → Text → Bool → Bool → OldFile → Prompt SetupEnd
run_setup d stamp found opens file =
    if is_there file then setup_again d stamp found opens file else setup_new d stamp
