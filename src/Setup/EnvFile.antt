-- ===== src/Setup/EnvFile.antt =====
-- The .env file in server/setup.go: `writeEnvFile` and `loadExistingEnv`. The file is its text, and
-- `none` is a file that cannot be read. The time in its head is a parameter, `stamp`, and so is
-- whether the credentials of the Gemini CLI are found in the home directory.
pub mod Lines
pub mod RoundTrip
pub mod Yields
pub mod Plain
use one_auth_watch.Prelude.{
  ℕ, zero, suc, ◌+◌, ◌/◌, ◌%◌, Bool, true, false, ◌||◌, Option, none, some, List, [], ◌∷◌, ◌++◌,
  ltb, ◌==◌, if◌then◌else◌,
}
use one_auth_watch.Prelude.Text.{Text, codes, text_eq, has_prefix, trim_space}
use one_auth_watch.Config.{is_set}
use one_auth_watch.Setup.{SetupConfig}

pub record ExistingEnv : Type 0 where
  pub synthetic_key : Text
  pub zai_key : Text
  pub anthropic_token : Text
  pub codex_token : Text
  pub antigravity_enabled : Bool
  pub gemini_enabled : Bool

abbrev pub empty_env : ExistingEnv
empty_env = record {
  synthetic_key = [];
  zai_key = [];
  anthropic_token = [];
  codex_token = [];
  antigravity_enabled = false;
  gemini_enabled = false;
}

-- `%d`, with a bound on the number of digits
unfoldable pub decimal : ℕ → ℕ → Text
decimal zero n = []
decimal (suc k) n =
    let rest = decimal k (n / 10) in if ltb n 10 then (48 + n) ∷ [] else rest ++ (48 + n % 10) ∷ []

-- Lines, each with its end.
unfoldable pub unlines : List Text → Text
unlines [] = []
unlines (line ∷ rest) = line ++ 10 ∷ unlines rest

abbrev pub section : Bool → List Text → List Text
section true lines = lines
section false lines = []

abbrev pub env_head : Text → List Text
env_head stamp =
    codes "# ==============================================================="
    ∷ codes "# OneAuthWatch Configuration"
    ∷ (codes "# Generated by 'oneauthwatch-server setup' on " ++ stamp)
    ∷ codes "# ==============================================================="
    ∷ []
    ∷ []

abbrev pub synthetic_lines : Text → List Text
synthetic_lines key =
    codes "# Synthetic API key (https://synthetic.new/settings/api)"
    ∷ (codes "SYNTHETIC_API_KEY=" ++ key)
    ∷ []
    ∷ []

abbrev pub zai_lines : Text → Text → List Text
zai_lines key url =
    codes "# Z.ai API key (https://www.z.ai/api-keys)"
    ∷ (codes "ZAI_API_KEY=" ++ key)
    ∷ []
    ∷ codes "# Z.ai base URL"
    ∷ (codes "ZAI_BASE_URL=" ++ url)
    ∷ []
    ∷ []

abbrev pub anthropic_lines : Text → List Text
anthropic_lines token =
    codes "# Anthropic token (Claude Code)" ∷ (codes "ANTHROPIC_TOKEN=" ++ token) ∷ [] ∷ []

abbrev pub codex_lines : Text → List Text
codex_lines token = codes "# Codex OAuth token" ∷ (codes "CODEX_TOKEN=" ++ token) ∷ [] ∷ []

abbrev pub antigravity_lines : List Text
antigravity_lines =
    codes "# Antigravity (Windsurf) - auto-detected from local process"
    ∷ codes "ANTIGRAVITY_ENABLED=true"
    ∷ []
    ∷ []

abbrev pub gemini_lines : List Text
gemini_lines =
    codes "# Gemini CLI - auto-detected from ~/.gemini/oauth_creds.json"
    ∷ codes "GEMINI_ENABLED=true"
    ∷ []
    ∷ []

abbrev pub env_foot : ℕ → ℕ → List Text
env_foot interval port =
    codes "# Optional dashboard auth (disabled by default)"
    ∷ codes "# ONEAUTHWATCH_ADMIN_USER="
    ∷ codes "# ONEAUTHWATCH_ADMIN_PASS="
    ∷ []
    ∷ codes "# Polling interval in seconds (10-3600)"
    ∷ (codes "ONEAUTHWATCH_POLL_INTERVAL=" ++ decimal 20 interval)
    ∷ []
    ∷ codes "# Dashboard port"
    ∷ (codes "ONEAUTHWATCH_PORT=" ++ decimal 20 port)
    ∷ []

abbrev pub env_parts : Text → SetupConfig → List (List Text)
env_parts stamp c =
    env_head stamp
    ∷ section (is_set c.synthetic_key) (synthetic_lines c.synthetic_key)
    ∷ section (is_set c.zai_key) (zai_lines c.zai_key c.zai_base_url)
    ∷ section (is_set c.anthropic_token) (anthropic_lines c.anthropic_token)
    ∷ section (is_set c.codex_token) (codex_lines c.codex_token)
    ∷ section c.antigravity_enabled antigravity_lines
    ∷ section c.gemini_enabled gemini_lines
    ∷ env_foot c.poll_interval c.port
    ∷ []

abbrev pub joined : List (List Text) → List Text
joined [] = []
joined (part ∷ parts) = part ++ joined parts

unfoldable pub env_lines : Text → SetupConfig → List Text
env_lines stamp c = joined (env_parts stamp c)

-- The text that `writeEnvFile` writes.
abbrev pub env_text : Text → SetupConfig → Text
env_text stamp c = unlines (env_lines stamp c)

-- `strings.Split(data, "\n")`
abbrev pub onto_first : ℕ → List Text → List Text
onto_first c [] = (c ∷ []) ∷ []
onto_first c (line ∷ rest) = (c ∷ line) ∷ rest

unfoldable pub split_lines : Text → List Text
split_lines [] = [] ∷ []
split_lines (c ∷ s) = let rest = split_lines s in if c == 10 then [] ∷ rest else onto_first c rest

-- `strings.SplitN(line, "=", 2)`; `none` is a line without the sign.
abbrev pub onto_key : ℕ → Option (Text × Text) → Option (Text × Text)
onto_key c none = none
onto_key c (some (key, val)) = some (c ∷ key, val)

unfoldable pub cut : Text → Option (Text × Text)
cut [] = none
cut (c ∷ s) = let rest = cut s in if c == 61 then some ([], s) else onto_key c rest

-- The `switch` on the key.
unfoldable pub assign : ExistingEnv → Option (Text × Text) → ExistingEnv
assign env none = env
assign env (some (key, val)) =
    if text_eq key (codes "SYNTHETIC_API_KEY")
    then record env { synthetic_key = val }
    else if text_eq key (codes "ZAI_API_KEY")
    then record env { zai_key = val }
    else if text_eq key (codes "ANTHROPIC_TOKEN")
    then record env { anthropic_token = val }
    else if text_eq key (codes "CODEX_TOKEN")
    then record env { codex_token = val }
    else if text_eq key (codes "ANTIGRAVITY_ENABLED")
    then record env { antigravity_enabled = text_eq val (codes "true") }
    else if text_eq key (codes "GEMINI_ENABLED")
    then record env { gemini_enabled = text_eq val (codes "true") }
    else env

unfoldable pub read_trimmed : ExistingEnv → Text → ExistingEnv
read_trimmed env [] = env
read_trimmed env (c ∷ s) = if has_prefix (c ∷ s) (codes "#") then env else assign env (cut (c ∷ s))

unfoldable pub load_lines : ExistingEnv → List Text → ExistingEnv
load_lines env [] = env
load_lines env (line ∷ rest) = load_lines (read_trimmed env (trim_space line)) rest

unfoldable pub load_existing_env : Bool → Option Text → ExistingEnv
load_existing_env found none = empty_env
load_existing_env found (some text) =
    let env = load_lines empty_env (split_lines text) in
    record env { gemini_enabled = env.gemini_enabled || found }
