-- ===== src/Setup.antt =====
-- The dialogue of `setup` in server/setup.go. Texts are ASCII here, so that their length is in bytes.
-- The input is the list of the lines that are left; at its end `readLine` gives the empty text. What
-- is printed is left out.
pub mod Prompts
pub mod Enough
pub mod Accepted
pub mod EndOfInput
pub mod EnvFile
pub mod Rerun
mod Tests
use one_auth_watch.Prelude.{
  ℕ, suc, ◌+◌, ◌-◌, ◌*◌, ◌≤◌, Bool, true, false, not, ◌&&◌, ◌||◌, Option, none, some, List, [], ◌∷◌,
  ltb, leb, length, ◌==◌, if◌then◌else◌,
}
use one_auth_watch.Prelude.Text.{Text, codes, text_eq, has_prefix, to_lower}
use one_auth_watch.Config.{is_set}
use Prompts.{
  Check, take, again, panic, Prompt, pure, ◌>>=◌, ask, with_default, prompt_yes_no, prompt_secret,
  prompt_choice, atoi,
}

pub record SetupConfig : Type 0 where
  pub synthetic_key : Text
  pub zai_key : Text
  pub zai_base_url : Text
  pub anthropic_token : Text
  pub codex_token : Text
  pub antigravity_enabled : Bool
  pub gemini_enabled : Bool
  pub port : ℕ
  pub poll_interval : ℕ

-- The tokens that `api.DetectAnthropicToken` and `api.DetectCodexToken` find.
pub record Detected : Type 0 where
  pub anthropic : Text
  pub codex : Text

-- The masked key is `key[:6]`, which panics if the key is shorter.
abbrev pub check_synthetic : Text → Check Text
check_synthetic key =
    if has_prefix key (codes "syn_") then if ltb (length key) 6 then panic else take key else again

unfoldable pub collect_synthetic_key : Prompt Text
collect_synthetic_key = ask check_synthetic

abbrev pub check_url : Text → Check Text
check_url line =
    let url = with_default (codes "https://open.bigmodel.cn/api") line in
    if has_prefix url (codes "https://") then take url else again

abbrev pub zai_url : Bool → Prompt Text
zai_url true = pure (codes "https://api.z.ai/api")
zai_url false = ask check_url

unfoldable pub collect_zai_config : Prompt (Text × Text)
collect_zai_config = do
  key ← prompt_secret
  use_default ← prompt_yes_no true
  url ← zai_url use_default
  pure (key, url)

-- `collectAnthropicToken` and `collectCodexToken`
abbrev pub detected_or_secret : Text → Bool → Prompt Text
detected_or_secret token true = pure token
detected_or_secret token false = prompt_secret

unfoldable pub collect_token : Text → Prompt Text
collect_token token =
    if is_set token then prompt_yes_no true >>= detected_or_secret token else prompt_secret

abbrev pub if_yes : {A : Type 0} → A → Prompt A → Bool → Prompt A
if_yes a p true = p
if_yes a p false = pure a

unfoldable pub offer : {A : Type 0} → A → Prompt A → Prompt A
offer a p = prompt_yes_no false >>= if_yes a p

abbrev pub blank : SetupConfig
blank = record {
  synthetic_key = [];
  zai_key = [];
  zai_base_url = [];
  anthropic_token = [];
  codex_token = [];
  antigravity_enabled = false;
  gemini_enabled = false;
  port = 0;
  poll_interval = 0;
}

unfoldable pub collect_multiple_providers : Detected → Prompt SetupConfig
collect_multiple_providers d = do
  synthetic ← offer [] collect_synthetic_key
  zai ← offer ([], []) collect_zai_config
  anthropic ← offer [] (collect_token d.anthropic)
  codex ← offer [] (collect_token d.codex)
  antigravity ← prompt_yes_no false
  gemini ← prompt_yes_no false
  pure (record blank {
    synthetic_key = synthetic;
    zai_key = zai.0;
    zai_base_url = zai.1;
    anthropic_token = anthropic;
    codex_token = codex;
    antigravity_enabled = antigravity;
    gemini_enabled = gemini;
  })

unfoldable pub collect_all : Detected → Prompt SetupConfig
collect_all d = do
  synthetic ← collect_synthetic_key
  zai ← collect_zai_config
  anthropic ← collect_token d.anthropic
  codex ← collect_token d.codex
  pure (record blank {
    synthetic_key = synthetic;
    zai_key = zai.0;
    zai_base_url = zai.1;
    anthropic_token = anthropic;
    codex_token = codex;
    antigravity_enabled = true;
    gemini_enabled = true;
  })

-- The `switch` on the choice.
unfoldable pub collect_choice : Detected → ℕ → Prompt SetupConfig
collect_choice d choice =
    if choice == 1
    then collect_synthetic_key >>= (λ k. pure (record blank { synthetic_key = k }))
    else if choice == 2
    then collect_zai_config >>= (λ z. pure (record blank { zai_key = z.0; zai_base_url = z.1 }))
    else if choice == 3
    then collect_token d.anthropic >>= (λ t. pure (record blank { anthropic_token = t }))
    else if choice == 4
    then collect_token d.codex >>= (λ t. pure (record blank { codex_token = t }))
    else if choice == 5
    then pure (record blank { antigravity_enabled = true })
    else if choice == 6
    then pure (record blank { gemini_enabled = true })
    else if choice == 7
    then collect_multiple_providers d
    else if choice == 8
    then collect_all d
    else pure blank

abbrev pub any_provider : SetupConfig → Bool
any_provider c =
    is_set c.synthetic_key
    || is_set c.zai_key
    || is_set c.anthropic_token
    || is_set c.codex_token
    || c.antigravity_enabled
    || c.gemini_enabled

-- A number within bounds, or the default.
abbrev pub within : ℕ → ℕ → Option ℕ → Check ℕ
within low high none = again
within low high (some n) = if leb low n && leb n high then take n else again

abbrev pub check_port : Text → Check ℕ
check_port line = within 1 65535 (atoi (with_default (codes "9211") line))

abbrev pub check_interval : Text → Check ℕ
check_interval line = within 10 3600 (atoi (with_default (codes "120") line))

unfoldable pub ask_settings : SetupConfig → Prompt (Option SetupConfig)
ask_settings c = do
  port ← ask check_port
  interval ← ask check_interval
  pure (some (record c { port = port; poll_interval = interval }))

-- The optional settings; `none` is the error "at least one provider is required".
unfoldable pub collect_settings : SetupConfig → Prompt (Option SetupConfig)
collect_settings c = if any_provider c then ask_settings c else pure none

unfoldable pub fresh_setup : Detected → Prompt (Option SetupConfig)
fresh_setup d = do
  choice ← prompt_choice 8
  config ← collect_choice d choice
  collect_settings config
