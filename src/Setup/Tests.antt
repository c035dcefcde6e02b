-- ===== src/Setup/Tests.antt =====
-- Runs of the dialogue.
use one_auth_watch.Prelude.{◌≡◌, refl, true, false, some, [], ◌∷◌, arith}
use one_auth_watch.Prelude.Text.{newline_free, codes, text_eq, trim_space}
use one_auth_watch.Setup.Prompts.{
  Input, returns, and_then, ask, atoi, digits, number, prompt_choice,
}
use one_auth_watch.Setup.{
  Detected, SetupConfig, blank, check_port, collect_choice, collect_settings, ask_settings,
  fresh_setup,
}
use one_auth_watch.Setup.Accepted.{IsGood, setup-IsGood}
use one_auth_watch.Setup.EnvFile.{ExistingEnv, load_existing_env, env_text}
use one_auth_watch.Setup.EnvFile.RoundTrip.{load-env_text}
use one_auth_watch.Setup.Rerun.{readable, run_setup}
use one_auth_watch.Setup.Rerun.Keeps.{Keeps, run_setup-Keeps}
use one_auth_watch.Setup.EndOfInput.{is_asking, rejects_all, ask-rejects_all}

abbrev nothing : Detected
nothing = record { anthropic = []; codex = [] }

-- Antigravity, with a port that is too low for the server, and the default interval.
abbrev antigravity : Input
antigravity = codes "9" ∷ codes "5" ∷ codes "80" ∷ []

abbrev low_port : SetupConfig
low_port = record blank { antigravity_enabled = true; port = 80; poll_interval = 120 }

antigravity_run : fresh_setup nothing 9 antigravity ≡ returns (some low_port) []
unfolding fresh_setup and_then prompt_choice collect_choice collect_settings ask_settings ask atoi
    digits number trim_space text_eq
antigravity_run = refl

setup-IsGood_example : IsGood (some low_port)
setup-IsGood_example = setup-IsGood nothing 9 antigravity [] (some low_port) antigravity_run

ask-rejects_all_example : is_asking (ask check_port 5 (codes "0" ∷ codes "99999" ∷ [])) ≡ false
unfolding rejects_all atoi trim_space number digits
ask-rejects_all_example =
    ask-rejects_all check_port 5 (codes "0" ∷ codes "99999" ∷ []) (omega arith)

abbrev two_providers : SetupConfig
two_providers = record blank {
  synthetic_key = codes "syn_1";
  codex_token = codes "a=b";
  port = 9211;
  poll_interval = 120;
}

abbrev two_found : ExistingEnv
two_found = record {
  synthetic_key = codes "syn_1";
  zai_key = [];
  anthropic_token = [];
  codex_token = codes "a=b";
  antigravity_enabled = false;
  gemini_enabled = true;
}

load-env_text_example :
    load_existing_env true (some (env_text (codes "2026-01-02 15:04:05 UTC") two_providers))
    ≡ two_found
unfolding newline_free trim_space
load-env_text_example =
    load-env_text (codes "2026-01-02 15:04:05 UTC") two_providers true refl
      ((refl, refl), (refl, refl), (refl, refl), (refl, refl), (refl, refl))

-- Another setup adds Codex to a file with Antigravity.
run_setup-Keeps_example : Keeps (env_text [] low_port) (
    run_setup nothing [] false true
      (readable (env_text [] low_port))
      9
      (codes "n" ∷ codes "n" ∷ codes "n" ∷ codes "y" ∷ codes "token" ∷ []))
unfolding newline_free trim_space
run_setup-Keeps_example =
    run_setup-Keeps nothing nothing [] [] false true 9 9 antigravity []
      (codes "n" ∷ codes "n" ∷ codes "n" ∷ codes "y" ∷ codes "token" ∷ []) low_port antigravity_run
      refl ((refl, refl), (refl, refl)) (refl, (refl, (refl, tt)))
