-- ===== src/Config/Tests.antt =====
-- Queries on a configuration.
use one_auth_watch.Prelude.{◌≡◌, true, false, []}
use one_auth_watch.Prelude.Text.{codes}
use one_auth_watch.Config.{Config, has_provider, available_providers}
use one_auth_watch.Config.Providers.{contains, has_provider-contains}

abbrev config : Config
config = record {
  synthetic_api_key = codes "syn_abc";
  zai_api_key = [];
  anthropic_token = [];
  copilot_token = [];
  codex_token = [];
  codex_has_profiles = true;
  antigravity_enabled = false;
  minimax_api_key = [];
  open_router_api_key = [];
  gemini_enabled = false;
  poll_interval = 120;
  port = 9211;
}

has_provider-contains_example :
    has_provider config (codes "codex") ≡ contains (codes "codex") (available_providers config)
has_provider-contains_example = has_provider-contains config (codes "codex")
