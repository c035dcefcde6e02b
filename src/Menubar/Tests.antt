-- ===== src/Menubar/Tests.antt =====
-- Settings of the menu bar.
use one_auth_watch.Prelude.{◌≡◌, true, [], ◌∷◌}
use one_auth_watch.Prelude.Int.{pos, negsuc}
use one_auth_watch.Prelude.Text.{codes}
use one_auth_watch.Menubar.{Settings, normalize}
use one_auth_watch.Menubar.Stays.{normalize_again}

abbrev settings : Settings
settings = record {
  enabled = true;
  default_view = codes "huge";
  refresh_seconds = negsuc 4;
  providers_order = codes " codex" ∷ codes "codex " ∷ codes "" ∷ codes "zai" ∷ [];
  visible_providers = [];
  warning_percent = pos 95;
  critical_percent = pos 80;
  status_display = record {
    mode = codes "provider_specific";
    selected_quotas = [];
    provider_id = codes "codex";
    quota_key = codes "five_hour ";
  };
  theme = codes "dark";
}

normalize_again_example : normalize (normalize settings) ≡ normalize settings
normalize_again_example = normalize_again settings
