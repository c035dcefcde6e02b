-- ===== src/Menubar.antt =====
-- The settings of the menu bar: server/internal/menubar/config.go. Percentages of quotas are whole
-- numbers. A text of Go that names one of a few values is a text here too, as it may come from a file.
pub mod Normal
pub mod Stays
mod Tests
use one_auth_watch.Prelude.{
  ℕ, zero, suc, Bool, true, false, not, ◌&&◌, ◌||◌, Option, none, some, List, [], ◌∷◌, ◌++◌, ◌==◌,
  length, if◌then◌else◌,
}
use one_auth_watch.Prelude.Int.{ℤ, pos, ltb_ℤ}
use one_auth_watch.Prelude.Text.{Text, codes, text_eq, trim_space}

pub record StatusDisplaySelection : Type 0 where
  pub provider_id : Text
  pub quota_key : Text

pub record StatusDisplay : Type 0 where
  pub mode : Text
  pub selected_quotas : List StatusDisplaySelection
  pub provider_id : Text
  pub quota_key : Text

pub record Settings : Type 0 where
  pub enabled : Bool
  pub default_view : Text
  pub refresh_seconds : ℤ
  pub providers_order : List Text
  pub visible_providers : List Text
  pub warning_percent : ℤ
  pub critical_percent : ℤ
  pub status_display : StatusDisplay
  pub theme : Text

abbrev pub multi_provider : Text
multi_provider = codes "multi_provider"

unfoldable pub default_settings : Settings
default_settings = record {
  enabled = true;
  default_view = codes "standard";
  refresh_seconds = pos 60;
  providers_order = [];
  visible_providers = [];
  warning_percent = pos 70;
  critical_percent = pos 90;
  status_display = record {
    mode = multi_provider;
    selected_quotas = [];
    provider_id = [];
    quota_key = [];
  };
  theme = codes "system";
}

abbrev pub is_blank : Text → Bool
is_blank s = text_eq s []

unfoldable pub seen : Text → List Text → Bool
seen key [] = false
seen key (k ∷ keys) = text_eq k key || seen key keys

-- The loop of `normalizedStringList`, with the texts that it has seen.
unfoldable pub normalize_from : List Text → List Text → List Text
normalize_from before [] = []
normalize_from before (value ∷ values) =
    let trimmed = trim_space value in
    let skipped = normalize_from before values in
    let kept = normalize_from (trimmed ∷ before) values in
    if is_blank trimmed || seen trimmed before then skipped else trimmed ∷ kept

unfoldable pub normalized_string_list : List Text → List Text
normalized_string_list values = normalize_from [] values

abbrev pub trimmed_selection : StatusDisplaySelection → StatusDisplaySelection
trimmed_selection v = record {
  provider_id = trim_space v.provider_id;
  quota_key = trim_space v.quota_key;
}

-- `providerID + "\x00" + quotaKey`
abbrev pub selection_key : StatusDisplaySelection → Text
selection_key v = v.provider_id ++ 0 ∷ v.quota_key

-- The loop stops once it has the selections it may take: `n` is how many more.
unfoldable pub select_from :
    ℕ → List Text → List StatusDisplaySelection → List StatusDisplaySelection
select_from zero before values = []
select_from (suc n) before [] = []
select_from (suc n) before (value ∷ values) =
    let v = trimmed_selection value in
    let skipped = select_from (suc n) before values in
    let kept = select_from n (selection_key v ∷ before) values in
    if is_blank v.provider_id || seen (selection_key v) before then skipped else v ∷ kept

unfoldable pub normalize_status_selections :
    List StatusDisplaySelection → List StatusDisplaySelection
normalize_status_selections values = select_from 3 [] values

-- The `switch` on the mode; `provider_specific` is that of an older version.
unfoldable pub normal_mode : Text → Text → Text
normal_mode fallback mode =
    if text_eq mode multi_provider
      || text_eq mode (codes "critical_count")
      || text_eq mode (codes "icon_only")
    then mode
    else if text_eq mode (codes "provider_specific")
    then multi_provider
    else fallback

-- The selection of an older version.
abbrev pub or_legacy :
    List StatusDisplaySelection → StatusDisplaySelection → List StatusDisplaySelection
or_legacy [] legacy = if is_blank legacy.provider_id then [] else legacy ∷ []
or_legacy (v ∷ values) legacy = v ∷ values

unfoldable pub normalize_display : Text → StatusDisplay → StatusDisplay
normalize_display fallback s =
    let mode = normal_mode fallback s.mode in
    let selections =
      or_legacy (normalize_status_selections s.selected_quotas)
        (record { provider_id = trim_space s.provider_id; quota_key = trim_space s.quota_key }) in
    record {
      mode = mode;
      selected_quotas = if text_eq mode multi_provider then selections else [];
      provider_id = [];
      quota_key = [];
    }

abbrev pub between : ℤ → ℤ → ℤ → Bool
between low high n = not (ltb_ℤ n low || ltb_ℤ high n)

abbrev pub clamp : ℤ → ℤ → ℤ → ℤ → ℤ
clamp low high default n = if between low high n then n else default

abbrev pub normal_view : Text → Text
normal_view view =
    if text_eq view (codes "minimal")
      || text_eq view (codes "standard")
      || text_eq view (codes "detailed")
    then view
    else codes "standard"

abbrev pub normal_theme : Text → Text
normal_theme theme =
    if text_eq theme (codes "system")
      || text_eq theme (codes "light")
      || text_eq theme (codes "dark")
    then theme
    else codes "system"

-- The two thresholds, each in its range, and the defaults if they are not in order.
unfoldable pub normal_percents : ℤ → ℤ → ℤ × ℤ
normal_percents warning critical =
    let w = clamp (pos 1) (pos 99) (pos 70) warning in
    let c = clamp (pos 1) (pos 100) (pos 90) critical in
    if ltb_ℤ w c then (w, c) else (pos 70, pos 90)

unfoldable pub normalize : Settings → Settings
normalize s =
    let (warning, critical) = normal_percents s.warning_percent s.critical_percent in
    record {
      enabled = s.enabled;
      default_view = normal_view s.default_view;
      refresh_seconds = if ltb_ℤ s.refresh_seconds (pos 10) then pos 60 else s.refresh_seconds;
      providers_order = normalized_string_list s.providers_order;
      visible_providers = normalized_string_list s.visible_providers;
      warning_percent = warning;
      critical_percent = critical;
      status_display = normalize_display multi_provider s.status_display;
      theme = normal_theme s.theme;
    }

-- A `nil` pointer gives the defaults.
unfoldable pub normalize_or_default : Option Settings → Settings
normalize_or_default none = default_settings
normalize_or_default (some s) = normalize s
