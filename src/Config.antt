-- ===== src/Config.antt =====
-- `Config` of server/internal/config/config.go: `Validate` and the queries on the providers. Intervals
-- are in seconds.
pub mod Providers
mod Tests
use one_auth_watch.Prelude.{
  ℕ, suc, Bool, true, false, not, ◌&&◌, ◌||◌, Option, none, some, List, [], ◌∷◌, ltb, cons_if,
  if◌then◌else◌,
}
use one_auth_watch.Prelude.Text.{Text, codes, text_eq, has_prefix}

pub record Config : Type 0 where
  pub synthetic_api_key : Text
  pub zai_api_key : Text
  pub anthropic_token : Text
  pub copilot_token : Text
  pub codex_token : Text
  pub codex_has_profiles : Bool
  pub antigravity_enabled : Bool
  pub minimax_api_key : Text
  pub open_router_api_key : Text
  pub gemini_enabled : Bool
  pub poll_interval : ℕ
  pub port : ℕ

pub data ConfigError : Type 0 where
  bad_synthetic_key interval_too_short interval_too_long bad_port : ConfigError

abbrev pub is_set : Text → Bool
is_set s = not (text_eq s [])

-- `none` is success.
unfoldable pub validate : Config → Option ConfigError
validate c =
    if is_set c.synthetic_api_key && not (has_prefix c.synthetic_api_key (codes "syn_"))
    then some bad_synthetic_key
    else if ltb c.poll_interval 10
    then some interval_too_short
    else if ltb 3600 c.poll_interval
    then some interval_too_long
    else if ltb c.port 1024 || ltb 65535 c.port
    then some bad_port
    else none

abbrev pub has_codex : Config → Bool
has_codex c = is_set c.codex_token || c.codex_has_profiles

unfoldable pub available_providers : Config → List Text
available_providers c = cons_if (is_set c.anthropic_token) (codes "anthropic") (
    cons_if (is_set c.synthetic_api_key) (codes "synthetic") (
      cons_if (is_set c.zai_api_key) (codes "zai") (
        cons_if (is_set c.copilot_token) (codes "copilot") (
          cons_if (has_codex c) (codes "codex") (
            cons_if c.antigravity_enabled (codes "antigravity") (
              cons_if (is_set c.minimax_api_key) (codes "minimax") (
                cons_if (is_set c.open_router_api_key) (codes "openrouter")
                  (cons_if c.gemini_enabled (codes "gemini") []))))))))

unfoldable pub has_provider : Config → Text → Bool
has_provider c name =
    if text_eq name (codes "synthetic")
    then is_set c.synthetic_api_key
    else if text_eq name (codes "zai")
    then is_set c.zai_api_key
    else if text_eq name (codes "anthropic")
    then is_set c.anthropic_token
    else if text_eq name (codes "copilot")
    then is_set c.copilot_token
    else if text_eq name (codes "codex")
    then has_codex c
    else if text_eq name (codes "antigravity")
    then c.antigravity_enabled
    else if text_eq name (codes "minimax")
    then is_set c.minimax_api_key
    else if text_eq name (codes "openrouter")
    then is_set c.open_router_api_key
    else if text_eq name (codes "gemini")
    then c.gemini_enabled
    else false

abbrev pub count_one : Bool → ℕ → ℕ
count_one true n = suc n
count_one false n = n

unfoldable pub has_multiple_providers : Config → Bool
has_multiple_providers c = ltb 1 (
    count_one c.gemini_enabled (
      count_one (is_set c.open_router_api_key) (
        count_one (is_set c.minimax_api_key) (
          count_one c.antigravity_enabled (
            count_one (has_codex c) (
              count_one (is_set c.copilot_token) (
                count_one (is_set c.anthropic_token) (
                  count_one (is_set c.zai_api_key)
                    (count_one (is_set c.synthetic_api_key) 0)))))))))
