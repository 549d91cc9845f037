-- ===== src/License/Gate.antt =====
-- internal/license/manager.go and gate.go: the cached claims, and the questions asked of them.
pub mod Effective
use easyp_plugin_server.Common.{
  ℕ, suc, Bool, true, false, ◌||◌, List, [], ◌∷◌, Text, text_eq, ◌==◌, if◌then◌else◌, ℤ, pos,
  not_positive, Result, ok, err,
}
use easyp_plugin_server.Core.Domain.{Feature}
use easyp_plugin_server.License.Claims.{LicenseClaims, community_license_claims, enterprise}

-- `features_denied` is a metric.
pub record Manager : Type 0 where
  pub claims : LicenseClaims
  pub cache_ttl : ℤ
  pub features_denied : ℕ

abbrev pub default_cache_ttl : ℤ
default_cache_ttl = pos 300000000000

-- A failed validation keeps the claims. `E` is its error.
unfoldable pub refresh : {E : Type 0} → Result E LicenseClaims → Manager → Manager
refresh (ok claims) lm = record lm { claims = claims }
refresh (err e) lm = lm

unfoldable pub new_manager : {E : Type 0} → ℤ → Result E LicenseClaims → Manager
unfolding refresh
new_manager cache_ttl first = refresh first (record {
  claims = community_license_claims;
  cache_ttl = if not_positive cache_ttl then default_cache_ttl else cache_ttl;
  features_denied = 0;
})

abbrev pub feature_number : Feature → ℕ
feature_number Feature.code_generation = 0
feature_number Feature.plugin_listing = 1
feature_number Feature.mcp_server_tools = 2
feature_number Feature.rate_limiting = 3
feature_number Feature.plugin_crud = 4
feature_number Feature.audit = 5

unfoldable pub is_enterprise : Feature → Bool
is_enterprise f = feature_number f == 5

-- slices.Contains
unfoldable pub has_feature : Feature → List Feature → Bool
has_feature f [] = false
has_feature f (g ∷ features) = feature_number g == feature_number f || has_feature f features

-- The six features are all there are, so each is valid.
unfoldable pub enabled : Feature → Manager → Bool × Manager
unfolding is_enterprise has_feature
enabled f lm =
    if text_eq lm.claims.tier enterprise
    then (true, lm)
    else if is_enterprise f
    then (false, record lm { features_denied = suc lm.features_denied })
    else (has_feature f lm.claims.features, lm)

unfoldable pub gate_max_workers : Manager → ℤ
gate_max_workers lm = lm.claims.max_workers

unfoldable pub gate_max_plugins : Manager → ℤ
gate_max_plugins lm = lm.claims.max_plugins
