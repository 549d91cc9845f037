-- ===== src/Tests/License.antt =====
-- Licences at a concrete token, which one key verifies, over one refresh that fails.
use easyp_plugin_server.Common.{
  ℕ, ◌≡◌, not, ◌||◌, ◌⊎◌, [], ◌∷◌, Option, none, some, Text, codes, text_eq, pos, if◌then◌else◌,
}
use easyp_plugin_server.Core.Domain.{Feature}
use easyp_plugin_server.License.Claims.{
  Token, PasetoLicenseClient, community_license_claims, validate_license, license_unlimited,
  enterprise,
}
use easyp_plugin_server.License.Claims.Entitled.{Grants, Verified, validate_license_lem}
use easyp_plugin_server.License.Gate.{
  new_manager, enabled, is_enterprise, gate_max_plugins, gate_max_workers,
}
use easyp_plugin_server.License.Gate.Effective.{answer, watch, gate_follows_tier}

abbrev signed : Token
signed = record {
  not_before = some 0;
  expiration = some 1000;
  grace_days = none;
  tier = some enterprise;
}

abbrev parse_signed : ℕ → Text → Option Token
parse_signed key token = some signed

abbrev one_key : PasetoLicenseClient ℕ
one_key = record {
  token = codes "v4.public.x";
  kid = some (codes "k1");
  public_keys = (codes "k1", 7) ∷ [];
  fallback_key = none;
}

validate_license_lem_example :
    (validate_license parse_signed 500 one_key ≡ community_license_claims)
    ⊎ ((token : Token) × Verified parse_signed one_key token
        × Grants 500 token (validate_license parse_signed 500 one_key))
validate_license_lem_example = validate_license_lem parse_signed 500 one_key

gate_follows_tier_example :
    let lm =
      watch parse_signed one_key
        (none ∷ [])
        (new_manager (pos 0) (answer parse_signed one_key (some 500))) in
    ((enabled Feature.audit lm).0
      ≡ (text_eq lm.claims.tier enterprise || not (is_enterprise Feature.audit)))
    × (gate_max_plugins lm
        ≡ (if text_eq lm.claims.tier enterprise then license_unlimited else pos 10))
    × (gate_max_workers lm
        ≡ (if text_eq lm.claims.tier enterprise then license_unlimited else pos 4))
gate_follows_tier_example =
    gate_follows_tier parse_signed one_key (pos 0) (some 500) (none ∷ []) Feature.audit
