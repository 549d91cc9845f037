-- ===== src/License/Gate/Effective.antt =====
-- What the gate answers after any sequence of refreshes.
use easyp_plugin_server.Common.{
  Bool-cases, ℕ, ◌≡◌, refl, ap, ◌∙◌, Bool, not, ◌||◌, List, [], ◌∷◌, Option, none, some, Text,
  text_eq, inl, inr, ◌⊎◌, ℤ, pos, Result, ok, err, if◌then◌else◌,
}
use easyp_plugin_server.Core.Domain.{Feature}
use easyp_plugin_server.License.Claims.{
  LicenseClaims, enterprise, community_license_claims, enterprise_license_claims, Token,
  PasetoLicenseClient, validate_license, license_unlimited,
}
use easyp_plugin_server.License.Claims.Entitled.{validate_license_lem}
use easyp_plugin_server.License.Gate.{
  Manager, refresh, new_manager, is_enterprise, has_feature, enabled, gate_max_workers,
  gate_max_plugins,
}

-- The refreshes of the watcher, each at its own time, over one configured client: `none` is a
-- validation that fails.
module _ {Key : Type 0} (parse : Key → Text → Option Token) (c : PasetoLicenseClient Key) where
  abbrev pub answer : Option ℕ → Result (Unit {0}) LicenseClaims
  answer none = err tt
  answer (some now) = ok (validate_license parse now c)

  unfoldable pub watch : List (Option ℕ) → Manager → Manager
  unfolding refresh
  watch [] lm = lm
  watch (t ∷ ticks) lm = watch ticks (refresh (answer t) lm)

-- Claims that the service can be running on.
abbrev pub Proper : LicenseClaims → Type 0
Proper claims =
    (claims ≡ community_license_claims)
    ⊎ ((expiry : ℕ) × (grace : Bool) × (claims ≡ enterprise_license_claims expiry grace))

validate_license-Proper :
    {Key : Type 0} (parse : Key → Text → Option Token) (now : ℕ) (c : PasetoLicenseClient Key)
    → Proper (validate_license parse now c)
validate_license-Proper parse now c = elim (validate_license_lem parse now c) [
  | inl h ↦ inl h
  | inr (token, verified, g) ↦ inr (g.expiry, _, g.claimed)
]

module _ {Key : Type 0} (parse : Key → Text → Option Token) (c : PasetoLicenseClient Key) where
  refresh-Proper :
      (t : Option ℕ) (lm : Manager)
      → Proper lm.claims
      → Proper (refresh (answer parse c t) lm).claims
  unfolding refresh
  refresh-Proper none lm h = h
  refresh-Proper (some now) lm h = validate_license-Proper parse now c

  watch-Proper :
      (ticks : List (Option ℕ)) (lm : Manager)
      → Proper lm.claims
      → Proper (watch parse c ticks lm).claims
  unfolding watch
  watch-Proper [] lm h = h
  watch-Proper (t ∷ ticks) lm h =
      watch-Proper ticks (refresh (answer parse c t) lm) (refresh-Proper t lm h)

-- Every feature but the enterprise ones is in the community's list.
has_feature-community :
    (f : Feature) → has_feature f community_license_claims.features ≡ not (is_enterprise f)
unfolding has_feature community_license_claims is_enterprise
has_feature-community Feature.code_generation = refl
has_feature-community Feature.plugin_listing = refl
has_feature-community Feature.mcp_server_tools = refl
has_feature-community Feature.rate_limiting = refl
has_feature-community Feature.plugin_crud = refl
has_feature-community Feature.audit = refl

enabled-Proper :
    (f : Feature) (lm : Manager)
    → Proper lm.claims
    → ((enabled f lm).0 ≡ (text_eq lm.claims.tier enterprise || not (is_enterprise f)))
      × (gate_max_plugins lm
          ≡ (if text_eq lm.claims.tier enterprise then license_unlimited else pos 10))
      × (gate_max_workers lm
          ≡ (if text_eq lm.claims.tier enterprise then license_unlimited else pos 4))
unfolding enabled gate_max_workers gate_max_plugins community_license_claims
    enterprise_license_claims text_eq
enabled-Proper f lm (inl h) = (
  elim (Bool-cases (is_enterprise f)) [
    | inl q ↦ rw (h, q, enabled) refl
    | inr q ↦ rw (h, q, enabled) (has_feature-community f ∙ ap not q)
  ],
  rw h refl,
  rw h refl,
)
enabled-Proper f lm (inr (expiry, grace, h)) = (rw (h, enabled) refl, rw h refl, rw h refl)

-- From the start of the service on, whatever the validations answer and whichever of them fail,
-- the gate enables every feature but the enterprise ones, enables those exactly under the
-- enterprise tier, and limits plugins to 10 and workers to 4 exactly under the community tier.
pub gate_follows_tier :
    {Key : Type 0} (parse : Key → Text → Option Token) (c : PasetoLicenseClient Key) (ttl : ℤ)
    (first : Option ℕ) (ticks : List (Option ℕ)) (f : Feature)
    → let lm = watch parse c ticks (new_manager ttl (answer parse c first)) in
      ((enabled f lm).0 ≡ (text_eq lm.claims.tier enterprise || not (is_enterprise f)))
      × (gate_max_plugins lm
          ≡ (if text_eq lm.claims.tier enterprise then license_unlimited else pos 10))
      × (gate_max_workers lm
          ≡ (if text_eq lm.claims.tier enterprise then license_unlimited else pos 4))
unfolding new_manager
gate_follows_tier parse c ttl first ticks f =
    enabled-Proper f (watch parse c ticks (new_manager ttl (answer parse c first))) (
      watch-Proper parse c ticks (new_manager ttl (answer parse c first))
        (refresh-Proper parse c first _ (inl refl)))
