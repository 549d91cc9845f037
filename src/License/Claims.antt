-- ===== src/License/Claims.antt =====
-- internal/license/paseto_client.go: from a licence token to what it grants. The paseto library is
-- an argument. Times are nanoseconds of one clock.
pub mod Entitled
use easyp_plugin_server.Common.{
  wrap64, times, ℕ, zero, suc, ◌+◌, ◌-◌, ◌*◌, ◌%◌, ◌^◌, Bool, true, false, not, List, [], ◌∷◌,
  Option, none, some, Text, codes, text_eq, ltb, leb, ◌==◌, if◌then◌else◌, ℤ, pos, negsuc, lookup,
}
use easyp_plugin_server.Core.Domain.{Feature}

pub record LicenseClaims : Type 0 where
  pub tier : Text
  pub features : List Feature
  pub max_workers : ℤ
  pub max_plugins : ℤ
  pub expires_at : ℕ
  pub in_grace : Bool

abbrev pub community : Text
community = codes "community"

abbrev pub enterprise : Text
enterprise = codes "enterprise"

abbrev pub license_unlimited : ℤ
license_unlimited = negsuc 0

-- The zero time is 0.
unfoldable pub community_license_claims : LicenseClaims
community_license_claims = record {
  tier = community;
  features =
      Feature.code_generation ∷ Feature.plugin_listing ∷ Feature.mcp_server_tools
      ∷ Feature.rate_limiting ∷ Feature.plugin_crud ∷ [];
  max_workers = pos 4;
  max_plugins = pos 10;
  expires_at = 0;
  in_grace = false;
}

unfoldable pub enterprise_license_claims : ℕ → Bool → LicenseClaims
enterprise_license_claims expires_at in_grace = record {
  tier = enterprise;
  features =
      Feature.code_generation ∷ Feature.plugin_listing ∷ Feature.mcp_server_tools
      ∷ Feature.rate_limiting ∷ Feature.plugin_crud ∷ Feature.audit ∷ [];
  max_workers = license_unlimited;
  max_plugins = license_unlimited;
  expires_at = expires_at;
  in_grace = in_grace;
}

-- A token that has passed signature, issuer and audience: `none` is a claim that cannot be read.
pub record Token : Type 0 where
  pub not_before : Option ℕ
  pub expiration : Option ℕ
  pub grace_days : Option ℤ
  pub tier : Option Text

abbrev pub day : ℕ
day = 86400000000000

abbrev pub clock_skew : ℕ
clock_skew = 60000000000

-- time.Duration(days) * day, which wraps around at 64 bits.
unfoldable pub grace_period : ℤ → ℤ
unfolding wrap64
grace_period days = wrap64 (times days day)

-- now.After(expiry.Add(grace).Add(clockSkew))
unfoldable pub past_grace : ℕ → ℕ → ℤ → Bool
past_grace now expiry (pos g) = ltb (expiry + g + clock_skew) now
past_grace now expiry (negsuc g) = ltb (expiry + clock_skew) (now + suc g)

-- claimsFor behind the two times, the grace days and the tier.
unfoldable pub decide_claims : ℕ → ℕ → ℕ → ℤ → Option Text → LicenseClaims
unfolding grace_period past_grace
decide_claims now not_before expiry grace tier =
    if ltb (now + clock_skew) not_before
    then community_license_claims
    else if past_grace now expiry (grace_period grace)
    then community_license_claims
    else elim tier [
      | none ↦ community_license_claims
      | some t ↦
          if text_eq t enterprise
          then enterprise_license_claims expiry (ltb (expiry + clock_skew) now)
          else community_license_claims
    ]

unfoldable pub claims_for : ℕ → Token → LicenseClaims
unfolding decide_claims
claims_for now token = elim token.not_before [
  | none ↦ community_license_claims
  | some not_before ↦ elim token.expiration [
    | none ↦ community_license_claims
    | some expiry ↦
        decide_claims now not_before expiry
          (elim token.grace_days [ none ↦ pos 0 | some days ↦ days ]) token.tier
  ]
]

-- The client: `kid` is the key id of the token's footer, where it can be read.
pub record PasetoLicenseClient (Key : Type 0) : Type 0 where
  pub token : Text
  pub kid : Option Text
  pub public_keys : List (Text × Key)
  pub fallback_key : Option Key

-- With neither keys nor a fallback the answer is the fallback as well, which is none.
unfoldable pub resolve_key : {Key : Type 0} → PasetoLicenseClient Key → Option Key
unfolding lookup
resolve_key c = elim c.kid [
  | none ↦ c.fallback_key
  | some kid ↦ elim (lookup kid c.public_keys) [ some key ↦ some key | none ↦ c.fallback_key ]
]

-- `parse` is ParseV4Public with the issuer and audience rules; it fails on all else.
unfoldable pub validate_license :
    {Key : Type 0} → (Key → Text → Option Token) → ℕ → PasetoLicenseClient Key → LicenseClaims
unfolding resolve_key claims_for
validate_license parse now c =
    if text_eq c.token [] then community_license_claims else elim (resolve_key c) [
      | none ↦ community_license_claims
      | some key ↦ elim (parse key c.token) [
        | none ↦ community_license_claims
        | some token ↦ claims_for now token
      ]
    ]
