-- ===== src/License/Claims/Entitled.antt =====
-- Who gets the enterprise tier, and what every licence grants.
use easyp_plugin_server.Common.{
  ℕ, ◌+◌, ◌≤◌, ◌≡◌, refl, ap, ◌∙◌, false, [], Option, none, some, Text, text_eq, text_eq_iff, ltb,
  inl, inr, ◌⊎◌, arith, Bool-cases, Option-cases, ℤ, pos, negsuc, suc, wrap64, times,
}
use easyp_plugin_server.License.Claims.{
  LicenseClaims, enterprise, community_license_claims, enterprise_license_claims, Token, clock_skew,
  day, grace_period, past_grace, decide_claims, claims_for, PasetoLicenseClient, resolve_key,
  validate_license,
}

-- The moment is not past the expiry and a grace, with one minute of tolerance; a negative grace is
-- taken off the expiry.
pub data InTime (now expiry : ℕ) : ℤ → Type 0 where
  extended : (g : ℕ) → now ≤ expiry + g + clock_skew → InTime now expiry (pos g)
  shortened : (g : ℕ) → now + suc g ≤ expiry + clock_skew → InTime now expiry (negsuc g)

past_grace-InTime :
    (now expiry : ℕ) (grace : ℤ) → past_grace now expiry grace ≡ false → InTime now expiry grace
unfolding past_grace
past_grace-InTime now expiry (pos g) h = extended g (ground (arith, h))
past_grace-InTime now expiry (negsuc g) h = shortened g (ground (arith, h))

-- What a token says that grants the enterprise tier at a moment.
pub record Grants (now : ℕ) (token : Token) (claims : LicenseClaims) : Type 0 where
  pub not_before : ℕ
  pub expiry : ℕ
  pub grace : ℤ
  pub says_not_before : token.not_before ≡ some not_before
  pub says_expiry : token.expiration ≡ some expiry
  pub says_grace : grace ≡ (elim token.grace_days [ none ↦ pos 0 | some days ↦ days ])
  pub says_tier : token.tier ≡ some enterprise
  pub begun : not_before ≤ now + clock_skew
  pub in_time : InTime now expiry (wrap64 (times grace day))
  pub claimed : claims ≡ enterprise_license_claims expiry (ltb (expiry + clock_skew) now)

decide_claims_lem :
    (now not_before expiry : ℕ) (grace : ℤ) (tier : Option Text)
    → (decide_claims now not_before expiry grace tier ≡ community_license_claims)
      ⊎ ((tier ≡ some enterprise)
          × (not_before ≤ now + clock_skew)
          × InTime now expiry (wrap64 (times grace day))
          × (decide_claims now not_before expiry grace tier
              ≡ enterprise_license_claims expiry (ltb (expiry + clock_skew) now)))
unfolding decide_claims grace_period
decide_claims_lem now not_before expiry grace tier =
    elim (Bool-cases (ltb (now + clock_skew) not_before)) [
      | inl a ↦ inl (rw (a, decide_claims) refl)
      | inr a ↦ elim (Bool-cases (past_grace now expiry (grace_period grace))) [
        | inl b ↦ inl (rw (a, b, decide_claims) refl)
        | inr b ↦ elim (Option-cases tier) [
          | inl t ↦ inl (rw (a, b, t, decide_claims) refl)
          | inr (t, q) ↦ elim (Bool-cases (text_eq t enterprise)) [
            | inr e ↦ inl (rw (a, b, q, e, decide_claims) refl)
            | inl e ↦ inr (
              q ∙ ap some ((text_eq_iff t enterprise).0 e),
              ground (arith, a),
              past_grace-InTime now expiry (grace_period grace) b,
              rw (a, b, q, e, decide_claims) refl,
            )
          ]
        ]
      ]
    ]

claims_for-Grants :
    (now : ℕ) (token : Token)
    → (claims_for now token ≡ community_license_claims) ⊎ Grants now token (claims_for now token)
unfolding claims_for
claims_for-Grants now token = elim (Option-cases token.not_before) [
  | inl a ↦ inl (rw (a, claims_for) refl)
  | inr (n, a) ↦ elim (Option-cases token.expiration) [
    | inl b ↦ inl (rw (a, b, claims_for) refl)
    | inr (x, b) ↦
        let grace : ℤ = elim token.grace_days [ none ↦ pos 0 | some days ↦ days ] in
        let here : claims_for now token ≡ decide_claims now n x grace token.tier =
          rw (a, b, claims_for) refl in
        elim (decide_claims_lem now n x grace token.tier) [
          | inl c ↦ inl (here ∙ c)
          | inr (t, begun, over, c) ↦ inr (record {
            not_before = n;
            expiry = x;
            grace = grace;
            says_not_before = a;
            says_expiry = b;
            says_grace = refl;
            says_tier = t;
            begun = begun;
            in_time = over;
            claimed = here ∙ c;
          })
        ]
  ]
]

-- The token of the client, read under one of its keys.
pub record Verified {Key : Type 0} (parse : Key → Text → Option Token) (c : PasetoLicenseClient Key)
    (token : Token) : Type 0 where
  pub key : Key
  pub configured : resolve_key c ≡ some key
  pub parsed : parse key c.token ≡ some token

-- A validation gives the community claims, or the enterprise claims of a token that a configured
-- key verifies, that names the enterprise tier, that has begun, and that is not past its
-- expiry by more than its grace, with one minute of tolerance both ways. The grace is the days that
-- the token asks for as a 64-bit number of nanoseconds, which wraps around.
pub validate_license_lem :
    {Key : Type 0} (parse : Key → Text → Option Token) (now : ℕ) (c : PasetoLicenseClient Key)
    → (validate_license parse now c ≡ community_license_claims)
      ⊎ ((token : Token) × Verified parse c token × Grants now token (validate_license parse now c))
unfolding validate_license
validate_license_lem parse now c = elim (Bool-cases (text_eq c.token [])) [
  | inl a ↦ inl (rw (a, validate_license) refl)
  | inr a ↦ elim (Option-cases (resolve_key c)) [
    | inl b ↦ inl (rw (a, b, validate_license) refl)
    | inr (key, b) ↦ elim (Option-cases (parse key c.token)) [
      | inl p ↦ inl (rw (a, b, p, validate_license) refl)
      | inr (token, p) ↦ elim (claims_for-Grants now token) [
        | inl q ↦ inl (rw (a, b, p, validate_license) q)
        | inr g ↦ inr (
          token,
          record { key = key; configured = b; parsed = p },
          rw (a, b, p, validate_license) g,
        )
      ]
    ]
  ]
]
