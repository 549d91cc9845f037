-- ===== src/Auth/Static.antt =====
-- internal/auth/static.go: a presented token against the configured digests. sha256 is an argument.
pub mod Matching
pub mod Validated
use easyp_plugin_server.Common.{
  ℕ, suc, Bool, true, false, not, ◌||◌, List, [], ◌∷◌, Option, none, some, Text, codes, text_eq,
  trim_space, to_lower, length, take, drop, leb, if◌then◌else◌, Result, ok, err,
}
use easyp_plugin_server.Auth.Tokens.{WriteToken, decode_hex}

pub data AuthError : Type 0 where
  no_credentials unknown_token : AuthError

pub data Kind : Type 0 where
  kind_token : Kind

pub record Actor : Type 0 where
  pub name : Text
  pub kind : Kind

pub record HashedToken : Type 0 where
  pub name : Text
  pub digest : Text

abbrev pub bearer_prefix : Text
bearer_prefix = codes "bearer "

unfoldable pub new_static_token_authenticator : List WriteToken → List HashedToken
unfolding decode_hex
new_static_token_authenticator [] = []
new_static_token_authenticator (token ∷ tokens) =
    let rest = new_static_token_authenticator tokens in
    elim (decode_hex token.sha256) [
      | none ↦ rest
      | some digest ↦ record { name = token.name; digest = digest } ∷ rest
    ]

-- The values of the authorization metadata, which is ASCII. On ASCII strings.EqualFold with the
-- prefix is equality of the lower forms.
unfoldable pub bearer_token : List Text → Option Text
unfolding to_lower trim_space
bearer_token [] = none
bearer_token (raw ∷ values) =
    if leb (length raw) (length bearer_prefix)
      || not (text_eq (to_lower (take (length bearer_prefix) raw)) bearer_prefix)
    then none
    else (let token = trim_space (drop (length bearer_prefix) raw) in
        if text_eq token [] then none else some token)

-- The loop over the candidates, with the match so far: the last match stays.
unfoldable pub match_from : Text → Text → List HashedToken → Text
match_from sum matched [] = matched
match_from sum matched (token ∷ tokens) =
    match_from sum (if text_eq sum token.digest then token.name else matched) tokens

unfoldable pub authenticate : (Text → Text) → List HashedToken → List Text → Result AuthError Actor
unfolding bearer_token match_from
authenticate sha256 tokens values = elim (bearer_token values) [
  | none ↦ err no_credentials
  | some presented ↦
      let matched = match_from (sha256 presented) [] tokens in
      if text_eq matched []
      then err unknown_token
      else ok (record { name = matched; kind = kind_token })
]
