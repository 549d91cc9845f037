-- ===== src/Api/Interceptor.antt =====
-- internal/api/auth_interceptor.go: credentials on every method but an explicit list.
use easyp_plugin_server.Common.{
  ℕ, suc, ◌+◌, ◌≡◌, Bool, false, ◌||◌, List, [], ◌∷◌, Text, codes, text_eq, if◌then◌else◌, Result,
  ok, err, some,
}
use easyp_plugin_server.Core.Domain.{Context}
use easyp_plugin_server.Api.Status.{Code}
use easyp_plugin_server.Auth.Static.{
  Actor, HashedToken, bearer_token, AuthError, no_credentials, unknown_token,
}
use easyp_plugin_server.Auth.Static.Matching.{Holds}

-- The failures are a counter per reason.
pub record AuthInterceptor : Type 0 where
  pub public_methods : List Text
  pub failed_no_credentials : ℕ
  pub failed_unknown_token : ℕ

abbrev pub generate_code_method : Text
generate_code_method = codes "/easyp.generator.v1.GeneratorAPI/GenerateCode"

abbrev pub plugins_method : Text
plugins_method = codes "/easyp.generator.v1.GeneratorAPI/Plugins"

-- The names of the two health methods are another package's.
unfoldable pub new_auth_interceptor : (health_check health_watch : Text) → AuthInterceptor
new_auth_interceptor health_check health_watch = record {
  public_methods = generate_code_method ∷ plugins_method ∷ health_check ∷ health_watch ∷ [];
  failed_no_credentials = 0;
  failed_unknown_token = 0;
}

unfoldable pub is_public : Text → List Text → Bool
unfolding text_eq
is_public full_method [] = false
is_public full_method (m ∷ methods) = text_eq m full_method || is_public full_method methods

unfoldable pub reject : AuthError → AuthInterceptor → AuthInterceptor
reject no_credentials ai = record ai { failed_no_credentials = suc ai.failed_no_credentials }
reject unknown_token ai = record ai { failed_unknown_token = suc ai.failed_unknown_token }

-- `resolve` is the authenticator, `values` the authorization metadata of the request.
unfoldable pub authorize :
    (resolve : List Text → Result AuthError Actor)
    → Context
    → Text
    → List Text
    → AuthInterceptor
    → Result Code Context × AuthInterceptor
unfolding is_public reject
authorize resolve ctx full_method values ai =
    if is_public full_method ai.public_methods then (ok ctx, ai) else elim (resolve values) [
      | err e ↦ (err Code.unauthenticated, reject e ai)
      | ok actor ↦ (ok (record ctx { actor = actor.name }), ai)
    ]

-- The handler behind authorize, with its state `S`.
unfoldable pub run_handler {ℓ} :
    {A : Type ℓ} {S : Type 0}
    → (Context → S → Result Code A × S)
    → Result Code Context × AuthInterceptor
    → S
    → Result Code A × AuthInterceptor × S
run_handler handler (err e, ai) s = (err e, ai, s)
run_handler handler (ok authed_ctx, ai) s =
    let (answer, s') = handler authed_ctx s in (answer, ai, s')

-- The unary interceptor; the stream interceptor does the same.
unfoldable pub intercept {ℓ} :
    {A : Type ℓ} {S : Type 0}
    → (Context → S → Result Code A × S)
    → (resolve : List Text → Result AuthError Actor) → Context
    → Text
    → List Text
    → AuthInterceptor
    → S
    → Result Code A × AuthInterceptor × S
unfolding run_handler authorize
intercept handler resolve ctx full_method values ai s =
    run_handler handler (authorize resolve ctx full_method values ai) s

abbrev pub failures : AuthInterceptor → ℕ
failures ai = ai.failed_no_credentials + ai.failed_unknown_token

-- What a protected call ends with: the handler's run under a configured name, or a refusal.
module _ {ℓ} {A : Type ℓ} {S : Type 0} (ai : AuthInterceptor) (s : S) where
  pub record RunsAsHolder (handler : Context → S → Result Code A × S) (sha256 : Text → Text)
      (tokens : List HashedToken) (ctx : Context) (values : List Text)
      (out : Result Code A × AuthInterceptor × S) : Type ℓ where
    pub presented : Text
    pub name : Text
    pub bearer : bearer_token values ≡ some presented
    pub holds : Holds tokens (sha256 presented) name
    pub runs : out ≡ run_handler handler (ok (record ctx { actor = name }), ai) s

  pub record TurnedAway (out : Result Code A × AuthInterceptor × S) : Type ℓ where
    pub answer : out.0 ≡ err Code.unauthenticated
    pub untouched : out.2 ≡ s
    pub counted : failures out.1 ≡ suc (failures ai)
