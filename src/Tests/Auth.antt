-- ===== src/Tests/Auth.antt =====
-- Credentials at concrete inputs: one configured token, whose digest is read off a table.
use easyp_plugin_server.Common.{
  ℕ, suc, Result, ◌≡◌, refl, List, [], ◌∷◌, some, Text, codes, text_eq, if◌then◌else◌, ok,
  trim_space, to_lower,
}
use easyp_plugin_server.Core.Domain.{Context}
use easyp_plugin_server.Api.Status.{Code}
use easyp_plugin_server.Api.Interceptor.{AuthInterceptor, new_auth_interceptor}
use easyp_plugin_server.Auth.Tokens.{WriteToken, validate}
use easyp_plugin_server.Auth.Static.{
  HashedToken, kind_token, bearer_token, match_from, authenticate,
}
use easyp_plugin_server.Auth.Static.Matching.{Holds}

abbrev stub_digest : Text
stub_digest = 0xab ∷ 0xcd ∷ []

abbrev stub_sha256 : Text → Text
stub_sha256 t = if text_eq t (codes "s3cret") then stub_digest else []

abbrev ci_tokens : List HashedToken
ci_tokens = record { name = codes "ci"; digest = stub_digest } ∷ []

abbrev presented_values : List Text
presented_values = codes "Bearer s3cret" ∷ []

ci_holds : Holds ci_tokens (stub_sha256 (codes "s3cret")) (codes "ci")
unfolding text_eq
ci_holds = record {
  before = [];
  token = record { name = codes "ci"; digest = stub_digest };
  after = [];
  among = refl;
  same_digest = refl;
  same_name = refl;
}

presented_bearer : bearer_token presented_values ≡ some (codes "s3cret")
unfolding bearer_token text_eq to_lower trim_space
presented_bearer = refl

let_in :
    authenticate stub_sha256 ci_tokens presented_values
    ≡ ok (record { name = codes "ci"; kind = kind_token })
unfolding authenticate text_eq bearer_token to_lower trim_space match_from
let_in = refl

abbrev write_tokens : List WriteToken
write_tokens =
    record {
      name = codes "ci";
      sha256 = codes "0123456789abcdef0123456789abcdef0123456789abcdef0123456789abcdef";
    }
    ∷ record {
      name = codes "release";
      sha256 = codes "ffffffffffffffffffffffffffffffffffffffffffffffffffffffffffffffff";
    }
    ∷ []

write_tokens_valid : validate write_tokens ≡ ok tt
unfolding validate text_eq
write_tokens_valid = refl

abbrev caller : Context
caller = record { caller_ip = codes "10.0.0.7"; actor = [] }

-- A handler that counts its calls and answers with the actor.
abbrev counting_handler : Context → ℕ → Result Code Text × ℕ
counting_handler ctx n = (ok ctx.actor, suc n)

abbrev delete_method : Text
delete_method = codes "/easyp.generator.v1.GeneratorAPI/DeletePlugin"

abbrev interceptor : AuthInterceptor
interceptor =
    new_auth_interceptor (codes "/grpc.health.v1.Health/Check")
      (codes "/grpc.health.v1.Health/Watch")
