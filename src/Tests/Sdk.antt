-- ===== src/Tests/Sdk.antt =====
-- A call with two retries against a server that is unavailable once, and a delay at attempt 40.
use easyp_plugin_server.Common.{ℕ, zero, suc, Option, none, Result, ok, err}
use easyp_plugin_server.Api.Status.{Code}
use easyp_plugin_server.Sdk.Retry.{CallError, status}

abbrev once_unavailable : ℕ → Result CallError (Unit {0})
once_unavailable zero = err (status Code.unavailable)
once_unavailable (suc n) = ok tt

abbrev never_ended : ℕ → Option CallError
never_ended n = none
