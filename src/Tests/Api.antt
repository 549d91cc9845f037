-- ===== src/Tests/Api.antt =====
-- Status codes and update masks at concrete inputs.
use easyp_plugin_server.Common.{◌≡◌, refl, [], ◌∷◌, codes}
use easyp_plugin_server.Core.Errors.{
  not_found, invalid_plugin_name, generation_failed, server_overloaded, shutting_down,
  already_exists, max_plugins_exceeded, feature_denied, storage_unavailable, binary_not_uploaded,
  invalid_config, deadline_exceeded, canceled, errors_is, error_code,
}
use easyp_plugin_server.Api.Status.{classify, WrapsOnly, error_code-classify}

invalid_only : WrapsOnly invalid_config (invalid_config ∷ [])
unfolding errors_is
invalid_only not_found = refl
invalid_only invalid_plugin_name = refl
invalid_only generation_failed = refl
invalid_only server_overloaded = refl
invalid_only shutting_down = refl
invalid_only already_exists = refl
invalid_only max_plugins_exceeded = refl
invalid_only feature_denied = refl
invalid_only storage_unavailable = refl
invalid_only binary_not_uploaded = refl
invalid_only invalid_config = refl
invalid_only deadline_exceeded = refl
invalid_only canceled = refl

-- The audit log says INTERNAL.
error_code-classify_example : error_code (invalid_config ∷ []) ≡ codes "INTERNAL"
error_code-classify_example = error_code-classify invalid_config (invalid_config ∷ []) invalid_only

-- The client is told INVALID_CONFIG.
classify_invalid_config : (classify (invalid_config ∷ [])).1 ≡ codes "INVALID_CONFIG"
unfolding classify errors_is
classify_invalid_config = refl
