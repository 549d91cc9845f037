-- ===== src/Api/Status.antt =====
-- classify of internal/api/api.go, and how it agrees with errorCode of internal/core/core.go.
use easyp_plugin_server.Common.{◌≡◌, Bool, true, false, Text, codes, ◌==◌, if◌then◌else◌}
use easyp_plugin_server.Core.Errors.{
  Error, Sentinel, rank, errors_is, error_code, not_found, invalid_plugin_name, generation_failed,
  server_overloaded, shutting_down, already_exists, max_plugins_exceeded, feature_denied,
  storage_unavailable, binary_not_uploaded, invalid_config, deadline_exceeded, canceled,
}

pub data Code : Type 0 where
  ok_code canceled_code invalid_argument deadline_code not_found_code already_exists_code : Code
  permission_denied resource_exhausted failed_precondition internal unavailable : Code
  unauthenticated : Code

-- The switch over errors.Is: the first case that holds decides code and reason.
unfoldable pub classify : Error → Code × Text
classify e =
    if errors_is e not_found
    then (Code.not_found_code, codes "NOT_FOUND")
    else if errors_is e invalid_plugin_name
    then (Code.invalid_argument, codes "INVALID_PLUGIN_NAME")
    else if errors_is e invalid_config
    then (Code.invalid_argument, codes "INVALID_CONFIG")
    else if errors_is e generation_failed
    then (Code.internal, codes "GENERATION_FAILED")
    else if errors_is e server_overloaded
    then (Code.resource_exhausted, codes "SERVER_OVERLOADED")
    else if errors_is e already_exists
    then (Code.already_exists_code, codes "ALREADY_EXISTS")
    else if errors_is e max_plugins_exceeded
    then (Code.resource_exhausted, codes "MAX_PLUGINS_EXCEEDED")
    else if errors_is e shutting_down
    then (Code.unavailable, codes "SHUTTING_DOWN")
    else if errors_is e storage_unavailable
    then (Code.unavailable, codes "STORAGE_UNAVAILABLE")
    else if errors_is e binary_not_uploaded
    then (Code.failed_precondition, codes "BINARY_NOT_UPLOADED")
    else if errors_is e feature_denied
    then (Code.permission_denied, codes "FEATURE_DENIED")
    else if errors_is e deadline_exceeded
    then (Code.deadline_code, codes "DEADLINE_EXCEEDED")
    else if errors_is e canceled
    then (Code.canceled_code, codes "CANCELED")
    else (Code.internal, codes "INTERNAL")

-- The error wraps this sentinel, perhaps several times over, and no other.
abbrev pub WrapsOnly : Sentinel → Error → Type 0
WrapsOnly s e = (t : Sentinel) → errors_is e t ≡ (rank s == rank t)

-- The sentinels that errorCode's table leaves out.
abbrev pub untabled : Sentinel → Bool
untabled invalid_config = true
untabled deadline_exceeded = true
untabled canceled = true
untabled _ = false

-- For an error that wraps exactly one sentinel the audit log's code is the reason that the client
-- gets, but for invalid configuration, a passed deadline and a cancellation, which the audit log
-- records as INTERNAL.
pub error_code-classify :
    (s : Sentinel) (e : Error)
    → WrapsOnly s e
    → error_code e ≡ (if untabled s then codes "INTERNAL" else (classify e).1)
unfolding error_code classify
error_code-classify not_found e h = simp h
error_code-classify invalid_plugin_name e h = simp h
error_code-classify generation_failed e h = simp h
error_code-classify server_overloaded e h = simp h
error_code-classify shutting_down e h = simp h
error_code-classify already_exists e h = simp h
error_code-classify max_plugins_exceeded e h = simp h
error_code-classify feature_denied e h = simp h
error_code-classify storage_unavailable e h = simp h
error_code-classify binary_not_uploaded e h = simp h
error_code-classify invalid_config e h = simp h
error_code-classify deadline_exceeded e h = simp h
error_code-classify canceled e h = simp h
