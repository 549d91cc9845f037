-- ===== src/Core/Errors.antt =====
-- internal/core/domain.go (the sentinel errors) and errorCode of internal/core/core.go.
-- An error is the list of the sentinels that its chain wraps, which is all that errors.Is reads;
-- the text of a message is kept only where the program reads it back.
use easyp_plugin_server.Common.{
  ℕ, Bool, false, ◌||◌, List, [], ◌∷◌, Text, codes, ◌==◌, if◌then◌else◌,
}

pub data Sentinel : Type 0 where
  not_found invalid_plugin_name generation_failed server_overloaded : Sentinel
  shutting_down already_exists max_plugins_exceeded feature_denied : Sentinel
  storage_unavailable binary_not_uploaded invalid_config : Sentinel
  deadline_exceeded canceled : Sentinel

abbrev pub Error : Type 0
Error = List Sentinel

abbrev pub rank : Sentinel → ℕ
rank not_found = 0
rank invalid_plugin_name = 1
rank generation_failed = 2
rank server_overloaded = 3
rank shutting_down = 4
rank already_exists = 5
rank max_plugins_exceeded = 6
rank feature_denied = 7
rank storage_unavailable = 8
rank binary_not_uploaded = 9
rank invalid_config = 10
rank deadline_exceeded = 11
rank canceled = 12

-- errors.Is against one sentinel.
unfoldable pub errors_is : Error → Sentinel → Bool
errors_is [] t = false
errors_is (s ∷ e) t = rank s == rank t || errors_is e t

-- The loop over a sentinel-to-code table: the first sentinel that the error wraps decides.
unfoldable pub first_code : (Sentinel → Bool) → List (Sentinel × Text) → Text
first_code wraps [] = codes "INTERNAL"
first_code wraps ((s, code) ∷ table) = if wraps s then code else first_code wraps table

abbrev pub error_codes : List (Sentinel × Text)
error_codes =
    (not_found, codes "NOT_FOUND")
    ∷ (invalid_plugin_name, codes "INVALID_PLUGIN_NAME")
    ∷ (generation_failed, codes "GENERATION_FAILED")
    ∷ (server_overloaded, codes "SERVER_OVERLOADED")
    ∷ (shutting_down, codes "SHUTTING_DOWN")
    ∷ (already_exists, codes "ALREADY_EXISTS")
    ∷ (max_plugins_exceeded, codes "MAX_PLUGINS_EXCEEDED")
    ∷ (feature_denied, codes "FEATURE_DENIED")
    ∷ (storage_unavailable, codes "STORAGE_UNAVAILABLE")
    ∷ (binary_not_uploaded, codes "BINARY_NOT_UPLOADED")
    ∷ []

unfoldable pub error_code : Error → Text
unfolding first_code
error_code e = first_code (errors_is e) error_codes
