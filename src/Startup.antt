-- ===== src/Startup.antt =====
-- cmd/easyp-svc/start.go and config.go, internal/config/preflight.go: what the service makes of its
-- settings before it starts.
pub mod Capped
use easyp_plugin_server.Common.{
  ℕ, List, [], ◌∷◌, ◌++◌, Option, none, some, Bool, true, false, not, ◌&&◌, ◌||◌, Text, codes,
  text_eq, ℤ, pos, not_positive, less, times, wrap64, if◌then◌else◌,
}
use easyp_plugin_server.Config.Document.{Diagnostic, error, file, has_errors, is_error}

-- cappedWorkers
unfoldable pub capped_workers : ℤ → ℤ → ℤ
capped_workers configured license_limit =
    if not_positive license_limit || not (less license_limit configured)
    then configured
    else license_limit

-- checkServiceTier, the value of the gauge: whether the label disagrees with the licence.
unfoldable pub tier_mismatch : Text → Text → Bool
unfolding text_eq
tier_mismatch configured actual =
    if text_eq configured [] || text_eq configured actual then false else true

-- pluginCacheOptions, the least age of an evicted plugin.
unfoldable pub cache_min_age : ℤ → ℤ
unfolding wrap64
cache_min_age generation_timeout = wrap64 (times generation_timeout 2)

-- The errors of configError.
pub data Rejection {ℓ} (E : Type ℓ) : Type ℓ where
  config_rejected : Rejection E
  as_given : E → Rejection E

-- configError
unfoldable pub config_error {ℓ} : {E : Type ℓ} → List Diagnostic → Option E → Option (Rejection E)
unfolding has_errors
config_error diags none = none
config_error diags (some e) = some (if has_errors diags then config_rejected else as_given e)

-- configNotes, of the bucket and the key id: whether the note on credentials is given.
unfoldable pub no_credentials_note : Bool → Text → Bool
unfolding text_eq
no_credentials_note s3_enabled access_key_id = s3_enabled && text_eq access_key_id []

-- The loop of CheckFiles over the named paths; `readable` says what is wrong with a path.
unfoldable pub check_named_files :
    (readable : Text → Option Text) → List (Text × Text) → List Diagnostic
unfolding text_eq
check_named_files readable [] = []
check_named_files readable ((name, path) ∷ files) =
    let rest = check_named_files readable files in
    if text_eq path [] then rest else elim (readable path) [
      | none ↦ rest
      | some reason ↦
          record {
            severity = error;
            source = file;
            path = name;
            line = 0;
            message = path ++ codes " cannot be read: " ++ reason;
            hint = [];
          }
          ∷ rest
    ]

-- CheckFiles
unfoldable pub check_files :
    (readable : Text → Option Text)
    → (cert_file key_file client_ca_file license_file : Text) → List Diagnostic
unfolding check_named_files
check_files readable cert_file key_file client_ca_file license_file = check_named_files readable (
    (codes "server.tls.cert_file", cert_file)
    ∷ (codes "server.tls.key_file", key_file)
    ∷ (codes "server.tls.client_ca_file", client_ca_file)
    ∷ (codes "license.file", license_file)
    ∷ [])
