-- ===== src/Registry/Config.antt =====
-- internal/adapters/registry/registry.go: plugin configurations, what is accepted of them, and the
-- checksum that they carry. Package encoding/json is a parameter.
pub mod Checked
use easyp_plugin_server.Common.{
  ℕ, Bool, true, false, not, ◌&&◌, List, [], ◌∷◌, ◌++◌, Option, none, some, Text, codes, text_eq,
  has_prefix, ◌≡◌, insert, lookup, Result, ok, err, if◌then◌else◌,
}
use easyp_plugin_server.Core.Errors.{Error, invalid_config, generation_failed}
use easyp_plugin_server.Paths.{slash, clean, join_all}

pub record PluginConfig : Type 0 where
  pub command : List Text
  pub env : List (Text × Text)
  pub timeout : Text
  pub sha256 : Text

abbrev pub no_config : PluginConfig
no_config = record { command = []; env = []; timeout = []; sha256 = [] }

abbrev pub sha256_key : Text
sha256_key = codes "sha256"

-- What the registry calls of encoding/json. `is_sha256` says which keys of an object are read into
-- the field Sha256: the package compares them without regard to case.
pub record Json : Type 1 where
  pub Value : Type 0
  pub unmarshal_config : Text → Option PluginConfig
  pub unmarshal_map : Text → Option (List (Text × Value))
  pub string_value : Text → Value
  pub marshal : List (Text × Value) → Option Text
  pub is_sha256 : Text → Bool

-- ValidateConfig
unfoldable pub validate_config : Json → Text → Text → Result Error (Unit {0})
unfolding clean text_eq has_prefix
validate_config json config plugins_dir =
    if text_eq config [] then err (invalid_config ∷ []) else elim (json.unmarshal_config config) [
      | none ↦ err (invalid_config ∷ [])
      | some c ↦ elim c.command [
        | [] ↦ err (invalid_config ∷ [])
        | program ∷ arguments ↦
            if not (text_eq (clean program) (clean plugins_dir))
              && not (has_prefix (clean program) (clean plugins_dir ++ slash ∷ []))
            then err (invalid_config ∷ [])
            else ok tt
      ]
    ]

-- configWithChecksum
unfoldable pub config_with_checksum : Json → Text → Text → Result Error Text
unfolding insert
config_with_checksum json config checksum_hex = elim (json.unmarshal_map config) [
  | none ↦ err []
  | some raw ↦ elim (json.marshal (insert sha256_key (json.string_value checksum_hex) raw)) [
    | none ↦ err []
    | some updated ↦ ok updated
  ]
]

-- archiveKey
unfoldable pub archive_key : Text → Text → Text → Text
unfolding join_all
archive_key group name version = join_all (group ∷ name ∷ version ∷ codes "plugin.tgz" ∷ [])

-- verifyChecksum, of a file with these contents; `failure` is one of opening or reading the file.
unfoldable pub verify_checksum :
    (digest : Text → Text) (failure : Option Error) (contents expected : Text)
    → Result Error (Unit {0})
unfolding text_eq
verify_checksum digest failure contents expected =
    if text_eq expected [] then ok tt else elim failure [
      | some e ↦ err e
      | none ↦ if not (text_eq (digest contents) expected) then err [] else ok tt
    ]

-- What EvalSymlinks answers.
pub data Resolved : Type 0 where
  resolved : Text → Resolved
  missing unresolved : Resolved

-- checkExecutableContained
unfoldable pub check_executable_contained :
    (eval_symlinks : Text → Resolved) (plugins_dir : Text) → PluginConfig → Result Error (Unit {0})
unfolding text_eq has_prefix
check_executable_contained eval_symlinks plugins_dir c = elim c.command [
  | [] ↦ ok tt
  | program ∷ arguments ↦ elim (eval_symlinks program) [
    | missing ↦ ok tt
    | unresolved ↦ err (generation_failed ∷ [])
    | resolved target ↦ elim (eval_symlinks plugins_dir) [
      | missing ↦ err (generation_failed ∷ [])
      | unresolved ↦ err (generation_failed ∷ [])
      | resolved root ↦
          if not (text_eq target root) && not (has_prefix target (root ++ slash ∷ []))
          then err (invalid_config ∷ [])
          else ok tt
    ]
  ]
]
