-- ===== src/Registry/Binaries.antt =====
-- internal/adapters/registry/registry.go: the executable of a plugin, from the object storage onto
-- the disk, and Get.
pub mod Verified
use easyp_plugin_server.Common.{
  ℕ, Bool, true, false, not, List, [], ◌∷◌, Option, none, some, Text, codes, text_eq, lookup,
  Result, ok, err, if◌then◌else◌,
}
use mathlib.Core.Option
use easyp_plugin_server.Core.Errors.{Error, not_found, storage_unavailable}
use easyp_plugin_server.Paths.{dir}
use easyp_plugin_server.Registry.Cache.{CacheEntry, touch, add}
use easyp_plugin_server.Registry.Query.{Row, get_query, latest_query}
use easyp_plugin_server.Registry.Config.{
  PluginConfig, no_config, archive_key, verify_checksum, check_executable_contained,
}
use easyp_plugin_server.Registry.Backend.{
  Backend, State, no_rows, unique_violation, failed, found, not_there, stat_failed,
}

module _ (B : Backend) where
  -- fetchAndUnpack: the temporary file is removed at the end, once there is one.
  unfoldable pub fetch_and_unpack :
      (key version_dir expected_sha256 : Text) → State B → Result Error (Unit {0}) × State B
  unfolding verify_checksum
  fetch_and_unpack key version_dir expected_sha256 s =
      let (staged, disk) = B.stage s.disk in
      let discarded = record s { disk = B.discard disk } in
      elim staged [
        | err e ↦ (err e, record s { disk = disk })
        | ok _ ↦ elim (B.download key s.objects) [
          | err e ↦ (err (storage_unavailable ∷ e), discarded)
          | ok contents ↦
              elim (verify_checksum B.digest (B.read_failure disk) contents expected_sha256) [
                | err e ↦ (err e, discarded)
                | ok _ ↦
                    let (unpacked, disk') = B.unpack contents version_dir disk in
                    (unpacked, record s { disk = B.discard disk' })
              ]
        ]
      ]

  unfoldable pub touch_cache : ℕ → Text → State B → State B
  unfolding touch
  touch_cache now version_dir s = record s { cache = Option.map (touch now version_dir) s.cache }

  -- The directories that an eviction forgets are removed.
  unfoldable pub remove_forgotten :
      List (Text × CacheEntry) → List (Text × CacheEntry) → B.Disk → B.Disk
  unfolding lookup
  remove_forgotten [] after disk = disk
  remove_forgotten ((version_dir, entry) ∷ before) after disk =
      let rest = remove_forgotten before after disk in
      elim (lookup version_dir after) [ none ↦ B.remove_all version_dir rest | some e ↦ rest ]

  -- pluginCache.add of a directory on this disk.
  unfoldable pub add_to_cache : (ℕ → ℕ) → ℕ → Text → State B → State B
  unfolding add remove_forgotten
  add_to_cache clock now version_dir s = elim s.cache [
    | none ↦ s
    | some c ↦ elim (B.measure version_dir s.disk) [
      | none ↦ s
      | some size ↦
          let c' = add clock now version_dir size c in
          record s { disk = remove_forgotten c.entries c'.entries s.disk; cache = some c' }
    ]
  ]

  -- The body of the flight.
  unfoldable pub flight :
      (ℕ → ℕ) → ℕ → (key bin_path sha256 : Text) → State B → Result Error (Unit {0}) × State B
  unfolding dir touch_cache fetch_and_unpack add_to_cache
  flight clock now key bin_path sha256 s =
      let (fetched, s') = fetch_and_unpack key (dir bin_path) sha256 s in
      let missing : Result Error (Unit {0}) × State B = elim fetched [
        | err e ↦ (err e, s')
        | ok _ ↦ (ok tt, add_to_cache clock now (dir bin_path) s')
      ] in
      elim (B.stat bin_path s.disk) [
        | found ↦ (ok tt, touch_cache now (dir bin_path) s)
        | not_there ↦ missing
        | stat_failed ↦ missing
      ]

  -- ensureBinary
  unfoldable pub ensure_binary :
      (ℕ → ℕ) → ℕ → Row → PluginConfig → State B → Result Error (Unit {0}) × State B
  unfolding archive_key dir touch_cache flight
  ensure_binary clock now plug c s = if not B.has_storage then (ok tt, s) else elim c.command [
    | [] ↦ (ok tt, s)
    | bin_path ∷ arguments ↦
        let key = archive_key plug.group_name plug.name plug.version in
        elim (B.stat bin_path s.disk) [
          | found ↦ (ok tt, touch_cache now (dir bin_path) s)
          | stat_failed ↦ (ok tt, touch_cache now (dir bin_path) s)
          | not_there ↦
              flight clock now key bin_path c.sha256 (record s { disk = B.while_waiting s.disk })
        ]
  ]

  unfoldable pub parsed_config : Text → Option PluginConfig
  unfolding text_eq
  parsed_config config =
      if text_eq config [] then some no_config else B.json.unmarshal_config config

  -- Get, behind the query.
  unfoldable pub prepare : (ℕ → ℕ) → ℕ → Row → State B → Result Error (Row × PluginConfig) × State B
  unfolding parsed_config ensure_binary check_executable_contained
  prepare clock now plug s = elim (parsed_config plug.config) [
    | none ↦ (err [], s)
    | some c ↦
        let (ensured, s') = ensure_binary clock now plug c s in
        elim ensured [
          | err e ↦ (err e, s')
          | ok _ ↦ elim (check_executable_contained (B.eval_symlinks s'.disk) B.plugins_dir c) [
            | err e ↦ (err e, s')
            | ok _ ↦ (ok (plug, c), s')
          ]
        ]
  ]

  -- Get
  unfoldable pub get :
      (ℕ → ℕ)
      → ℕ
      → (group name version : Text) → State B
      → Result Error (Row × PluginConfig) × State B
  unfolding text_eq get_query latest_query prepare
  get clock now group name version s =
      let query =
        if text_eq version (codes "latest")
        then latest_query group name
        else get_query group name version in
      elim (B.select query s.rows) [
        | err no_rows ↦ (err (not_found ∷ []), s)
        | err unique_violation ↦ (err [], s)
        | err (failed e) ↦ (err e, s)
        | ok [] ↦ (err (not_found ∷ []), s)
        | ok (plug ∷ plugins) ↦ prepare clock now plug s
      ]
