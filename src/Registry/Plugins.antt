-- ===== src/Registry/Plugins.antt =====
-- internal/adapters/registry/registry.go: the operations of the registry that read and write the
-- table of plugins.
pub mod Listed
pub mod Counted
pub mod Written
use easyp_plugin_server.Common.{
  ℕ, zero, suc, ◌+◌, ◌-◌, Bool, true, false, not, ◌&&◌, ◌||◌, List, [], ◌∷◌, ◌++◌, map, Option,
  none, some, Text, length, Result, ok, err, if◌then◌else◌,
}
use mathlib.Core.Option
use easyp_plugin_server.Core.Errors.{
  Error, not_found, already_exists, invalid_config, storage_unavailable, binary_not_uploaded,
}
use easyp_plugin_server.Core.Domain.{
  PluginInfo, PluginFilter, PluginPage, CreatePluginRequest, UpdatePluginRequest,
}
use easyp_plugin_server.Paths.{join_all}
use easyp_plugin_server.Registry.Cache.{forget}
use easyp_plugin_server.Registry.Query.{info, Arg, text_arg, texts_arg, list_query}
use easyp_plugin_server.Registry.Config.{validate_config, config_with_checksum, archive_key}
use easyp_plugin_server.Registry.Backend.{
  Backend, State, no_rows, unique_violation, failed, SetClause, set_config, set_tags, UpdateQuery,
}

-- What an update writes: a column that its mask selects.
abbrev pub given {ℓ} : {A : Type ℓ} → Bool → A → Option A
given true x = some x
given false x = none

-- The set clauses of Update and the arguments behind which the key's are put.
unfoldable pub update_query : Option Text → Option (List Text) → Text → Text → Text → UpdateQuery
update_query config tags group name version =
    let with_config : List SetClause × List Arg = elim config [
      | none ↦ ([], [])
      | some c ↦ (set_config 1 ∷ [], text_arg c ∷ [])
    ] in
    let with_tags : List SetClause × List Arg = elim tags [
      | none ↦ with_config
      | some ts ↦
          let args = with_config.1 ++ texts_arg ts ∷ [] in
          (with_config.0 ++ set_tags (length args) ∷ [], args)
    ] in
    let args = with_tags.1 ++ text_arg group ∷ text_arg name ∷ text_arg version ∷ [] in
    record {
      set_clauses = with_tags.0;
      group_at = length args - 2;
      name_at = length args - 1;
      version_at = length args;
      args = args;
    }

module _ (B : Backend) where
  -- List
  unfoldable pub list :
      PluginFilter → PluginPage → State B → Result Error (List PluginInfo) × State B
  unfolding list_query info
  list filter page s = elim (B.select (list_query filter page) s.rows) [
    | err no_rows ↦ (err [], s)
    | err unique_violation ↦ (err [], s)
    | err (failed e) ↦ (err e, s)
    | ok plugins ↦ (ok (map info plugins), s)
  ]

  -- attachArchiveChecksum
  unfoldable pub attach_archive_checksum :
      (group name version config : Text) → B.Objects → Result Error Text
  unfolding archive_key config_with_checksum
  attach_archive_checksum group name version config objects =
      let key = archive_key group name version in
      elim (B.open_object key objects) [
        | err e ↦ elim (B.object_exists key objects) [
          | err _ ↦ err (storage_unavailable ∷ e)
          | ok true ↦ err (storage_unavailable ∷ e)
          | ok false ↦ err (binary_not_uploaded ∷ [])
        ]
        | ok (err e) ↦ err (storage_unavailable ∷ e)
        | ok (ok contents) ↦ config_with_checksum B.json config (B.digest contents)
      ]

  -- The configuration that is stored: with object storage, the one with the archive's checksum.
  unfoldable pub checked_config : (group name version config : Text) → B.Objects → Result Error Text
  unfolding validate_config attach_archive_checksum
  checked_config group name version config objects =
      elim (validate_config B.json config B.plugins_dir) [
        | err e ↦ err e
        | ok _ ↦
            if B.has_storage
            then attach_archive_checksum group name version config objects
            else ok config
      ]

  -- Create
  unfoldable pub create : CreatePluginRequest → State B → Result Error PluginInfo × State B
  unfolding checked_config info
  create req s = elim (checked_config req.group req.name req.version req.config s.objects) [
    | err e ↦ (err e, s)
    | ok config ↦
        let (inserted, rows) = B.insert_row (record req { config = config }) s.rows in
        elim inserted [
          | err unique_violation ↦ (err (already_exists ∷ []), record s { rows = rows })
          | err no_rows ↦ (err [], record s { rows = rows })
          | err (failed e) ↦ (err e, record s { rows = rows })
          | ok plug ↦ (ok (info plug), record s { rows = rows })
        ]
  ]

  unfoldable pub run_update : UpdateQuery → State B → Result Error PluginInfo × State B
  unfolding info
  run_update query s =
      let (updated, rows) = B.update_row query s.rows in
      elim updated [
        | err no_rows ↦ (err (not_found ∷ []), record s { rows = rows })
        | err unique_violation ↦ (err [], record s { rows = rows })
        | err (failed e) ↦ (err e, record s { rows = rows })
        | ok plug ↦ (ok (info plug), record s { rows = rows })
      ]

  -- Update
  unfoldable pub update : UpdatePluginRequest → State B → Result Error PluginInfo × State B
  unfolding checked_config update_query run_update
  update req s =
      let tags = given req.update_tags req.tags in
      if not req.update_config && not req.update_tags
      then (err (invalid_config ∷ []), s)
      else if req.update_config
      then elim (checked_config req.group req.name req.version req.config s.objects) [
        | err e ↦ (err e, s)
        | ok config ↦ run_update (update_query (some config) tags req.group req.name req.version) s
      ]
      else run_update (update_query none tags req.group req.name req.version) s

  -- cleanupBinary
  unfoldable pub cleanup_binary : (group name version : Text) → State B → State B
  unfolding archive_key join_all forget
  cleanup_binary group name version s =
      let version_dir = join_all (B.plugins_dir ∷ group ∷ name ∷ version ∷ []) in
      if not B.has_storage then s else record {
        rows = s.rows;
        objects = (B.delete_object (archive_key group name version) s.objects).1;
        disk = B.remove_all version_dir s.disk;
        cache = Option.map (forget version_dir) s.cache;
      }

  -- Delete
  unfoldable pub delete : (group name version : Text) → State B → Result Error (Unit {0}) × State B
  unfolding cleanup_binary
  delete group name version s =
      let (deleted, rows) = B.delete_rows group name version s.rows in
      elim deleted [
        | err e ↦ (err e, record s { rows = rows })
        | ok zero ↦ (err (not_found ∷ []), record s { rows = rows })
        | ok (suc n) ↦ (ok tt, cleanup_binary group name version (record s { rows = rows }))
      ]
