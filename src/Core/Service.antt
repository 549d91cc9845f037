-- ===== src/Core/Service.antt =====
-- The service of internal/core/core.go over an arbitrary registry. Every branch of an operation
-- reports through `audit_success` or `audit_error`, which count the operation and hand an entry
-- to the sink.
pub mod Recorded
pub mod Limits
pub mod Paging
use easyp_plugin_server.Common.{
  ℕ, suc, ◌+◌, Bool, true, false, not, List, [], ◌∷◌, Option, none, some, Text, codes, length, take,
  ltb, leb, if◌then◌else◌, ℤ, pos, negsuc, not_positive, magnitude, Result, ok, err, ◌>>◌,
}
use easyp_plugin_server.Core.Errors.{Error, error_code, feature_denied, max_plugins_exceeded}
use easyp_plugin_server.Core.Names.{
  get_group, get_name_and_version, validate_group_name, validate_version, full_name,
}
use easyp_plugin_server.Core.Domain.{
  Feature, Operation, AuditStatus, PluginInfo, PluginFilter, PluginKey, PluginPage, PluginList,
  CreatePluginRequest, UpdatePluginRequest, AuditEntry, FeatureGate, Context, Registry,
  caller_ip_from_context, actor_from_context,
}

-- The collaborators that decide something: a missing gate allows everything, a missing sink
-- records nothing.
pub record Core : Type 0 where
  pub feature_gate : Option FeatureGate
  pub audit_sink : Bool

-- What a run leaves behind: the registry, the operation counter and the sink, newest first.
pub record World (R : Registry) : Type 0 where
  pub registry : R.State
  pub operations : List (Operation × AuditStatus)
  pub sent : List AuditEntry
  pub skipped : ℕ

abbrev pub default_page_size : ℕ
default_page_size = 100

abbrev pub max_page_size : ℕ
max_page_size = 1000

unfoldable pub allows : Option FeatureGate → Feature → Bool
allows none feature = true
allows (some gate) feature = gate.enabled feature

unfoldable pub check_feature : Core → Feature → Result Error (Unit {0})
unfolding allows
check_feature c feature = if allows c.feature_gate feature then ok tt else err (feature_denied ∷ [])

-- LicenseUnlimited is -1.
unfoldable pub max_plugins : Core → ℤ
max_plugins c = elim c.feature_gate [ none ↦ negsuc 0 | some gate ↦ gate.max_plugins ]

unfoldable pub normalise_size : ℤ → ℕ
normalise_size size =
    let n = if not_positive size then default_page_size else magnitude size in
    if ltb max_page_size n then max_page_size else n

abbrev pub key_of : PluginInfo → PluginKey
key_of p = record { group = p.group; name = p.name; version = p.version }

-- plugins[size-1], where the list is long enough.
unfoldable pub last_of : List PluginInfo → Option PluginKey
last_of [] = none
last_of (p ∷ []) = some (key_of p)
last_of (p ∷ q ∷ ps) = last_of (q ∷ ps)

-- The page out of a probe of one row more than the page.
unfoldable pub cut_page : ℕ → List PluginInfo → PluginList
unfolding last_of
cut_page size plugins =
    if ltb size (length plugins)
    then record { plugins = take size plugins; next = last_of (take size plugins) }
    else record { plugins = plugins; next = none }

-- The entry that auditSuccess builds.
abbrev pub success_entry : Context → Operation → Text → List (Text × ℕ) → AuditEntry
success_entry ctx op plugin_name metadata = record {
  operation_type = op;
  plugin_name = plugin_name;
  caller_address = caller_ip_from_context ctx;
  status = AuditStatus.success;
  error_code = [];
  actor = actor_from_context ctx;
  metadata = metadata;
}

-- The entry that auditError builds.
abbrev pub error_entry : Context → Operation → Text → Error → AuditEntry
error_entry ctx op plugin_name e = record {
  operation_type = op;
  plugin_name = plugin_name;
  caller_address = caller_ip_from_context ctx;
  status = AuditStatus.error;
  error_code = error_code e;
  actor = actor_from_context ctx;
  metadata = [];
}

module _ (R : Registry) (c : Core) (ctx : Context) where
  open R use {State, Plugin, Request, Response}

  unfoldable pub send_audit : AuditEntry → World R → World R
  unfolding allows
  send_audit entry w =
      let counted = record w { operations = (entry.operation_type, entry.status) ∷ w.operations } in
      if not c.audit_sink
      then counted
      else if not (allows c.feature_gate Feature.audit)
      then record counted { skipped = suc counted.skipped }
      else record counted { sent = entry ∷ counted.sent }

  unfoldable pub audit_success : Operation → Text → List (Text × ℕ) → World R → World R
  unfolding send_audit
  audit_success op plugin_name metadata = send_audit (success_entry ctx op plugin_name metadata)

  unfoldable pub audit_error : Operation → Text → Error → World R → World R
  unfolding send_audit
  audit_error op plugin_name e = send_audit (error_entry ctx op plugin_name e)

  -- auditError, then the return of the error.
  unfoldable pub fail {ℓ} :
      {A : Type ℓ} → Operation → Text → Error → World R → Result Error A × World R
  unfolding audit_error
  fail op plugin_name e w = (err e, audit_error op plugin_name e w)

  -- auditSuccess, then the return of the value.
  unfoldable pub succeed {ℓ} :
      {A : Type ℓ} → Operation → Text → List (Text × ℕ) → A → World R → Result Error A × World R
  unfolding audit_success
  succeed op plugin_name metadata a w = (ok a, audit_success op plugin_name metadata w)

  -- Generate from the plugin on.
  unfoldable pub run_plugin : Text → Plugin → Request → World R → Result Error Response × World R
  unfolding fail succeed
  run_plugin plugin_name plugin payload w =
      let (generated, s) = R.generate plugin payload w.registry in
      let w' = record w { registry = s } in
      elim generated [
        | err e ↦ fail Operation.generate_code plugin_name e w'
        | ok response ↦ elim (R.record_generation plugin) [
          | err e ↦ fail Operation.generate_code plugin_name e w'
          | ok _ ↦
              succeed Operation.generate_code plugin_name
                ((codes "file_count", R.file_count response) ∷ []) response w'
        ]
      ]

  unfoldable pub generate : Text → Request → World R → Result Error Response × World R
  unfolding fail run_plugin
  generate plugin_name payload w = elim (get_group plugin_name) [
    | err e ↦ fail Operation.generate_code plugin_name e w
    | ok group ↦ elim (get_name_and_version plugin_name) [
      | err e ↦ fail Operation.generate_code plugin_name e w
      | ok (name, version) ↦
          let (got, s) = R.get group name version w.registry in
          let w' = record w { registry = s } in
          elim got [
            | err e ↦ fail Operation.generate_code plugin_name e w'
            | ok plugin ↦ run_plugin plugin_name plugin payload w'
          ]
    ]
  ]

  unfoldable pub list_plugins :
      PluginFilter → PluginPage → World R → Result Error PluginList × World R
  unfolding normalise_size fail succeed
  list_plugins filter page w =
      let size = normalise_size page.size in
      let (listed, s) =
        R.list filter (record { size = pos (size + 1); after = page.after }) w.registry in
      let w' = record w { registry = s } in
      elim listed [
        | err e ↦ fail Operation.list_plugins [] e w'
        | ok plugins ↦
            let result = cut_page size plugins in
            succeed Operation.list_plugins [] ((codes "plugin_count", length result.plugins) ∷ [])
              result w'
      ]

  -- The guards that CreatePlugin and UpdatePlugin run before they touch the registry.
  unfoldable pub check_request : Text → Text → Text → Result Error (Unit {0})
  unfolding check_feature
  check_request group name version =
      check_feature c Feature.plugin_crud
      >> (validate_group_name group name >> validate_version version)

  -- The licence ceiling: a page of size 0 is the whole listing.
  unfoldable pub check_limit : World R → Result Error (Unit {0}) × World R
  unfolding max_plugins
  check_limit w = elim (max_plugins c) [
    | negsuc n ↦ (ok tt, w)
    | pos limit ↦
        let (listed, s) =
          R.list (record { group = []; name = []; version = []; tags = [] })
            (record { size = pos 0; after = none }) w.registry in
        let w' = record w { registry = s } in
        elim listed [
          | err e ↦ (err e, w')
          | ok plugins ↦
              (if leb limit (length plugins) then err (max_plugins_exceeded ∷ []) else ok tt, w')
        ]
  ]

  unfoldable pub create_plugin : CreatePluginRequest → World R → Result Error PluginInfo × World R
  unfolding check_request check_limit fail succeed
  create_plugin req w =
      let plugin_name = full_name req.group req.name req.version in
      elim (check_request req.group req.name req.version) [
        | err e ↦ fail Operation.create_plugin plugin_name e w
        | ok _ ↦
            let (checked, w') = check_limit w in
            elim checked [
              | err e ↦ fail Operation.create_plugin plugin_name e w'
              | ok _ ↦
                  let (created, s) = R.create req w'.registry in
                  let w'' = record w' { registry = s } in
                  elim created [
                    | err e ↦ fail Operation.create_plugin plugin_name e w''
                    | ok info ↦ succeed Operation.create_plugin plugin_name [] info w''
                  ]
            ]
      ]

  unfoldable pub update_plugin : UpdatePluginRequest → World R → Result Error PluginInfo × World R
  unfolding check_request fail succeed
  update_plugin req w =
      let plugin_name = full_name req.group req.name req.version in
      elim (check_request req.group req.name req.version) [
        | err e ↦ fail Operation.update_plugin plugin_name e w
        | ok _ ↦
            let (updated, s) = R.update req w.registry in
            let w' = record w { registry = s } in
            elim updated [
              | err e ↦ fail Operation.update_plugin plugin_name e w'
              | ok info ↦ succeed Operation.update_plugin plugin_name [] info w'
            ]
      ]

  unfoldable pub delete_plugin : Text → Text → Text → World R → Result Error (Unit {0}) × World R
  unfolding check_feature fail succeed
  delete_plugin group name version w =
      let plugin_name = full_name group name version in
      elim (check_feature c Feature.plugin_crud) [
        | err e ↦ fail Operation.delete_plugin plugin_name e w
        | ok _ ↦
            let (deleted, s) = R.delete group name version w.registry in
            let w' = record w { registry = s } in
            elim deleted [
              | err e ↦ fail Operation.delete_plugin plugin_name e w'
              | ok _ ↦ succeed Operation.delete_plugin plugin_name [] tt w'
            ]
      ]
