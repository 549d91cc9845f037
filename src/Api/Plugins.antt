-- ===== src/Api/Plugins.antt =====
-- internal/api/plugins_list.go, pagetoken.go and api.go: the handlers of the plugin operations over
-- the service. Package encoding/json and base64 are parameters, and so is the configuration's
-- rendering by protojson.
pub mod Tokens
use easyp_plugin_server.Common.{
  Bool, List, [], ◌∷◌, Option, none, some, Text, text_eq, trim_space, ℤ, Result, ok, err,
  if◌then◌else◌,
}
use easyp_plugin_server.Core.Errors.{Error}
use easyp_plugin_server.Core.Domain.{
  PluginInfo, PluginFilter, PluginKey, PluginPage, PluginList, Context, Registry,
}
use easyp_plugin_server.Core.Service.{Core, World, list_plugins, create_plugin, update_plugin}
use easyp_plugin_server.Api.UpdateMask.{update_mask_fields}

-- json.Marshal and Unmarshal of a token's key, and base64.RawURLEncoding.
pub record Codec : Type 0 where
  pub marshal : PluginKey → Option Text
  pub unmarshal : Text → Option PluginKey
  pub encode_to_string : Text → Text
  pub decode_string : Text → Option Text

pub data HandlerError : Type 0 where
  bad_page_token bad_config bad_mask : HandlerError
  failed : Error → HandlerError

unfoldable pub encode_page_token : Codec → Option PluginKey → Text
encode_page_token codec none = []
encode_page_token codec (some key) = elim (codec.marshal key) [
  | none ↦ []
  | some raw ↦ codec.encode_to_string raw
]

unfoldable pub decode_page_token : Codec → Text → Result HandlerError (Option PluginKey)
unfolding text_eq
decode_page_token codec token =
    if text_eq token [] then ok none else elim (codec.decode_string token) [
      | none ↦ err bad_page_token
      | some raw ↦ elim (codec.unmarshal raw) [
        | none ↦ err bad_page_token
        | some key ↦ ok (some key)
      ]
    ]

unfoldable pub compact_strings : List Text → List Text
unfolding trim_space text_eq
compact_strings [] = []
compact_strings (v ∷ values) =
    let rest = compact_strings values in
    if text_eq (trim_space v) [] then rest else trim_space v ∷ rest

pub record PluginsRequest : Type 0 where
  pub group : Text
  pub name : Text
  pub version : Text
  pub tags : List Text
  pub page_size : ℤ
  pub page_token : Text

pub record PluginsResponse : Type 0 where
  pub plugins : List PluginInfo
  pub next_page_token : Text

unfoldable pub request_filter : PluginsRequest → PluginFilter
unfolding trim_space compact_strings
request_filter req = record {
  group = trim_space req.group;
  name = trim_space req.name;
  version = trim_space req.version;
  tags = compact_strings req.tags;
}

-- The messages of CreatePlugin and UpdatePlugin; `config` is none where it is not set.
pub record ChangeRequest (Struct : Type 0) : Type 0 where
  pub group : Text
  pub name : Text
  pub version : Text
  pub config : Option Struct
  pub tags : List Text
  pub update_mask : List Text

unfoldable pub list_response : Codec → Result Error PluginList → Result HandlerError PluginsResponse
unfolding encode_page_token
list_response codec (err e) = err (failed e)
list_response codec (ok l) =
    ok (record { plugins = l.plugins; next_page_token = encode_page_token codec l.next })

module _ (R : Registry) (c : Core) (ctx : Context) (codec : Codec) where
  -- listPlugins
  unfoldable pub handle_list :
      PluginsRequest → World R → Result HandlerError PluginsResponse × World R
  unfolding decode_page_token list_response request_filter trim_space list_plugins
  handle_list req w = elim (decode_page_token codec (trim_space req.page_token)) [
    | err e ↦ (err e, w)
    | ok after ↦
        let page : PluginPage = record { size = req.page_size; after = after } in
        let (listed, w') = list_plugins R c ctx (request_filter req) page w in
        (list_response codec listed, w')
  ]

module _ (R : Registry) (c : Core) (ctx : Context) {Struct : Type 0}
    (protojson : Struct → Option Text) where
  -- The rendering of a configuration; one that is not set is the empty document.
  unfoldable pub config_json : Option Struct → Option Text
  config_json none = some []
  config_json (some config) = protojson config

  unfoldable pub handle_create :
      ChangeRequest Struct → World R → Result HandlerError PluginInfo × World R
  unfolding config_json trim_space compact_strings create_plugin
  handle_create request w = elim (config_json request.config) [
    | none ↦ (err bad_config, w)
    | some config ↦
        let (created, w') =
          create_plugin R c ctx
            (record {
              group = trim_space request.group;
              name = trim_space request.name;
              version = trim_space request.version;
              config = config;
              tags = compact_strings request.tags;
            })
            w in
        elim created [ err e ↦ (err (failed e), w') | ok info ↦ (ok info, w') ]
  ]

  unfoldable pub handle_update :
      ChangeRequest Struct → World R → Result HandlerError PluginInfo × World R
  unfolding config_json trim_space compact_strings update_plugin update_mask_fields
  handle_update request w = elim (config_json request.config) [
    | none ↦ (err bad_config, w)
    | some config ↦ elim (update_mask_fields request.update_mask) [
      | err e ↦ (err bad_mask, w)
      | ok selected ↦
          let (updated, w') =
            update_plugin R c ctx
              (record {
                group = trim_space request.group;
                name = trim_space request.name;
                version = trim_space request.version;
                config = config;
                tags = compact_strings request.tags;
                update_config = selected.0;
                update_tags = selected.1;
              })
              w in
          elim updated [ err e ↦ (err (failed e), w') | ok info ↦ (ok info, w') ]
    ]
  ]
