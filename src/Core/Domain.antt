-- ===== src/Core/Domain.antt =====
-- The domain types of internal/core/domain.go and internal/core/context.go.
use easyp_plugin_server.Common.{
  ℕ, Bool, List, [], Option, Text, codes, ℤ, Result, if◌then◌else◌, text_eq,
}
use easyp_plugin_server.Core.Errors.{Error}

pub data Feature : Type 0 where
  code_generation plugin_listing mcp_server_tools rate_limiting plugin_crud audit : Feature

pub data Operation : Type 0 where
  generate_code list_plugins create_plugin update_plugin delete_plugin : Operation

pub data AuditStatus : Type 0 where
  success error : AuditStatus

pub record PluginInfo : Type 0 where
  pub id : Text
  pub group : Text
  pub name : Text
  pub version : Text
  pub tags : List Text
  pub created_at : ℕ

pub record PluginFilter : Type 0 where
  pub group : Text
  pub name : Text
  pub version : Text
  pub tags : List Text

pub record PluginKey : Type 0 where
  pub group : Text
  pub name : Text
  pub version : Text

pub record PluginPage : Type 0 where
  pub size : ℤ
  pub after : Option PluginKey

pub record PluginList : Type 0 where
  pub plugins : List PluginInfo
  pub next : Option PluginKey

-- The configuration document is raw bytes here: only the registry parses it.
pub record CreatePluginRequest : Type 0 where
  pub group : Text
  pub name : Text
  pub version : Text
  pub config : Text
  pub tags : List Text

pub record UpdatePluginRequest : Type 0 where
  pub group : Text
  pub name : Text
  pub version : Text
  pub config : Text
  pub tags : List Text
  pub update_config : Bool
  pub update_tags : Bool

-- Identifier, duration and time of an entry come from outside and are left out.
pub record AuditEntry : Type 0 where
  pub operation_type : Operation
  pub plugin_name : Text
  pub caller_address : Text
  pub status : AuditStatus
  pub error_code : Text
  pub actor : Text
  pub metadata : List (Text × ℕ)

pub record FeatureGate : Type 0 where
  pub enabled : Feature → Bool
  pub max_workers : ℤ
  pub max_plugins : ℤ

-- The values that a request's context carries; the empty text is a value that was not set.
pub record Context : Type 0 where
  pub caller_ip : Text
  pub actor : Text

unfoldable pub caller_ip_from_context : Context → Text
unfolding text_eq
caller_ip_from_context ctx = if text_eq ctx.caller_ip [] then codes "unknown" else ctx.caller_ip

unfoldable pub actor_from_context : Context → Text
unfolding text_eq
actor_from_context ctx = if text_eq ctx.actor [] then codes "unknown" else ctx.actor

-- The Registry, Plugin and Metrics interfaces. A registry's state is opaque to the service;
-- `generate` is the plugin's, and `record_generation` is Metrics.GenerateCode.
pub record Registry : Type 1 where
  pub State : Type 0
  pub Plugin : Type 0
  pub Request : Type 0
  pub Response : Type 0
  pub get : Text → Text → Text → State → Result Error Plugin × State
  pub list : PluginFilter → PluginPage → State → Result Error (List PluginInfo) × State
  pub create : CreatePluginRequest → State → Result Error PluginInfo × State
  pub update : UpdatePluginRequest → State → Result Error PluginInfo × State
  pub delete : Text → Text → Text → State → Result Error (Unit {0}) × State
  pub generate : Plugin → Request → State → Result Error Response × State
  pub record_generation : Plugin → Result Error (Unit {0})
  pub file_count : Response → ℕ
