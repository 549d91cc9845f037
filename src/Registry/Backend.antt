-- ===== src/Registry/Backend.antt =====
-- internal/adapters/registry/registry.go: what the registry is built on, as parameters: the
-- database, the object storage, the disk and a digest; and the registry's state over them.
use easyp_plugin_server.Common.{ℕ, Bool, List, Option, Text, Result}
use easyp_plugin_server.Core.Errors.{Error}
use easyp_plugin_server.Core.Domain.{CreatePluginRequest}
use easyp_plugin_server.Registry.Cache.{PluginCache}
use easyp_plugin_server.Registry.Query.{Row, Arg, Query}
use easyp_plugin_server.Registry.Config.{Json, Resolved}

-- How a statement fails: sql.ErrNoRows, PostgreSQL's code 23505, or otherwise, with what the error
-- wraps.
pub data Failure : Type 0 where
  no_rows unique_violation : Failure
  failed : Error → Failure

-- config = $n, tags = $n
pub data SetClause : Type 0 where
  set_config set_tags : ℕ → SetClause

-- UPDATE plugins SET … WHERE group_name = $n AND name = $n AND version = $n
pub record UpdateQuery : Type 0 where
  pub set_clauses : List SetClause
  pub group_at : ℕ
  pub name_at : ℕ
  pub version_at : ℕ
  pub args : List Arg

pub data Stat : Type 0 where
  found not_there stat_failed : Stat

-- What the registry is built on. `read_failure` is a failure to read the staged archive back;
-- `stage` makes the staging directory and a file in it, which `discard` removes; `measure` is the
-- size of a directory; `while_waiting` is what others do to the disk before a flight is entered.
pub record Backend : Type 1 where
  pub json : Json
  pub Rows : Type 0
  pub select : Query → Rows → Result Failure (List Row)
  pub insert_row : CreatePluginRequest → Rows → Result Failure Row × Rows
  pub update_row : UpdateQuery → Rows → Result Failure Row × Rows
  pub delete_rows : Text → Text → Text → Rows → Result Error ℕ × Rows
  pub Objects : Type 0
  pub open_object : Text → Objects → Result Error (Result Error Text)
  pub object_exists : Text → Objects → Result Error Bool
  pub download : Text → Objects → Result Error Text
  pub delete_object : Text → Objects → Result Error (Unit {0}) × Objects
  pub Disk : Type 0
  pub stat : Text → Disk → Stat
  pub eval_symlinks : Disk → Text → Resolved
  pub stage : Disk → Result Error (Unit {0}) × Disk
  pub discard : Disk → Disk
  pub read_failure : Disk → Option Error
  pub unpack : Text → Text → Disk → Result Error (Unit {0}) × Disk
  pub remove_all : Text → Disk → Disk
  pub measure : Text → Disk → Option ℕ
  pub while_waiting : Disk → Disk
  pub digest : Text → Text
  pub plugins_dir : Text
  pub has_storage : Bool

-- `cache` is none where eviction is off.
pub record State (B : Backend) : Type 0 where
  pub rows : B.Rows
  pub objects : B.Objects
  pub disk : B.Disk
  pub cache : Option PluginCache
