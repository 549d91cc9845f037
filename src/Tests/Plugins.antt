-- ===== src/Tests/Plugins.antt =====
-- The registry over a database, a storage and a disk in memory.
use easyp_plugin_server.Common.{
  suc, ◌≡◌, refl, sym, true, false, ◌⊎◌, List, [], ◌∷◌, none, some, Text, codes, text_eq,
  text_eq→eq, split, split_from, has_prefix, length, pos, ok, err, lookup, insert,
}
use easyp_plugin_server.Core.Errors.{Error}
use easyp_plugin_server.Core.Domain.{PluginFilter, PluginPage, UpdatePluginRequest}
use easyp_plugin_server.Core.Service.{World}
use easyp_plugin_server.Core.Service.Paging.{walk}
use easyp_plugin_server.Paths.{is_abs, clean, render, join_parts, parts, run, enter, is_void, back}
use easyp_plugin_server.Archive.Inside.{Inside}
use easyp_plugin_server.Registry.Config.{validate_config, config_with_checksum, archive_key}
use easyp_plugin_server.Registry.Config.Checked.{validate_config-Inside}
use easyp_plugin_server.Registry.Backend.{State}
use easyp_plugin_server.Registry.Plugins.{checked_config, attach_archive_checksum}
use easyp_plugin_server.Registry.Binaries.{fetch_and_unpack}
use easyp_plugin_server.Registry.Binaries.Verified.{OnlyStaged, registered-Installs}
use easyp_plugin_server.Registry.Plugins.Listed.{Generation, registry_of, rows_of, walk-rows}
use easyp_plugin_server.Tests.Memory.{json, json_laws, two, fixed, fixed_table, stored_rows}
use easyp_plugin_server.Tests.Service.{by_length, core, caller, everything}

abbrev fixed_state : State fixed
fixed_state = record { rows = tt; objects = []; disk = []; cache = none }

abbrev named : PluginFilter
named = record { group = codes "grpc"; name = codes "bb"; version = []; tags = [] ∷ [] }

abbrev first_page : PluginPage
first_page = record { size = pos 5; after = none }

abbrev calls : Generation fixed
calls = record {
  Request = Unit {0};
  Response = Unit {0};
  generate = λ p q s. (ok tt, s);
  record_generation = λ p. ok tt;
  file_count = λ r. 1;
}

abbrev registry_world : World (registry_of fixed calls (λ n. n) 0)
registry_world = record { registry = fixed_state; operations = []; sent = []; skipped = 0 }

walk-rows_example :
    walk
      (registry_of fixed calls (λ n. n) 0)
      (core true 10)
      caller
      everything
      (pos 1)
      (suc (length (rows_of fixed by_length fixed_table calls (λ n. n) 0 everything fixed_state)))
      none
      registry_world
    ≡ some (rows_of fixed by_length fixed_table calls (λ n. n) 0 everything fixed_state)
walk-rows_example =
    walk-rows fixed by_length fixed_table calls (λ n. n) 0 (core true 10) caller everything (pos 1)
      registry_world

validate_config-Inside_example :
    (program : Text) × (arguments : List Text) × (codes "/plugins/x" ∷ [] ≡ program ∷ arguments)
    × Inside (codes "/plugins") (clean program)
unfolding validate_config is_abs clean render join_parts parts run enter is_void back split
    split_from text_eq has_prefix
validate_config-Inside_example =
    validate_config-Inside json (codes "{") (codes "/plugins")
      (record { command = codes "/plugins/x" ∷ []; env = []; timeout = []; sha256 = codes "{" })
      refl refl refl

abbrev stored_state : State stored_rows
stored_state = record { rows = two; objects = codes "tgz"; disk = []; cache = none }

abbrev retag : UpdatePluginRequest
retag = record {
  group = codes "grpc";
  name = codes "bb";
  version = codes "v1.0";
  config = [];
  tags = codes "go" ∷ [];
  update_config = false;
  update_tags = true;
}

accepted :
    checked_config stored_rows (codes "grpc") (codes "a") (codes "v1.0") (codes "{") (codes "tgz")
    ≡ ok (codes "dtgz")
unfolding checked_config validate_config attach_archive_checksum config_with_checksum insert lookup
    is_abs clean render join_parts parts run enter is_void back split split_from text_eq has_prefix
accepted = refl

registered-Installs_example :
    ((contents : Text) × (stored_rows.digest contents ≡ stored_rows.digest (codes "tgz"))
      × ((fetch_and_unpack stored_rows
            (archive_key (codes "grpc") (codes "a") (codes "v1.0"))
            (codes "/plugins/grpc")
            (codes "dtgz")
            stored_state).1.disk
          ≡ contents ∷ []))
    ⊎ ((e : Error) × ((fetch_and_unpack stored_rows
            (archive_key (codes "grpc") (codes "a") (codes "v1.0"))
            (codes "/plugins/grpc")
            (codes "dtgz")
            stored_state).0
          ≡ err e)
        × OnlyStaged stored_rows stored_state
            (fetch_and_unpack stored_rows
              (archive_key (codes "grpc") (codes "a") (codes "v1.0"))
              (codes "/plugins/grpc")
              (codes "dtgz")
              stored_state).1.disk)
registered-Installs_example =
    registered-Installs stored_rows json_laws (codes "grpc") (codes "a") (codes "v1.0") (codes "{")
      (codes "dtgz") (codes "tgz") (codes "/plugins/grpc") (codes "tgz")
      ((codes "sha256", codes "{") ∷ [])
      (record { command = codes "/plugins/x" ∷ []; env = []; timeout = []; sha256 = codes "dtgz" })
      stored_state refl refl refl (λ k v at taken. sym (text_eq→eq (codes "sha256") k taken))
      (λ e. cc (e)) accepted refl
