-- ===== src/Tests/Ceiling.antt =====
-- The licence's ceiling over a table in memory that holds one plugin or two.
use easyp_plugin_server.Common.{
  ◌+◌, ◌≡◌, ◌≤◌, ◌<◌, refl, ap, ◌∙◌, arith, Bool, true, false, List, [], ◌∷◌, codes, text_eq,
  length, map, none, ok, err, pos, is_ok, split, split_from, has_prefix, lookup, insert,
}
use easyp_plugin_server.Core.Domain.{CreatePluginRequest}
use easyp_plugin_server.Core.Names.{validate_group_name, validate_version, full_name}
use easyp_plugin_server.Core.Service.{World, create_plugin, max_plugins}
use easyp_plugin_server.Core.Service.Paging.{Ascending}
use easyp_plugin_server.Paths.{is_abs, clean, render, join_parts, parts, run, enter, is_void, back}
use easyp_plugin_server.Registry.Query.{Row, info, limit_of, satisfies}
use easyp_plugin_server.Registry.Config.{validate_config, config_with_checksum}
use easyp_plugin_server.Registry.Backend.{Backend, no_rows}
use easyp_plugin_server.Registry.Plugins.{list, create, checked_config, attach_archive_checksum}
use easyp_plugin_server.Registry.Plugins.Listed.{Table, Generation, registry_of}
use easyp_plugin_server.Registry.Plugins.Counted.{InsertedTable, create_plugin-within_ceiling}
use easyp_plugin_server.Tests.Memory.{backend, row, two, holds_all, answer, evaluate, keep-same}
use easyp_plugin_server.Tests.Service.{by_length, core, caller}

-- Whether the second plugin is there.
abbrev held : Bool → List Row
held false = row (codes "a") ∷ []
held true = two

abbrev growing : Backend
growing =
    record (backend {Rows = Bool} (λ q b. evaluate q (held b)) (λ q b. (err no_rows, b))
      (λ g n v b. (ok 0, b))) { insert_row = λ req b. (ok (row (codes "bb")), true) }

unfoldable growing_table : Table growing by_length
unfolding info
growing_table = record {
  table = held;
  ordered = λ b. elim b as (λ k. Ascending by_length (map info (held k))) [
    | true ↦ ((refl, tt), (tt, tt))
    | false ↦ (tt, tt)
  ];
  selects = λ q b test rows by bound limited. ap answer (
      ap (limit_of q.args q.limit) (
        keep-same (λ p. holds_all (satisfies by_length.key_lt q.args p q.clauses)) test (held b)
          (λ p. ap holds_all (bound p)))
      ∙ limited);
}

growing_inserts : InsertedTable growing by_length growing_table
unfolding growing_table
growing_inserts = record {
  inserts = λ req b. elim b as (λ k. 2 ≤ length (held k) + 1) [
    | true ↦ omega arith
    | false ↦ omega arith
  ];
}

abbrev calls : Generation growing
calls = record {
  Request = Unit {0};
  Response = Unit {0};
  generate = λ p q s. (ok tt, s);
  record_generation = λ p. ok tt;
  file_count = λ r. 1;
}

abbrev world : World (registry_of growing calls (λ n. n) 0)
world = record {
  registry = record { rows = false; objects = codes "tgz"; disk = []; cache = none };
  operations = [];
  sent = [];
  skipped = 0;
}

abbrev creation : CreatePluginRequest
creation = record {
  group = codes "grpc";
  name = codes "bb";
  version = codes "v1.0";
  config = codes "{";
  tags = [];
}

succeeds :
    is_ok
      (create_plugin (registry_of growing calls (λ n. n) 0) (core true 2) caller creation world).0
    ≡ true
unfolding create_plugin validate_group_name validate_version full_name checked_config
    validate_config attach_archive_checksum config_with_checksum insert lookup is_abs clean render
    join_parts parts run enter is_void back split split_from text_eq has_prefix create list
succeeds = refl

at_limit : max_plugins (core true 2) ≡ pos 2
unfolding max_plugins
at_limit = refl

create_plugin-within_ceiling_example :
    (length (growing_table.table world.registry.rows) < 2)
    × (length (
          growing_table.table
            (create_plugin
              (registry_of growing calls (λ n. n) 0)
              (core true 2)
              caller
              creation
              world).1.registry.rows)
        ≤ 2)
create_plugin-within_ceiling_example =
    create_plugin-within_ceiling growing by_length growing_table growing_inserts calls (λ n. n) 0
      (core true 2) caller 2 creation world at_limit succeeds
