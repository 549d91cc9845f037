-- ===== src/Tests/Partitions.antt =====
-- Partition maintenance over a catalogue that is a list of names.
use easyp_plugin_server.Common.{
  ◌+◌, ◌*◌, ◌≡◌, true, not, List, [], ◌∷◌, some, Text, codes, text_eq, keep, ok, arith,
}
use easyp_plugin_server.Audit.Partitions.{
  Database, partition_name, parse_partition_month, drop_expired_partitions,
}
use easyp_plugin_server.Audit.Partitions.Names.{parse_partition_month-partition_name}
use easyp_plugin_server.Common.{member}
use easyp_plugin_server.Audit.Partitions.Upcoming.{Creates}
use easyp_plugin_server.Audit.Partitions.Retention.{Catalogue, Ended, drop_expired_partitions_lem}

abbrev listed_names : Database
listed_names = record {
  State = List Text;
  Failure = Unit {0};
  acquire_lock = λ s. ok true;
  bound_drop_locks = λ s. ok s;
  list_partitions = λ s. ok s;
  create_partition = λ name lo hi s. ok (name ∷ s);
  drop_partition = λ name s. ok (keep (λ n. not (text_eq name n)) s);
}

listed_names_catalogue : Catalogue listed_names
listed_names_catalogue = record {
  partitions = λ s. s;
  locks = λ q. cc (q);
  listed = λ q. cc (q);
  dropped = λ q. cc (q);
}

abbrev two_months : List Text
two_months =
    codes "audit_log_y2023m12" ∷ codes "audit_log_y2024m01" ∷ codes "audit_log_default" ∷ []

drop_expired_partitions_lem_example :
    Ended listed_names_catalogue
      (2024 * 12)
      two_months
      (drop_expired_partitions listed_names (2024 * 12) two_months)
drop_expired_partitions_lem_example =
    drop_expired_partitions_lem listed_names_catalogue (2024 * 12) two_months

parse_partition_month-partition_name_example :
    parse_partition_month (partition_name (2024 * 12 + 6)) ≡ some (2024 * 12 + 6)
parse_partition_month-partition_name_example =
    parse_partition_month-partition_name (2024 * 12 + 6) (omega arith)

listed_names-Creates : Creates listed_names_catalogue
unfolding member listed_names_catalogue
listed_names-Creates = record { created = λ q x. cc (q) }
