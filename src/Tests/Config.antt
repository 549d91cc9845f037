-- ===== src/Tests/Config.antt =====
-- A configuration that is accepted, and distances of setting names.
use easyp_plugin_server.Common.{
  ◌≡◌, refl, true, false, [], some, codes, pos, ok, text_eq, trim_space, trim_left, trim_right,
  is_space, every, has_prefix, ◌∷◌,
}
use easyp_plugin_server.Auth.Tokens.{validate, validate_from}
use easyp_plugin_server.Config.Ports.{
  decimal_value, parse_uint16, parse_port, is_seen, validate_ports_from, fields_from, is_pair,
  has_pair, validate_dsn,
}
use easyp_plugin_server.Config.Validate.{
  Config, Parsers, validate_ports, validate_tls, trusted_proxy_prefixes, validate_worker_pool,
  validate_rate_limit, validate_audit, validate_auth, validate_license, validate_s3,
  validate_s3_completeness, validate_cache_size, validate_telemetry, validate_runtime_zeros,
  settings_checks, validate_settings,
}
use easyp_plugin_server.Config.Validate.Accepted.{Accepted, validate_settings-Accepted}
use easyp_plugin_server.Config.Diagnostics.{
  edit_distance, best_match, first_row, next_entries, next_row, rows_from, last_entry, normalise,
  same_spelling, nearest_from,
}
use easyp_plugin_server.Config.Diagnostics.Distance.{levenshtein, from_end, edit_distance_lem}

abbrev pub parsers : Parsers
parsers = record {
  is_prefix = λ t. true;
  url_host = λ t. some (codes "db");
  is_hex = λ t. true;
  is_level = λ t. true;
}

abbrev pub config : Config
config = record {
  server = record {
    grpc = codes "8080";
    metric = codes "8081";
    health = codes " 8082";
    mcp = codes "8083";
    cert_file = [];
    key_file = [];
    client_ca_file = [];
    trusted_proxies = codes " " ∷ codes "10.0.0.0/8" ∷ [];
    max_recv_msg_size = pos 64;
    max_send_msg_size = pos 64;
    max_concurrent_streams = pos 256;
    force_shutdown_after = pos 150;
  };
  postgres = codes "host=db";
  storage = record {
    plugins_dir = codes "/plugins";
    max_output_size = pos 64;
    cache_max_bytes = pos 0;
    bucket = [];
    endpoint = [];
    access_key_id = [];
    secret_access_key = [];
  };
  worker_pool = record {
    workers = pos 4;
    queue_size = pos 100;
    max_concurrent_generations = pos 16;
    generation_timeout = pos 120;
    shutdown_timeout = pos 30;
    max_retries = pos 3;
  };
  rate_limit = record { no_rate = false; burst = pos 20; cleanup_interval = pos 600 };
  audit = record {
    buffer_size = pos 1000;
    batch_size = pos 100;
    flush_interval = pos 1;
    max_save_retries = pos 3;
    flush_timeout = pos 5;
    retention_months = pos 12;
    pre_create_months = pos 3;
    partition_check_interval = pos 6;
    partition_op_timeout = pos 30;
  };
  write_tokens = [];
  public_keys = [];
  cache_ttl = pos 300;
  service_tier = codes "community";
  log_level = codes "info";
}

pub accepted : validate_settings parsers config ≡ ok tt
unfolding text_eq trim_space trim_left trim_right is_space every has_prefix validate validate_from
    decimal_value parse_uint16 parse_port is_seen validate_ports_from fields_from is_pair has_pair
    validate_dsn validate_ports validate_tls trusted_proxy_prefixes validate_worker_pool
    validate_rate_limit validate_audit validate_auth validate_license validate_s3
    validate_s3_completeness validate_cache_size validate_telemetry validate_runtime_zeros
    settings_checks validate_settings
accepted = refl

validate_settings-Accepted_example : Accepted config
validate_settings-Accepted_example = validate_settings-Accepted parsers config accepted

edit_distance_lem_example :
    edit_distance (codes "brust") (codes "burst")
    ≡ levenshtein (from_end (codes "brust") []) (from_end (codes "burst") [])
edit_distance_lem_example = edit_distance_lem (codes "brust") (codes "burst")

suggestion :
    best_match (codes "cachemaxbyte") (codes "burst" ∷ codes "cache_max_bytes" ∷ [])
    ≡ some (codes "cache_max_bytes")
unfolding best_match same_spelling nearest_from edit_distance first_row next_entries next_row
    rows_from last_entry normalise text_eq
suggestion = refl
