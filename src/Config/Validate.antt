-- ===== src/Config/Validate.antt =====
-- internal/config/config.go and validate_more.go: Config.Validate, area by area.
pub mod Accepted
use easyp_plugin_server.Common.{
  ℕ, zero, suc, Bool, true, false, not, ◌&&◌, ◌||◌, List, [], ◌∷◌, Option, none, some, Text, codes,
  text_eq, every, ◌==◌, length, trim_space, ℤ, pos, less, not_positive, Result, ok, err, ◌>>◌,
  guard, if◌then◌else◌,
}
use easyp_plugin_server.Auth.Tokens.{WriteToken, validate}
use easyp_plugin_server.Config.Ports.{Refusal, validate_ports_from, validate_dsn}

-- Durations are nanoseconds.
pub record Server : Type 0 where
  pub grpc : Text
  pub metric : Text
  pub health : Text
  pub mcp : Text
  pub cert_file : Text
  pub key_file : Text
  pub client_ca_file : Text
  pub trusted_proxies : List Text
  pub max_recv_msg_size : ℤ
  pub max_send_msg_size : ℤ
  pub max_concurrent_streams : ℤ
  pub force_shutdown_after : ℤ

pub record Storage : Type 0 where
  pub plugins_dir : Text
  pub max_output_size : ℤ
  pub cache_max_bytes : ℤ
  pub bucket : Text
  pub endpoint : Text
  pub access_key_id : Text
  pub secret_access_key : Text

pub record WorkerPool : Type 0 where
  pub workers : ℤ
  pub queue_size : ℤ
  pub max_concurrent_generations : ℤ
  pub generation_timeout : ℤ
  pub shutdown_timeout : ℤ
  pub max_retries : ℤ

-- `no_rate` says that RequestsPerSecond, a floating-point number, is not above zero.
pub record RateLimit : Type 0 where
  pub no_rate : Bool
  pub burst : ℤ
  pub cleanup_interval : ℤ

pub record Audit : Type 0 where
  pub buffer_size : ℤ
  pub batch_size : ℤ
  pub flush_interval : ℤ
  pub max_save_retries : ℤ
  pub flush_timeout : ℤ
  pub retention_months : ℤ
  pub pre_create_months : ℤ
  pub partition_check_interval : ℤ
  pub partition_op_timeout : ℤ

pub record Config : Type 0 where
  pub server : Server
  pub postgres : Text
  pub storage : Storage
  pub worker_pool : WorkerPool
  pub rate_limit : RateLimit
  pub audit : Audit
  pub write_tokens : List WriteToken
  pub public_keys : List (Text × Text)
  pub cache_ttl : ℤ
  pub service_tier : Text
  pub log_level : Text

-- What Validate calls of other packages: netip.ParsePrefix, url.Parse, hex.DecodeString and the
-- levels of log/slog.
pub record Parsers : Type 0 where
  pub is_prefix : Text → Bool
  pub url_host : Text → Option Text
  pub is_hex : Text → Bool
  pub is_level : Text → Bool

abbrev pub Check : Type 0
Check = Result Refusal (Unit {0})

-- Checks one after the other; the first that refuses ends them.
abbrev pub all_pass : List Check → Check
all_pass [] = ok tt
all_pass (check ∷ checks) = check >> all_pass checks

abbrev pub positive : ℤ → Text → Check
positive z name = guard (not (not_positive z)) name

abbrev pub not_negative : ℤ → Text → Check
not_negative z name = guard (not (less z (pos 0))) name

abbrev pub given : Text → Bool
given s = not (text_eq s [])

abbrev pub named_ports : Server → List (Text × Text)
named_ports s =
    (codes "server.port.grpc", s.grpc)
    ∷ (codes "server.port.metric", s.metric)
    ∷ (codes "server.port.health", s.health)
    ∷ (codes "server.port.mcp", s.mcp)
    ∷ []

unfoldable pub validate_ports : Server → Check
unfolding validate_ports_from
validate_ports s = validate_ports_from [] (named_ports s)

-- TLSConfig.Enabled
abbrev pub tls_enabled : Server → Bool
tls_enabled s = given s.cert_file && given s.key_file

unfoldable pub validate_tls : Server → Check
unfolding text_eq
validate_tls s = all_pass (
    guard (if given s.cert_file then given s.key_file else not (given s.key_file))
      (codes "server.tls.cert_file")
    ∷ guard (not (given s.client_ca_file && not (tls_enabled s)))
        (codes "server.tls.client_ca_file")
    ∷ [])

-- TrustedProxyPrefixes, the errors
unfoldable pub trusted_proxy_prefixes : (Text → Bool) → List Text → Check
unfolding trim_space text_eq
trusted_proxy_prefixes is_prefix [] = ok tt
trusted_proxy_prefixes is_prefix (raw ∷ proxies) =
    let rest = trusted_proxy_prefixes is_prefix proxies in
    if given (trim_space raw) && not (is_prefix (trim_space raw))
    then err (codes "server.trusted_proxies")
    else rest

abbrev pub worker_pool_checks : WorkerPool → List Check
worker_pool_checks p =
    positive p.workers (codes "worker_pool.workers")
    ∷ positive p.queue_size (codes "worker_pool.queue_size")
    ∷ positive p.max_concurrent_generations (codes "worker_pool.max_concurrent_generations")
    ∷ positive p.generation_timeout (codes "worker_pool.generation_timeout")
    ∷ positive p.shutdown_timeout (codes "worker_pool.shutdown_timeout")
    ∷ not_negative p.max_retries (codes "worker_pool.max_retries")
    ∷ []

unfoldable pub validate_worker_pool : WorkerPool → Check
validate_worker_pool p = all_pass (worker_pool_checks p)

abbrev pub rate_limit_checks : RateLimit → List Check
rate_limit_checks r =
    guard (not r.no_rate) (codes "rate_limit.requests_per_second")
    ∷ positive r.burst (codes "rate_limit.burst")
    ∷ positive r.cleanup_interval (codes "rate_limit.cleanup_interval")
    ∷ []

unfoldable pub validate_rate_limit : RateLimit → Check
validate_rate_limit r = all_pass (rate_limit_checks r)

-- AuditConfig.RetentionEnabled
abbrev pub retention_enabled : Audit → Bool
retention_enabled a = not (not_positive a.retention_months)

abbrev pub audit_checks : Audit → List Check
audit_checks a =
    positive a.buffer_size (codes "audit.buffer_size")
    ∷ positive a.batch_size (codes "audit.batch_size")
    ∷ positive a.flush_interval (codes "audit.flush_interval")
    ∷ not_negative a.max_save_retries (codes "audit.max_save_retries")
    ∷ not_negative a.retention_months (codes "audit.retention_months")
    ∷ not_negative a.pre_create_months (codes "audit.pre_create_months")
    ∷ guard (not (retention_enabled a && less a.retention_months a.pre_create_months))
        (codes "audit.pre_create_months")
    ∷ []

unfoldable pub validate_audit : Audit → Check
validate_audit a = all_pass (audit_checks a)

-- AuthConfig.Validate, its error as the section's name
unfoldable pub validate_auth : List WriteToken → Check
unfolding validate
validate_auth tokens = elim (validate tokens) [ err e ↦ err (codes "auth") | ok _ ↦ ok tt ]

unfoldable pub validate_hex_key : (Text → Bool) → Text → Check
unfolding trim_space
validate_hex_key is_hex hex_key = all_pass (
    guard (length (trim_space hex_key) == 64) (codes "license.public_keys")
    ∷ guard (is_hex (trim_space hex_key)) (codes "license.public_keys")
    ∷ [])

-- LicenseConfig.Validate; the order of the list stands for the one that Go picks.
unfoldable pub validate_license : (Text → Bool) → List (Text × Text) → Check
unfolding text_eq every validate_hex_key
validate_license is_hex [] = ok tt
validate_license is_hex ((kid, hex_key) ∷ keys) = all_pass (
    guard (given kid) (codes "license.public_keys")
    ∷ guard (every (λ c. not (c == b',') && not (c == b':')) kid) (codes "license.public_keys")
    ∷ validate_hex_key is_hex hex_key
    ∷ validate_license is_hex keys
    ∷ [])

unfoldable pub validate_s3 : Storage → Check
unfolding text_eq
validate_s3 r =
    if given r.bucket
    then all_pass (
        guard (given r.plugins_dir) (codes "registry.plugins_dir")
        ∷ guard
            (if given r.access_key_id
              then given r.secret_access_key
              else not (given r.secret_access_key))
            (codes "registry.s3.access_key_id")
        ∷ [])
    else ok tt

unfoldable pub validate_s3_completeness : Storage → Check
unfolding text_eq
validate_s3_completeness r =
    if given r.bucket
    then ok tt
    else all_pass (
        guard (not (given r.endpoint)) (codes "registry.s3.endpoint")
        ∷ guard (not (given r.access_key_id)) (codes "registry.s3.access_key_id")
        ∷ guard (not (given r.secret_access_key)) (codes "registry.s3.secret_access_key")
        ∷ [])

unfoldable pub validate_cache_size : Storage → Check
validate_cache_size r = all_pass (
    not_negative r.cache_max_bytes (codes "registry.cache_max_bytes")
    ∷ guard (not (not (not_positive r.cache_max_bytes) && less r.cache_max_bytes r.max_output_size))
        (codes "registry.cache_max_bytes")
    ∷ [])

unfoldable pub validate_telemetry : Text → Check
unfolding text_eq
validate_telemetry tier =
    guard (text_eq tier [] || text_eq tier (codes "community") || text_eq tier (codes "enterprise"))
      (codes "telemetry.service_tier")

abbrev pub runtime_checks : Config → List Check
runtime_checks c =
    positive c.cache_ttl (codes "license.cache_ttl")
    ∷ positive c.server.max_recv_msg_size (codes "server.max_recv_msg_size")
    ∷ positive c.server.max_concurrent_streams (codes "server.max_concurrent_streams")
    ∷ positive c.audit.flush_timeout (codes "audit.flush_timeout")
    ∷ positive c.audit.partition_check_interval (codes "audit.partition_check_interval")
    ∷ positive c.audit.partition_op_timeout (codes "audit.partition_op_timeout")
    ∷ []

unfoldable pub validate_runtime_zeros : Config → Check
validate_runtime_zeros c = all_pass (runtime_checks c)

-- Config.Validate
unfoldable pub settings_checks : Parsers → Config → List Check
unfolding text_eq validate_ports validate_tls trusted_proxy_prefixes validate_dsn
    validate_worker_pool validate_rate_limit validate_audit validate_auth validate_license
    validate_s3 validate_s3_completeness validate_cache_size validate_telemetry
    validate_runtime_zeros
settings_checks parsers c =
    guard (given c.server.grpc) (codes "server.port.grpc")
    ∷ guard (given c.server.metric) (codes "server.port.metric")
    ∷ guard (given c.server.health) (codes "server.port.health")
    ∷ guard (given c.server.mcp) (codes "server.port.mcp")
    ∷ validate_ports c.server
    ∷ validate_tls c.server
    ∷ trusted_proxy_prefixes parsers.is_prefix c.server.trusted_proxies
    ∷ positive c.storage.max_output_size (codes "registry.max_output_size")
    ∷ guard (not (less c.server.max_send_msg_size c.storage.max_output_size))
        (codes "server.max_send_msg_size")
    ∷ guard (given c.postgres) (codes "db.postgres")
    ∷ validate_dsn parsers.url_host c.postgres
    ∷ validate_worker_pool c.worker_pool
    ∷ guard (less c.worker_pool.generation_timeout c.server.force_shutdown_after)
        (codes "server.force_shutdown_after")
    ∷ validate_rate_limit c.rate_limit
    ∷ validate_audit c.audit
    ∷ validate_auth c.write_tokens
    ∷ validate_license parsers.is_hex c.public_keys
    ∷ validate_s3 c.storage
    ∷ validate_s3_completeness c.storage
    ∷ validate_cache_size c.storage
    ∷ validate_telemetry c.service_tier
    ∷ guard (parsers.is_level c.log_level) (codes "log.level")
    ∷ validate_runtime_zeros c
    ∷ []

unfoldable pub validate_settings : Parsers → Config → Check
unfolding settings_checks
validate_settings parsers c = all_pass (settings_checks parsers c)
